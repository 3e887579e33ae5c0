-- ===== src/Client/Holes/Probing.antt =====
-- The thread that _start_udp_hole starts: its probes, and its end.
pub mod Overlap
use dpmp.Prelude.{ℕ, zero, suc, Bool, ◌&&◌, List, [], ◌∷◌, if◌then◌else◌, ltb, Text}
use dpmp.Client.Holes.{Link, end_udp_hole}

-- A turn of the loop: the clock, in milliseconds, whether the client runs, and whether `sendto` works.
pub record Turn : Type 0 where
  pub now : ℕ
  pub running : Bool
  pub sends : Bool

-- How many probes are sent before the end.
unfoldable pub probe : ℕ → List Turn → ℕ
probe t_end [] = zero
probe t_end (t ∷ ts) =
    let later = probe t_end ts in
    if ltb t.now t_end && t.running && t.sends then suc later else zero

-- _probe: the probes, and the link after it
unfoldable pub udp_hole_thread : Text → Text → ℕ → List Turn → Link → ℕ × Link
unfolding probe end_udp_hole
udp_hole_thread key p t_end ts s = (probe t_end ts, end_udp_hole key p s)
