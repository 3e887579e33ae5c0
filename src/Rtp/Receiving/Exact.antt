-- ===== src/Rtp/Receiving/Exact.antt =====
-- recv_exact: a read of exactly so many bytes, which may wait in between with some of them in hand.
use dpmp.Prelude.{
  ℕ, zero, suc, ◌+◌, ◌-◌, ◌≤◌, ◌<◌, ◌≡◌, Option, none, some, [], ◌∷◌, ◌++◌, if◌then◌else◌, ltb, leb,
  length,
}
use dpmp.Codec.BigEndian.{Bytes}
use dpmp.Rtp.State.{Rtp}
use dpmp.Rtp.Receiving.{Outcome, waits, timed_out, connection_error, got, recv}

-- What a read comes to: it has all the bytes, waits for more with some in hand, or raises because it is
-- late or the peer is closed. Where it raises, the bytes in hand are gone with its frame.
pub data Exact : Type 0 where
  complete waiting : Bytes → Exact
  late closed : Exact

-- The deadline of a `recv` that starts at `now`; a timeout of zero is none.
abbrev pub fresh_deadline : ℕ → Option ℕ → Option ℕ
fresh_deadline now none = none
fresh_deadline now (some t) = if ltb 0 t then some (now + t) else none

-- What one round makes of a `recv`: the read ends, or it goes on with more in hand.
pub data Round : Type 0 where
  ends : Exact → Round
  goes_on : Bytes → Round

abbrev pub after_recv : Bytes → Outcome → Round
after_recv buf (got []) = ends closed
after_recv buf (got (b ∷ bs)) = goes_on (buf ++ (b ∷ bs))
after_recv buf waits = ends (waiting buf)
after_recv buf timed_out = ends late
after_recv buf connection_error = ends closed

abbrev pub held : Bytes → Round → Bytes
held buf (ends e) = buf
held buf (goes_on more) = more

abbrev pub finish : Round → Rtp → Exact × Rtp → Exact × Rtp
finish (ends e) s later = (e, s)
finish (goes_on buf) s later = later

-- The loop from `now` on, at its start or when the `recv` in it is woken, whose deadline is given. A
-- later `recv` has its own. The fuel is one more than the bytes that are missing.
unfoldable pub recv_exact_loop : ℕ → ℕ → Option ℕ → ℕ → Bytes → Rtp → Exact × Rtp
recv_exact_loop zero now deadline n buf s = (waiting buf, s)
recv_exact_loop (suc fuel) now deadline n buf s =
    let (outcome, s') = recv now deadline (n - length buf) s in
    let r = after_recv buf outcome in
    let later = recv_exact_loop fuel now (fresh_deadline now s.timeout) n (held buf r) s' in
    if leb n (length buf) then (complete buf, s) else finish r s' later

-- recv_exact, at its start or woken with `buf` in hand
unfoldable pub recv_exact : ℕ → Option ℕ → ℕ → Bytes → Rtp → Exact × Rtp
unfolding recv_exact_loop recv
recv_exact now deadline n buf s = recv_exact_loop (n - length buf + 1) now deadline n buf s

-- The outcome of a `recv` of `n` bytes, and what it takes.
abbrev taken_by : Outcome → Bytes
taken_by (got b) = b
taken_by _ = []

-- With `least` bytes in hand at the start: what is given or in hand and what the socket still holds are
-- the whole, and a read is complete with `n` bytes; one that raises has taken fewer, the first ones among
-- them, and they are lost.
abbrev pub IsExact : ℕ → ℕ → Bytes → Exact × Rtp → Type 0
IsExact least n whole (complete b, s) = (b ++ s.receiving.recv_buf ≡ whole) × (length b ≡ n)
IsExact least n whole (waiting b, s) = (b ++ s.receiving.recv_buf ≡ whole) × (length b < n)
IsExact least n whole (late, s) =
    (lost : Bytes) × (lost ++ s.receiving.recv_buf ≡ whole)
    × (length lost < n)
    × (least ≤ length lost)
IsExact least n whole (closed, s) =
    (lost : Bytes) × (lost ++ s.receiving.recv_buf ≡ whole)
    × (length lost < n)
    × (least ≤ length lost)
