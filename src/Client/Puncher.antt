-- ===== src/Client/Puncher.antt =====
-- dpmp/link/puncher.py: the candidates of a hole punch, the time it starts, and its time limit. The
-- connection itself (_try_connect, and the threads that race for it) is outside: `connect` says which of the
-- candidates is reached.
pub mod Candidates
pub mod Race
use dpmp.Prelude.{
  ℕ, zero, suc, ◌*◌, Bool, true, false, ◌&&◌, Option, none, some, List, [], ◌∷◌, ◌++◌,
  if◌then◌else◌, eqb, min, max, Text, text_eq, text_key, has_char, nonempty, ℤ, pos, negsuc, ◌+ℤ◌,
  ◌-ℤ◌, leb_ℤ,
}
use dpmp.Dict.{Dict, get, put}
use dpmp.Server.State.{PeerInfo}
use dpmp.Client.Address.{parse_host_port}

pub record Puncher : Type 0 where
  pub udp_hint : Dict Text (Text × ℤ)
  pub connect_timeout_ms : ℕ
  pub clock_offset_ms : ℤ
  pub punch_port_predict_range : List ℤ

unfoldable pub set_clock_offset : Option ℤ → Puncher → Puncher
set_clock_offset none s = record s { clock_offset_ms = pos 0 }
set_clock_offset (some o) s = record s { clock_offset_ms = o }

-- Four times the round trip, in milliseconds, between three and eight seconds.
unfoldable pub set_adaptive_timeout : ℤ → Puncher → Puncher
set_adaptive_timeout (pos zero) s = s
set_adaptive_timeout (pos (suc n)) s = record s {
  connect_timeout_ms = max 3000 (min 8000 (suc n * 4));
}
set_adaptive_timeout (negsuc n) s = s

unfoldable pub set_udp_hint : Text → Text → ℤ → Puncher → Puncher
set_udp_hint peer_id ip port s = record s { udp_hint = put peer_id (ip, port) s.udp_hint }

abbrev pub Target : Type 0
Target = Text × ℤ

abbrev pub eqb_ℤ : ℤ → ℤ → Bool
eqb_ℤ x y = leb_ℤ x y && leb_ℤ y x

-- `key in seen`: `seen` holds what `result` holds
unfoldable pub seen : Target → List Target → Bool
seen key [] = false
seen key (t ∷ ts) = if text_eq t.0 key.0 && eqb_ℤ t.1 key.1 then true else seen key ts

unfoldable pub add : Target → List Target → List Target
unfolding seen
add key result = if seen key result then result else result ++ key ∷ []

unfoldable pub add_lan : ℤ → List Text → List Target → List Target
unfolding add
add_lan port [] result = result
add_lan port (ip ∷ ips) result =
    add_lan port ips (if nonempty ip then add (ip, port) result else result)

-- `pp <= 0 or pp > 65535` is passed over
unfoldable pub add_predicted : Text → ℤ → List ℤ → List Target → List Target
unfolding add
add_predicted ip port [] result = result
add_predicted ip port (dp ∷ dps) result =
    let pp = port +ℤ dp in
    add_predicted ip port dps
      (if leb_ℤ (pos 1) pp && leb_ℤ pp (pos 65535) then add (ip, pp) result else result)

abbrev pub predict : List ℤ → Option Target → List Target → List Target
predict range none result = result
predict range (some (ip, port)) result =
    if has_char b':' ip then result else add_predicted ip port range result

abbrev pub add_public : Puncher → Text → Option Target → List Target → List Target
add_public s peer_id (some t) result = add t result
add_public s peer_id none result =
    predict s.punch_port_predict_range (get peer_id s.udp_hint) result

-- _build_candidates
unfoldable pub build_candidates : PeerInfo → Puncher → List Target
unfolding add_lan add add_predicted
build_candidates peer s =
    add_public s peer.id (parse_host_port peer.pub_tcp) (add_lan (pos peer.tcp) peer.lan [])

-- _wait_until: how long it sleeps, in milliseconds of its clock
unfoldable pub wait_until : ℕ → ℕ → Puncher → ℕ
wait_until zero now s = 0
wait_until (suc at) now s = elim ((pos (suc at) -ℤ s.clock_offset_ms) -ℤ pos now) [
  | pos remain ↦ min remain 2000
  | negsuc n ↦ 0
]

-- punch: the candidate that was reached, and the sleep before the attempts
unfoldable pub punch :
    (List Target → Option Target) → PeerInfo → ℕ → ℕ → Puncher → Option Target × ℕ
unfolding build_candidates wait_until
punch connect peer at now s = if eqb peer.tcp 0 then (none, 0) else elim (build_candidates peer s) [
  | [] ↦ (none, 0)
  | c ∷ cs ↦ (connect (c ∷ cs), wait_until at now s)
]
