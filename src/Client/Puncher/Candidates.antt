-- ===== src/Client/Puncher/Candidates.antt =====
-- The candidates of a hole punch.
use dpmp.Prelude.{
  ◌≡◌, refl, true, false, ◌&&◌, Option, none, some, List, [], ◌∷◌, ◌++◌, if◌then◌else◌, Text,
  text_eq_iff, text_key, has_char, nonempty, ℤ, pos, leb_ℤ, ◌+ℤ◌, arith, Bool-cases, inl, inr,
}
use dpmp.Dict.{get}
use dpmp.Server.State.{PeerInfo}
use dpmp.Client.Address.{parse_host_port}
use dpmp.Client.Puncher.{
  Puncher, Target, seen, add, add_lan, add_predicted, predict, add_public, build_candidates,
}

-- No candidate stands twice.
abbrev pub NoRepeat : List Target → Type 0
NoRepeat [] = Unit
NoRepeat (t ∷ ts) = (seen t ts ≡ false) × NoRepeat ts

seen-append :
    (key t : Target) (ts : List Target)
    → seen key (ts ++ t ∷ []) ≡ (if seen key ts then true else seen key (t ∷ []))
unfolding seen
seen-append key t [] = refl
seen-append key t (u ∷ ts) = let rest = seen-append key t ts in ground (arith, rest)

seen_sym : (t u : Target) → seen t (u ∷ []) ≡ seen u (t ∷ [])
unfolding seen
seen_sym t u = ground (arith, text_eq_iff t.0 u.0, text_eq_iff u.0 t.0)

append-NoRepeat :
    (t : Target) (ts : List Target) → seen t ts ≡ false → NoRepeat ts → NoRepeat (ts ++ t ∷ [])
unfolding seen
append-NoRepeat t [] h n = (refl, tt)
append-NoRepeat t (u ∷ ts) h n =
    let a = seen-append u t ts in
    let b = seen_sym t u in
    let rest = append-NoRepeat t ts in (ground (arith, a, b), rest (ground arith) n.1)

add-NoRepeat : (t : Target) (ts : List Target) → NoRepeat ts → NoRepeat (add t ts)
unfolding add
add-NoRepeat t ts n = elim (Bool-cases (seen t ts)) [
  | inl e ↦ rw e n
  | inr e ↦ rw e (append-NoRepeat t ts e n)
]

lan-NoRepeat :
    (port : ℤ) (ips : List Text) (ts : List Target) → NoRepeat ts → NoRepeat (add_lan port ips ts)
unfolding add_lan
lan-NoRepeat port [] ts n = n
lan-NoRepeat port (ip ∷ ips) ts n = elim (Bool-cases (nonempty ip)) [
  | inl e ↦ rw e (lan-NoRepeat port ips (add (ip, port) ts) (add-NoRepeat (ip, port) ts n))
  | inr e ↦ rw e (lan-NoRepeat port ips ts n)
]

predicted-NoRepeat :
    (ip : Text) (port : ℤ) (dps : List ℤ) (ts : List Target)
    → NoRepeat ts
    → NoRepeat (add_predicted ip port dps ts)
unfolding add_predicted
predicted-NoRepeat ip port [] ts n = n
predicted-NoRepeat ip port (dp ∷ dps) ts n =
    let pp = port +ℤ dp in
    elim (Bool-cases (leb_ℤ (pos 1) pp && leb_ℤ pp (pos 65535))) [
      | inl e ↦ rw e (predicted-NoRepeat ip port dps (add (ip, pp) ts) (add-NoRepeat (ip, pp) ts n))
      | inr e ↦ rw e (predicted-NoRepeat ip port dps ts n)
    ]

predict-NoRepeat :
    (range : List ℤ) (hint : Option Target) (ts : List Target)
    → NoRepeat ts
    → NoRepeat (predict range hint ts)
predict-NoRepeat range none ts n = n
predict-NoRepeat range (some (ip, port)) ts n = elim (Bool-cases (has_char b':' ip)) [
  | inl e ↦ rw e n
  | inr e ↦ rw e (predicted-NoRepeat ip port range ts n)
]

public-NoRepeat :
    (s : Puncher) (peer_id : Text) (t : Option Target) (ts : List Target)
    → NoRepeat ts
    → NoRepeat (add_public s peer_id t ts)
public-NoRepeat s peer_id (some t) ts n = add-NoRepeat t ts n
public-NoRepeat s peer_id none ts n =
    predict-NoRepeat s.punch_port_predict_range (get peer_id s.udp_hint) ts n

-- No address and port stands twice among the candidates for a peer.
pub build_candidates-NoRepeat : (peer : PeerInfo) (s : Puncher) → NoRepeat (build_candidates peer s)
unfolding build_candidates
build_candidates-NoRepeat peer s =
    public-NoRepeat s peer.id (parse_host_port peer.pub_tcp) (add_lan (pos peer.tcp) peer.lan [])
      (lan-NoRepeat (pos peer.tcp) peer.lan [] tt)
