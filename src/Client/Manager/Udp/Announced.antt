-- ===== src/Client/Manager/Udp/Announced.antt =====
-- TCP_READY, which goes out when both the mapping and the channel are there.
use dpmp.Prelude.{
  ℕ, ◌+◌, ◌≡◌, refl, Bool, true, false, ◌&&◌, List, [], ◌∷◌, ◌++◌, if◌then◌else◌, Text, text_eq,
  text_eq_iff, text_key, nonempty, arith,
}
use dpmp.Dict.{Dict, has, put}
use dpmp.Server.Format.{Addr}
use dpmp.Client.Manager.State.{
  Manager, UdpConn, Action, sends_tcp_ready, starts_sync, sets_udp_hint, registers, udp_ready,
}
use dpmp.Prelude.{text_lt}
use dpmp.Client.Manager.Udp.{on_udp_hole_ready, mark_mapping_ready, broadcast_tcp_ready, only_if}

abbrev pub announces : Text → Action → Bool
announces p (sends_tcp_ready q) = text_eq q p
announces p _ = false

-- How often TCP_READY goes to `p`.
pub announced : Text → List Action → ℕ
announced p [] = 0
announced p (a ∷ acts) = if announces p a then 1 + announced p acts else announced p acts

announced-append :
    (p : Text) (xs ys : List Action) → announced p (xs ++ ys) ≡ announced p xs + announced p ys
unfolding announced
announced-append p [] ys = omega arith
announced-append p (a ∷ xs) ys = let rest = announced-append p xs ys in ground (arith, rest)

none_to :
    (p : Text) (us : Dict Text UdpConn)
    → has p us ≡ false
    → announced p (broadcast_tcp_ready us) ≡ 0
unfolding announced broadcast_tcp_ready has
none_to p [] h = refl
none_to p ((q, u) ∷ us) h = let rest = none_to p us in ground (arith, rest)

once_to :
    (p : Text) (u : UdpConn) (us : Dict Text UdpConn)
    → has p us ≡ false
    → announced p (broadcast_tcp_ready (put p u us)) ≡ 1
unfolding announced broadcast_tcp_ready has put
once_to p u [] h = let same = text_eq_iff p p in ground (arith, same)
once_to p u ((q, v) ∷ us) h = let rest = once_to p u us in ground (arith, rest)

sync_silent : (p : Text) (b : Bool) → announced p (only_if b (starts_sync p)) ≡ 0
unfolding announced
sync_silent p true = refl
sync_silent p false = refl

hole_first :
    (p : Text) (b : Bool) (sync later : List Action)
    → b ≡ false
    → announced p sync ≡ 0
    → announced p later ≡ 1
    → announced p ((only_if b (sends_tcp_ready p) ++ sync) ++ later) ≡ 1
hole_first p false sync later e h k =
    let both = announced-append p sync later in ground (arith, both, h, k)
hole_first p true sync later e h k = ground arith

mapping_first :
    (p : Text) (addr : Addr) (chan : ℕ) (sync before : List Action)
    → announced p sync ≡ 0
    → announced p before ≡ 0
    → announced p (
        before
        ++ (sets_udp_hint p addr
            ∷ registers addr chan
            ∷ udp_ready p chan
            ∷ sends_tcp_ready p
            ∷ sync))
      ≡ 1
unfolding announced
mapping_first p addr chan sync before h k =
    let both =
      announced-append p before (
        sets_udp_hint p addr ∷ registers addr chan ∷ udp_ready p chan ∷ sends_tcp_ready p ∷ sync) in
    ground (arith, both, h, k, text_eq_iff p p)

-- Whether the hole to a new peer gets ready before the mapping or after it, the manager comes to the
-- same state, and TCP_READY goes to the peer once.
pub announced_once :
    (p : Text) (addr : Addr) (chan now : ℕ) (s : Manager)
    → has p s.udp_conns ≡ false
    → s.mapping_ready ≡ false
    → ((mark_mapping_ready (on_udp_hole_ready p addr chan now s).0).0
        ≡ (on_udp_hole_ready p addr chan now (mark_mapping_ready s).0).0)
      × (announced p (
            (on_udp_hole_ready p addr chan now s).1
            ++ (mark_mapping_ready (on_udp_hole_ready p addr chan now s).0).1)
          ≡ 1)
      × (announced p (
            (mark_mapping_ready s).1
            ++ (on_udp_hole_ready p addr chan now (mark_mapping_ready s).0).1)
          ≡ 1)
unfolding on_udp_hole_ready mark_mapping_ready announced
announced_once p addr chan now s new early =
    let quiet = sync_silent p (nonempty s.my_id && text_lt s.my_id p) in
    let none_ = none_to p s.udp_conns new in
    let one = once_to p (record { chan = chan; peer = addr; closed = false }) s.udp_conns new in
    let sync = only_if (nonempty s.my_id && text_lt s.my_id p) (starts_sync p) in
    rw new (
      refl,
      hole_first p s.mapping_ready sync _ early quiet one,
      mapping_first p addr chan sync (broadcast_tcp_ready s.udp_conns) quiet none_,
    )
