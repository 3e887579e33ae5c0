-- ===== src/Client/Manager/Traces/Leaver.antt =====
-- What the manager keeps of a peer that has left.
use dpmp.Prelude.{
  ℕ, ◌≡◌, refl, ◌∙◌, Bool, false, none, some, List, [], ◌∷◌, Text, text_key, text_eq_iff, All,
  either,
}
use dpmp.Dict.{Dict, get, remove, keys}
use dpmp.Dict.Laws.{Distinct, get-remove, get-put, absent-cons, remove-absent}
use dpmp.Server.Format.{Addr}
use dpmp.Path.Keepalive.{tcp}
use dpmp.Client.Manager.State.{Action, Conn, Manager, UdpConn}
use dpmp.Client.Manager.Events.{
  on_member_leave, on_path_failure, fail_conn, on_peer_punch_fail, on_network_changed,
  handle_udp_peer_dead,
}
use dpmp.Client.Manager.Sockets.{
  settle, find_inbound, on_inbound, install_socket, outbound_is_preferred, connected_to,
}
use dpmp.Client.Manager.Punching.{punch_enter, punch_leave, punch_give_up}
use dpmp.Client.Manager.Udp.{mark_mapping_ready}
use dpmp.Client.Manager.Keepalive.{Peek, drop_dead_tcp, drop_dead_udp, drop_dead, stop}
use dpmp.Client.Manager.Traces.{
  Event, members_join, member_leaves, punch_go, peer_tcp_ready, peer_punch_fail, inbound, installs,
  punch_enters, punch_leaves, punch_gives_up, hole_ready, mapping_is_ready, udp_peer_dies,
  dead_dropped, network_changes, stops, step, run,
}
use dpmp.Client.Manager.Traces.Forgetting.{
  brings, Forgotten, IsKeyed, path-Forgotten, conn-Forgotten, fail_conn-Forgotten,
  rebuild-Forgotten, rebuild_all-Forgotten, udp_dead-Forgotten, join-Forgotten,
}
use dpmp.Client.Manager.Traces.Strangers.{
  install-Forgotten, inbound-Forgotten, found-Apart, failed-Forgotten, tcp_ready-Forgotten,
  punch_go-Forgotten, hole-Forgotten,
}

module _ (p : Text) where
  abbrev ForgottenIn {ℓ} : {A : Type ℓ} → Manager × A → Type 0
  ForgottenIn r = Forgotten p r.0

  drop_tcp-Forgotten :
      (peek : ℕ → Peek) (now : ℕ) (items : Dict Text Conn) (s : Manager)
      → get p items ≡ none
      → Forgotten p s
      → Forgotten p (drop_dead_tcp peek now items s).0
  unfolding drop_dead_tcp on_path_failure
  drop_tcp-Forgotten peek now [] s a h = h
  drop_tcp-Forgotten peek now ((q, c) ∷ items) s a h =
      let (first, later) = absent-cons q p c items a in
      let s1 = fail_conn q (some c) s in
      let failed = conn-Forgotten p q _ s first h in
      let dropped =
        rebuild-Forgotten p q now _
          (path-Forgotten p q tcp (get q s1.path_schedulers) s1 refl failed) in
      drop_tcp-Forgotten peek now items _ later (either (Forgotten p) _ _ _ dropped h)

  drop_udp-Forgotten :
      (is_dead : UdpConn → Bool) (now : ℕ) (items : Dict Text UdpConn) (s : Manager)
      → Forgotten p s
      → Forgotten p (drop_dead_udp is_dead now items s).0
  unfolding drop_dead_udp
  drop_udp-Forgotten is_dead now [] s h = h
  drop_udp-Forgotten is_dead now ((q, u) ∷ items) s h = drop_udp-Forgotten is_dead now items _ (
      either (Forgotten p) (is_dead u) (handle_udp_peer_dead q now s).0 s
        (udp_dead-Forgotten p q now s h) h)

  network-Forgotten :
      (now : ℕ) (s : Manager) → Forgotten p s → Forgotten p (on_network_changed now s).0
  unfolding on_network_changed get
  network-Forgotten now s h =
      either (ForgottenIn {A = List Action}) _ _ _ h
        (rebuild_all-Forgotten p (keys s.members) now _ (h.0, refl, refl, refl))

  step-Forgotten :
      (e : Event) (s : Manager) → brings p e ≡ false → Forgotten p s → Forgotten p (step e s)
  unfolding on_member_leave on_peer_punch_fail on_path_failure on_inbound punch_leave punch_give_up
      mark_mapping_ready drop_dead stop punch_enter get
  step-Forgotten (members_join ms) s n h = join-Forgotten p ms s n h
  step-Forgotten (member_leaves q) s n h = (
    remove-absent q p s.members h.0,
    remove-absent q p s.connections h.1,
    remove-absent q p s.udp_conns h.2,
    remove-absent q p s.path_schedulers h.3,
  )
  step-Forgotten (punch_go peer at) s n h = punch_go-Forgotten p peer at s n h
  step-Forgotten (peer_tcp_ready q) s n h = tcp_ready-Forgotten p q s h
  step-Forgotten (peer_punch_fail q) s n h =
      let s1 = fail_conn q (get q s.connections) s in
      path-Forgotten p q tcp (get q s1.path_schedulers) s1 refl
        (fail_conn-Forgotten p q (get q s.connections) s refl h)
  step-Forgotten (inbound sock addr) s n h =
      inbound-Forgotten p (find_inbound addr s.members) sock addr s
        (found-Apart p addr s.members h.0) h
  step-Forgotten (installs q sock addr now) s n h = install-Forgotten p q sock addr now s n h
  step-Forgotten (punch_enters q) s n h = either (ForgottenIn {A = Bool}) _ _ _ h h
  step-Forgotten (punch_leaves q) s n h = h
  step-Forgotten (punch_gives_up q) s n h = failed-Forgotten p q (get q s.connections) s refl h
  step-Forgotten (hole_ready q addr chan now) s n h = hole-Forgotten p q addr chan now s n h
  step-Forgotten mapping_is_ready s n h = h
  step-Forgotten (udp_peer_dies q now) s n h = udp_dead-Forgotten p q now s h
  step-Forgotten (dead_dropped peek is_dead now) s n h =
      let s1 = (drop_dead_tcp peek now s.connections s).0 in
      drop_udp-Forgotten is_dead now s1.udp_conns s1
        (drop_tcp-Forgotten peek now s.connections s h.1 h)
  step-Forgotten (network_changes now) s n h = network-Forgotten now s h
  step-Forgotten stops s n h = (h.0, refl, refl, h.3)

  run-Forgotten :
      (events : List Event) (s : Manager)
      → All (λ e. brings p e ≡ false) events
      → Forgotten p s
      → Forgotten p (run events s)
  run-Forgotten [] s a h = h
  run-Forgotten (e ∷ events) s a h = run-Forgotten events (step e s) a.1 (step-Forgotten e s a.0 h)

  removed : {V : Type 0} (d : Dict Text V) → Distinct d → get p (remove p d) ≡ none
  removed d h = get-remove p p d h ∙ rw ((text_eq_iff p p).1 refl) refl

  left-Forgotten : (s : Manager) → IsKeyed s → Forgotten p (on_member_leave p s).0
  unfolding on_member_leave
  left-Forgotten s h = (
    removed s.members h.0,
    removed s.connections h.1,
    removed s.udp_conns h.2,
    removed s.path_schedulers h.3,
  )

  -- A punch that succeeds late.
  late_socket :
      (sock : ℕ) (addr : Addr) (now : ℕ) (s : Manager)
      → Forgotten p s
      → get p (install_socket p sock addr now s).0.connections
        ≡ some (connected_to none sock addr (outbound_is_preferred s.my_id p))
  unfolding install_socket settle
  late_socket sock addr now s h =
      rw (h.0, h.1) (get-put p p _ s.connections ∙ rw ((text_eq_iff p p).1 refl) refl)

-- Once a peer has left, the manager has neither itself nor a connection, a channel or paths of it,
-- whatever happens, until the server names it again, or a socket or a channel of it is made. But a
-- punch that succeeds after it has left makes a connection of it, with no member.
pub nothing_left_behind :
    (p : Text) (events : List Event) (s : Manager) (sock : ℕ) (addr : Addr) (now : ℕ)
    → IsKeyed s
    → All (λ e. brings p e ≡ false) events
    → Forgotten p (run (member_leaves p ∷ events) s)
      × (get p (install_socket p sock addr now (run (member_leaves p ∷ events) s)).0.connections
          ≡ some (
              connected_to none sock addr
                (outbound_is_preferred (run (member_leaves p ∷ events) s).my_id p)))
nothing_left_behind p events s sock addr now keyed apart =
    let h = run-Forgotten p events (on_member_leave p s).0 apart (left-Forgotten p s keyed) in
    (h, late_socket p sock addr now (run (member_leaves p ∷ events) s) h)
