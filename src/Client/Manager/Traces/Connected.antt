-- ===== src/Client/Manager/Traces/Connected.antt =====
-- Which connections have a socket.
use dpmp.Prelude.{
  ℕ, ◌≡◌, refl, sym, ◌∙◌, subst, inl, inr, Bool, Option, none, some, List, [], ◌∷◌, if◌then◌else◌,
  Text, text_key, text_eq, arith, All, Bool-cases, nonempty, is_some, either,
}
use dpmp.Dict.{Dict, get, put, remove, keys}
use dpmp.Server.Format.{Addr}
use dpmp.Server.State.{PeerInfo}
use dpmp.Path.Keepalive.{Proto, tcp, udp, other}
use dpmp.Path.Scheduler.{Paths}
use dpmp.Client.Manager.State.{
  Action, is_busy, Conn, Manager, UdpConn, is_connected, new_conn, failed,
}
use dpmp.Client.Manager.Events.{
  add_member, on_joined, on_member_leave, on_punch_go, punch_if_known, on_peer_tcp_ready, fail_path,
  on_path_failure, fail_conn, on_peer_punch_fail, request_rebuild, rebuild_all, on_network_changed,
  handle_udp_peer_dead,
}
use dpmp.Client.Manager.Sockets.{
  outbound_is_preferred, settle, inbound_from, find_inbound, on_inbound, install_socket,
}
use dpmp.Client.Manager.Punching.{punch_enter, punch_leave, punch_give_up, failed_conn}
use dpmp.Client.Manager.Udp.{on_udp_hole_ready, mark_mapping_ready}
use dpmp.Client.Manager.Keepalive.{Peek, drop_dead_tcp, drop_dead_udp, drop_dead, stop}
use dpmp.Client.Manager.Traces.{
  Event, members_join, member_leaves, punch_go, peer_tcp_ready, peer_punch_fail, inbound, installs,
  punch_enters, punch_leaves, punch_gives_up, hole_ready, mapping_is_ready, udp_peer_dies,
  dead_dropped, network_changes, stops, step, run,
}

-- A connection has a socket exactly while it is connected.
abbrev pub IsPlugged : Text × Conn → Type 0
IsPlugged (p, c) = is_some c.sock ≡ is_connected c.state

abbrev pub IsSound : Manager → Type 0
IsSound s = All IsPlugged s.connections

remove-Plugged : (k : Text) (d : Dict Text Conn) → All IsPlugged d → All IsPlugged (remove k d)
unfolding remove
remove-Plugged k [] h = tt
remove-Plugged k ((j, c) ∷ d) h =
    either (All IsPlugged) (text_eq j k) d ((j, c) ∷ remove k d) h.1 (h.0, remove-Plugged k d h.1)

put-Plugged :
    (k : Text) (c : Conn) (d : Dict Text Conn)
    → IsPlugged (k, c)
    → All IsPlugged d
    → All IsPlugged (put k c d)
unfolding put
put-Plugged k c [] p h = (p, tt)
put-Plugged k c ((j, c') ∷ d) p h = elim (Bool-cases (text_eq j k)) [
  | inl e ↦ rw e (p, h.1)
  | inr e ↦ rw e (h.0, put-Plugged k c d p h.1)
]

get-Plugged :
    (k : Text) (c : Conn) (d : Dict Text Conn)
    → All IsPlugged d
    → get k d ≡ some c
    → IsPlugged (k, c)
unfolding get
get-Plugged k c [] h e = ground arith
get-Plugged k c ((j, c') ∷ d) h e =
    let later = get-Plugged k c d h.1 in let first = h.0 in ground (arith, later, first)

-- What leaves the connections as they are.
path_keeps :
    (p : Text) (proto : Proto) (o : Option Paths) (s : Manager)
    → (fail_path p proto o s).connections ≡ s.connections
path_keeps p proto none s = refl
path_keeps p tcp (some ps) s = refl
path_keeps p udp (some ps) s = refl
path_keeps p other (some ps) s = refl

rebuild_keeps :
    (p : Text) (now : ℕ) (s : Manager) → (request_rebuild p now s).0.connections ≡ s.connections
unfolding request_rebuild
rebuild_keeps p now s =
    either (λ (r : Manager × List Action). r.0.connections ≡ s.connections) _ _ _ refl refl

rebuild_all_keeps :
    (ps : List Text) (now : ℕ) (s : Manager) → (rebuild_all ps now s).0.connections ≡ s.connections
unfolding rebuild_all
rebuild_all_keeps [] now s = refl
rebuild_all_keeps (p ∷ ps) now s =
    rebuild_all_keeps ps now (request_rebuild p now s).0 ∙ rebuild_keeps p now s

udp_dead_keeps :
    (p : Text) (now : ℕ) (s : Manager)
    → (handle_udp_peer_dead p now s).0.connections ≡ s.connections
unfolding handle_udp_peer_dead on_path_failure
udp_dead_keeps p now s = rebuild_keeps p now _ ∙ path_keeps p udp (get p s.path_schedulers) s

join_keeps : (ms : List PeerInfo) (s : Manager) → (on_joined ms s).0.connections ≡ s.connections
unfolding on_joined add_member
join_keeps [] s = refl
join_keeps (m ∷ ms) s =
    join_keeps ms (add_member m s).0
    ∙ either (λ (r : Manager × List Action). r.0.connections ≡ s.connections) _ _ _ refl refl

hole_keeps :
    (p : Text) (addr : Addr) (chan now : ℕ) (s : Manager)
    → (on_udp_hole_ready p addr chan now s).0.connections ≡ s.connections
unfolding on_udp_hole_ready
hole_keeps p addr chan now s =
    either (λ (r : Manager × List Action). r.0.connections ≡ s.connections) _ _ _ refl refl

drop_udp_keeps :
    (is_dead : UdpConn → Bool) (now : ℕ) (items : Dict Text UdpConn) (s : Manager)
    → (drop_dead_udp is_dead now items s).0.connections ≡ s.connections
unfolding drop_dead_udp
drop_udp_keeps is_dead now [] s = refl
drop_udp_keeps is_dead now ((p, u) ∷ items) s =
    let s' = (handle_udp_peer_dead p now s).0 in
    drop_udp_keeps is_dead now items (if is_dead u then s' else s)
    ∙ either (λ r. r.connections ≡ s.connections) (is_dead u) s' s (udp_dead_keeps p now s) refl

-- What changes them.
fail_conn-IsSound :
    (p : Text) (o : Option Conn) (s : Manager) → IsSound s → IsSound (fail_conn p o s)
fail_conn-IsSound p none s h = h
fail_conn-IsSound p (some c) s h =
    put-Plugged p (record c { state = failed; sock = none }) s.connections refl h

settle-IsSound :
    (p : Text) (m : Option PeerInfo) (sock : ℕ) (addr : Addr) (pref : Bool) (s : Manager)
    → IsSound s
    → IsSound (settle p m sock addr pref s).0
unfolding settle
settle-IsSound p m sock addr pref s h =
    either (λ (r : Manager × Bool × List Action). IsSound r.0) _ _ _ h
      (put-Plugged p _ s.connections refl h)

give_up-IsSound :
    (p : Text) (o : Option Conn) (s : Manager)
    → get p s.connections ≡ o
    → IsSound s
    → IsSound (failed_conn p o s).0
give_up-IsSound p none s e h = h
give_up-IsSound p (some c) s e h = elim (Bool-cases (is_connected c.state)) [
  | inl on ↦ rw on h
  | inr off ↦ rw off (
      put-Plugged p (record c { state = failed }) s.connections
        (get-Plugged p c s.connections h e ∙ off) h)
]

drop_tcp-IsSound :
    (peek : ℕ → Peek) (now : ℕ) (items : Dict Text Conn) (s : Manager)
    → IsSound s
    → IsSound (drop_dead_tcp peek now items s).0
unfolding drop_dead_tcp on_path_failure
drop_tcp-IsSound peek now [] s h = h
drop_tcp-IsSound peek now ((p, c) ∷ items) s h =
    let s1 = fail_conn p (some c) s in
    let s2 = fail_path p tcp (get p s1.path_schedulers) s1 in
    let kept = rebuild_keeps p now s2 ∙ path_keeps p tcp (get p s1.path_schedulers) s1 in
    let dropped = subst (All IsPlugged) (sym kept) (fail_conn-IsSound p (some c) s h) in
    drop_tcp-IsSound peek now items _ (either IsSound _ _ _ dropped h)

-- One event, and any number of them.
kept : {cs cs' : Dict Text Conn} → cs' ≡ cs → All IsPlugged cs → All IsPlugged cs'
kept e h = subst (All IsPlugged) (sym e) h

ready-IsSound :
    (p : Text) (o : Option PeerInfo) (s : Manager) → IsSound s → IsSound (punch_if_known p o s).0
unfolding new_conn
ready-IsSound p none s h = h
ready-IsSound p (some peer) s h = put-Plugged p (new_conn (some peer)) s.connections refl h

tcp_ready-IsSound : (p : Text) (s : Manager) → IsSound s → IsSound (on_peer_tcp_ready p s).0
unfolding on_peer_tcp_ready
tcp_ready-IsSound p s h =
    either (λ (r : Manager × List Action). IsSound r.0) _ _ _ h
      (ready-IsSound p (get p s.members) s h)

inbound-IsSound :
    (o : Option (Text × PeerInfo)) (sock : ℕ) (addr : Addr) (s : Manager)
    → IsSound s
    → IsSound (inbound_from o sock addr s).0
inbound-IsSound none sock addr s h = h
inbound-IsSound (some (p, m)) sock addr s h = settle-IsSound p (some m) sock addr _ s h

punch_go-IsSound :
    (peer : PeerInfo) (at : ℕ) (s : Manager) → IsSound s → IsSound (on_punch_go peer at s).0
unfolding on_punch_go new_conn
punch_go-IsSound peer at s h = elim (Bool-cases (nonempty peer.id)) [
  | inl e ↦ elim (Bool-cases (is_busy (get peer.id s.connections))) [
    | inl b ↦ rw (e, b) h
    | inr b ↦ rw (e, b) (put-Plugged peer.id (new_conn (some peer)) s.connections refl h)
  ]
  | inr e ↦ rw e h
]

install-IsSound :
    (p : Text) (sock : ℕ) (addr : Addr) (now : ℕ) (s : Manager)
    → IsSound s
    → IsSound (install_socket p sock addr now s).0
unfolding install_socket
install-IsSound p sock addr now s h =
    let settled =
      settle-IsSound p (get p s.members) sock addr (outbound_is_preferred s.my_id p) s h in
    either (λ (r : Manager × List Action). IsSound r.0) _ _ _ settled settled

enter-IsSound : (p : Text) (s : Manager) → IsSound s → IsSound (punch_enter p s).0
unfolding punch_enter
enter-IsSound p s h = either (λ (r : Manager × Bool). IsSound r.0) _ _ _ h h

network-IsSound : (now : ℕ) (s : Manager) → IsSound s → IsSound (on_network_changed now s).0
unfolding on_network_changed
network-IsSound now s h =
    let cleared = record s {
      network_rebind_last = some now;
      connections = [];
      udp_conns = [];
      path_schedulers = [];
      rebuild_cooldown = [];
    } in
    either (λ (r : Manager × List Action). IsSound r.0) _ _ _ h
      (kept (rebuild_all_keeps (keys s.members) now cleared) tt)

step-IsSound : (e : Event) (s : Manager) → IsSound s → IsSound (step e s)
unfolding on_member_leave on_peer_punch_fail on_path_failure on_inbound punch_leave punch_give_up
    mark_mapping_ready drop_dead stop
step-IsSound (members_join ms) s h = kept (join_keeps ms s) h
step-IsSound (member_leaves p) s h = remove-Plugged p s.connections h
step-IsSound (punch_go peer at) s h = punch_go-IsSound peer at s h
step-IsSound (peer_tcp_ready p) s h = tcp_ready-IsSound p s h
step-IsSound (peer_punch_fail p) s h =
    let s1 = fail_conn p (get p s.connections) s in
    kept (path_keeps p tcp (get p s1.path_schedulers) s1)
      (fail_conn-IsSound p (get p s.connections) s h)
step-IsSound (inbound sock addr) s h = inbound-IsSound (find_inbound addr s.members) sock addr s h
step-IsSound (installs p sock addr now) s h = install-IsSound p sock addr now s h
step-IsSound (punch_enters p) s h = enter-IsSound p s h
step-IsSound (punch_leaves p) s h = h
step-IsSound (punch_gives_up p) s h = give_up-IsSound p (get p s.connections) s refl h
step-IsSound (hole_ready p addr chan now) s h = kept (hole_keeps p addr chan now s) h
step-IsSound mapping_is_ready s h = h
step-IsSound (udp_peer_dies p now) s h = kept (udp_dead_keeps p now s) h
step-IsSound (dead_dropped peek is_dead now) s h =
    let s1 = (drop_dead_tcp peek now s.connections s).0 in
    kept (drop_udp_keeps is_dead now s1.udp_conns s1) (drop_tcp-IsSound peek now s.connections s h)
step-IsSound (network_changes now) s h = network-IsSound now s h
step-IsSound stops s h = tt

-- Whatever happens to the manager, a connection in its table has a socket exactly while it is marked
-- as connected, if that is so at the start.
pub run-IsSound : (events : List Event) (s : Manager) → IsSound s → IsSound (run events s)
run-IsSound [] s h = h
run-IsSound (e ∷ events) s h = run-IsSound events (step e s) (step-IsSound e s h)
