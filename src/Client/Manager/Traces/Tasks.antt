-- ===== src/Client/Manager/Traces/Tasks.antt =====
-- Which events leave the counter of the punching tasks alone.
use dpmp.Prelude.{
  ℕ, ◌≡◌, refl, ◌∙◌, Bool, true, false, Option, none, some, List, [], ◌∷◌, if◌then◌else◌, Text,
  text_key, either, Bool-cases, nonempty, inl, inr,
}
use dpmp.Dict.{Dict, get, keys}
use dpmp.Server.Format.{Addr}
use dpmp.Server.State.{PeerInfo}
use dpmp.Path.Keepalive.{Proto, tcp, udp, other}
use dpmp.Path.Scheduler.{Paths}
use dpmp.Client.Manager.State.{Action, Conn, Manager, UdpConn, is_connected, is_busy, new_conn}
use dpmp.Client.Manager.Events.{
  add_member, on_joined, on_member_leave, on_punch_go, punch_if_known, on_peer_tcp_ready, fail_path,
  on_path_failure, fail_conn, on_peer_punch_fail, request_rebuild, rebuild_all, on_network_changed,
  handle_udp_peer_dead,
}
use dpmp.Client.Manager.Sockets.{
  settle, inbound_from, find_inbound, on_inbound, install_socket, outbound_is_preferred,
}
use dpmp.Client.Manager.Punching.{punch_give_up, failed_conn}
use dpmp.Client.Manager.Udp.{on_udp_hole_ready, mark_mapping_ready}
use dpmp.Client.Manager.Keepalive.{Peek, drop_dead_tcp, drop_dead_udp, drop_dead, stop}
use dpmp.Client.Manager.Traces.{
  Event, members_join, member_leaves, punch_go, peer_tcp_ready, peer_punch_fail, inbound, installs,
  punch_enters, punch_leaves, punch_gives_up, hole_ready, mapping_is_ready, udp_peer_dies,
  dead_dropped, network_changes, stops, step,
}

-- The two ends of a task are its own.
abbrev pub counts_task : Event → Bool
counts_task (punch_enters p) = true
counts_task (punch_leaves p) = true
counts_task _ = false

abbrev pub Keeps : Manager → Manager → Type 0
Keeps s s' = s'.punch_active ≡ s.punch_active

-- The same of a pair.
abbrev KeepsIn {ℓ} : {A : Type ℓ} → Manager → Manager × A → Type 0
KeepsIn s r = Keeps s r.0

path-Keeps :
    (p : Text) (proto : Proto) (o : Option Paths) (s : Manager) → Keeps s (fail_path p proto o s)
path-Keeps p proto none s = refl
path-Keeps p tcp (some ps) s = refl
path-Keeps p udp (some ps) s = refl
path-Keeps p other (some ps) s = refl

conn-Keeps : (p : Text) (o : Option Conn) (s : Manager) → Keeps s (fail_conn p o s)
conn-Keeps p none s = refl
conn-Keeps p (some c) s = refl

rebuild-Keeps : (p : Text) (now : ℕ) (s : Manager) → Keeps s (request_rebuild p now s).0
unfolding request_rebuild
rebuild-Keeps p now s = either (KeepsIn {A = List Action} s) _ _ _ refl refl

rebuild_all-Keeps : (ps : List Text) (now : ℕ) (s : Manager) → Keeps s (rebuild_all ps now s).0
unfolding rebuild_all
rebuild_all-Keeps [] now s = refl
rebuild_all-Keeps (p ∷ ps) now s =
    rebuild_all-Keeps ps now (request_rebuild p now s).0 ∙ rebuild-Keeps p now s

udp_dead-Keeps : (p : Text) (now : ℕ) (s : Manager) → Keeps s (handle_udp_peer_dead p now s).0
unfolding handle_udp_peer_dead on_path_failure
udp_dead-Keeps p now s = rebuild-Keeps p now _ ∙ path-Keeps p udp (get p s.path_schedulers) s

join-Keeps : (ms : List PeerInfo) (s : Manager) → Keeps s (on_joined ms s).0
unfolding on_joined add_member
join-Keeps [] s = refl
join-Keeps (m ∷ ms) s =
    join-Keeps ms (add_member m s).0 ∙ either (KeepsIn {A = List Action} s) _ _ _ refl refl

settle-Keeps :
    (p : Text) (m : Option PeerInfo) (sock : ℕ) (addr : Addr) (pref : Bool) (s : Manager)
    → Keeps s (settle p m sock addr pref s).0
unfolding settle
settle-Keeps p m sock addr pref s =
    either (λ (r : Manager × Bool × List Action). Keeps s r.0) _ _ _ refl refl

pub install-Keeps :
    (p : Text) (sock : ℕ) (addr : Addr) (now : ℕ) (s : Manager)
    → Keeps s (install_socket p sock addr now s).0
unfolding install_socket
install-Keeps p sock addr now s =
    let settled = settle-Keeps p (get p s.members) sock addr (outbound_is_preferred s.my_id p) s in
    either (KeepsIn {A = List Action} s) _ _ _ settled settled

inbound-Keeps :
    (o : Option (Text × PeerInfo)) (sock : ℕ) (addr : Addr) (s : Manager)
    → Keeps s (inbound_from o sock addr s).0
inbound-Keeps none sock addr s = refl
inbound-Keeps (some (p, m)) sock addr s = settle-Keeps p (some m) sock addr _ s

failed-Keeps : (p : Text) (o : Option Conn) (s : Manager) → Keeps s (failed_conn p o s).0
failed-Keeps p none s = refl
failed-Keeps p (some c) s = either (KeepsIn {A = Bool} s) (is_connected c.state) _ _ refl refl

pub give_up-Keeps : (p : Text) (s : Manager) → Keeps s (punch_give_up p s).0
unfolding punch_give_up
give_up-Keeps p s = failed-Keeps p (get p s.connections) s

punch_go-Keeps : (peer : PeerInfo) (at : ℕ) (s : Manager) → Keeps s (on_punch_go peer at s).0
unfolding on_punch_go
punch_go-Keeps peer at s = elim (Bool-cases (nonempty peer.id)) [
  | inl e ↦ elim (Bool-cases (is_busy (get peer.id s.connections))) [
    | inl b ↦ rw (e, b) refl
    | inr b ↦ rw (e, b) refl
  ]
  | inr e ↦ rw e refl
]

known-Keeps : (p : Text) (o : Option PeerInfo) (s : Manager) → Keeps s (punch_if_known p o s).0
unfolding new_conn
known-Keeps p none s = refl
known-Keeps p (some peer) s = refl

drop_tcp-Keeps :
    (peek : ℕ → Peek) (now : ℕ) (items : Dict Text Conn) (s : Manager)
    → Keeps s (drop_dead_tcp peek now items s).0
unfolding drop_dead_tcp on_path_failure
drop_tcp-Keeps peek now [] s = refl
drop_tcp-Keeps peek now ((p, c) ∷ items) s =
    let s1 = fail_conn p (some c) s in
    let s2 = fail_path p tcp (get p s1.path_schedulers) s1 in
    let dropped = rebuild-Keeps p now s2 ∙ path-Keeps p tcp (get p s1.path_schedulers) s1 in
    drop_tcp-Keeps peek now items _ ∙ either (Keeps s) _ _ _ dropped refl

drop_udp-Keeps :
    (is_dead : UdpConn → Bool) (now : ℕ) (items : Dict Text UdpConn) (s : Manager)
    → Keeps s (drop_dead_udp is_dead now items s).0
unfolding drop_dead_udp
drop_udp-Keeps is_dead now [] s = refl
drop_udp-Keeps is_dead now ((p, u) ∷ items) s =
    let s' = (handle_udp_peer_dead p now s).0 in
    drop_udp-Keeps is_dead now items (if is_dead u then s' else s)
    ∙ either (Keeps s) (is_dead u) s' s (udp_dead-Keeps p now s) refl

network-Keeps : (now : ℕ) (s : Manager) → Keeps s (on_network_changed now s).0
unfolding on_network_changed
network-Keeps now s =
    either (KeepsIn {A = List Action} s) _ _ _ refl (rebuild_all-Keeps (keys s.members) now _)

-- Every event but those two leaves the counter alone.
pub step-Keeps : (e : Event) (s : Manager) → counts_task e ≡ false → Keeps s (step e s)
unfolding on_member_leave on_peer_punch_fail on_path_failure on_inbound mark_mapping_ready drop_dead
    stop on_peer_tcp_ready on_udp_hole_ready
step-Keeps (members_join ms) s h = join-Keeps ms s
step-Keeps (member_leaves p) s h = refl
step-Keeps (punch_go peer at) s h = punch_go-Keeps peer at s
step-Keeps (peer_tcp_ready p) s h =
    either (KeepsIn {A = List Action} s) _ _ _ refl (known-Keeps p (get p s.members) s)
step-Keeps (peer_punch_fail p) s h =
    let s1 = fail_conn p (get p s.connections) s in
    path-Keeps p tcp (get p s1.path_schedulers) s1 ∙ conn-Keeps p (get p s.connections) s
step-Keeps (inbound sock addr) s h = inbound-Keeps (find_inbound addr s.members) sock addr s
step-Keeps (installs p sock addr now) s h = install-Keeps p sock addr now s
step-Keeps (punch_enters p) s h = cc
step-Keeps (punch_leaves p) s h = cc
step-Keeps (punch_gives_up p) s h = give_up-Keeps p s
step-Keeps (hole_ready p addr chan now) s h = either (KeepsIn {A = List Action} s) _ _ _ refl refl
step-Keeps mapping_is_ready s h = refl
step-Keeps (udp_peer_dies p now) s h = udp_dead-Keeps p now s
step-Keeps (dead_dropped peek is_dead now) s h =
    let s1 = (drop_dead_tcp peek now s.connections s).0 in
    drop_udp-Keeps is_dead now s1.udp_conns s1 ∙ drop_tcp-Keeps peek now s.connections s
step-Keeps (network_changes now) s h = network-Keeps now s
step-Keeps stops s h = refl
