-- ===== src/Client/Manager/Traces.antt =====
-- The manager under any sequence of what its threads do, each a step.
pub mod Connected
pub mod Tasks
pub mod Forgetting
pub mod Strangers
pub mod Leaver
use dpmp.Prelude.{ℕ, Bool, List, [], ◌∷◌, Text}
use dpmp.Server.Format.{Addr}
use dpmp.Server.State.{PeerInfo}
use dpmp.Client.Manager.State.{Manager, UdpConn}
use dpmp.Client.Manager.Events.{
  on_joined, on_member_leave, on_punch_go, on_peer_tcp_ready, on_peer_punch_fail,
  on_network_changed, handle_udp_peer_dead,
}
use dpmp.Client.Manager.Sockets.{on_inbound, install_socket}
use dpmp.Client.Manager.Punching.{punch_enter, punch_leave, punch_give_up}
use dpmp.Client.Manager.Udp.{on_udp_hole_ready, mark_mapping_ready}
use dpmp.Client.Manager.Keepalive.{Peek, drop_dead, stop}

pub data Event : Type 0 where
  members_join : List PeerInfo → Event
  member_leaves : Text → Event
  punch_go : PeerInfo → ℕ → Event
  peer_tcp_ready : Text → Event
  peer_punch_fail : Text → Event
  inbound : ℕ → Addr → Event
  installs : Text → ℕ → Addr → ℕ → Event
  punch_enters : Text → Event
  punch_leaves : Text → Event
  punch_gives_up : Text → Event
  hole_ready : Text → Addr → ℕ → ℕ → Event
  mapping_is_ready : Event
  udp_peer_dies : Text → ℕ → Event
  dead_dropped : (ℕ → Peek) → (UdpConn → Bool) → ℕ → Event
  network_changes : ℕ → Event
  stops : Event

abbrev pub step : Event → Manager → Manager
step (members_join ms) s = (on_joined ms s).0
step (member_leaves p) s = (on_member_leave p s).0
step (punch_go peer at) s = (on_punch_go peer at s).0
step (peer_tcp_ready p) s = (on_peer_tcp_ready p s).0
step (peer_punch_fail p) s = (on_peer_punch_fail p s).0
step (inbound sock addr) s = (on_inbound sock addr s).0
step (installs p sock addr now) s = (install_socket p sock addr now s).0
step (punch_enters p) s = (punch_enter p s).0
step (punch_leaves p) s = punch_leave p s
step (punch_gives_up p) s = (punch_give_up p s).0
step (hole_ready p addr chan now) s = (on_udp_hole_ready p addr chan now s).0
step mapping_is_ready s = (mark_mapping_ready s).0
step (udp_peer_dies p now) s = (handle_udp_peer_dead p now s).0
step (dead_dropped peek is_dead now) s = (drop_dead peek is_dead now s).0
step (network_changes now) s = (on_network_changed now s).0
step stops s = (stop s).0

abbrev pub run : List Event → Manager → Manager
run [] s = s
run (e ∷ events) s = run events (step e s)
