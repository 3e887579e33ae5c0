-- ===== src/Client/Manager/Events.antt =====
-- What members, peers and the network tell the manager, and its requests to punch again.
pub mod Cooldown
pub mod Fallback
use dpmp.Prelude.{
  ℕ, ◌+◌, not, ◌||◌, Option, none, some, List, [], ◌∷◌, ◌++◌, if◌then◌else◌, ltb, Text, text_key,
  nonempty,
}
use dpmp.Dict.{Dict, get, put, remove, keys}
use dpmp.Server.State.{PeerInfo, or_default}
use dpmp.Path.Keepalive.{Proto, tcp, udp, other}
use dpmp.Path.Scheduler.{Paths, promote_on_hot_failure, remove_path}
use dpmp.Client.Manager.State.{
  Conn, failed, UdpConn, Manager, Action, closes_udp, unregisters, requests_punch, rebinds,
  starts_punch, state_changed, new_conn, is_busy, close_sock, close_udp,
}

-- _add_member, on_joined and on_member_join
unfoldable pub add_member : PeerInfo → Manager → Manager × List Action
add_member m s =
    if nonempty m.id
    then (record s { members = put m.id m s.members }, requests_punch m.id ∷ [])
    else (s, [])

unfoldable pub on_joined : List PeerInfo → Manager → Manager × List Action
unfolding add_member
on_joined [] s = (s, [])
on_joined (m ∷ ms) s =
    let (s', acts) = add_member m s in let (s'', more) = on_joined ms s' in (s'', acts ++ more)

unfoldable pub on_member_leave : Text → Manager → Manager × List Action
on_member_leave p s = (
  record s {
    members = remove p s.members;
    connections = remove p s.connections;
    path_schedulers = remove p s.path_schedulers;
    peer_last_active = remove p s.peer_last_active;
    udp_conns = remove p s.udp_conns;
    rebuild_cooldown = remove p s.rebuild_cooldown;
  },
  close_sock (get p s.connections) ++ close_udp p (get p s.udp_conns),
)

unfoldable pub on_punch_go : PeerInfo → ℕ → Manager → Manager × List Action
unfolding new_conn
on_punch_go peer at s =
    let s' = record s { members = put peer.id peer s.members } in
    if not (nonempty peer.id)
    then (s, [])
    else if is_busy (get peer.id s.connections)
    then (s', [])
    else (
      record s' { connections = put peer.id (new_conn (some peer)) s.connections },
      starts_punch peer at ∷ [],
    )

abbrev pub punch_if_known : Text → Option PeerInfo → Manager → Manager × List Action
unfolding new_conn
punch_if_known p none s = (s, [])
punch_if_known p (some peer) s = (
  record s { connections = put p (new_conn (some peer)) s.connections },
  starts_punch peer 0 ∷ [],
)

-- _on_peer_tcp_ready
unfoldable pub on_peer_tcp_ready : Text → Manager → Manager × List Action
on_peer_tcp_ready p s =
    if is_busy (get p s.connections) then (s, []) else punch_if_known p (get p s.members) s

abbrev pub fail_path : Text → Proto → Option Paths → Manager → Manager
fail_path p proto none s = s
fail_path p tcp (some ps) s = record s {
  path_schedulers = put p (promote_on_hot_failure s.cfg.tuning ps).0 s.path_schedulers;
}
fail_path p udp (some ps) s = record s {
  path_schedulers = put p (remove_path (b'u' ∷ b'd' ∷ b'p' ∷ b':' ∷ p) ps) s.path_schedulers;
}
fail_path p other (some ps) s = record s {
  path_schedulers = put p (remove_path (b'u' ∷ b'd' ∷ b'p' ∷ b':' ∷ p) ps) s.path_schedulers;
}

-- _on_path_failure
unfoldable pub on_path_failure : Text → Proto → Manager → Manager
on_path_failure p proto s = fail_path p proto (get p s.path_schedulers) s

abbrev pub fail_conn : Text → Option Conn → Manager → Manager
fail_conn p none s = s
fail_conn p (some c) s = record s {
  connections = put p (record c { state = failed; sock = none }) s.connections;
}

-- _on_peer_punch_fail
unfoldable pub on_peer_punch_fail : Text → Manager → Manager × List Action
unfolding on_path_failure
on_peer_punch_fail p s = (
  on_path_failure p tcp (fail_conn p (get p s.connections) s),
  close_sock (get p s.connections) ++ state_changed ∷ [],
)

-- _request_rebuild: a clock that starts at its epoch is past the first cool-down
unfoldable pub request_rebuild : Text → ℕ → Manager → Manager × List Action
request_rebuild p now s =
    if ltb now (or_default 0 (get p s.rebuild_cooldown) + s.cfg.rebuild_cooldown_ms)
    then (s, [])
    else (record s { rebuild_cooldown = put p now s.rebuild_cooldown }, requests_punch p ∷ [])

unfoldable pub rebuild_all : List Text → ℕ → Manager → Manager × List Action
unfolding request_rebuild
rebuild_all [] now s = (s, [])
rebuild_all (p ∷ ps) now s =
    let (s', acts) = request_rebuild p now s in
    let (s'', more) = rebuild_all ps now s' in (s'', acts ++ more)

unfoldable pub close_socks : Dict Text Conn → List Action
close_socks [] = []
close_socks ((p, c) ∷ cs) = close_sock (some c) ++ close_socks cs

unfoldable pub close_udps : Dict Text UdpConn → List Action
close_udps [] = []
close_udps ((p, u) ∷ us) = closes_udp p u ∷ close_udps us

-- on_network_changed
unfoldable pub on_network_changed : ℕ → Manager → Manager × List Action
unfolding rebuild_all close_socks close_udps
on_network_changed now s =
    if not s.running || ltb now (or_default 0 s.network_rebind_last + 10000)
    then (s, [])
    else let cleared = record s {
      network_rebind_last = some now;
      connections = [];
      udp_conns = [];
      path_schedulers = [];
      rebuild_cooldown = [];
    } in
      let (s', acts) = rebuild_all (keys s.members) now cleared in
      (s', close_socks s.connections ++ (close_udps s.udp_conns ++ rebinds ∷ acts))

abbrev gone_udp : Text → Option UdpConn → List Action
gone_udp p none = []
gone_udp p (some u) = closes_udp p u ∷ unregisters u.peer ∷ []

-- _handle_udp_peer_dead
unfoldable pub handle_udp_peer_dead : Text → ℕ → Manager → Manager × List Action
unfolding on_path_failure request_rebuild
handle_udp_peer_dead p now s =
    let s' = on_path_failure p udp s in
    let (s'', acts) = request_rebuild p now (record s' { udp_conns = remove p s.udp_conns }) in
    (s'', gone_udp p (get p s.udp_conns) ++ acts)
