-- ===== src/Client/Manager/Keepalive.antt =====
-- The rest of _keepalive_loop: the connections that are dead, and stopping. What a peek at a socket
-- gives (_alive), and which channels are dead, comes from outside; no other thread runs in between.
use dpmp.Prelude.{
  ℕ, Bool, true, false, not, ◌&&◌, ◌||◌, Option, none, some, List, [], ◌∷◌, ◌++◌, if◌then◌else◌,
  Text, text_key,
}
use dpmp.Dict.{Dict, get}
use dpmp.Path.Keepalive.{tcp}
use dpmp.Path.Scheduler.{PeerPath}
use dpmp.Client.Manager.State.{
  Conn, UdpConn, Manager, Action, state_changed, is_connected, close_sock, live_sock,
}
use dpmp.Client.Manager.Events.{
  on_path_failure, fail_conn, request_rebuild, handle_udp_peer_dead, close_socks, close_udps,
}

-- What `recv(1, MSG_PEEK)` on a socket that does not block comes to.
pub data Peek : Type 0 where
  bytes no_bytes would_block fails : Peek

unfoldable pub is_alive : (ℕ → Peek) → Option ℕ → Bool
is_alive peek none = false
is_alive peek (some k) = elim (peek k) [
  | bytes ↦ true
  | no_bytes ↦ false
  | would_block ↦ true
  | fails ↦ false
]

-- _probe_path
unfoldable pub probe_path : (ℕ → Peek) → (UdpConn → Bool) → Text → PeerPath → Manager → Bool
unfolding is_alive
probe_path peek is_dead p path s = elim path.proto [
  | tcp ↦ is_alive peek (live_sock (get p s.connections))
  | _ ↦ elim (get p s.udp_conns) [ none ↦ false | some u ↦ not (is_dead u) ]
]

-- A TCP connection that has died: the loop over `tcp_items`. The last part says whether any has.
unfoldable pub drop_dead_tcp :
    (ℕ → Peek) → ℕ → Dict Text Conn → Manager → Manager × List Action × Bool
unfolding is_alive on_path_failure request_rebuild
drop_dead_tcp peek now [] s = (s, [], false)
drop_dead_tcp peek now ((p, c) ∷ items) s =
    let dead = is_connected c.state && not (is_alive peek c.sock) in
    let (s', acts) = request_rebuild p now (on_path_failure p tcp (fail_conn p (some c) s)) in
    let (s'', more, changed) = drop_dead_tcp peek now items (if dead then s' else s) in
    (s'', (if dead then close_sock (some c) ++ acts else []) ++ more, dead || changed)

-- The loop over `udp_items`.
unfoldable pub drop_dead_udp :
    (UdpConn → Bool) → ℕ → Dict Text UdpConn → Manager → Manager × List Action × Bool
unfolding handle_udp_peer_dead
drop_dead_udp is_dead now [] s = (s, [], false)
drop_dead_udp is_dead now ((p, u) ∷ items) s =
    let (s', acts) = handle_udp_peer_dead p now s in
    let (s'', more, changed) = drop_dead_udp is_dead now items (if is_dead u then s' else s) in
    (s'', (if is_dead u then acts else []) ++ more, is_dead u || changed)

-- What one round of _keepalive_loop does after the probes.
unfoldable pub drop_dead : (ℕ → Peek) → (UdpConn → Bool) → ℕ → Manager → Manager × List Action
unfolding drop_dead_tcp drop_dead_udp
drop_dead peek is_dead now s =
    let (s', acts, changed) = drop_dead_tcp peek now s.connections s in
    let (s'', more, changed') = drop_dead_udp is_dead now s'.udp_conns s' in
    (s'', acts ++ (more ++ (if changed || changed' then state_changed ∷ [] else [])))

-- stop
unfoldable pub stop : Manager → Manager × List Action
unfolding close_socks close_udps
stop s = (
  record s { running = false; connections = []; udp_conns = [] },
  close_socks s.connections ++ close_udps s.udp_conns,
)
