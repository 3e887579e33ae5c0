-- ===== src/Client/Manager/Sockets.antt =====
-- Which of two connections of a pair of peers stays: on_inbound and _install_socket.
pub mod Dedup
pub mod Inbound
use dpmp.Prelude.{
  ℕ, zero, suc, ◌+◌, Bool, true, false, not, ◌&&◌, ◌||◌, Option, none, some, List, [], ◌∷◌, ◌++◌,
  if◌then◌else◌, eqb, ltb, Text, text_lt, text_eq, text_key, nonempty, codes, is_some,
}
use dpmp.Dict.{Dict, get, has, put, remove}
use dpmp.Server.Format.{Addr, decimal}
use dpmp.Server.State.{PeerInfo, or_default}
use dpmp.Path.Keepalive.{tcp}
use dpmp.Path.Scheduler.{Paths, register}
use dpmp.Client.Address.{split_last}
use dpmp.Client.Manager.State.{
  Conn, ConnState, connected, ManagerConfig, Manager, Action, closes_sock, socket_ready,
  state_changed, live_sock, close_sock,
}

unfoldable pub outbound_is_preferred : Text → Text → Bool
unfolding text_lt
outbound_is_preferred my_id peer_id =
    if not (nonempty my_id) || not (nonempty peer_id) then true else text_lt peer_id my_id

unfoldable pub inbound_is_preferred : Text → Text → Bool
unfolding text_lt
inbound_is_preferred my_id peer_id =
    if not (nonempty my_id) || not (nonempty peer_id) then true else text_lt my_id peer_id

abbrev pub connected_to : Option PeerInfo → ℕ → Addr → Bool → Conn
connected_to member sock addr pref = record {
  state = connected;
  sock = some sock;
  addr = some addr;
  member = member;
  preferred = pref;
}

abbrev pub was_preferred : Option Conn → Bool
was_preferred none = true
was_preferred (some c) = c.preferred

-- The rule of both: a live connection gives way only if the new one is preferred and it is not; any
-- other old one does. The manager, whether the new socket was taken, and what is closed.
unfoldable pub settle :
    Text → Option PeerInfo → ℕ → Addr → Bool → Manager → Manager × Bool × List Action
settle p member sock addr pref s =
    let old = get p s.connections in
    if is_some (live_sock old) && not (pref && not (was_preferred old))
    then (s, false, closes_sock sock ∷ [])
    else (
      record s { connections = put p (connected_to member sock addr pref) s.connections },
      true,
      close_sock old,
    )

-- The first member with the address; then, the first one with the public IP.
unfoldable pub match_exact : Text → Dict Text PeerInfo → Option (Text × PeerInfo)
match_exact key [] = none
match_exact key ((p, m) ∷ ms) =
    let later = match_exact key ms in
    if nonempty m.pub_tcp && text_eq m.pub_tcp key then some (p, m) else later

-- `pt.rsplit(":", 1)[0]`: a text without a colon is its own first part
abbrev pub host_of : Text → Option (Text × Text) → Text
host_of t none = t
host_of t (some (a, b)) = a

unfoldable pub match_ip : Text → Dict Text PeerInfo → Option (Text × PeerInfo)
match_ip ip [] = none
match_ip ip ((p, m) ∷ ms) =
    let later = match_ip ip ms in
    if nonempty m.pub_tcp && text_eq (host_of m.pub_tcp (split_last b':' m.pub_tcp)) ip
    then some (p, m)
    else later

abbrev pub or_by_ip :
    Text → Dict Text PeerInfo → Option (Text × PeerInfo) → Option (Text × PeerInfo)
or_by_ip ip ms (some x) = some x
or_by_ip ip ms none = if nonempty ip then match_ip ip ms else none

unfoldable pub find_inbound : Addr → Dict Text PeerInfo → Option (Text × PeerInfo)
unfolding match_exact match_ip
find_inbound (ip, port) ms = or_by_ip ip ms (match_exact (ip ++ (b':' ∷ decimal port)) ms)

abbrev pub inbound_from :
    Option (Text × PeerInfo) → ℕ → Addr → Manager → Manager × Bool × List Action
inbound_from none sock addr s = (s, false, [])
inbound_from (some (p, m)) sock addr s =
    let (s', taken, closed) = settle p (some m) sock addr (inbound_is_preferred s.my_id p) s in
    (s', true, if taken then closed ++ socket_ready p sock ∷ [] else closed)

-- on_inbound: the result says whether the manager has taken charge of the socket
unfoldable pub on_inbound : ℕ → Addr → Manager → Manager × Bool × List Action
unfolding find_inbound
on_inbound sock addr s = inbound_from (find_inbound addr s.members) sock addr s

-- _get_path_sched(peer).register("tcp:peer", "tcp", 0)
abbrev register_tcp : ℕ → Text → Manager → Manager
register_tcp now p s = record s {
  path_schedulers =
      put p
        (register s.cfg.tuning now (b't' ∷ b'c' ∷ b'p' ∷ b':' ∷ p) tcp 0
          (or_default [] (get p s.path_schedulers)))
        s.path_schedulers;
}

-- _install_socket
unfoldable pub install_socket : Text → ℕ → Addr → ℕ → Manager → Manager × List Action
install_socket p sock addr now s =
    let pref = outbound_is_preferred s.my_id p in
    let (s', taken, closed) = settle p (get p s.members) sock addr pref s in
    if taken
    then (register_tcp now p s', closed ++ (socket_ready p sock ∷ state_changed ∷ []))
    else (s', closed)
