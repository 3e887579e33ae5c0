-- ===== src/Client/Manager/Queries.antt =====
-- What the application asks the manager: get_members and the smaller queries.
use dpmp.Prelude.{
  Bool, false, Option, none, some, List, [], ◌∷◌, if◌then◌else◌, Text, text_key, nonempty,
}
use dpmp.Dict.{Dict, get, has, put}
use dpmp.Server.Format.{Addr}
use dpmp.Server.State.{PeerInfo, or_default}
use dpmp.Path.Keepalive.{Role}
use dpmp.Path.Scheduler.{Paths}
use dpmp.Client.Manager.State.{Conn, ConnState, connected, is_connected, UdpConn, Manager}

pub data ShownAddr : Type 0 where
  over_tcp over_udp : Addr → ShownAddr

pub record MemberView : Type 0 where
  pub id : Text
  pub name : Text
  pub state : Option ConnState
  pub addr : Option ShownAddr
  pub path_roles : Dict Text Role

-- `{p.path_id: p.role for p in sched.paths.values()}`
unfoldable pub roles_by_id : Paths → Dict Text Role → Dict Text Role
roles_by_id [] out = out
roles_by_id ((k, p) ∷ ps) out = roles_by_id ps (put p.path_id p.role out)

abbrev tcp_addr : Option Addr → Option ShownAddr
tcp_addr none = none
tcp_addr (some a) = some (over_tcp a)

abbrev of_conn : Option Conn → Option ConnState × Option ShownAddr
of_conn none = (none, none)
of_conn (some c) = (some c.state, tcp_addr c.addr)

abbrev connected_at : Option ConnState → Bool
connected_at none = false
connected_at (some st) = is_connected st

-- A UDP channel counts as connected where no TCP connection is; "idle" is none.
abbrev pub shown_state : Option Conn → Option UdpConn → Option ConnState × Option ShownAddr
shown_state c none = of_conn c
shown_state c (some u) =
    if connected_at (of_conn c).0 then of_conn c else (some connected, some (over_udp u.peer))

-- get_members, from the table of members on
unfoldable pub views : Manager → Dict Text PeerInfo → List MemberView
unfolding roles_by_id
views s [] = []
views s ((p, m) ∷ ms) =
    let (st, addr) = shown_state (get p s.connections) (get p s.udp_conns) in
    record {
      id = p;
      name = m.name;
      state = st;
      addr = addr;
      path_roles = roles_by_id (or_default [] (get p s.path_schedulers)) [];
    }
    ∷ views s ms

unfoldable pub get_members : Manager → List MemberView
unfolding views
get_members s = views s s.members

-- has_peer, get_conn, get_udp_socket
unfoldable pub has_peer : Text → Manager → Bool
has_peer p s = has p s.connections

unfoldable pub get_conn : Text → Manager → Option Conn
get_conn p s = get p s.connections

unfoldable pub get_udp_socket : Text → Manager → Option UdpConn
get_udp_socket p s = get p s.udp_conns

abbrev did_of : Text → Option PeerInfo → Text
did_of p none = p
did_of p (some m) = if nonempty m.did then m.did else p

-- get_peer_did
unfoldable pub get_peer_did : Text → Manager → Text
get_peer_did p s = did_of p (get p s.members)

-- get_path_roles: here the key is the table's
unfoldable pub get_path_roles : Text → Manager → Dict Text Role
get_path_roles p s = pairs (or_default [] (get p s.path_schedulers))
  where
    pairs : Paths → Dict Text Role
    pairs [] = []
    pairs ((k, q) ∷ ps) = (k, q.role) ∷ pairs ps
