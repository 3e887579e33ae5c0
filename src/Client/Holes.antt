-- ===== src/Client/Holes.antt =====
-- The rest of dpmp/link/signaling.py: what the client says when it joins, stopping and rebinding after a
-- change of the network, and the shared UDP socket, whose datagrams are told apart by their source.
-- A handler of packets is the number of its channel; a key is the text "%s:%d" of an address.
pub mod Ready
pub mod Rebind
pub mod Rejoin
pub mod Probing
pub mod Tests
use dpmp.Prelude.{
  ℕ, zero, suc, Bool, true, false, not, ◌&&◌, ◌||◌, Option, none, some, List, [], ◌∷◌, ◌++◌,
  if◌then◌else◌, Text, text_eq, text_key, nonempty, codes, ℤ, pos, negsuc,
}
use dpmp.Dict.{Dict, get, has, put, remove}
use dpmp.Server.Format.{decimal}
use dpmp.Server.State.{PeerInfo, Message, join, bye, hb, punch_req, udp_hello, or_default}
use dpmp.Client.Address.{parse_host_port}
use dpmp.Client.Signaling.{Candidate, Attempt, Client, Started, joined, not_joined, raised, start}

-- The arguments that go into the message.
pub record Identity : Type 0 where
  pub room : Text
  pub name : Text
  pub tcp_port : ℕ
  pub lan_ips : List Text
  pub device_id : Text
  pub password : Text

abbrev pub if_nonempty : Text → Option Text
if_nonempty t = if nonempty t then some t else none

-- _send_join
unfoldable pub join_message : Identity → Text → Message
join_message i reuse_id = record {
  kind = join;
  room = some i.room;
  pwd = if_nonempty i.password;
  name = some i.name;
  did = some i.device_id;
  reuse_id = if_nonempty reuse_id;
  id = none;
  target = none;
  probe = none;
  lan = some i.lan_ips;
  tcp = some i.tcp_port;
  t1 = none;
}

pub record Link : Type 0 where
  pub client : Client
  pub my_id : Option Text
  pub reuse_id : Text
  pub joined_members : List PeerInfo
  pub hole_open : Bool
  pub recv_running : Bool
  pub handlers : Dict Text ℕ
  pub hole_targets : Dict Text Text

pub data Action : Type 0 where
  says_bye says_hello : Text → Action
  says_hb : Option Text → Action
  asks_punch : Option Text → Text → Action
  closes_all : Action
  hole_ready : Text → Text → Action
  handles : ℕ → List ℕ → Action
  probes : Text → Action

abbrev bye_of : Option Text → List Action
bye_of none = []
bye_of (some id) = if nonempty id then says_bye id ∷ [] else []

-- stop, with or without a BYE
unfoldable pub stop : Bool → Link → Link × List Action
stop quiet s =
    if s.client.running
    then (
      record s { client = record s.client { running = false }; recv_running = false },
      (if quiet then [] else bye_of s.my_id) ++ closes_all ∷ [],
    )
    else (s, [])

abbrev asks_for : Option Text → List PeerInfo → List Action
asks_for my_id [] = []
asks_for my_id (m ∷ ms) =
    let later = asks_for my_id ms in if nonempty m.id then asks_punch my_id m.id ∷ later else later

-- _open_udp_hole_socket; `bound` says whether the socket could be made, bound and used once.
unfoldable pub open_udp_hole : Bool → Link → Link × List Action
open_udp_hole bound s =
    if bound
    then (
      record s { hole_open = true; recv_running = true },
      says_hello (or_default [] s.my_id) ∷ asks_for s.my_id s.joined_members,
    )
    else (record s { hole_open = false }, [])

-- What the server that lets the client in sends: the id and the members.
pub record Welcome : Type 0 where
  pub id : Text
  pub members : List PeerInfo

abbrev welcomed : (Candidate → Welcome) → Bool → Option Candidate → Link → Link × List Action
welcomed welcome bound none s = (s, [])
welcomed welcome bound (some c) s =
    let s' = record s { my_id = some (welcome c).id; joined_members = (welcome c).members } in
    if nonempty (welcome c).id then open_udp_hole bound s' else (s', [])

-- What follows `start`, given the client it leaves and what it gives.
abbrev pub linked :
    (Candidate → Welcome)
    → Bool
    → Link
    → Client × Started × List Text
    → Link × Started × List Action
linked welcome bound s (c, joined, errors) =
    let (s', acts) = welcomed welcome bound c.server (record s { client = c }) in (s', joined, acts)
linked welcome bound s (c, not_joined, errors) = (record s { client = c }, not_joined, [])
linked welcome bound s (c, raised, errors) = (record s { client = c }, raised, [])

-- `start` with the part of _try_connect_one that follows the join.
unfoldable pub connect :
    (Candidate → Attempt) → (Candidate → Welcome) → Bool → Link → Link × Started × List Action
unfolding open_udp_hole
connect attempt welcome bound s = linked welcome bound s (start attempt s.client)

-- What is left of the link once it is stopped.
abbrev pub forgotten : Link → Link
forgotten s = record s { my_id = none; joined_members = []; handlers = []; hole_targets = [] }

abbrev pub after_closing : List Action → Link × Started × List Action → Link × Started × List Action
after_closing closed (s, ok, acts) = (s, ok, closed ++ acts)

-- rebind
unfoldable pub rebind :
    (Candidate → Attempt) → (Candidate → Welcome) → Bool → Link → Link × Started × List Action
unfolding stop connect
rebind attempt welcome bound s =
    let (s', closed) = stop true (record s { reuse_id = or_default [] s.my_id }) in
    if s.client.running
    then after_closing closed (connect attempt welcome bound (forgotten s'))
    else (s, not_joined, [])

-- register_udp_rtp and unregister_udp_rtp
unfoldable pub register_udp_rtp : Text → ℕ → Link → Link
register_udp_rtp key chan s = record s { handlers = put key chan s.handlers }

unfoldable pub unregister_udp_rtp : Text → Link → Link
unregister_udp_rtp key s = record s { handlers = remove key s.handlers }

-- UDP_HOLE_MAGIC
abbrev pub udp_hole_magic : List ℕ
udp_hole_magic = codes "P2P_UDP_HOLE"

abbrev ready_for : Text → Option Text → Bool → List Action
ready_for key none already = []
ready_for key (some p) already = if already then [] else hole_ready p key ∷ []

abbrev handled_by : Option ℕ → List ℕ → List Action
handled_by none packet = []
handled_by (some chan) packet = handles chan packet ∷ []

-- The body of _udp_global_recv_loop, for a datagram that is not empty.
unfoldable pub on_udp_datagram : Text → List ℕ → Link → List Action
on_udp_datagram key packet s =
    if text_eq packet udp_hole_magic
    then ready_for key (get key s.hole_targets) (has key s.handlers)
    else handled_by (get key s.handlers) packet

-- "%d" of an integer, and "%s:%d" of an address
abbrev decimal_ℤ : ℤ → Text
decimal_ℤ (pos n) = decimal n
decimal_ℤ (negsuc n) = b'-' ∷ decimal (suc n)

unfoldable pub peer_key : Text × ℤ → Text
peer_key (ip, port) = ip ++ (b':' ∷ decimal_ℤ port)

abbrev aim : Text → Option (Text × ℤ) → Link → Link × List Action
aim p none s = (s, [])
aim p (some addr) s =
    (record s { hole_targets = put (peer_key addr) p s.hole_targets }, probes (peer_key addr) ∷ [])

-- _start_udp_hole up to its thread
unfoldable pub start_udp_hole : PeerInfo → Link → Link × List Action
unfolding peer_key
start_udp_hole peer s =
    if s.hole_open then aim peer.id (parse_host_port peer.pub_udp) s else (s, [])

abbrev waits_for : Text → Option Text → Bool
waits_for p none = false
waits_for p (some q) = text_eq q p

-- The end of the probing thread.
unfoldable pub end_udp_hole : Text → Text → Link → Link
end_udp_hole key p s =
    if waits_for p (get key s.hole_targets) && not (has key s.handlers)
    then record s { hole_targets = remove key s.hole_targets }
    else s

-- request_punch, and one round of _hb_loop
unfoldable pub request_punch : Text → Link → List Action
request_punch target s = asks_punch s.my_id target ∷ []

unfoldable pub heartbeat : Link → List Action
heartbeat s = if s.client.running then says_hb s.my_id ∷ [] else []
