-- ===== src/Client/Discovery/Exchange.antt =====
-- The listeners of discovery.py together with what they send in answer, and two devices whose
-- datagrams reach each other's scan port.
pub mod Found
use dpmp.Prelude.{
  ℕ, Bool, true, false, ◌&&◌, Option, none, some, List, [], ◌∷◌, ◌++◌, if◌then◌else◌, eqb, Text,
  text_eq,
}
use dpmp.Dict.{Dict}
use dpmp.Client.Discovery.{
  Node, Announcement, Action, node_gone, new_node, answer_heartbeat, answer, scan_reply,
  on_datagram, on_scan,
}
use dpmp.Client.Discovery.Sending as Sending
use dpmp.Client.Discovery.Sending.{
  Mark, reply, heartbeat, ack, bye, Sent, Own, Datagram, to, build_msg,
}

abbrev is_bye : Mark → Bool
is_bye bye = true
is_bye _ = false

abbrev is_heartbeat : Mark → Bool
is_heartbeat heartbeat = true
is_heartbeat _ = false

abbrev is_reply : Mark → Bool
is_reply reply = true
is_reply _ = false

unfoldable pub has_mark : (Mark → Bool) → List Mark → Bool
has_mark p [] = false
has_mark p (k ∷ ks) = if p k then true else has_mark p ks

-- A message of _build_msg as the receiver looks it up; a mark that is not there is None.
unfoldable pub received : Sent → Announcement
unfolding has_mark
received m = record {
  hostname = some m.hostname;
  device_id = some m.device_id;
  mac = some m.mac;
  bye = has_mark is_bye m.marks;
  heartbeat = has_mark is_heartbeat m.marks;
  reply = has_mark is_reply m.marks;
}

-- The `sendto` calls of the listeners.
unfoldable pub answers : Own → List Action → List Datagram
unfolding build_msg
answers o [] = []
answers o (node_gone ip ∷ acts) = answers o acts
answers o (new_node ip ∷ acts) = answers o acts
answers o (answer_heartbeat ip ∷ acts) =
    to ip o.udp_port (build_msg o (heartbeat ∷ ack ∷ [])) ∷ answers o acts
answers o (answer ip ∷ acts) = to ip o.udp_port (build_msg o (reply ∷ [])) ∷ answers o acts
answers o (scan_reply ip ∷ acts) =
    to ip o.scan_port (build_msg o (Sending.scan_reply ∷ [])) ∷ answers o acts

-- A device at its address: `ips` are the addresses that it takes for its own.
pub record Station : Type 0 where
  pub own : Own
  pub ip : Text
  pub ips : List Text
  pub nodes : Dict Text Node

-- A datagram at the discovery port, and one at the scan port.
unfoldable pub listen_udp : Station → Text → Announcement → ℕ → Station × List Datagram
unfolding on_datagram answers
listen_udp s ip msg now =
    let (nodes, acts) = on_datagram s.own.device_id s.ips ip msg now s.nodes in
    (record s { nodes = nodes }, answers s.own acts)

unfoldable pub listen_scan : Station → Text → Announcement → ℕ → Station × List Datagram
unfolding on_scan answers
listen_scan s ip msg now =
    let (nodes, acts) = on_scan s.own.device_id s.ips ip msg now s.nodes in
    (record s { nodes = nodes }, answers s.own acts)

-- The first of the datagrams that reaches the scan port of a device.
unfoldable pub reaches : Station → List Datagram → Option Sent
reaches s [] = none
reaches s (to ip port msg ∷ ds) =
    let later = reaches s ds in
    if text_eq ip s.ip && eqb port s.own.scan_port then some msg else later

-- A message from `a` is delivered to the scan port of `b` at a time; the answer is on its way back.
abbrev pub on_its_way : Station → Station → Option Sent → Option (Station × Station × Sent)
on_its_way b a none = none
on_its_way b a (some msg) = some (b, a, msg)

unfoldable pub bounce : Station → Station → Sent → ℕ → Option (Station × Station × Sent)
unfolding listen_scan reaches received
bounce a b msg now =
    let (b', out) = listen_scan b a.ip (received msg) now in on_its_way b' a (reaches a out)

-- One delivery after another, as long as there is something to deliver.
unfoldable pub bounces :
    List ℕ → Option (Station × Station × Sent) → Option (Station × Station × Sent)
unfolding bounce
bounces [] flight = flight
bounces (now ∷ nows) none = none
bounces (now ∷ nows) (some (a, b, msg)) = bounces nows (bounce a b msg now)
