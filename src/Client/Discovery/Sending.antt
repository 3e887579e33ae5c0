-- ===== src/Client/Discovery/Sending.antt =====
-- What discovery.py sends: announcements, probes, scans and the goodbye.
use dpmp.Prelude.{
  ℕ, zero, suc, Bool, Option, none, some, List, [], ◌∷◌, ◌++◌, if◌then◌else◌, ltb, Text, codes,
}
use dpmp.Dict.{Dict}
use dpmp.Client.Discovery.{Node, add_manual_node}

-- LAN_K_*
pub data Mark : Type 0 where
  discovery reply scan_reply heartbeat ack bye : Mark

pub record Sent : Type 0 where
  pub hostname : Text
  pub device_id : Text
  pub mac : Text
  pub marks : List Mark

-- The attributes that the messages and the sockets are made of.
pub record Own : Type 0 where
  pub hostname : Text
  pub device_id : Text
  pub mac : Text
  pub udp_port : ℕ
  pub scan_port : ℕ
  pub broadcast_addrs : List Text
  pub discover_interval_ms : ℕ

-- A datagram to an address and a port.
pub data Datagram : Type 0 where
  to : Text → ℕ → Sent → Datagram

-- _build_msg
unfoldable pub build_msg : Own → List Mark → Sent
build_msg o marks = record {
  hostname = o.hostname;
  device_id = o.device_id;
  mac = o.mac;
  marks = marks;
}

abbrev everybody : Text
everybody = codes "255.255.255.255"

-- One round of _udp_broadcaster_on_sock: what it sends, and how long it sleeps, `elapsed`
-- milliseconds after its start.
unfoldable pub broadcast_round : Own → Bool → ℕ → List Datagram × ℕ
unfolding build_msg
broadcast_round o pausing elapsed = (
  if pausing then [] else to everybody o.udp_port (build_msg o (discovery ∷ [])) ∷ [],
  if ltb elapsed 5000 then 200 else o.discover_interval_ms,
)

abbrev to_all : Own → Sent → List Text → List Datagram
to_all o msg [] = []
to_all o msg (a ∷ addrs) = to a o.udp_port msg ∷ to_all o msg addrs

abbrev repeated : ℕ → List Datagram → List Datagram
repeated zero d = []
repeated (suc n) d = d ++ repeated n d

-- broadcast_search
unfoldable pub broadcast_search : Own → List Datagram
unfolding build_msg
broadcast_search o = repeated 3 (to_all o (build_msg o (discovery ∷ [])) o.broadcast_addrs)

abbrev scan_hosts : Own → Sent → List (Text × Bool) → List Datagram
scan_hosts o msg [] = []
scan_hosts o msg ((host, running) ∷ hosts) =
    let later = scan_hosts o msg hosts in if running then to host o.scan_port msg ∷ later else []

-- scan_subnet: the hosts of the network, each with whether discovery still runs when its turn comes;
-- none for a text that is no network
unfoldable pub scan_subnet : Own → Option (List (Text × Bool)) → List Datagram
unfolding build_msg
scan_subnet o none = []
scan_subnet o (some hosts) = scan_hosts o (build_msg o (scan_reply ∷ [])) hosts

-- _send_probe_to
unfoldable pub send_probe_to : Own → Text → List Datagram
unfolding build_msg
send_probe_to o ip =
    to ip o.udp_port (build_msg o []) ∷ to ip o.scan_port (build_msg o (scan_reply ∷ [])) ∷ []

-- add_manual_node with the probe
unfoldable pub add_and_probe :
    Own → Text → Option Text → ℕ → Dict Text Node → Dict Text Node × List Datagram
unfolding send_probe_to
add_and_probe o ip hostname now nodes = (add_manual_node ip hostname now nodes, send_probe_to o ip)

-- _send_bye
unfoldable pub send_bye : Own → List Datagram
unfolding build_msg
send_bye o = to everybody o.udp_port (build_msg o (bye ∷ [])) ∷ []
