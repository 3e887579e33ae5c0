-- ===== src/Client/Discovery.antt =====
-- dpmp/link/discovery.py: the table of the nodes of the local network, and what a datagram does to it.
pub mod Devices
pub mod Sending
pub mod Exchange
pub mod Listening
pub mod Tests
use dpmp.Prelude.{
  ℕ, zero, suc, ◌+◌, Bool, true, false, not, ◌&&◌, ◌||◌, Option, none, some, List, [], ◌∷◌,
  if◌then◌else◌, Text, text_eq, text_key, codes, nonempty, is_some,
}
use dpmp.Dict.{Dict, get, has, put, remove}

pub data Source : Type 0 where
  udp scan manual : Source

-- A node that was added by hand has neither device id nor MAC.
pub record Node : Type 0 where
  pub hostname : Text
  pub device_id : Option Text
  pub mac : Option Text
  pub last_seen : ℕ
  pub source : Source
  pub heartbeat_fail : ℕ

pub record Announcement : Type 0 where
  pub hostname : Option Text
  pub device_id : Option Text
  pub mac : Option Text
  pub bye : Bool
  pub heartbeat : Bool
  pub reply : Bool

abbrev pub or_text : Text → Option Text → Text
or_text d none = d
or_text d (some t) = if nonempty t then t else d

abbrev pub same_device : Text → Option Text → Bool
same_device did none = false
same_device did (some d) = text_eq d did

-- The other addresses of the device are dropped.
unfoldable pub drop_device : Text → Text → Dict Text Node → Dict Text Node
drop_device remote_ip did [] = []
drop_device remote_ip did ((ip, n) ∷ nodes) =
    let rest = drop_device remote_ip did nodes in
    if not (text_eq ip remote_ip) && same_device did n.device_id then rest else (ip, n) ∷ rest

abbrev pub refreshed : Option Node → Text → Text → Text → ℕ → Source → Node
refreshed none hostname did mac now source = record {
  hostname = hostname;
  device_id = some did;
  mac = some mac;
  last_seen = now;
  source = source;
  heartbeat_fail = 0;
}
refreshed (some n) hostname did mac now source = record n {
  hostname = hostname;
  device_id = some did;
  mac = some mac;
  last_seen = now;
  heartbeat_fail = 0;
}

-- _upsert_node: the nodes, and whether the address is new
unfoldable pub upsert_node :
    Text → Announcement → Source → ℕ → Dict Text Node → Dict Text Node × Bool
unfolding drop_device
upsert_node remote_ip msg source now nodes =
    let did = or_text [] msg.device_id in
    let kept = if nonempty did then drop_device remote_ip did nodes else nodes in
    let old = get remote_ip kept in
    (
      put remote_ip
          (refreshed old (or_text remote_ip msg.hostname) did (or_text [] msg.mac) now source) kept,
      not (is_some old),
    )

pub data Action : Type 0 where
  node_gone new_node answer_heartbeat answer scan_reply : Text → Action

abbrev seen_at : Text → Option Node → ℕ → Dict Text Node → Dict Text Node
seen_at ip none now nodes = nodes
seen_at ip (some n) now nodes = put ip (record n { last_seen = now }) nodes

unfoldable pub is_member : Text → List Text → Bool
is_member x [] = false
is_member x (y ∷ ys) = if text_eq y x then true else is_member x ys

abbrev is_own : Text → Announcement → Bool
is_own my_did msg = elim msg.device_id [ none ↦ false | some d ↦ nonempty d && text_eq d my_did ]

abbrev told_if : Bool → Action → List Action → List Action
told_if true a acts = a ∷ acts
told_if false a acts = acts

-- The body of listen_sock, with the addresses that are the machine's own or a loopback's.
unfoldable pub on_datagram :
    Text → List Text → Text → Announcement → ℕ → Dict Text Node → Dict Text Node × List Action
unfolding upsert_node is_member
on_datagram my_did my_ips ip msg now nodes =
    if is_member ip my_ips
      || is_member ip (codes "127.0.0.1" ∷ codes "::1" ∷ codes "0.0.0.0" ∷ [])
      || is_own my_did msg
    then (nodes, [])
    else if msg.bye
    then (remove ip nodes, told_if (has ip nodes) (node_gone ip) [])
    else if msg.heartbeat
    then (seen_at ip (get ip nodes) now nodes, answer_heartbeat ip ∷ [])
    else let (nodes', is_new) = upsert_node ip msg udp now nodes in
      (nodes', told_if is_new (new_node ip) (told_if (not msg.reply) (answer ip) []))

-- The body of the scan's listener.
unfoldable pub on_scan :
    Text → List Text → Text → Announcement → ℕ → Dict Text Node → Dict Text Node × List Action
unfolding upsert_node is_member
on_scan my_did my_ips ip msg now nodes =
    if is_own my_did msg
      || is_member ip my_ips
      || is_member ip (codes "127.0.0.1" ∷ codes "::1" ∷ [])
    then (nodes, [])
    else let (nodes', is_new) = upsert_node ip msg scan now nodes in
      (nodes', scan_reply ip ∷ told_if is_new (new_node ip) [])

-- add_manual_node, less the probe that it sends
unfoldable pub add_manual_node : Text → Option Text → ℕ → Dict Text Node → Dict Text Node
add_manual_node ip hostname now nodes =
    put ip
      (record {
        hostname = or_text ip hostname;
        device_id = none;
        mac = none;
        last_seen = now;
        source = manual;
        heartbeat_fail = 0;
      })
      nodes
