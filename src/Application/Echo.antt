-- ===== src/Application/Echo.antt =====
-- examples/echo.py: what it makes of the events, of what it receives, and of the lines that it reads.
-- UTF-8 is a pair of functions; `sendall` is an effect.
pub mod Forever
use dpmp.Prelude.{
  ℕ, Bool, true, false, not, ◌&&◌, Option, none, some, List, [], ◌∷◌, ◌++◌, if◌then◌else◌, Text,
  text_eq, nonempty, codes, take,
}
use dpmp.Codec.BigEndian.{Bytes}
use dpmp.Server.Format.{Addr, strip}
use dpmp.Server.State.{PeerInfo}
use dpmp.Path.Keepalive.{Role}
use dpmp.Client.Manager.State.{Manager, ConnState, is_connected}
use dpmp.Client.Manager.Channels.{Channel, Choice, get_send_channel}
use dpmp.Client.Manager.Queries.{MemberView, get_members, has_peer}
use dpmp.Client.Manager.Traces as Traces
use dpmp.Client.Manager.Traces.{Event}

pub record Utf8 : Type 0 where
  pub encode : Text → Bytes
  pub decode : Bytes → Text

-- What the signalling client reports, and what the manager makes of it: the assignments of main.
pub data Report : Type 0 where
  joined : List PeerInfo → Report
  member_join : PeerInfo → Report
  member_leave : Text → Report
  punch_go : PeerInfo → ℕ → Report
  udp_hole_ready : Text → Addr → ℕ → ℕ → Report
  mapping_ready : Report

unfoldable pub wired : Report → Event
wired (joined ms) = Traces.members_join ms
wired (member_join m) = Traces.members_join (m ∷ [])
wired (member_leave p) = Traces.member_leaves p
wired (punch_go peer at) = Traces.punch_go peer at
wired (udp_hole_ready p addr chan now) = Traces.hole_ready p addr chan now
wired mapping_ready = Traces.mapping_is_ready

-- "echo: " + text
unfoldable pub answer : Utf8 → Bytes → Bytes
unfolding strip
answer u bytes = u.encode (codes "echo: " ++ strip (u.decode bytes))

-- What `recv(4096)` gives of the bytes that are there, or none where it raises.
abbrev pub received : Option Bytes → Option Bytes
received none = none
received (some bytes) = some (take 4096 bytes)

abbrev answered : Utf8 → Option (Channel × Option Role) → Option Bytes → List (Channel × Bytes)
answered u none got = []
answered u (some (ch, role)) none = []
answered u (some (ch, role)) (some []) = []
answered u (some (ch, role)) (some (b ∷ bytes)) = (ch, answer u (b ∷ bytes)) ∷ []

-- One turn of recv_loop: what is sent.
unfoldable pub recv_turn : Utf8 → Choice → Text → Manager → Option Bytes → List (Channel × Bytes)
unfolding answer get_send_channel
recv_turn u w p s there = answered u (get_send_channel w p s) (received there)

-- recv_loop: each turn with the manager as it is then, and what is there to read.
unfoldable pub recv_loop :
    Utf8 → Choice → Text → List (Manager × Option Bytes) → List (Channel × Bytes)
unfolding recv_turn has_peer
recv_loop u w p [] = []
recv_loop u w p ((s, there) ∷ turns) =
    let later = recv_loop u w p turns in
    if has_peer p s then recv_turn u w p s there ++ later else []

abbrev connected_view : Option ConnState → Bool
connected_view none = false
connected_view (some st) = is_connected st

abbrev sent_on :
    Utf8 → Text → Option (Channel × Option Role) → List (Channel × Bytes) → List (Channel × Bytes)
sent_on u text none out = out
sent_on u text (some (ch, role)) out = (ch, u.encode text) ∷ out

abbrev send_all : Utf8 → Choice → Text → Manager → List MemberView → List (Channel × Bytes)
send_all u w text s [] = []
send_all u w text s (m ∷ ms) =
    let later = send_all u w text s ms in
    if nonempty m.id && connected_view m.state
    then sent_on u text (get_send_channel w m.id s) later
    else later

-- The loop of main over the lines that are typed, an empty one for the end of the input.
unfoldable pub main_loop : Utf8 → Choice → List (Text × Manager) → List (Channel × Bytes)
unfolding strip get_members get_send_channel
main_loop u w [] = []
main_loop u w ((line, s) ∷ lines) =
    let later = main_loop u w lines in
    let text = strip line in
    if not (nonempty line)
    then []
    else if not (nonempty text)
    then later
    else if text_eq text (codes "/quit")
    then []
    else send_all u w text s (get_members s) ++ later
