-- ===== src/Server/Handlers.antt =====
-- The other handlers, the registration of a TCP mapping, and one round of the clean-up. `now` is the
-- reading of `now_ms`; a message's text has been read, so `dispatch` starts at its type.
pub mod Leaving
pub mod Meeting
pub mod Registration
use dpmp.Prelude.{
  ℕ, zero, suc, ◌+◌, ◌-◌, ◌*◌, ◌≤◌, Bool, true, false, not, ◌&&◌, ◌||◌, Option, none, some, List,
  [], ◌∷◌, ◌++◌, if◌then◌else◌, ltb, eqb, Text, text_eq, text_key, nonempty, is_some,
}
use dpmp.Dict.{Dict, get, has, put, remove}
use dpmp.Server.Format.{Addr, fmt_addr}
use dpmp.Server.State.{
  Settings, Member, Room, Server, MessageType, join, hb, punch_req, bye, nat_probe, time_req,
  udp_hello, unknown, Message, PeerInfo, Reply, member_leave, member_update, punch_go,
  nat_probe_reply, time_reply, Output, sends, closes, saves, member_for_peer, or_default,
  members_of, member_at, set_room,
}
use dpmp.Server.Join.{others, broadcast, handle_join}

-- `member["last_hb"] = now` in the object of the table
abbrev pub touch : Text → Text → Option Member → ℕ → Server → Server
touch room mid none now s = s
touch room mid (some m) now s =
    set_room room (put mid (record m { last_hb = now }) (members_of room s)) s

abbrev pub touch_from : Text → Text → Option Member → Addr → ℕ → Server → Server
touch_from room mid none addr now s = s
touch_from room mid (some m) addr now s =
    set_room room (put mid (record m { last_hb = now; pub_addr = addr }) (members_of room s)) s

abbrev pub hb_entry : Text → Option (Text × Addr) → Addr → ℕ → Server → Server
hb_entry mid none addr now s = s
hb_entry mid (some (room, old)) addr now s = touch_from room mid (member_at room mid s) addr now s

unfoldable pub handle_hb : Option Text → Addr → ℕ → Server → Server
handle_hb none addr now s = s
handle_hb (some mid) addr now s = hb_entry mid (get mid s.id_index) addr now s

abbrev pub punch_pair : Server → Text → Text → Option Member → Option Member → ℕ → List Output
punch_pair s me target none b at = []
punch_pair s me target (some a) none at = []
punch_pair s me target (some a) (some b) at =
    sends a.pub_addr (punch_go (member_for_peer s target b) at)
    ∷ sends b.pub_addr (punch_go (member_for_peer s me a) at)
    ∷ []

-- `rooms[room_a]`: a room that is missing is a KeyError, which is none here.
abbrev pub punch_room : Server → Text → Text → Option Room → ℕ → Option (List Output)
punch_room s me target none at = none
punch_room s me target (some ms) at = some (punch_pair s me target (get me ms) (get target ms) at)

abbrev pub punch_rooms :
    Server → Text → Text → Option (Text × Addr) → Option (Text × Addr) → ℕ → Option (List Output)
punch_rooms s me target none b at = some []
punch_rooms s me target (some a) none at = some []
punch_rooms s me target (some (room_a, x)) (some (room_b, y)) at =
    if text_eq room_a room_b then punch_room s me target (get room_a s.rooms) at else some []

unfoldable pub handle_punch_req :
    Settings → Option Text → Option Text → ℕ → Server → Option (List Output)
handle_punch_req c none target now s = some []
handle_punch_req c (some me) none now s = some []
handle_punch_req c (some me) (some target) now s =
    punch_rooms s me target (get me s.id_index) (get target s.id_index) (now + c.punch_delay_ms)

abbrev close_of : Option ℕ → List Output
close_of none = []
close_of (some conn) = closes conn ∷ []

abbrev farewell : Text → Option Member → Room → List Output
farewell mid none left = []
farewell mid (some m) left = broadcast (member_leave mid) left ++ saves ∷ []

-- A room that is empty goes, and its password with it.
abbrev pub left_with : Text → Room → Server → Server
left_with room [] s = record s { rooms = remove room s.rooms; room_pwd = remove room s.room_pwd }
left_with room (x ∷ xs) s = set_room room (x ∷ xs) s

abbrev pub drop_member : Text → Text → Server → Server
drop_member room mid s = left_with room (remove mid (members_of room s)) s

abbrev pub remove_entry : Text → Option (Text × Addr) → Server → Server × List Output
remove_entry mid none s = (s, [])
remove_entry mid (some (room, a)) s =
    let s' = drop_member room mid s in
    (
      record s' {
        id_index = remove mid s.id_index;
        tcp_socks = remove mid s.tcp_socks;
        tcp_mappings = remove mid s.tcp_mappings;
        tcp_mapping_ts = remove mid s.tcp_mapping_ts;
        udp_mappings = remove mid s.udp_mappings;
      },
      close_of (get mid s.tcp_socks)
          ++ farewell mid (member_at room mid s) (remove mid (members_of room s)),
    )

unfoldable pub remove_member : Text → Server → Server × List Output
remove_member mid s = remove_entry mid (get mid s.id_index) s

unfoldable pub handle_bye : Option Text → Server → Server × List Output
unfolding remove_member
handle_bye none s = (s, [])
handle_bye (some mid) s = remove_member mid s

unfoldable pub handle_nat_probe : Option Text → Addr → List Output
handle_nat_probe probe addr =
    sends addr (nat_probe_reply (or_default [] probe) (fmt_addr addr)) ∷ []

unfoldable pub handle_time_req : Option ℕ → Addr → ℕ → List Output
handle_time_req t1 addr now = sends addr (time_reply (or_default 0 t1) now) ∷ []

abbrev pub touch_entry : Text → Option (Text × Addr) → ℕ → Server → Server
touch_entry mid none now s = s
touch_entry mid (some (room, a)) now s = touch room mid (member_at room mid s) now s

unfoldable pub handle_udp_hello : Option Text → Addr → ℕ → Server → Server
handle_udp_hello none addr now s = s
handle_udp_hello (some mid) addr now s =
    if nonempty mid
    then touch_entry mid (get mid s.id_index) now
        (record s { udp_mappings = put mid addr s.udp_mappings })
    else s

-- A handler that raises sends nothing more; whether one does is said in Listening.
unfoldable pub handle :
    MessageType
    → (Text → Text)
    → Settings
    → Text
    → Message
    → Addr
    → ℕ
    → Server
    → Server × List Output
unfolding handle_hb handle_punch_req handle_bye handle_nat_probe handle_time_req handle_udp_hello
handle join sha256 c fresh msg addr now s = handle_join sha256 c fresh msg addr now s
handle hb sha256 c fresh msg addr now s = (handle_hb msg.id addr now s, [])
handle punch_req sha256 c fresh msg addr now s =
    (s, or_default [] (handle_punch_req c msg.id msg.target now s))
handle bye sha256 c fresh msg addr now s = handle_bye msg.id s
handle nat_probe sha256 c fresh msg addr now s = (s, handle_nat_probe msg.probe addr)
handle time_req sha256 c fresh msg addr now s = (s, handle_time_req msg.t1 addr now)
handle udp_hello sha256 c fresh msg addr now s = (handle_udp_hello msg.id addr now s, [])
handle unknown sha256 c fresh msg addr now s = (s, [])

unfoldable pub dispatch :
    (Text → Text) → Settings → Text → Message → Addr → ℕ → Server → Server × List Output
unfolding handle
dispatch sha256 c fresh msg addr now s = handle msg.kind sha256 c fresh msg addr now s

-- The room told of a new mapping: what the others are sent.
abbrev announce : Text → Option (Text × Addr) → ℕ → Server → List Output
announce mid none now s = []
announce mid (some (room, a)) now s = elim (member_at room mid s) [
  | none ↦ []
  | some m ↦ broadcast (member_update (member_for_peer s mid m)) (others mid (members_of room s))
]

-- _handle_tcp_reg up to its waiting loop: connection `conn` from `addr` has named the id.
unfoldable pub tcp_registered : Text → ℕ → Addr → ℕ → Server → Server × List Output
tcp_registered mid conn addr now s =
    if nonempty mid
    then (let s' = touch_entry mid (get mid s.id_index) now (record s {
      tcp_mappings = put mid addr s.tcp_mappings;
      tcp_mapping_ts = put mid now s.tcp_mapping_ts;
      tcp_socks = put mid conn s.tcp_socks;
    }) in
        (s', close_of (get mid s.tcp_socks) ++ announce mid (get mid s.id_index) now s'))
    else (s, closes conn ∷ [])

abbrev owns : ℕ → Option ℕ → Bool
owns conn none = false
owns conn (some c) = eqb c conn

-- Its `finally`: the mapping stays, and the grace period starts.
unfoldable pub tcp_closed : Text → ℕ → ℕ → Server → Server × List Output
tcp_closed mid conn now s = (
  if owns conn (get mid s.tcp_socks)
      then record s {
        tcp_socks = remove mid s.tcp_socks;
        tcp_mapping_ts = put mid now s.tcp_mapping_ts;
      }
      else s,
  closes conn ∷ [],
)

abbrev last_hb_of : Option Member → ℕ
last_hb_of none = 0
last_hb_of (some m) = m.last_hb

-- `last_hb < now - timeout * 1000`, with the subtraction moved over
unfoldable pub stale : Settings → ℕ → Server → Dict Text (Text × Addr) → List Text
stale c now s [] = []
stale c now s ((mid, (room, a)) ∷ rest) =
    let later = stale c now s rest in
    if ltb (last_hb_of (member_at room mid s) + c.heartbeat_timeout * 1000) now
    then mid ∷ later
    else later

unfoldable pub remove_all : List Text → Server → Server × List Output
unfolding remove_member
remove_all [] s = (s, [])
remove_all (mid ∷ mids) s =
    let (s', out) = remove_member mid s in
    let (s'', more) = remove_all mids s' in (s'', out ++ more)

unfoldable pub expired : Settings → ℕ → Dict Text ℕ → Dict Text ℕ → List Text
expired c now socks [] = []
expired c now socks ((mid, ts) ∷ rest) =
    let later = expired c now socks rest in
    if not (has mid socks) && ltb (ts + c.tcp_mapping_grace_ms) now then mid ∷ later else later

abbrev pub remove_keys {ℓ} : {V : Type ℓ} → List Text → Dict Text V → Dict Text V
remove_keys [] d = d
remove_keys (k ∷ ks) d = remove_keys ks (remove k d)

-- The body of cleanup_loop, less the periodic saving.
unfoldable pub cleanup : Settings → ℕ → ℕ → Server → Server × List Output
unfolding stale remove_all expired
cleanup c now later s =
    let (s', out) = remove_all (stale c now s s.id_index) s in
    let gone = expired c later s'.tcp_socks s'.tcp_mapping_ts in
    (
      record s' {
        tcp_mappings = remove_keys gone s'.tcp_mappings;
        tcp_mapping_ts = remove_keys gone s'.tcp_mapping_ts;
      },
      out,
    )
