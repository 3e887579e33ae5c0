-- ===== src/Server/State.antt =====
-- The tables of the server, the messages, and what a member's peers are told about it. A JSON message
-- is the record of the fields that the handlers read, each absent or of the type that the clients
-- send. `sha256` is hashlib's digest in hexadecimal; ids from `uuid4` are handed in.
pub mod Sizes
use dpmp.Prelude.{
  ℕ, Bool, Option, none, some, List, [], ◌∷◌, ◌++◌, if◌then◌else◌, Text, text_eq, text_key, ℤ, pos,
  ◌-ℤ◌,
}
use dpmp.Dict.{Dict, get, put}
use dpmp.Server.Format.{Addr, fmt_addr}

pub record Settings : Type 0 where
  pub max_room_size : ℕ
  pub heartbeat_timeout : ℕ
  pub punch_delay_ms : ℕ
  pub tcp_mapping_grace_ms : ℕ

-- DEFAULTS and TCP_MAPPING_GRACE_MS
abbrev pub default_settings : Settings
default_settings = record {
  max_room_size = 16;
  heartbeat_timeout = 30;
  punch_delay_ms = 1000;
  tcp_mapping_grace_ms = 180000;
}

pub record Member : Type 0 where
  pub name : Text
  pub pub_addr : Addr
  pub lan : List Text
  pub tcp : ℕ
  pub last_hb : ℕ
  pub did : Text

abbrev pub Room : Type 0
Room = Dict Text Member

-- A connection of the TCP observation is a number.
pub record Server : Type 0 where
  pub rooms : Dict Text Room
  pub room_pwd : Dict Text (Option Text)
  pub id_index : Dict Text (Text × Addr)
  pub tcp_mappings : Dict Text Addr
  pub tcp_socks : Dict Text ℕ
  pub tcp_mapping_ts : Dict Text ℕ
  pub udp_mappings : Dict Text Addr

abbrev pub empty_server : Server
empty_server = record {
  rooms = [];
  room_pwd = [];
  id_index = [];
  tcp_mappings = [];
  tcp_socks = [];
  tcp_mapping_ts = [];
  udp_mappings = [];
}

pub data MessageType : Type 0 where
  join hb punch_req bye nat_probe time_req udp_hello unknown : MessageType

pub record Message : Type 0 where
  pub kind : MessageType
  pub room : Option Text
  pub pwd : Option Text
  pub name : Option Text
  pub did : Option Text
  pub reuse_id : Option Text
  pub id : Option Text
  pub target : Option Text
  pub probe : Option Text
  pub lan : Option (List Text)
  pub tcp : Option ℕ
  pub t1 : Option ℕ

pub data ErrorCode : Type 0 where
  no_room room_open need_password bad_password room_full : ErrorCode

pub record PeerInfo : Type 0 where
  pub id : Text
  pub did : Text
  pub name : Text
  pub pub_addr : Text
  pub pub_tcp : Text
  pub pub_udp : Text
  pub tcp_udp_offset : Option ℤ
  pub lan : List Text
  pub tcp : ℕ

pub data Reply : Type 0 where
  error : ErrorCode → Reply
  joined : Text → List PeerInfo → Bool → Reply
  member_leave : Text → Reply
  member_join member_update : PeerInfo → Reply
  punch_go : PeerInfo → ℕ → Reply
  nat_probe_reply : Text → Text → Reply
  time_reply : ℕ → ℕ → Reply

pub data Output : Type 0 where
  sends : Addr → Reply → Output
  closes : ℕ → Output
  saves : Output

-- hash_room_pwd: sha256("room:pwd")
unfoldable pub hash_room_pwd : (Text → Text) → Text → Text → Text
hash_room_pwd sha256 room pwd = sha256 (room ++ (b':' ∷ pwd))

-- _calc_tcp_udp_offset: the two ports, seen at one address, subtracted
abbrev offset_of : Option Addr → Option Addr → Option ℤ
offset_of none t = none
offset_of (some u) none = none
offset_of (some (uip, uport)) (some (tip, tport)) =
    if text_eq uip tip then some (pos tport -ℤ pos uport) else none

unfoldable pub calc_tcp_udp_offset : Server → Text → Option ℤ
calc_tcp_udp_offset s mid = offset_of (get mid s.udp_mappings) (get mid s.tcp_mappings)

abbrev pub shown : Option Addr → Text
shown none = []
shown (some a) = fmt_addr a

unfoldable pub member_for_peer : Server → Text → Member → PeerInfo
unfolding calc_tcp_udp_offset
member_for_peer s mid m = record {
  id = mid;
  did = m.did;
  name = m.name;
  pub_addr = fmt_addr m.pub_addr;
  pub_tcp = shown (get mid s.tcp_mappings);
  pub_udp = shown (get mid s.udp_mappings);
  tcp_udp_offset = calc_tcp_udp_offset s mid;
  lan = m.lan;
  tcp = m.tcp;
}

abbrev pub or_default {ℓ} : {A : Type ℓ} → A → Option A → A
or_default d none = d
or_default d (some a) = a

-- `rooms.get(room, {})`
abbrev pub members_of : Text → Server → Room
members_of room s = or_default [] (get room s.rooms)

-- `rooms.get(room, {}).get(mid)`
abbrev pub member_at : Text → Text → Server → Option Member
member_at room mid s = get mid (members_of room s)

-- A change inside the object `rooms[room]`, which is there.
abbrev pub set_room : Text → Room → Server → Server
set_room room members s = record s { rooms = put room members s.rooms }
