-- ===== src/Codec.antt =====
-- dpmp/protocol/codec.py, with what it uses of Python's `struct` (big-endian, no padding) and the
-- packet types of dpmp/protocol/constants.py. A format is the list of its field widths in bytes;
-- `none` is a `struct.error`.
pub mod BigEndian
pub mod RoundTrip
pub mod Packets
pub mod Tests
use dpmp.Prelude.{
  ℕ, zero, suc, ◌+◌, Option, none, some, List, [], ◌∷◌, ◌++◌, ℤ, pos, negsuc, ltb, leb,
  if◌then◌else◌, length, take, drop,
}
use BigEndian.{Bytes, pack, unpack}

abbrev pub rtp_proto_ver : ℕ
rtp_proto_ver = 2

abbrev pub rtp_header_size : ℕ
rtp_header_size = 12

-- RTP_HEADER, and the payload formats
abbrev pub rtp_header : List ℕ
rtp_header = 1 ∷ 4 ∷ 4 ∷ 2 ∷ 1 ∷ []

abbrev pub payload_sync_req : List ℕ
payload_sync_req = 8 ∷ 1 ∷ []

abbrev pub payload_sync_ack : List ℕ
payload_sync_ack = 8 ∷ 8 ∷ 8 ∷ 1 ∷ []

abbrev pub payload_sync_commit_v2 : List ℕ
payload_sync_commit_v2 = 8 ∷ 8 ∷ []

abbrev pub payload_sync_commit_v1 : List ℕ
payload_sync_commit_v1 = 8 ∷ []

abbrev pub payload_punch_round : List ℕ
payload_punch_round = 8 ∷ 8 ∷ []

-- RTP_DATA = 0, …, RTP_PUNCH_FAIL = 9
pub data PacketType : Type 0 where
  rtp_data rtp_ack rtp_fin rtp_keepalive rtp_sync_req rtp_sync_ack rtp_sync_commit rtp_punch_round
        rtp_tcp_ready rtp_punch_fail :
      PacketType

abbrev pub type_code : PacketType → ℕ
type_code rtp_data = 0
type_code rtp_ack = 1
type_code rtp_fin = 2
type_code rtp_keepalive = 3
type_code rtp_sync_req = 4
type_code rtp_sync_ack = 5
type_code rtp_sync_commit = 6
type_code rtp_punch_round = 7
type_code rtp_tcp_ready = 8
type_code rtp_punch_fail = 9

pub record Header : Type 0 where
  pub ptype : ℕ
  pub seq : ℕ
  pub ack : ℕ
  pub length : ℕ
  pub reserved : ℕ

unfoldable pub pack_header : ℕ → ℕ → ℕ → ℕ → ℕ → Option Bytes
pack_header ptype seq ack len reserved =
    pack rtp_header (pos ptype ∷ pos seq ∷ pos ack ∷ pos len ∷ pos reserved ∷ [])

abbrev header_of : Option (List ℕ) → Option Header
header_of (some (t ∷ s ∷ a ∷ l ∷ r ∷ [])) =
    some (record { ptype = t; seq = s; ack = a; length = l; reserved = r })
header_of _ = none

unfoldable pub unpack_header : Bytes → Option Header
unpack_header bytes =
    if ltb (length bytes) rtp_header_size
    then none
    else header_of (unpack rtp_header (take rtp_header_size bytes))

unfoldable pub pack_packet : ℕ → ℕ → ℕ → Bytes → Option Bytes
pack_packet ptype seq ack payload = elim (pack_header ptype seq ack (length payload) 0) [
  | none ↦ none
  | some header ↦ some (header ++ payload)
]

abbrev pub two_of : Option (List ℕ) → Option (ℕ × ℕ)
two_of (some (a ∷ b ∷ [])) = some (a, b)
two_of _ = none

abbrev four_of : Option (List ℕ) → Option (ℕ × ℕ × ℕ × ℕ)
four_of (some (a ∷ b ∷ c ∷ d ∷ [])) = some (a, b, c, d)
four_of _ = none

abbrev one_of : Option (List ℕ) → Option ℕ
one_of (some (a ∷ [])) = some a
one_of _ = none

unfoldable pub pack_sync_req : ℤ → ℤ → Option Bytes
pack_sync_req t1_ms proto_ver = pack payload_sync_req (t1_ms ∷ proto_ver ∷ [])

unfoldable pub unpack_sync_req : Bytes → Option (ℕ × ℕ)
unpack_sync_req payload = two_of (unpack payload_sync_req payload)

unfoldable pub pack_sync_ack : ℤ → ℤ → ℤ → ℤ → Option Bytes
pack_sync_ack t1 t2 t3 proto_ver = pack payload_sync_ack (t1 ∷ t2 ∷ t3 ∷ proto_ver ∷ [])

unfoldable pub unpack_sync_ack : Bytes → Option (ℕ × ℕ × ℕ × ℕ)
unpack_sync_ack payload = four_of (unpack payload_sync_ack payload)

unfoldable pub pack_sync_commit_v2 : ℤ → ℤ → Option Bytes
pack_sync_commit_v2 t_go_r commit_id = pack payload_sync_commit_v2 (t_go_r ∷ commit_id ∷ [])

unfoldable pub unpack_sync_commit_v2 : Bytes → Option (ℕ × ℕ)
unpack_sync_commit_v2 payload = two_of (unpack payload_sync_commit_v2 payload)

unfoldable pub pack_sync_commit_v1 : ℤ → Option Bytes
pack_sync_commit_v1 delta_ms = pack payload_sync_commit_v1 (delta_ms ∷ [])

unfoldable pub unpack_sync_commit_v1 : Bytes → Option ℕ
unpack_sync_commit_v1 payload = one_of (unpack payload_sync_commit_v1 payload)

unfoldable pub pack_punch_round : ℤ → ℤ → Option Bytes
pack_punch_round round_no t_go_r = pack payload_punch_round (round_no ∷ t_go_r ∷ [])

unfoldable pub unpack_punch_round : Bytes → Option (ℕ × ℕ)
unpack_punch_round payload = two_of (unpack payload_punch_round payload)
