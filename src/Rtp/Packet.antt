-- ===== src/Rtp/Packet.antt =====
-- `on_packet`, which the receive loop calls for each datagram of the peer, and `_on_data`.
pub mod Copies
pub mod Acks
pub mod Delivery
pub mod Keeps
pub mod Window
pub mod Meeting
use dpmp.Prelude.{
  ℕ, ◌+◌, Bool, true, false, ◌||◌, Option, none, some, List, [], ◌∷◌, ◌++◌, if◌then◌else◌, ltb, eqb,
  length, take, drop,
}
use dpmp.Codec.BigEndian.{Bytes}
use dpmp.Codec.{
  Header, type_code, rtp_header_size, unpack_header, pack_header, rtp_data, rtp_ack, rtp_fin,
  rtp_keepalive, rtp_sync_req, rtp_sync_ack, rtp_sync_commit, rtp_punch_round, rtp_tcp_ready,
  rtp_punch_fail,
}
use dpmp.Rtp.State.{Rtp, Effect, tcp_ready, punch_fail, try_send}
use dpmp.Rtp.Sending.{on_ack}
use dpmp.Rtp.Receiving.{accept}
use dpmp.Rtp.Control.{on_sync_req, on_sync_ack, on_sync_commit, on_punch_round_pkt}

abbrev acked : ℕ → Rtp → Rtp
acked ack s = record s { sending = on_ack s.cfg ack s.sending }

-- _on_data: the acknowledgement that comes along, an ACK for this very packet, and the payload.
unfoldable pub on_data : (Bytes → Bool) → ℕ → ℕ → ℕ → Bytes → Rtp → Rtp × List Effect
on_data up now seq ack payload s =
    let (s', effects, ok) =
      try_send up now (pack_header (type_code rtp_ack) 0 seq 0 0) (acked ack s) in
    (record s' { receiving = accept seq payload s'.receiving }, effects)

-- The branches on the type of the packet; an unknown type is passed over.
unfoldable pub dispatch : (Bytes → Bool) → ℕ → Header → Bytes → Rtp → Rtp × List Effect
unfolding on_data
dispatch up now h payload s =
    if eqb h.ptype (type_code rtp_data)
    then on_data up now h.seq h.ack payload s
    else if eqb h.ptype (type_code rtp_ack)
    then (acked h.ack s, [])
    else if eqb h.ptype (type_code rtp_fin)
    then (record s { peer_closed = true }, [])
    else if eqb h.ptype (type_code rtp_keepalive)
    then (s, [])
    else if eqb h.ptype (type_code rtp_sync_req)
    then on_sync_req up now payload s
    else if eqb h.ptype (type_code rtp_sync_ack)
    then (on_sync_ack now payload s, [])
    else if eqb h.ptype (type_code rtp_sync_commit)
    then on_sync_commit now payload s
    else if eqb h.ptype (type_code rtp_punch_round)
    then (s, on_punch_round_pkt payload)
    else if eqb h.ptype (type_code rtp_tcp_ready)
    then (s, tcp_ready ∷ [])
    else if eqb h.ptype (type_code rtp_punch_fail)
    then (s, punch_fail ∷ [])
    else (s, [])

-- `data[12:12 + length]`
abbrev pub payload_of : Header → Bytes → Bytes
payload_of h bytes = take h.length (drop rtp_header_size bytes)

abbrev on_header : (Bytes → Bool) → ℕ → Bytes → Rtp → Option Header → Rtp × List Effect
on_header up now bytes s none = (s, [])
on_header up now bytes s (some h) =
    dispatch up now h (payload_of h bytes) (record s { last_recv_time = now })

unfoldable pub on_packet : (Bytes → Bool) → ℕ → Bytes → Rtp → Rtp × List Effect
unfolding dispatch
on_packet up now bytes s =
    if ltb (length bytes) rtp_header_size || s.closed
    then (s, [])
    else on_header up now bytes s (unpack_header bytes)
