-- ===== src/Rtp/Packet/Copies.antt =====
-- A DATA packet as bytes, and what `on_packet` does with a copy of it.
use dpmp.Prelude.{
  ℕ, zero, suc, ◌≡◌, ◌∙◌, Bool, false, some, List, [], ◌∷◌, ltb, length, take_all, nat_eq, arith,
  get_elem?, get_or,
}
use dpmp.Codec.BigEndian.{Bytes}
use dpmp.Codec.{Header, unpack_header, pack_packet, type_code, rtp_data}
use dpmp.Codec.RoundTrip.{packet_read}
use dpmp.Rtp.State.{Rtp}
use dpmp.Rtp.Receiving.{accept}
use dpmp.Rtp.Packet.{on_data, dispatch, payload_of, on_packet}

long_of_read :
    (bytes : Bytes) (h : Header) → unpack_header bytes ≡ some h → ltb (length bytes) 12 ≡ false
unfolding unpack_header
long_of_read bytes h e = ground arith

-- A datagram that can be read is dispatched, unless the socket is closed.
pub on_packet-readable :
    (up : Bytes → Bool) (now : ℕ) (bytes : Bytes) (s : Rtp) (h : Header)
    → unpack_header bytes ≡ some h
    → s.closed ≡ false
    → on_packet up now bytes s
      ≡ dispatch up now h (payload_of h bytes) (record s { last_recv_time = now })
unfolding on_packet
on_packet-readable up now bytes s h e c = rw (long_of_read bytes h e, c, e, on_packet)

-- Handling a DATA packet changes the receiving half by `accept`, and keeps the socket open.
pub on_data-receiving :
    (up : Bytes → Bool) (now seq ack : ℕ) (payload : Bytes) (s : Rtp)
    → ((on_data up now seq ack payload s).0.receiving ≡ accept seq payload s.receiving)
      × ((on_data up now seq ack payload s).0.closed ≡ s.closed)
unfolding on_data
on_data-receiving up now seq ack payload s = ground arith

-- A copy of the DATA packet that carries the piece `k`.
pub record IsCopy (pieces : List Bytes) (k : ℕ) (bytes : Bytes) : Type 0 where
  pub ack : ℕ
  pub piece : Bytes
  pub is_piece : get_elem? pieces k ≡ some piece
  pub is_packed : pack_packet (type_code rtp_data) k ack piece ≡ some bytes

abbrev pub stream_of : List Bytes → ℕ → Bytes
stream_of pieces k = get_or pieces k []

stream_of-piece :
    (pieces : List Bytes) (k : ℕ) (p : Bytes) → get_elem? pieces k ≡ some p → stream_of pieces k ≡ p
stream_of-piece [] k p h = cc
stream_of-piece (x ∷ xs) zero p h = cc
stream_of-piece (x ∷ xs) (suc k) p h = stream_of-piece xs k p h

pub on_packet-copy :
    (up : Bytes → Bool) (now k : ℕ) (pieces : List Bytes) (bytes : Bytes) (s : Rtp)
    → IsCopy pieces k bytes
    → s.closed ≡ false
    → ((on_packet up now bytes s).0.receiving ≡ accept k (stream_of pieces k) s.receiving)
      × ((on_packet up now bytes s).0.closed ≡ false)
unfolding dispatch
on_packet-copy up now k pieces bytes s copy open_ =
    let a = copy.ack in
    let p = copy.piece in
    let (read, body) = packet_read (type_code rtp_data) k a p bytes copy.is_packed in
    let r = on_data-receiving up now k a p (record s { last_recv_time = now }) in
    rw
      (
        on_packet-readable up now bytes s _ read open_,
        body,
        take_all (length p) p (omega arith),
        stream_of-piece pieces k p copy.is_piece,
      )
      (r.0, r.1 ∙ open_)
