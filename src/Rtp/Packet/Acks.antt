-- ===== src/Rtp/Packet/Acks.antt =====
-- What the acknowledgements mean: an ACK carries the number of the packet that arrived, and the sender
-- takes it as the next number expected.
use dpmp.Prelude.{
  ℕ, ◌-◌, ◌≤◌, ◌<◌, ◌^◌, ◌≡◌, sym, subst, Bool, true, false, none, some, List, [], ◌∷◌,
  if◌then◌else◌, ltb, nat_eq, arith,
}
use dpmp.Dict.{get, has, put}
use dpmp.Dict.Laws.{get-put, has-get}
use dpmp.Codec.BigEndian.{Bytes}
use dpmp.Codec.{pack_header, unpack_header, type_code, rtp_ack}
use dpmp.Codec.RoundTrip.{header_roundtrip}
use dpmp.Rtp.State.{Config, Sending, Receiving, Rtp, sent}
use dpmp.Prelude.{ap, ◌∙◌}
use dpmp.Rtp.Sending.{on_ack, on_timeout, rtx_round}
use dpmp.Rtp.Sending.Queue.{on_ack_lem, get-restamp, Holds, rtx_round_lem}
use dpmp.Rtp.Receiving.{accept}
use dpmp.Rtp.Receiving.Stream.{IsReceived}
use dpmp.Rtp.Packet.Copies.{on_packet-readable, on_data-receiving}
use dpmp.Rtp.Packet.{on_data, dispatch, on_packet}

later_not-IsReceived :
    (i k : ℕ) (payload : Bytes) (r : Receiving)
    → i < k
    → r.recv_next ≤ i
    → has i r.out_of_order ≡ false
    → ¬ IsReceived i (accept k payload r)
unfolding accept
later_not-IsReceived i k payload r l n h = ground (
  arith,
  has-get i r.out_of_order,
  has-get i (put k payload r.out_of_order),
  get-put k i payload r.out_of_order,
)

on_data-ack :
    (up : Bytes → Bool) (now k a : ℕ) (payload bytes : Bytes) (r : Rtp)
    → pack_header (type_code rtp_ack) 0 k 0 0 ≡ some bytes
    → up bytes ≡ true
    → (on_data up now k a payload r).1 ≡ sent bytes ∷ []
unfolding on_data
on_data-ack up now k a payload bytes r e u = rw (e, u)

on_packet-ack :
    (up : Bytes → Bool) (now k i : ℕ) (bytes : Bytes) (s : Rtp)
    → unpack_header bytes
      ≡ some (record { ptype = type_code rtp_ack; seq = 0; ack = k; length = 0; reserved = 0 })
    → s.closed ≡ false
    → i < k
    → get i (on_packet up now bytes s).0.sending.send_queue ≡ none
unfolding dispatch
on_packet-ack up now k i bytes s e c l =
    rw (on_packet-readable up now bytes s _ e c)
      (ground (arith, (on_ack_lem s.cfg k s.sending).0 i))

-- A packet that was lost may be forgotten. The receiver lacks packet `i`, and a later packet `k`
-- arrives. The ACK that it sends for `k` makes the sender drop `i` from its queue, which is where
-- retransmission looks, and the receiver still lacks `i`.
pub ack_drops_unreceived :
    (up : Bytes → Bool) (now later i k a : ℕ) (payload : Bytes) (s r : Rtp)
    → ((bytes : Bytes) → up bytes ≡ true)
    → k < 2 ^ 32
    → i < k
    → r.receiving.recv_next ≤ i
    → has i r.receiving.out_of_order ≡ false
    → s.closed ≡ false
    → (bytes : Bytes) × ((on_data up now k a payload r).1 ≡ sent bytes ∷ [])
      × (get i (on_packet up later bytes s).0.sending.send_queue ≡ none)
      × (¬ IsReceived i (on_data up now k a payload r).0.receiving)
ack_drops_unreceived up now later i k a payload s r u range l n h c =
    let (bytes, packed, read, size) = header_roundtrip (type_code rtp_ack) 0 k 0 (record {
      type_range = omega arith;
      seq_range = omega arith;
      ack_range = range;
      length_range = omega arith;
    }) in
    (
      bytes,
      on_data-ack up now k a payload bytes r packed (u bytes),
      on_packet-ack up later k i bytes s read c l,
      subst (λ q. ¬ IsReceived i q) (sym (on_data-receiving up now k a payload r).0)
          (later_not-IsReceived i k payload r.receiving l n h),
    )

-- What wakes the sender up: an acknowledgement, or a round of retransmission.
pub data Wakeup : Type 0 where
  acked round : ℕ → Wakeup

unfoldable pub wake : Config → List Wakeup → Sending → Sending
wake c [] s = s
wake c (acked a ∷ ws) s = wake c ws (on_ack c a s)
wake c (round now ∷ ws) s = wake c ws (on_timeout c now s)

-- No acknowledgement goes beyond `k`.
abbrev pub UpTo : ℕ → List Wakeup → Type 0
UpTo k [] = Unit
UpTo k (acked a ∷ ws) = (a ≤ k) × UpTo k ws
UpTo k (round now ∷ ws) = UpTo k ws

stays_queued :
    (c : Config) (k : ℕ) (packet : Bytes) (ts : ℕ) (ws : List Wakeup) (s : Sending)
    → get k s.send_queue ≡ some (packet, ts)
    → UpTo k ws
    → (ts' : ℕ) × (get k (wake c ws s).send_queue ≡ some (packet, ts'))
unfolding wake
stays_queued c k packet ts [] s h w = (ts, h)
stays_queued c k packet ts (acked a ∷ ws) s h w =
    stays_queued c k packet ts ws (on_ack c a s) (ground (arith, (on_ack_lem c a s).0 k)) w.1
stays_queued c k packet ts (round now ∷ ws) s h w =
    stays_queued c k packet (if ltb c.rto_ms (now - ts) then now else ts) ws (on_timeout c now s)
      (unfold on_timeout in rw (get-restamp c.rto_ms now k s.send_queue, h)) w

-- A packet with no later number acknowledged stays: after any acknowledgements of numbers up to `k`, its
-- own among them, and any rounds of retransmission, `k` is still in the queue with the same bytes, and
-- a round sends them when its time is up, if sending works.
pub last_packet_kept :
    (c : Config) (k : ℕ) (packet : Bytes) (ts : ℕ) (ws : List Wakeup) (s : Sending)
    → get k s.send_queue ≡ some (packet, ts)
    → UpTo k ws
    → (ts' : ℕ) × (get k (wake c ws s).send_queue ≡ some (packet, ts'))
      × ((up : Bytes → Bool) (now : ℕ) (r : Rtp)
          → r.sending ≡ wake c ws s
          → r.cfg.rto_ms < now - ts'
          → up packet ≡ true
          → Holds (sent packet) (rtx_round up now r).1)
last_packet_kept c k packet ts ws s h w =
    let (ts', there) = stays_queued c k packet ts ws s h w in
    (
      ts',
      there,
      λ up now r same late works.
          (rtx_round_lem up now r k packet ts' (ap (λ q. get k q.send_queue) same ∙ there)).1 late
            works,
    )
