-- ===== src/Rtp/Tests.antt =====
-- Runs of the socket, and its theorems at concrete inputs.
use dpmp.Prelude.{
  ◌+◌, ℕ, zero, suc, ◌<◌, ◌≡◌, refl, inl, inr, Bool, true, none, some, List, [], ◌∷◌, ◌++◌, pos,
  ◌+ℤ◌, ◌-ℤ◌, nat_eq, arith, length,
}
use dpmp.Prelude.{◌-◌}
use dpmp.Rtp.Sending.Queue.{Holds}
use dpmp.Dict.{get, has, put, remove}
use dpmp.Codec.BigEndian.{Bytes, pack, unpack}
use dpmp.Codec.{pack_header, pack_packet, unpack_header}
use dpmp.Rtp.State.{Config, default_config, Sending, Receiving, Rtp, sent, sync_ready, init}
use dpmp.Rtp.Sending.{chunks, sendall_step, sendall_begin, send_each, overdue, rtx_round}
use dpmp.Rtp.Transfer.{Move, pushes, retransmits, delivers, takes, transfer}
use dpmp.Rtp.Transfer.Whole.{starting, transfer_lem}
use dpmp.Rtp.Receiving.{drain, recv, accept}
use dpmp.Rtp.Receiving.Loop.{Ends, drain-Ends}
use dpmp.Rtp.Receiving.Stream.{IsReceived}
use dpmp.Rtp.Control.{sync_rtt_of}
use dpmp.Rtp.Control.Clock.{Exchange, sample_accuracy}
use dpmp.Rtp.Packet.Meeting.{commit_meeting, copies}
use dpmp.Rtp.Control.{send_commit, or_zero}
use dpmp.Rtp.Packet.{on_data, on_packet}
use dpmp.Rtp.Packet.Copies.{IsCopy}
use dpmp.Rtp.Packet.Delivery.{Event, arrives, reads, Arrives, delivered, stream_delivered}
use dpmp.Rtp.Packet.Acks.{acked, round, wake, ack_drops_unreceived, last_packet_kept}

abbrev always : Bytes → Bool
always b = true

abbrev fresh : Rtp
fresh = init default_config 1000

-- Five bytes in packets of two: the second packet is the last to come, and the first comes twice.
abbrev text : Bytes
text = 10 ∷ 11 ∷ 12 ∷ 13 ∷ 14 ∷ []

abbrev header : ℕ → ℕ → Bytes
header k n = 0 ∷ 0 ∷ 0 ∷ 0 ∷ k ∷ 0 ∷ 0 ∷ 0 ∷ 0 ∷ 0 ∷ n ∷ 0 ∷ []

abbrev shuffled : List Event
shuffled =
    arrives 1001 (header 0 2 ++ 10 ∷ 11 ∷ [])
    ∷ arrives 1002 (header 2 1 ++ 14 ∷ [])
    ∷ reads 1003 none 1
    ∷ arrives 1004 (header 0 2 ++ 10 ∷ 11 ∷ [])
    ∷ arrives 1005 (header 1 2 ++ 12 ∷ 13 ∷ [])
    ∷ []

IsCopy-0 : IsCopy (chunks 5 2 text) 0 (header 0 2 ++ 10 ∷ 11 ∷ [])
unfolding chunks pack_packet pack_header pack
IsCopy-0 = record { ack = 0; piece = 10 ∷ 11 ∷ []; is_piece = refl; is_packed = refl }

IsCopy-1 : IsCopy (chunks 5 2 text) 1 (header 1 2 ++ 12 ∷ 13 ∷ [])
unfolding chunks pack_packet pack_header pack
IsCopy-1 = record { ack = 0; piece = 12 ∷ 13 ∷ []; is_piece = refl; is_packed = refl }

IsCopy-2 : IsCopy (chunks 5 2 text) 2 (header 2 1 ++ 14 ∷ [])
unfolding chunks pack_packet pack_header pack
IsCopy-2 = record { ack = 0; piece = 14 ∷ []; is_piece = refl; is_packed = refl }

stream_delivered_example :
    ((rest : Bytes) × (delivered always default_config 1000 shuffled ++ rest ≡ text))
    × (((k : ℕ) → k < length (chunks 5 2 text) → Arrives (chunks 5 2 text) k shuffled)
        → delivered always default_config 1000 shuffled ≡ text)
stream_delivered_example =
    stream_delivered always default_config 1000 2 text shuffled (omega arith)
      ((0, IsCopy-0), ((2, IsCopy-2), ((0, IsCopy-0), ((1, IsCopy-1), tt))))

-- All three arrive, so the whole text is there.
every_piece-Arrives : (k : ℕ) → k < length (chunks 5 2 text) → Arrives (chunks 5 2 text) k shuffled
unfolding chunks
every_piece-Arrives zero h = inl IsCopy-0
every_piece-Arrives (suc zero) h = inr (inr (inr (inl IsCopy-1)))
every_piece-Arrives (suc (suc zero)) h = inr (inl IsCopy-2)
every_piece-Arrives (suc (suc (suc k))) h = absurd (omega arith)

whole_text : delivered always default_config 1000 shuffled ≡ text
whole_text = stream_delivered_example.1 every_piece-Arrives

-- The same five bytes from one socket to another: what is sent first comes last, and one packet is sent again.
abbrev small : Config
small = record default_config { max_payload = 2 }

abbrev moves : List Move
moves =
    pushes 1001
    ∷ pushes 1001
    ∷ pushes 1002
    ∷ pushes 1002
    ∷ pushes 1003
    ∷ pushes 1003
    ∷ delivers 1004 2
    ∷ retransmits 1400
    ∷ delivers 1401 1
    ∷ takes 1402 none 9
    ∷ delivers 1403 3
    ∷ []

transfer_lem_example :
    ((rest : Bytes) × (delivered always default_config 500
            (transfer always moves (starting small 1000 text))
          ++ rest
        ≡ text))
    × (((k : ℕ)
          → k < length (chunks 5 2 text)
          → Arrives (chunks 5 2 text) k (transfer always moves (starting small 1000 text)))
        → delivered always default_config 500 (transfer always moves (starting small 1000 text))
          ≡ text)
transfer_lem_example =
    transfer_lem always always small default_config 1000 500 text moves (omega arith)

-- Two packets in the queue, sent at 0 and at 900.
abbrev two_sent : Sending
two_sent = record {
  window = 64;
  send_seq = 2;
  send_queue = (0, (10 ∷ [], 0)) ∷ (1, (11 ∷ [], 900)) ∷ [];
}

abbrev busy : Rtp
busy = record fresh { sending = two_sent }

last_in_queue : get 1 two_sent.send_queue ≡ some (11 ∷ [], 900)
unfolding get
last_in_queue = refl

last_packet_kept_example :
    (ts : ℕ) × (get 1
        (wake default_config (acked 1 ∷ round 5000 ∷ acked 1 ∷ []) two_sent).send_queue
      ≡ some (11 ∷ [], ts))
    × ((up : Bytes → Bool) (now : ℕ) (r : Rtp)
        → r.sending ≡ wake default_config (acked 1 ∷ round 5000 ∷ acked 1 ∷ []) two_sent
        → r.cfg.rto_ms < now - ts
        → up (11 ∷ []) ≡ true
        → Holds (sent (11 ∷ [])) (rtx_round up now r).1)
last_packet_kept_example =
    last_packet_kept default_config 1 (11 ∷ []) 900 (acked 1 ∷ round 5000 ∷ acked 1 ∷ []) two_sent
      last_in_queue (omega arith, (omega arith, tt))

-- Packet 0 is lost, and packet 1 arrives.
ack_drops_unreceived_example :
    (bytes : Bytes) × ((on_data always 1001 1 0 (11 ∷ []) fresh).1 ≡ sent bytes ∷ [])
    × (get 0 (on_packet always 1002 bytes busy).0.sending.send_queue ≡ none)
    × (¬ IsReceived 0 (on_data always 1001 1 0 (11 ∷ []) fresh).0.receiving)
unfolding init has
ack_drops_unreceived_example =
    ack_drops_unreceived always 1001 1002 0 1 0 (11 ∷ []) busy fresh (λ b. refl) (omega arith)
      (omega arith) (omega arith) refl refl

-- The responder's clock is 50 ahead; 10 there, 3 held, 10 back.
exchange : Exchange (pos 50) 10 3 10 1000 1060 1063 1023
unfolding ◌+ℤ◌
exchange = record { arrival = refl; answer = refl; return = refl }

sample_accuracy_example : sync_rtt_of 1000 1060 1063 1023 ≡ pos 20
sample_accuracy_example = (sample_accuracy (pos 50) 10 3 10 1000 1060 1063 1023 exchange).0

-- A peer of version 2 that measured no offset of its own.
abbrev synced : Rtp
synced = record fresh { sync = record fresh.sync { peer_ver = 2 } }

commit_meeting_example :
    (bytes : Bytes) × ((send_commit always 1950 (pos 20, pos 50) synced).1
      ≡ copies synced.cfg.sync_commit_resend bytes
        ++ sync_ready (pos (1950 + synced.cfg.sync_commit_delay_ms)) ∷ [])
    × ((on_packet always 1001 bytes fresh).1
        ≡ sync_ready (
            pos (1950 + synced.cfg.sync_commit_delay_ms)
            +ℤ pos 50
            -ℤ or_zero fresh.sync.sync_offset)
          ∷ [])
    × ((on_packet always 1001 bytes fresh).0.sync.last_commit_id ≡ pos (synced.sync.commit_seq + 1))
unfolding init ◌+ℤ◌
commit_meeting_example =
    commit_meeting always 1950 1001 (pos 20) (pos 50) (2000 + synced.cfg.sync_commit_delay_ms)
      synced fresh (λ b. refl) (omega arith) refl (omega arith) (omega arith) (omega arith) refl
      (omega arith)

-- Two packets that can be taken up, and one that has to wait.
abbrev waiting : Receiving
waiting = record {
  recv_next = 4;
  recv_buf = [];
  out_of_order = (7, 3 ∷ []) ∷ (5, 2 ∷ []) ∷ (4, 1 ∷ []) ∷ [];
}

drain-Ends_example : Ends waiting (drain (length waiting.out_of_order) waiting)
drain-Ends_example = drain-Ends waiting

-- Two bytes are there, and three are to be read, with one more in hand.
abbrev two_bytes : Rtp
two_bytes = record fresh { receiving = record waiting { recv_buf = 8 ∷ 9 ∷ [] } }

-- The whole text is there in the end.
transferred :
    delivered always default_config 500 (transfer always moves (starting small 1000 text)) ≡ text
unfolding delivered transfer sendall_step sendall_begin pack_header pack put rtx_round send_each
    overdue recv on_packet unpack_header unpack accept get remove
transferred = refl
