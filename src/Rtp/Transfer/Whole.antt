-- ===== src/Rtp/Transfer/Whole.antt =====
-- What the second socket gets of the data that is given to the first.
use dpmp.Prelude.{
  ℕ, zero, suc, ◌<◌, ◌≡◌, refl, inl, inr, Bool, List, [], ◌∷◌, ◌++◌, length, get_elem?, nat_eq, All,
}
use dpmp.Codec.BigEndian.{Bytes}
use dpmp.Rtp.State.{Config, init}
use dpmp.Rtp.Sending.{chunks, sendall_begin, sendall_step}
use dpmp.Rtp.Packet.Delivery.{Event, AllCopies, Arrives, delivered, stream_delivered}
use dpmp.Rtp.Transfer.{
  Move, pushes, retransmits, gets, delivers, takes, Sender, on_delivery, sender_step, transfer,
}
use dpmp.Rtp.Transfer.Sends.{AnyCopy, IsSending, rtx-IsSending, gets-IsSending, push-IsSending}

module _ (pieces : List Bytes) where
  step-IsSending :
      (up : Bytes → Bool) (m : Move) (s : Sender)
      → IsSending pieces s
      → IsSending pieces (sender_step up m s)
  step-IsSending up (pushes now) s h =
      unfold sender_step in
      unfold sendall_step in push-IsSending pieces up now s.sock s.task.pending s.task.rest s.wire h
  step-IsSending up (retransmits now) s h = rtx-IsSending pieces up now s h
  step-IsSending up (gets now bytes) s h = gets-IsSending pieces up now bytes s h
  step-IsSending up (delivers now i) s h = unfold sender_step in h
  step-IsSending up (takes now deadline n) s h = unfold sender_step in h

  delivered-Copies :
      (now i : ℕ) (wire : List Bytes) (es : List Event)
      → All (AnyCopy pieces) wire
      → AllCopies pieces es
      → AllCopies pieces (on_delivery now (get_elem? wire i) es)
  delivered-Copies now i [] es h k = k
  delivered-Copies now zero (p ∷ ps) es h k = (h.0, k)
  delivered-Copies now (suc i) (p ∷ ps) es h k = delivered-Copies now i ps es h.1 k

  transfer-Copies :
      (up : Bytes → Bool) (ms : List Move) (s : Sender)
      → IsSending pieces s
      → AllCopies pieces (transfer up ms s)
  unfolding transfer
  transfer-Copies up [] s h = tt
  transfer-Copies up (delivers now i ∷ ms) s h =
      delivered-Copies now i s.wire _ h.wired
        (transfer-Copies up ms _ (step-IsSending up (delivers now i) s h))
  transfer-Copies up (takes now d n ∷ ms) s h =
      transfer-Copies up ms _ (step-IsSending up (takes now d n) s h)
  transfer-Copies up (pushes now ∷ ms) s h =
      transfer-Copies up ms _ (step-IsSending up (pushes now) s h)
  transfer-Copies up (retransmits now ∷ ms) s h =
      transfer-Copies up ms _ (step-IsSending up (retransmits now) s h)
  transfer-Copies up (gets now bytes ∷ ms) s h =
      transfer-Copies up ms _ (step-IsSending up (gets now bytes) s h)

-- A fresh socket at the start of `sendall`.
abbrev pub starting : Config → ℕ → Bytes → Sender
starting c start bytes = record {
  sock = init c start;
  task = sendall_begin bytes (init c start);
  wire = [];
}

starting-IsSending :
    (c : Config) (start : ℕ) (bytes : Bytes)
    → IsSending (chunks (length bytes) c.max_payload bytes) (starting c start bytes)
unfolding sendall_begin init
starting-IsSending c start [] = record { place = inr refl; queued = tt; pending = tt; wired = tt }
starting-IsSending c start (b ∷ bytes) = record {
  place = inl refl;
  queued = tt;
  pending = tt;
  wired = tt;
}

-- One socket is given data by `sendall`, and another reads. However the steps of `sendall` are interleaved with rounds
-- of retransmission, with packets of any kind that reach the first socket, with deliveries of what it
-- has sent, in any order, some never and some repeatedly, and with reads, and whether sending works or not: what has been delivered is a prefix of the
-- data, and all of it once every packet was delivered at least once.
pub transfer_lem :
    (up up' : Bytes → Bool) (c c' : Config) (start start' : ℕ) (bytes : Bytes) (moves : List Move)
    → 0 < c.max_payload
    → ((rest : Bytes) × (delivered up' c' start' (transfer up moves (starting c start bytes))
            ++ rest
          ≡ bytes))
      × (((k : ℕ)
            → k < length (chunks (length bytes) c.max_payload bytes)
            → Arrives
                (chunks (length bytes) c.max_payload bytes)
                k
                (transfer up moves (starting c start bytes)))
          → delivered up' c' start' (transfer up moves (starting c start bytes)) ≡ bytes)
transfer_lem up up' c c' start start' bytes moves positive =
    let pieces = chunks (length bytes) c.max_payload bytes in
    stream_delivered up' c' start' c.max_payload bytes (transfer up moves (starting c start bytes))
      positive
      (transfer-Copies pieces up moves (starting c start bytes) (starting-IsSending c start bytes))
