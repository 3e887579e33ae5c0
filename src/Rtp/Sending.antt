-- ===== src/Rtp/Sending.antt =====
-- The sending half: `sendall`, the acknowledgements, and one round of the retransmission thread.
pub mod Queue
pub mod Chunks
use dpmp.Prelude.{
  ℕ, zero, suc, ◌+◌, ◌-◌, ◌/◌, ◌<◌, min, max, Bool, true, false, not, ◌&&◌, ◌||◌, nat_eq, Option,
  none, some, List, [], ◌∷◌, ◌++◌, if◌then◌else◌, ltb, leb, length, take, drop, nonempty,
}
use dpmp.Dict.{Dict, put}
use dpmp.Codec.BigEndian.{Bytes}
use dpmp.Codec.{pack_header, pack_packet, type_code, rtp_data}
use dpmp.Rtp.State.{Config, Sending, Rtp, Effect, sent, try_send}

-- The entries that stay after `pop` of every key below `ack`.
unfoldable pub not_below : ℕ → Dict ℕ (Bytes × ℕ) → Dict ℕ (Bytes × ℕ)
not_below ack [] = []
not_below ack ((s, e) ∷ q) =
    let later = not_below ack q in if ltb s ack then later else (s, e) ∷ later

-- _on_ack: everything below `ack` is done, and the window grows by as much.
unfoldable pub on_ack : Config → ℕ → Sending → Sending
on_ack c ack s =
    let kept = not_below ack s.send_queue in
    let advanced = length s.send_queue - length kept in
    record s {
      send_queue = kept;
      window = if ltb 0 advanced then min c.window_max (s.window + advanced) else s.window;
    }

-- The packets whose time is up, in the order of the queue.
unfoldable pub overdue : ℕ → ℕ → Dict ℕ (Bytes × ℕ) → List Bytes
overdue rto now [] = []
overdue rto now ((s, (packet, ts)) ∷ q) =
    let later = overdue rto now q in if ltb rto (now - ts) then packet ∷ later else later

unfoldable pub restamp : ℕ → ℕ → Dict ℕ (Bytes × ℕ) → Dict ℕ (Bytes × ℕ)
restamp rto now [] = []
restamp rto now ((s, (packet, ts)) ∷ q) =
    (s, (packet, if ltb rto (now - ts) then now else ts)) ∷ restamp rto now q

-- The locked part of a round of _rtx_loop.
unfoldable pub on_timeout : Config → ℕ → Sending → Sending
on_timeout c now s = record s {
  send_queue = restamp c.rto_ms now s.send_queue;
  window = elim (overdue c.rto_ms now s.send_queue) [
    | [] ↦ s.window
    | p ∷ ps ↦ max c.window_min (s.window / 2)
  ];
}

-- Sends packets one by one; a failure of one is passed over.
unfoldable pub send_each : (Bytes → Bool) → ℕ → List Bytes → Rtp → Rtp × List Effect
send_each up now [] s = (s, [])
send_each up now (p ∷ ps) s =
    let (s', effects, ok) = try_send up now (some p) s in
    let (s'', more) = send_each up now ps s' in (s'', effects ++ more)

-- The body of _rtx_loop after its sleep, at the time `now`. The loop tests `_closed` before the sleep.
unfoldable pub rtx_round : (Bytes → Bool) → ℕ → Rtp → Rtp × List Effect
unfolding on_timeout
rtx_round up now s =
    send_each up now (overdue s.cfg.rto_ms now s.sending.send_queue)
      (record s { sending = on_timeout s.cfg now s.sending })

-- `chunk = data[offset:offset + max_payload]` until the offset is at the end. The fuel is the length
-- of the data, and is enough where the payload's size is positive.
unfoldable pub chunks : ℕ → ℕ → Bytes → List Bytes
chunks zero size bytes = []
chunks (suc fuel) size [] = []
chunks (suc fuel) size (b ∷ bytes) =
    take size (b ∷ bytes) ∷ chunks fuel size (drop size (b ∷ bytes))

-- What a running `sendall` still has to do: the packet that waits for the window, and the chunks.
pub record Task : Type 0 where
  pub pending : Option Bytes
  pub rest : List Bytes

unfoldable pub sendall_begin : Bytes → Rtp → Task
unfolding chunks
sendall_begin bytes s =
    if not (nonempty bytes) || s.closed
    then record { pending = none; rest = [] }
    else record { pending = none; rest = chunks (length bytes) s.cfg.max_payload bytes }

-- `len(self._send_queue) >= self.window and not self._closed`
abbrev pub blocked : Rtp → Bool
blocked s = leb s.sending.window (length s.sending.send_queue) && not s.closed

-- The locked part of a round of `sendall`: a number, a header and a place in the queue for the chunk.
-- A header that cannot be packed raises out of `sendall`, after the number was taken.
abbrev pub enqueued : ℕ → Bytes → Rtp → Option Bytes → Rtp × Option Bytes
enqueued now chunk s none =
    let q = s.sending in (record s { sending = record q { send_seq = q.send_seq + 1 } }, none)
enqueued now chunk s (some header) =
    let q = s.sending in
    (
      record s {
        sending = record q {
          send_seq = q.send_seq + 1;
          send_queue = put q.send_seq (header ++ chunk, now) q.send_queue;
        };
      },
      some (header ++ chunk),
    )

unfoldable pub enqueue : ℕ → Bytes → Rtp → Rtp × Option Bytes
enqueue now chunk s =
    enqueued now chunk s
      (pack_header (type_code rtp_data) s.sending.send_seq s.receiving.recv_next (length chunk) 0)

abbrev pub enqueue_step : Rtp × Option Bytes → List Bytes → Rtp × Task × List Effect
enqueue_step (s, none) rest = (s, record { pending = none; rest = [] }, [])
enqueue_step (s, some packet) rest = (s, record { pending = some packet; rest = rest }, [])

abbrev pub send_step : Rtp × List Effect × Bool → List Bytes → Rtp × Task × List Effect
send_step (s, effects, true) rest = (s, record { pending = none; rest = rest }, effects)
send_step (s, effects, false) rest = (s, record { pending = none; rest = [] }, effects)

abbrev pub sendall_on :
    (Bytes → Bool) → ℕ → Rtp → Option Bytes → List Bytes → Rtp × Task × List Effect
sendall_on up now s none [] = (s, record { pending = none; rest = [] }, [])
sendall_on up now s none (chunk ∷ rest) = enqueue_step (enqueue now chunk s) rest
sendall_on up now s (some packet) rest =
    if blocked s
    then (s, record { pending = some packet; rest = rest }, [])
    else send_step (try_send up now (some packet) s) rest

-- One step of a running `sendall`; other methods may run between two steps. It puts a chunk into the
-- queue, or sleeps while the window is full, or sends the packet; a failed send ends `sendall`.
unfoldable pub sendall_step : (Bytes → Bool) → ℕ → Rtp → Task → Rtp × Task × List Effect
unfolding enqueue
sendall_step up now s t = sendall_on up now s t.pending t.rest
