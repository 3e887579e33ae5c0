-- ===== src/Rtp/Transfer.antt =====
-- Two sockets with a network between them: one `sendall` on the first, and the reads of the second.
-- The network keeps every DATA packet that the first has sent and delivers any of them, in any order and
-- as often as it likes.
pub mod Sends
pub mod Whole
use dpmp.Prelude.{ℕ, Bool, Option, none, some, List, [], ◌∷◌, ◌++◌, get_elem?}
use dpmp.Codec.BigEndian.{Bytes}
use dpmp.Rtp.State.{Rtp, Effect, sent}
use dpmp.Rtp.Sending.{Task, sendall_step, rtx_round}
use dpmp.Rtp.Packet.{on_packet}
use dpmp.Rtp.Packet.Delivery.{Event, arrives, reads}

-- What happens next. The first socket may get any packet at all.
pub data Move : Type 0 where
  pushes retransmits : ℕ → Move
  gets : ℕ → Bytes → Move
  delivers : ℕ → ℕ → Move
  takes : ℕ → Option ℕ → ℕ → Move

abbrev pub packets_of : List Effect → List Bytes
packets_of [] = []
packets_of (sent p ∷ es) = p ∷ packets_of es
packets_of (_ ∷ es) = packets_of es

-- The first socket, the state of its `sendall`, and what it has sent.
pub record Sender : Type 0 where
  pub sock : Rtp
  pub task : Task
  pub wire : List Bytes

abbrev pub on_delivery : ℕ → Option Bytes → List Event → List Event
on_delivery now none es = es
on_delivery now (some p) es = arrives now p ∷ es

-- A step of the first socket. What `_on_data` answers with is no DATA.
unfoldable pub sender_step : (Bytes → Bool) → Move → Sender → Sender
sender_step up (pushes now) s =
    let (sock, task, effects) = sendall_step up now s.sock s.task in
    record { sock = sock; task = task; wire = s.wire ++ packets_of effects }
sender_step up (retransmits now) s =
    let (sock, effects) = rtx_round up now s.sock in
    record s { sock = sock; wire = s.wire ++ packets_of effects }
sender_step up (gets now bytes) s = record s { sock = (on_packet up now bytes s.sock).0 }
sender_step up (delivers now i) s = s
sender_step up (takes now deadline n) s = s

abbrev pub seen_by_receiver : Move → List Bytes → List Event → List Event
seen_by_receiver (delivers now i) wire es = on_delivery now (get_elem? wire i) es
seen_by_receiver (takes now deadline n) wire es = reads now deadline n ∷ es
seen_by_receiver _ wire es = es

-- What the second socket sees of it.
unfoldable pub transfer : (Bytes → Bool) → List Move → Sender → List Event
unfolding sender_step
transfer up [] s = []
transfer up (m ∷ ms) s = seen_by_receiver m s.wire (transfer up ms (sender_step up m s))
