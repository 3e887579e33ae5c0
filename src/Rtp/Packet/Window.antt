-- ===== src/Rtp/Packet/Window.antt =====
-- The sending window under everything that the socket does: packets that arrive and its own methods.
use dpmp.Prelude.{ℤ, ℕ, Bool, Option, none, some, List, [], ◌∷◌}
use dpmp.Codec.BigEndian.{Bytes}
use dpmp.Rtp.State.{Rtp}
use dpmp.Rtp.Sending.{rtx_round, sendall_step, Task}
use dpmp.Rtp.Sending.Queue.{IsWithin}
use dpmp.Rtp.Control.{
  keepalive_round, close, sync_begin, sync_request, sync_collect, sync_finish, send_punch_round,
  send_tcp_ready, send_punch_fail,
}
use dpmp.Rtp.Receiving.{recv, recv_into, settimeout}
use dpmp.Rtp.Packet.{on_packet}

-- The bounds of the socket's own configuration.
abbrev pub IsBounded : Rtp → Type 0
IsBounded s = IsWithin s.cfg s.sending

-- What the threads of the program do with a socket.
pub data Action : Type 0 where
  packet : Bytes → Action
  retransmit keep_alive shut : Action
  push : Task → Action
  read : Option ℕ → ℕ → Action
  read_into : Option ℕ → Bytes → ℕ → Action
  sets_timeout : Option ℕ → Action
  sync_starts sync_asks sync_commits : Action
  sync_collects : ℕ → Bool → Action
  tells_round : ℤ → ℤ → Action
  tells_ready tells_fail : Action

-- A sampling that runs already is left alone.
abbrev pub begun : Rtp → Option Rtp → Rtp
begun s none = s
begun s (some s') = s'

pub act : (Bytes → Bool) → ℕ → Action → Rtp → Rtp
act up now (packet bytes) s = (on_packet up now bytes s).0
act up now retransmit s = (rtx_round up now s).0
act up now keep_alive s = (keepalive_round up now s).0
act up now shut s = (close up s).0
act up now (push t) s = (sendall_step up now s t).0
act up now (read deadline n) s = (recv now deadline n s).1
act up now (read_into deadline buffer n) s = (recv_into now deadline buffer n s).1
act up now (sets_timeout t) s = settimeout t s
act up now sync_starts s = begun s (sync_begin s)
act up now sync_asks s = (sync_request up now s).0
act up now sync_commits s = (sync_finish up now s).0
act up now (sync_collects t1 ok) s = sync_collect t1 ok s
act up now (tells_round round_no t_go_r) s = (send_punch_round up now round_no t_go_r s).0
act up now tells_ready s = (send_tcp_ready up now s).0
act up now tells_fail s = (send_punch_fail up now s).0

pub run : (Bytes → Bool) → List (ℕ × Action) → Rtp → Rtp
run up [] s = s
run up ((now, a) ∷ rest) s = run up rest (act up now a s)
