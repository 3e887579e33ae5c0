-- ===== src/Rtp/State.antt =====
-- The fields of `UdpReliableSocket`, grouped by the lock that guards them, and what it does to the
-- outside. Times are clock readings in whole milliseconds, and so are the time-outs. `up` says for
-- which packets `send_fn` returns; for the others it raises. All five callbacks are set, as they are
-- by dpmp/link/manager.py, and they do not raise.
use dpmp.Prelude.{
  ℕ, Bool, true, false, Option, none, some, List, [], ◌∷◌, ℤ, negsuc, if◌then◌else◌, Bool-cases,
  inl, inr,
}
use dpmp.Dict.{Dict}
use dpmp.Codec.BigEndian.{Bytes}

pub record Config : Type 0 where
  pub max_payload : ℕ
  pub window_init : ℕ
  pub window_min : ℕ
  pub window_max : ℕ
  pub rto_ms : ℕ
  pub keepalive_interval : ℕ
  pub peer_dead_timeout : ℕ
  pub sync_sample_count : ℕ
  pub sync_commit_delay_ms : ℕ
  pub sync_commit_resend : ℕ

-- DEFAULT_CONFIG of dpmp/config.py, from dpmp/protocol/constants.py
abbrev pub default_config : Config
default_config = record {
  max_payload = 1200;
  window_init = 64;
  window_min = 1;
  window_max = 256;
  rto_ms = 300;
  keepalive_interval = 15000;
  peer_dead_timeout = 90000;
  sync_sample_count = 4;
  sync_commit_delay_ms = 500;
  sync_commit_resend = 3;
}

-- _send_queue holds, for a sequence number, the packet and the time when it was last sent
pub record Sending : Type 0 where
  pub window : ℕ
  pub send_seq : ℕ
  pub send_queue : Dict ℕ (Bytes × ℕ)

pub record Receiving : Type 0 where
  pub recv_next : ℕ
  pub recv_buf : Bytes
  pub out_of_order : Dict ℕ Bytes

-- _sync_pending holds whether the event of a sample is set
pub record Sync : Type 0 where
  pub sync_offset : Option ℤ
  pub sync_rtt : Option ℤ
  pub peer_ver : ℕ
  pub commit_seq : ℕ
  pub last_commit_id : ℤ
  pub sync_in_progress : Bool
  pub sync_samples : List (ℤ × ℤ)
  pub sync_pending : Dict ℕ Bool
  pub sync_replies : Dict ℕ (ℤ × ℤ × ℕ)

pub record Rtp : Type 0 where
  pub cfg : Config
  pub sending : Sending
  pub receiving : Receiving
  pub sync : Sync
  pub closed : Bool
  pub peer_closed : Bool
  pub timeout : Option ℕ
  pub last_send_time : ℕ
  pub last_recv_time : ℕ
  pub peer_dead_fired : Bool

pub data Effect : Type 0 where
  sent : Bytes → Effect
  sync_ready : ℤ → Effect
  punch_round : ℕ → ℕ → Effect
  tcp_ready punch_fail peer_dead : Effect

-- __init__, at the time `now`
unfoldable pub init : Config → ℕ → Rtp
init c now = record {
  cfg = c;
  sending = record { window = c.window_init; send_seq = 0; send_queue = [] };
  receiving = record { recv_next = 0; recv_buf = []; out_of_order = [] };
  sync = record {
    sync_offset = none;
    sync_rtt = none;
    peer_ver = 1;
    commit_seq = 0;
    last_commit_id = negsuc 0;
    sync_in_progress = false;
    sync_samples = [];
    sync_pending = [];
    sync_replies = [];
  };
  closed = false;
  peer_closed = false;
  timeout = none;
  last_send_time = now;
  last_recv_time = now;
  peer_dead_fired = false;
}

-- `try: self._send_fn(self.peer, <packed>); self._last_send_time = time.time() except …`. The last
-- part says whether it went through; packing may fail too.
abbrev pub try_send : (Bytes → Bool) → ℕ → Option Bytes → Rtp → Rtp × List Effect × Bool
try_send up now none s = (s, [], false)
try_send up now (some packet) s =
    if up packet
    then (record s { last_send_time = now }, sent packet ∷ [], true)
    else (s, [], false)

-- What holds with and without the new sending time holds after `try_send`.
pub try_send_keeps {ℓ} :
    (P : Rtp → Type ℓ) (up : Bytes → Bool) (now : ℕ) (p : Option Bytes) (s : Rtp)
    → P s
    → P (record s { last_send_time = now })
    → P (try_send up now p s).0
try_send_keeps P up now none s a b = a
try_send_keeps P up now (some p) s a b = elim (Bool-cases (up p)) [
  | inl e ↦ rw e b
  | inr e ↦ rw e a
]
