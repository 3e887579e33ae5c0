-- ===== src/Client/Manager/State.antt =====
-- The manager's tables. A TCP socket is a number; a UDP channel has its number, its peer's address and
-- whether it is closed. Times are in milliseconds.
use dpmp.Prelude.{
  ℕ, Bool, true, false, Option, none, some, List, [], ◌∷◌, if◌then◌else◌, Text, text_key,
}
use dpmp.Dict.{Dict}
use dpmp.Server.Format.{Addr}
use dpmp.Server.State.{PeerInfo}
use dpmp.Path.Keepalive.{Tuning}
use dpmp.Path.Scheduler.{Paths}

pub data ConnState : Type 0 where
  connecting connected failed : ConnState

pub record Conn : Type 0 where
  pub state : ConnState
  pub sock : Option ℕ
  pub addr : Option Addr
  pub member : Option PeerInfo
  pub preferred : Bool

pub record UdpConn : Type 0 where
  pub chan : ℕ
  pub peer : Addr
  pub closed : Bool

pub record ManagerConfig : Type 0 where
  pub rebuild_cooldown_ms : ℕ
  pub idle_factor_tiers : List (ℕ × ℕ)
  pub idle_factor_max : ℕ
  pub tuning : Tuning

pub record Manager : Type 0 where
  pub cfg : ManagerConfig
  pub my_id : Text
  pub running : Bool
  pub members : Dict Text PeerInfo
  pub connections : Dict Text Conn
  pub udp_conns : Dict Text UdpConn
  pub path_schedulers : Dict Text Paths
  pub punch_active : Dict Text ℕ
  pub peer_last_active : Dict Text ℕ
  pub recv_epoch : Dict Text ℕ
  pub rebuild_cooldown : Dict Text ℕ
  pub network_rebind_last : Option ℕ
  pub mapping_ready : Bool

pub data Action : Type 0 where
  closes_sock : ℕ → Action
  closes_udp : Text → UdpConn → Action
  unregisters : Addr → Action
  requests_punch : Text → Action
  rebinds : Action
  starts_punch : PeerInfo → ℕ → Action
  socket_ready : Text → ℕ → Action
  state_changed : Action
  sets_udp_hint : Text → Addr → Action
  registers : Addr → ℕ → Action
  udp_ready : Text → ℕ → Action
  sends_tcp_ready : Text → Action
  starts_sync : Text → Action
  starts_sync_punch : PeerInfo → ℕ → Action

-- Conn(member)
unfoldable pub new_conn : Option PeerInfo → Conn
new_conn member = record {
  state = connecting;
  sock = none;
  addr = none;
  member = member;
  preferred = true;
}

abbrev pub is_connected : ConnState → Bool
is_connected connecting = false
is_connected connected = true
is_connected failed = false

-- `conn and conn.state in (STATE_CONNECTING, STATE_CONNECTED)`
abbrev pub is_busy : Option Conn → Bool
is_busy none = false
is_busy (some c) = elim c.state [ connecting ↦ true | connected ↦ true | failed ↦ false ]

-- `conn and conn.state == STATE_CONNECTED and conn.sock`
abbrev pub live_sock : Option Conn → Option ℕ
live_sock none = none
live_sock (some c) = if is_connected c.state then c.sock else none

-- _close_sock: what it closes; the socket of a connection that stays in the table is then None
abbrev pub close_sock : Option Conn → List Action
close_sock none = []
close_sock (some c) = elim c.sock [ none ↦ [] | some k ↦ closes_sock k ∷ [] ]

abbrev pub close_udp : Text → Option UdpConn → List Action
close_udp peer_id none = []
close_udp peer_id (some u) = closes_udp peer_id u ∷ []
