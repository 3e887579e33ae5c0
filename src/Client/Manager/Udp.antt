-- ===== src/Client/Manager/Udp.antt =====
-- The reliable UDP channel of a peer: its making when the hole is open, and the agreement on a moment
-- for the TCP punch that it carries. A channel's number comes from outside.
pub mod Announced
use dpmp.Prelude.{
  ℕ, ◌-◌, Bool, true, false, not, ◌&&◌, Option, none, some, List, [], ◌∷◌, ◌++◌, if◌then◌else◌, min,
  Text, text_key, nonempty,
}
use dpmp.Dict.{Dict, get, has, put}
use dpmp.Server.Format.{Addr}
use dpmp.Server.State.{PeerInfo, or_default}
use dpmp.Path.Keepalive.{udp}
use dpmp.Path.Scheduler.{register}
use dpmp.Client.Manager.State.{
  UdpConn, Manager, Action, sets_udp_hint, registers, udp_ready, sends_tcp_ready, starts_sync,
  starts_sync_punch,
}
use dpmp.Prelude.{text_lt}
use dpmp.Client.Manager.Punching.{has_reachable_target, connected_now}

-- _get_path_sched(peer).register("udp:peer", "udp", 0)
abbrev pub register_udp : ℕ → Text → Manager → Manager
register_udp now p s = record s {
  path_schedulers =
      put p
        (register s.cfg.tuning now (b'u' ∷ b'd' ∷ b'p' ∷ b':' ∷ p) udp 0
          (or_default [] (get p s.path_schedulers)))
        s.path_schedulers;
}

abbrev pub only_if : Bool → Action → List Action
only_if true a = a ∷ []
only_if false a = []

-- on_udp_hole_ready, with a signalling client there
unfoldable pub on_udp_hole_ready : Text → Addr → ℕ → ℕ → Manager → Manager × List Action
unfolding text_lt
on_udp_hole_ready p addr chan now s = if has p s.udp_conns then (s, []) else (
  register_udp now p (record s {
    udp_conns = put p (record { chan = chan; peer = addr; closed = false }) s.udp_conns;
  }),
  sets_udp_hint p addr
      ∷ registers addr chan
      ∷ udp_ready p chan
      ∷ (only_if s.mapping_ready (sends_tcp_ready p)
          ++ only_if (nonempty s.my_id && text_lt s.my_id p) (starts_sync p)),
)

-- broadcast_tcp_ready
unfoldable pub broadcast_tcp_ready : Dict Text UdpConn → List Action
broadcast_tcp_ready [] = []
broadcast_tcp_ready ((p, u) ∷ us) = sends_tcp_ready p ∷ broadcast_tcp_ready us

-- mark_mapping_ready
unfoldable pub mark_mapping_ready : Manager → Manager × List Action
unfolding broadcast_tcp_ready
mark_mapping_ready s = (record s { mapping_ready = true }, broadcast_tcp_ready s.udp_conns)

-- The guard of _maybe_start_sync, read after its sleep.
unfoldable pub may_start_sync : Text → Manager → Bool
may_start_sync p s = not (connected_now (get p s.connections))

abbrev punch_at : Option PeerInfo → ℕ → List Action
punch_at none t_go = []
punch_at (some peer) t_go = starts_sync_punch peer t_go ∷ []

-- _on_sync_ready
unfoldable pub on_sync_ready : Text → ℕ → Manager → List Action
on_sync_ready p t_go s =
    if connected_now (get p s.connections) then [] else punch_at (get p s.members) t_go

pub data SyncPunch : Type 0 where
  skipped : SyncPunch
  installs : ℕ → Addr → SyncPunch
  falls_back : SyncPunch

abbrev after_punch : Option (ℕ × Addr) → SyncPunch
after_punch none = falls_back
after_punch (some (sock, addr)) = installs sock addr

-- _sync_punch_task: how long it sleeps, in milliseconds, and what it does with the result of the punch
unfoldable pub sync_punch_task : PeerInfo → ℕ → ℕ → Option (ℕ × Addr) → ℕ × SyncPunch
unfolding has_reachable_target
sync_punch_task peer t_go now result =
    if has_reachable_target peer then (min (t_go - now) 3000, after_punch result) else (0, skipped)
