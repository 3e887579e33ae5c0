-- ===== src/Client/Manager/Channels.antt =====
-- The choice of the channel to send on, the receiving epochs, and the keepalive rounds of the paths.
pub mod Usable
pub mod DueTimes
use dpmp.Prelude.{
  ℕ, zero, suc, ◌+◌, ◌-◌, ◌*◌, Bool, true, false, not, ◌&&◌, ◌||◌, Option, none, some, List, [],
  ◌∷◌, ◌++◌, if◌then◌else◌, eqb, ltb, Text, text_eq, text_key, is_some,
}
use dpmp.Dict.{Dict, get, has, put, remove}
use dpmp.Server.State.{or_default}
use dpmp.Path.Keepalive.{
  Role, hot, warm_safe, warm_loose, dead, Proto, tcp, udp, other, Tuning, KeepaliveScheduler,
  on_success, on_failure,
}
use dpmp.Path.Scheduler.{PeerPath, Paths, get_by_role, role_eq}
use dpmp.Client.Manager.State.{
  Conn, UdpConn, ManagerConfig, Manager, Action, closes_sock, live_sock,
}

pub data Channel : Type 0 where
  tcp_channel : ℕ → Channel
  udp_channel : UdpConn → Channel

-- What the caller excludes, and which TCP sockets still have a file (`fileno() != -1`).
pub record Choice : Type 0 where
  pub excluded : Channel → Bool
  pub open_sock : ℕ → Bool

-- `id(c) not in exclude and self._channel_usable(c)`
abbrev pub is_usable : Choice → Channel → Bool
is_usable w (tcp_channel k) = not (w.excluded (tcp_channel k)) && w.open_sock k
is_usable w (udp_channel u) = not (w.excluded (udp_channel u)) && not u.closed

abbrev if_usable : Choice → Channel → Option Channel
if_usable w c = if is_usable w c then some c else none

abbrev tcp_of : Choice → Option ℕ → Option Channel
tcp_of w none = none
tcp_of w (some k) = if_usable w (tcp_channel k)

abbrev udp_of : Choice → Option UdpConn → Option Channel
udp_of w none = none
udp_of w (some u) = if_usable w (udp_channel u)

abbrev of_proto : Choice → Proto → Text → Manager → Option Channel
of_proto w tcp p s = tcp_of w (live_sock (get p s.connections))
of_proto w udp p s = udp_of w (get p s.udp_conns)
of_proto w other p s = udp_of w (get p s.udp_conns)

abbrev of_path : Choice → Option PeerPath → Text → Manager → Option Channel
of_path w none p s = none
of_path w (some path) p s = of_proto w path.proto p s

abbrev or_else {ℓ} : {A : Type ℓ} → Option A → Option A → Option A
or_else (some a) b = some a
or_else none b = b

abbrev with_role : Option Role → Option Channel → Option (Channel × Option Role)
with_role r none = none
with_role r (some c) = some (c, r)

abbrev of_role : Choice → Role → Option Paths → Text → Manager → Option (Channel × Option Role)
of_role w role none p s = none
of_role w role (some paths) p s = with_role (some role) (of_path w (get_by_role role paths) p s)

-- get_send_channel: the role "?" is none
unfoldable pub get_send_channel : Choice → Text → Manager → Option (Channel × Option Role)
get_send_channel w p s =
    let paths = get p s.path_schedulers in
    or_else (of_role w hot paths p s) (
      or_else (of_role w warm_safe paths p s) (
        or_else (of_role w warm_loose paths p s) (
          or_else (with_role none (tcp_of w (live_sock (get p s.connections))))
            (with_role none (udp_of w (get p s.udp_conns))))))

-- get_socket
unfoldable pub get_socket : Text → Manager → Option ℕ
get_socket p s = live_sock (get p s.connections)

-- new_recv_epoch and is_current_epoch
unfoldable pub new_recv_epoch : Text → Manager → Manager × ℕ
new_recv_epoch p s =
    let e = or_default 0 (get p s.recv_epoch) + 1 in
    (record s { recv_epoch = put p e s.recv_epoch }, e)

abbrev same_epoch : Option ℕ → ℕ → Bool
same_epoch none e = false
same_epoch (some c) e = eqb c e

unfoldable pub is_current_epoch : Text → ℕ → Manager → Bool
is_current_epoch p e s = same_epoch (get p s.recv_epoch) e

unfoldable pub mark_active : Text → ℕ → Manager → Manager
mark_active p now s = record s { peer_last_active = put p now s.peer_last_active }

-- _idle_factor, with the tiers' thresholds in the unit of `now`
abbrev tier_of : ℕ → List (ℕ × ℕ) → ℕ → ℕ
tier_of idle [] d = d
tier_of idle ((threshold, factor) ∷ tiers) d =
    let later = tier_of idle tiers d in if ltb idle threshold then factor else later

unfoldable pub idle_factor : Text → ℕ → Manager → ℕ
idle_factor p now s =
    tier_of (now - or_default now (get p s.peer_last_active)) s.cfg.idle_factor_tiers
      s.cfg.idle_factor_max

-- The path after a probe that went well or not, with the clock in seconds.
unfoldable pub probed : Tuning → Bool → ℕ → PeerPath → PeerPath
probed t true now p = record p { scheduler = on_success t p.scheduler; last_seen = now }
probed t false now p = record p { scheduler = on_failure p.scheduler }

-- The loop over one peer's paths, with `ok` for the outcome of _probe_path.
unfoldable pub probe_paths :
    Tuning → (Text → Bool) → ℕ → ℕ → Paths → Dict Text ℕ → Paths × Dict Text ℕ
unfolding probed
probe_paths t ok now factor [] due = ([], due)
probe_paths t ok now factor ((k, p) ∷ ps) due =
    let skipped = role_eq p.role dead || ltb now (or_default 0 (get k due)) in
    let p' = probed t (ok k) now p in
    let due' = put k (now + p'.scheduler.current_interval * factor) due in
    let (ps', due'') = probe_paths t ok now factor ps (if skipped then due else due') in
    ((k, if skipped then p else p') ∷ ps', due'')

-- `path_id in live_ids`
unfoldable pub is_live : Text → Paths → Bool
is_live k [] = false
is_live k ((j, p) ∷ ps) =
    let later = is_live k ps in if text_eq j k && not (role_eq p.role dead) then true else later

unfoldable pub drop_stale : Paths → Dict Text ℕ → Dict Text ℕ
unfolding is_live
drop_stale ps [] = []
drop_stale ps ((k, at) ∷ due) =
    let rest = drop_stale ps due in if is_live k ps then (k, at) ∷ rest else rest

-- What one round of _keepalive_loop does for one peer: the due times of ids that are not among this
-- peer's living paths are dropped.
unfoldable pub probe_peer :
    Tuning → (Text → Bool) → ℕ → ℕ → Paths → Dict Text ℕ → Paths × Dict Text ℕ
unfolding probe_paths drop_stale
probe_peer t ok now factor ps due =
    let (ps', due') = probe_paths t ok now factor ps due in (ps', drop_stale ps due')

-- The round over all peers.
unfoldable pub probe_all :
    Tuning
    → (Text → Bool)
    → ℕ
    → (Text → ℕ)
    → Dict Text Paths
    → Dict Text ℕ
    → Dict Text Paths × Dict Text ℕ
unfolding probe_peer
probe_all t ok now factor [] due = ([], due)
probe_all t ok now factor ((pid, ps) ∷ peers) due =
    let (ps', due') = probe_peer t ok now (factor pid) ps due in
    let (peers', due'') = probe_all t ok now factor peers due' in ((pid, ps') ∷ peers', due'')
