-- ===== src/Client/Manager/Events/Fallback.antt =====
-- What a peer's giving up TCP does to the only path to it.
use dpmp.Prelude.{
  ℕ, ◌≡◌, refl, ap, ◌∙◌, true, Option, none, some, [], ◌∷◌, Text, text_key, text_eq_iff,
}
use dpmp.Dict.{get, has, put}
use dpmp.Dict.Laws.{get-put}
use dpmp.Server.Format.{Addr}
use dpmp.Path.Keepalive.{hot, dead, tcp, Tuning}
use dpmp.Path.Scheduler.{PeerPath, Paths, promote_on_hot_failure}
use dpmp.Client.Manager.State.{Manager, Conn}
use dpmp.Client.Manager.Events.{on_peer_punch_fail, on_path_failure, fail_path, fail_conn}
use dpmp.Client.Manager.Udp.{on_udp_hole_ready}

only_path_dies :
    (t : Tuning) (k : Text) (path : PeerPath)
    → path.path_id ≡ k
    → path.role ≡ hot
    → (promote_on_hot_failure t ((k, path) ∷ [])).0 ≡ (k, record path { role = dead }) ∷ []
unfolding promote_on_hot_failure put
only_path_dies t k path e h = let same = (text_eq_iff k k).1 refl in rw h (rw e (rw same refl))

conn_only :
    (p : Text) (c : Option Conn) (s : Manager)
    → (fail_conn p c s).path_schedulers ≡ s.path_schedulers
conn_only p none s = refl
conn_only p (some c) s = refl

conn_only' : (p : Text) (c : Option Conn) (s : Manager) → (fail_conn p c s).udp_conns ≡ s.udp_conns
conn_only' p none s = refl
conn_only' p (some c) s = refl

killed :
    (p : Text) (o : Option Paths) (paths : Paths) (s : Manager)
    → o ≡ some paths
    → get p (fail_path p tcp o s).path_schedulers
      ≡ some (promote_on_hot_failure s.cfg.tuning paths).0
killed p o paths s e = let same = (text_eq_iff p p).1 refl in rw e (rw get-put (rw same refl))

channels_kept :
    (p : Text) (o : Option Paths) (s : Manager) → (fail_path p tcp o s).udp_conns ≡ s.udp_conns
channels_kept p none s = refl
channels_kept p (some paths) s = refl

ready_again :
    (p : Text) (addr : Addr) (chan now : ℕ) (s : Manager)
    → has p s.udp_conns ≡ true
    → on_udp_hole_ready p addr chan now s ≡ (s, [])
unfolding on_udp_hole_ready
ready_again p addr chan now s h = rw h refl

-- When a peer gives up TCP, and the one path to it is hot, that path is dead, over UDP too. The UDP
-- channels stay; and if there is one to the peer, a hole that gets ready right then does nothing.
pub punch_fail_kills_path :
    (p k : Text) (path : PeerPath) (addr : Addr) (chan now : ℕ) (s : Manager)
    → get p s.path_schedulers ≡ some ((k, path) ∷ [])
    → path.path_id ≡ k
    → path.role ≡ hot
    → has p s.udp_conns ≡ true
    → (get p (on_peer_punch_fail p s).0.path_schedulers
        ≡ some ((k, record path { role = dead }) ∷ []))
      × ((on_peer_punch_fail p s).0.udp_conns ≡ s.udp_conns)
      × (on_udp_hole_ready p addr chan now (on_peer_punch_fail p s).0
          ≡ ((on_peer_punch_fail p s).0, []))
unfolding on_peer_punch_fail on_path_failure
punch_fail_kills_path p k path addr chan now s there id_ role_ still =
    let s1 = fail_conn p (get p s.connections) s in
    let found = ap (get p) (conn_only p (get p s.connections) s) ∙ there in
    let kept =
      channels_kept p (get p s1.path_schedulers) s1 ∙ conn_only' p (get p s.connections) s in
    (
      killed p (get p s1.path_schedulers) ((k, path) ∷ []) s1 found
          ∙ ap some (only_path_dies s1.cfg.tuning k path id_ role_),
      kept,
      ready_again p addr chan now (fail_path p tcp (get p s1.path_schedulers) s1)
          (ap (has p) kept ∙ still),
    )
