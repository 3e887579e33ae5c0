-- ===== src/Client/Manager/Traces/Forgetting.antt =====
-- What it is for the manager to have nothing of a peer, and what leaves that so.
use dpmp.Prelude.{
  ℕ, ◌≡◌, refl, Bool, false, ◌||◌, Option, none, some, List, [], ◌∷◌, Text, text_key, text_eq,
  arith, either,
}
use dpmp.Dict.{get, put}
use dpmp.Dict.Laws.{Distinct, put-absent, remove-absent, present-apart}
use dpmp.Server.State.{PeerInfo}
use dpmp.Path.Keepalive.{Proto, tcp, udp, other}
use dpmp.Path.Scheduler.{Paths}
use dpmp.Client.Manager.State.{Action, Conn, Manager}
use dpmp.Client.Manager.Events.{
  add_member, on_joined, fail_path, on_path_failure, fail_conn, request_rebuild, rebuild_all,
  handle_udp_peer_dead,
}
use dpmp.Client.Manager.Traces.{Event, members_join, punch_go, installs, hole_ready}

abbrev pub lists : Text → List PeerInfo → Bool
lists p [] = false
lists p (m ∷ ms) = text_eq m.id p || lists p ms

-- The server names the peer again, or a socket or a channel of it is made.
abbrev pub brings : Text → Event → Bool
brings p (members_join ms) = lists p ms
brings p (punch_go peer at) = text_eq peer.id p
brings p (installs q sock addr now) = text_eq q p
brings p (hole_ready q addr chan now) = text_eq q p
brings p _ = false

-- Nothing of the peer: neither itself, nor a connection, a channel, or paths.
abbrev pub Forgotten : Text → Manager → Type 0
Forgotten p s =
    (get p s.members ≡ none)
    × (get p s.connections ≡ none)
    × (get p s.udp_conns ≡ none)
    × (get p s.path_schedulers ≡ none)

-- Python's tables have each key once.
abbrev pub IsKeyed : Manager → Type 0
IsKeyed s =
    Distinct s.members × Distinct s.connections × Distinct s.udp_conns × Distinct s.path_schedulers

module _ (p : Text) where
  abbrev ForgottenIn {ℓ} : {A : Type ℓ} → Manager × A → Type 0
  ForgottenIn r = Forgotten p r.0

  pub path-Forgotten :
      (q : Text) (proto : Proto) (o : Option Paths) (s : Manager)
      → get q s.path_schedulers ≡ o
      → Forgotten p s
      → Forgotten p (fail_path q proto o s)
  path-Forgotten q proto none s e h = h
  path-Forgotten q tcp (some ps) s e (m, c, u, l) =
      (m, c, u, put-absent q p _ s.path_schedulers (present-apart q p ps s.path_schedulers e l) l)
  path-Forgotten q udp (some ps) s e (m, c, u, l) =
      (m, c, u, put-absent q p _ s.path_schedulers (present-apart q p ps s.path_schedulers e l) l)
  path-Forgotten q other (some ps) s e (m, c, u, l) =
      (m, c, u, put-absent q p _ s.path_schedulers (present-apart q p ps s.path_schedulers e l) l)

  pub conn-Forgotten :
      (q : Text) (c : Conn) (s : Manager)
      → text_eq q p ≡ false
      → Forgotten p s
      → Forgotten p (record s { connections = put q c s.connections })
  conn-Forgotten q c s n (m, l, u, ps) = (m, put-absent q p c s.connections n l, u, ps)

  pub fail_conn-Forgotten :
      (q : Text) (o : Option Conn) (s : Manager)
      → get q s.connections ≡ o
      → Forgotten p s
      → Forgotten p (fail_conn q o s)
  fail_conn-Forgotten q none s e h = h
  fail_conn-Forgotten q (some c) s e h =
      conn-Forgotten q _ s (present-apart q p c s.connections e h.1) h

  pub rebuild-Forgotten :
      (q : Text) (now : ℕ) (s : Manager) → Forgotten p s → Forgotten p (request_rebuild q now s).0
  unfolding request_rebuild
  rebuild-Forgotten q now s h = either (ForgottenIn {A = List Action}) _ _ _ h h

  pub rebuild_all-Forgotten :
      (qs : List Text) (now : ℕ) (s : Manager)
      → Forgotten p s
      → Forgotten p (rebuild_all qs now s).0
  unfolding rebuild_all
  rebuild_all-Forgotten [] now s h = h
  rebuild_all-Forgotten (q ∷ qs) now s h =
      rebuild_all-Forgotten qs now (request_rebuild q now s).0 (rebuild-Forgotten q now s h)

  pub udp_dead-Forgotten :
      (q : Text) (now : ℕ) (s : Manager)
      → Forgotten p s
      → Forgotten p (handle_udp_peer_dead q now s).0
  unfolding handle_udp_peer_dead on_path_failure
  udp_dead-Forgotten q now s h =
      let (m, c, u, l) = path-Forgotten q udp (get q s.path_schedulers) s refl h in
      rebuild-Forgotten q now _ (m, c, remove-absent q p s.udp_conns h.2, l)

  pub join-Forgotten :
      (ms : List PeerInfo) (s : Manager)
      → lists p ms ≡ false
      → Forgotten p s
      → Forgotten p (on_joined ms s).0
  unfolding on_joined add_member
  join-Forgotten [] s n h = h
  join-Forgotten (m ∷ ms) s n h =
      let first : text_eq m.id p ≡ false = ground arith in
      let later : lists p ms ≡ false = ground arith in
      join-Forgotten ms (add_member m s).0 later (
        either (ForgottenIn {A = List Action}) _ _ _
          (put-absent m.id p m s.members first h.0, h.1, h.2, h.3) h)
