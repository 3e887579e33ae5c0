-- ===== src/Client/Manager/Traces/Strangers.antt =====
-- A connection, a channel or a punch of one peer is none of another.
use dpmp.Prelude.{
  ℕ, ◌≡◌, refl, Bool, false, Option, none, some, List, [], ◌∷◌, Text, text_key, text_eq, either,
  Bool-cases, inl, inr, nonempty, ◌&&◌,
}
use dpmp.Dict.{Dict, get}
use dpmp.Dict.Laws.{absent-cons, put-absent, present-apart}
use dpmp.Server.Format.{Addr}
use dpmp.Server.State.{PeerInfo}
use dpmp.Client.Address.{split_last}
use dpmp.Client.Manager.State.{Action, Conn, Manager, is_connected, is_busy, new_conn}
use dpmp.Client.Manager.Events.{on_punch_go, punch_if_known, on_peer_tcp_ready}
use dpmp.Client.Manager.Sockets.{
  settle, host_of, match_exact, match_ip, or_by_ip, inbound_from, find_inbound, install_socket,
  outbound_is_preferred,
}
use dpmp.Client.Manager.Punching.{failed_conn}
use dpmp.Client.Manager.Udp.{on_udp_hole_ready}
use dpmp.Client.Manager.Traces.Forgetting.{Forgotten, conn-Forgotten}

module _ (p : Text) where
  abbrev ForgottenIn {ℓ} : {A : Type ℓ} → Manager × A → Type 0
  ForgottenIn r = Forgotten p r.0

  settle-Forgotten :
      (q : Text) (m : Option PeerInfo) (sock : ℕ) (addr : Addr) (pref : Bool) (s : Manager)
      → text_eq q p ≡ false
      → Forgotten p s
      → Forgotten p (settle q m sock addr pref s).0
  unfolding settle
  settle-Forgotten q m sock addr pref s n h =
      either (λ (r : Manager × Bool × List Action). Forgotten p r.0) _ _ _ h
        (conn-Forgotten p q _ s n h)

  pub install-Forgotten :
      (q : Text) (sock : ℕ) (addr : Addr) (now : ℕ) (s : Manager)
      → text_eq q p ≡ false
      → Forgotten p s
      → Forgotten p (install_socket q sock addr now s).0
  unfolding install_socket
  install-Forgotten q sock addr now s n h =
      let (m, c, u, l) =
        settle-Forgotten q (get q s.members) sock addr (outbound_is_preferred s.my_id q) s n h in
      either (ForgottenIn {A = List Action}) _ _ _ (m, c, u, put-absent q p _ _ n l) (m, c, u, l)

  -- An incoming connection is a member's.
  abbrev Apart : Option (Text × PeerInfo) → Type 0
  Apart none = Unit
  Apart (some (q, m)) = text_eq q p ≡ false

  match_exact-Apart :
      (key : Text) (ms : Dict Text PeerInfo) → get p ms ≡ none → Apart (match_exact key ms)
  unfolding match_exact
  match_exact-Apart key [] h = tt
  match_exact-Apart key ((q, m) ∷ ms) h =
      let (first, later) = absent-cons q p m ms h in
      either Apart (nonempty m.pub_tcp && text_eq m.pub_tcp key) (some (q, m)) (match_exact key ms)
        first (match_exact-Apart key ms later)

  match_ip-Apart : (ip : Text) (ms : Dict Text PeerInfo) → get p ms ≡ none → Apart (match_ip ip ms)
  unfolding match_ip
  match_ip-Apart ip [] h = tt
  match_ip-Apart ip ((q, m) ∷ ms) h =
      let (first, later) = absent-cons q p m ms h in
      either Apart
        (nonempty m.pub_tcp && text_eq (host_of m.pub_tcp (split_last b':' m.pub_tcp)) ip)
        (some (q, m)) (match_ip ip ms) first (match_ip-Apart ip ms later)

  or_by_ip-Apart :
      (ip : Text) (ms : Dict Text PeerInfo) (o : Option (Text × PeerInfo))
      → get p ms ≡ none
      → Apart o
      → Apart (or_by_ip ip ms o)
  or_by_ip-Apart ip ms none h a =
      either Apart (nonempty ip) (match_ip ip ms) none (match_ip-Apart ip ms h) tt
  or_by_ip-Apart ip ms (some x) h a = a

  pub inbound-Forgotten :
      (o : Option (Text × PeerInfo)) (sock : ℕ) (addr : Addr) (s : Manager)
      → Apart o
      → Forgotten p s
      → Forgotten p (inbound_from o sock addr s).0
  inbound-Forgotten none sock addr s n h = h
  inbound-Forgotten (some (q, m)) sock addr s n h = settle-Forgotten q (some m) sock addr _ s n h

  pub found-Apart :
      (addr : Addr) (ms : Dict Text PeerInfo) → get p ms ≡ none → Apart (find_inbound addr ms)
  unfolding find_inbound
  found-Apart (ip, port) ms h = or_by_ip-Apart ip ms _ h (match_exact-Apart _ ms h)

  pub failed-Forgotten :
      (q : Text) (o : Option Conn) (s : Manager)
      → get q s.connections ≡ o
      → Forgotten p s
      → Forgotten p (failed_conn q o s).0
  failed-Forgotten q none s e h = h
  failed-Forgotten q (some c) s e h =
      either (ForgottenIn {A = Bool}) (is_connected c.state) _ _ h
        (conn-Forgotten p q _ s (present-apart q p c s.connections e h.1) h)

  known-Forgotten :
      (q : Text) (o : Option PeerInfo) (s : Manager)
      → get q s.members ≡ o
      → Forgotten p s
      → Forgotten p (punch_if_known q o s).0
  unfolding new_conn
  known-Forgotten q none s e h = h
  known-Forgotten q (some peer) s e h =
      conn-Forgotten p q _ s (present-apart q p peer s.members e h.0) h

  pub tcp_ready-Forgotten :
      (q : Text) (s : Manager) → Forgotten p s → Forgotten p (on_peer_tcp_ready q s).0
  unfolding on_peer_tcp_ready
  tcp_ready-Forgotten q s h =
      either (ForgottenIn {A = List Action}) _ _ _ h (known-Forgotten q (get q s.members) s refl h)

  pub punch_go-Forgotten :
      (peer : PeerInfo) (at : ℕ) (s : Manager)
      → text_eq peer.id p ≡ false
      → Forgotten p s
      → Forgotten p (on_punch_go peer at s).0
  unfolding on_punch_go new_conn
  punch_go-Forgotten peer at s n h =
      let named = put-absent peer.id p peer s.members n h.0 in
      elim (Bool-cases (nonempty peer.id)) [
        | inl e ↦ elim (Bool-cases (is_busy (get peer.id s.connections))) [
          | inl b ↦ rw (e, b) (named, h.1, h.2, h.3)
          | inr b ↦ rw (e, b) (named, put-absent peer.id p _ s.connections n h.1, h.2, h.3)
        ]
        | inr e ↦ rw e h
      ]

  pub hole-Forgotten :
      (q : Text) (addr : Addr) (chan now : ℕ) (s : Manager)
      → text_eq q p ≡ false
      → Forgotten p s
      → Forgotten p (on_udp_hole_ready q addr chan now s).0
  unfolding on_udp_hole_ready
  hole-Forgotten q addr chan now s n h =
      either (ForgottenIn {A = List Action}) _ _ _ h
        (h.0, h.1, put-absent q p _ s.udp_conns n h.2, put-absent q p _ s.path_schedulers n h.3)
