-- ===== src/Client/Manager/Sockets/Dedup.antt =====
-- The connections of two peers that connect to each other at once.
use dpmp.Prelude.{text_lt}
use dpmp.Prelude.{
  ℕ, ◌≡◌, ◌≢◌, refl, sym, inl, inr, eqb_iff, Bool, true, false, not, ◌&&◌, Option, none, some, [],
  ◌∷◌, if◌then◌else◌, eqb, Text, text_eq_iff, text_key, nonempty, arith, Bool-cases,
}
use dpmp.Dict.{get}
use dpmp.Dict.Laws.{get-put}
use dpmp.Server.Format.{Addr}
use dpmp.Server.State.{PeerInfo}
use dpmp.Client.Manager.State.{Manager, live_sock}
use dpmp.Client.Manager.Sockets.{outbound_is_preferred, inbound_is_preferred, settle, connected_to}

-- Of two different texts, one comes first.
text_lt_total : (x y : Text) → x ≢ y → text_lt y x ≡ not (text_lt x y)
unfolding text_lt
text_lt_total [] [] h = absurd (h refl)
text_lt_total [] (y ∷ ys) h = refl
text_lt_total (x ∷ xs) [] h = refl
text_lt_total (x ∷ xs) (y ∷ ys) h = elim (Bool-cases (eqb x y)) [
  | inl e ↦
      let q = (eqb_iff x y).0 e in let r = text_lt_total xs ys (λ z. h cc) in ground (arith, r)
  | inr e ↦ ground arith
]

-- For two peers with different ids: what one calls its outgoing connection and the other its incoming
-- one is preferred by both or by neither, and of the two connections of one peer one is preferred.
pub preference_agrees :
    (x y : Text)
    → nonempty x ≡ true
    → nonempty y ≡ true
    → x ≢ y
    → (outbound_is_preferred x y ≡ inbound_is_preferred y x)
      × (inbound_is_preferred x y ≡ not (outbound_is_preferred x y))
unfolding outbound_is_preferred inbound_is_preferred
preference_agrees x y nx ny h = let t = text_lt_total y x (λ e. h (sym e)) in ground (arith, t)

-- The first connection is taken; the second only in place of one that is not preferred.
settle_first :
    (p : Text) (m : Option PeerInfo) (k : ℕ) (a : Addr) (pref : Bool) (s : Manager)
    → live_sock (get p s.connections) ≡ none
    → get p (settle p m k a pref s).0.connections ≡ some (connected_to m k a pref)
unfolding settle
settle_first p m k a pref s h =
    let g = get-put p p (connected_to m k a pref) s.connections in
    ground (arith, g, text_eq_iff p p)

settle_second :
    (p : Text) (m m' : Option PeerInfo) (k j : ℕ) (a b : Addr) (old pref : Bool) (s : Manager)
    → get p s.connections ≡ some (connected_to m' j b old)
    → live_sock (get p (settle p m k a pref s).0.connections)
      ≡ some (if pref && not old then k else j)
unfolding settle
settle_second p m m' k j a b old pref s h =
    let g = get-put p p (connected_to m k a pref) s.connections in
    ground (arith, g, h, text_eq_iff p p)

-- Where no live connection to a peer is in the table, and an outgoing and an incoming one come in
-- either order, one of them preferred: the preferred one is in the table at the end.
pub preferred_stays :
    (p : Text) (m m' : Option PeerInfo) (out in' : ℕ) (a b : Addr) (pref : Bool) (s : Manager)
    → live_sock (get p s.connections) ≡ none
    → (live_sock (get p (settle p m' in' b (not pref) (settle p m out a pref s).0).0.connections)
        ≡ some (if pref then out else in'))
      × (live_sock (get p (settle p m out a pref (settle p m' in' b (not pref) s).0).0.connections)
          ≡ some (if pref then out else in'))
preferred_stays p m m' out in' a b true s h = (
  settle_second p m' m in' out b a true false (settle p m out a true s).0
      (settle_first p m out a true s h),
  settle_second p m m' out in' a b false true (settle p m' in' b false s).0
      (settle_first p m' in' b false s h),
)
preferred_stays p m m' out in' a b false s h = (
  settle_second p m' m in' out b a false true (settle p m out a false s).0
      (settle_first p m out a false s h),
  settle_second p m m' out in' a b true false (settle p m' in' b true s).0
      (settle_first p m' in' b true s h),
)
