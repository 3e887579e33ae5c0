-- ===== src/Path/Roles/Order.antt =====
-- The order of the living paths: the stable sort by priority and round trip.
use dpmp.Prelude.{
  ◌≡◌, inl, inr, Bool, true, false, List, [], ◌∷◌, text_eq, text_eq_iff, select, arith, All,
  Bool-cases, All-weaken, All-select,
}
use mathlib.Core.List.{Perm}
use mathlib.Core.List.Perm
use dpmp.Path.Keepalive.{Tuning}
use dpmp.Path.Scheduler.{PeerPath, before, insert_sorted, sort_paths}

-- Two paths with different ids.
abbrev pub Apart : PeerPath → PeerPath → Type 0
Apart p q = text_eq p.path_id q.path_id ≡ false

abbrev pub Unique : List PeerPath → Type 0
Unique [] = Unit
Unique (p ∷ ps) = All (Apart p) ps × Unique ps

-- `q` does not have to come before `p`.
abbrev pub Fits : Tuning → PeerPath → PeerPath → Type 0
Fits t p q = before t q p ≡ false

-- No path has to come before one that precedes it.
abbrev pub IsSorted : Tuning → List PeerPath → Type 0
IsSorted t [] = Unit
IsSorted t (p ∷ ps) = All (Fits t p) ps × IsSorted t ps

module _ (t : Tuning) where
  All-insert_sorted {κ} :
      (P : PeerPath → Type κ) (p : PeerPath) (qs : List PeerPath)
      → P p
      → All P qs
      → All P (insert_sorted t p qs)
  unfolding insert_sorted
  All-insert_sorted P p [] h k = (h, tt)
  All-insert_sorted P p (q ∷ qs) h k = elim (Bool-cases (before t q p)) [
    | inl e ↦ rw e (k.0, All-insert_sorted P p qs h k.1)
    | inr e ↦ rw e (h, k)
  ]

  pub All-sort_paths {κ} :
      (P : PeerPath → Type κ) (ps : List PeerPath) → All P ps → All P (sort_paths t ps)
  unfolding sort_paths
  All-sort_paths P [] h = tt
  All-sort_paths P (p ∷ ps) h =
      All-insert_sorted P p (sort_paths t ps) h.0 (All-sort_paths P ps h.1)

  pub select-Unique : (f : PeerPath → Bool) (ps : List PeerPath) → Unique ps → Unique (select f ps)
  unfolding select
  select-Unique f [] u = tt
  select-Unique f (p ∷ ps) u = elim (Bool-cases (f p)) [
    | inl e ↦ rw e (All-select _ f ps u.0, select-Unique f ps u.1)
    | inr e ↦ rw e (select-Unique f ps u.1)
  ]

  Apart-sym : (p q : PeerPath) → Apart p q → Apart q p
  Apart-sym p q h = ground (arith, text_eq_iff p.path_id q.path_id, text_eq_iff q.path_id p.path_id)

  insert_sorted-Unique :
      (p : PeerPath) (qs : List PeerPath)
      → All (Apart p) qs
      → Unique qs
      → Unique (insert_sorted t p qs)
  unfolding insert_sorted
  insert_sorted-Unique p [] h u = (tt, tt)
  insert_sorted-Unique p (q ∷ qs) h u = elim (Bool-cases (before t q p)) [
    | inl e ↦
        rw e (All-insert_sorted _ p qs (Apart-sym p q h.0) u.0, insert_sorted-Unique p qs h.1 u.1)
    | inr e ↦ rw e (h, u)
  ]

  pub sort_paths-Unique : (ps : List PeerPath) → Unique ps → Unique (sort_paths t ps)
  unfolding sort_paths
  sort_paths-Unique [] u = tt
  sort_paths-Unique (p ∷ ps) u =
      insert_sorted-Unique p (sort_paths t ps) (All-sort_paths _ ps u.0) (sort_paths-Unique ps u.1)

  Fits-back : (p q : PeerPath) → before t q p ≡ true → Fits t q p
  unfolding before
  Fits-back p q h = ground arith

  Fits-trans : (p q r : PeerPath) → Fits t p q → Fits t q r → Fits t p r
  unfolding before
  Fits-trans p q r h k = ground arith

  insert_sorted-IsSorted :
      (p : PeerPath) (qs : List PeerPath) → IsSorted t qs → IsSorted t (insert_sorted t p qs)
  unfolding insert_sorted
  insert_sorted-IsSorted p [] s = (tt, tt)
  insert_sorted-IsSorted p (q ∷ qs) s = elim (Bool-cases (before t q p)) [
    | inl e ↦ rw e (All-insert_sorted _ p qs (Fits-back p q e) s.0, insert_sorted-IsSorted p qs s.1)
    | inr e ↦ rw e ((e, All-weaken (λ r k. Fits-trans p q r e k) qs s.0), s)
  ]

  pub sort_paths-IsSorted : (ps : List PeerPath) → IsSorted t (sort_paths t ps)
  unfolding sort_paths
  sort_paths-IsSorted [] = tt
  sort_paths-IsSorted (p ∷ ps) = insert_sorted-IsSorted p (sort_paths t ps) (sort_paths-IsSorted ps)

  insert_sorted-perm : (p : PeerPath) (qs : List PeerPath) → Perm (insert_sorted t p qs) (p ∷ qs)
  unfolding insert_sorted
  insert_sorted-perm p [] = Perm.rfl
  insert_sorted-perm p (q ∷ qs) = elim (Bool-cases (before t q p)) [
    | inl e ↦ rw e (Perm.trans (Perm.cons q (insert_sorted-perm p qs)) (Perm.swap p q qs))
    | inr e ↦ rw e Perm.rfl
  ]

  pub sort_paths-perm : (ps : List PeerPath) → Perm (sort_paths t ps) ps
  unfolding sort_paths
  sort_paths-perm [] = Perm.rfl
  sort_paths-perm (p ∷ ps) =
      Perm.trans (insert_sorted-perm p (sort_paths t ps)) (Perm.cons p (sort_paths-perm ps))
