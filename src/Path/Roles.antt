-- ===== src/Path/Roles.antt =====
-- _regrade_locked against the order that it sorts by.
pub mod Order
use dpmp.Prelude.{
  ℕ, zero, suc, ◌+◌, ◌≡◌, refl, sym, ap, ◌∙◌, subst, inl, inr, Bool, true, false, Option, none,
  some, List, [], ◌∷◌, if◌then◌else◌, Text, text_key, text_eq, text_eq_iff, select, arith, All,
  Bool-cases, get_elem?, All-weaken, All-select, select-All,
}
use mathlib.Core.Option.{some-injective}
use mathlib.Core.List.{Perm}
use mathlib.Core.List.Perm
use dpmp.Dict.{Dict, get, put, values}
use dpmp.Dict.Laws.{get-put, Distinct}
use dpmp.Path.Keepalive.{Role, Tuning}
use dpmp.Path.Scheduler.{
  PeerPath, Paths, set_role, role_eq, alive, sort_paths, role_at, assign_roles, regrade, role_of,
}
use dpmp.Path.Roles.Order.{
  Apart, Unique, IsSorted, sort_paths-IsSorted, sort_paths-Unique, sort_paths-perm, All-sort_paths,
  select-Unique,
}

-- Every path stands under its own id.
abbrev pub IsKeyed : Paths → Type 0
IsKeyed [] = Unit
IsKeyed ((k, p) ∷ d) = (p.path_id ≡ k) × (get k d ≡ none) × IsKeyed d

Held : Paths → PeerPath → Type 0
Held d p = get p.path_id d ≡ some p

Held-later :
    (k : Text) (p : PeerPath) (d : Paths)
    → get k d ≡ none
    → (q : PeerPath) → Held d q
    → Held ((k, p) ∷ d) q
unfolding Held get
Held-later k p d free q h = ground (arith, text_eq_iff k q.path_id)

values-Held : (d : Paths) → IsKeyed d → All (Held d) (values d)
unfolding Held get
values-Held [] h = tt
values-Held ((k, p) ∷ d) h = (
  ground (arith, text_eq_iff k p.path_id),
  All-weaken (Held-later k p d h.1) (values d) (values-Held d h.2),
)

Apart-later :
    (k : Text) (p : PeerPath) (d : Paths)
    → p.path_id ≡ k
    → get k d ≡ none
    → (q : PeerPath) → Held d q
    → Apart p q
unfolding Held
Apart-later k p d e free q h = ground (arith, text_eq_iff p.path_id q.path_id)

values-Unique : (d : Paths) → IsKeyed d → Unique (values d)
values-Unique [] h = tt
values-Unique ((k, p) ∷ d) h =
    (All-weaken (Apart-later k p d h.0 h.1) (values d) (values-Held d h.2), values-Unique d h.2)

-- The paths in the order of their new roles.
abbrev pub ranking : Tuning → Paths → List PeerPath
ranking t d = sort_paths t (select alive (values d))

All-both {ℓ κ μ} :
    {A : Type ℓ} (P : A → Type κ) (Q : A → Type μ) (xs : List A)
    → All P xs
    → All Q xs
    → All (λ x. P x × Q x) xs
All-both P Q [] h k = tt
All-both P Q (x ∷ xs) h k = ((h.0, k.0), All-both P Q xs h.1 k.1)

-- What a path becomes that takes the role `r`.
abbrev pub graded : Tuning → Role → PeerPath → PeerPath
graded t r p = if role_eq p.role r then p else set_role t r p

-- The table after the path `p` has taken the role `r`.
abbrev step : Tuning → Role → PeerPath → Paths → Paths
step t r p d = if role_eq p.role r then d else put p.path_id (set_role t r p) d

step_other :
    (t : Tuning) (r : Role) (p : PeerPath) (d : Paths) (k : Text)
    → text_eq p.path_id k ≡ false
    → get k (step t r p d) ≡ get k d
step_other t r p d k a = elim (Bool-cases (role_eq p.role r)) [
  | inl e ↦ rw e refl
  | inr e ↦ rw e (rw get-put (rw a refl))
]

step_own :
    (t : Tuning) (r : Role) (p : PeerPath) (d : Paths)
    → Held d p
    → get p.path_id (step t r p d) ≡ some (graded t r p)
unfolding Held
step_own t r p d h = elim (Bool-cases (role_eq p.role r)) [
  | inl e ↦ rw e h
  | inr e ↦ let same = (text_eq_iff p.path_id p.path_id).1 refl in rw e (rw get-put (rw same refl))
]

others_kept :
    (t : Tuning) (i : ℕ) (ps : List PeerPath) (d : Paths) (k : Text)
    → All (λ p. text_eq p.path_id k ≡ false) ps
    → get k (assign_roles t i ps d) ≡ get k d
unfolding assign_roles
others_kept t i [] d k h = refl
others_kept t i (p ∷ ps) d k h =
    others_kept t (suc i) ps (step t (role_at i) p d) k h.1 ∙ step_other t (role_at i) p d k h.0

step-Held :
    (t : Tuning) (r : Role) (p : PeerPath) (d : Paths) (qs : List PeerPath)
    → All (Apart p) qs
    → All (Held d) qs
    → All (Held (step t r p d)) qs
unfolding Held
step-Held t r p d [] a h = tt
step-Held t r p d (q ∷ qs) a h =
    (step_other t r p d q.path_id a.0 ∙ h.0, step-Held t r p d qs a.1 h.1)

Apart-flip :
    (p : PeerPath) (ps : List PeerPath)
    → All (Apart p) ps
    → All (λ q. text_eq q.path_id p.path_id ≡ false) ps
Apart-flip p ps =
    All-weaken
      (λ q h. ground (arith, text_eq_iff p.path_id q.path_id, text_eq_iff q.path_id p.path_id)) ps

assigned :
    (t : Tuning) (i : ℕ) (ps : List PeerPath) (d : Paths)
    → Unique ps
    → All (Held d) ps
    → (j : ℕ) (p : PeerPath) → get_elem? ps j ≡ some p
    → get p.path_id (assign_roles t i ps d) ≡ some (graded t (role_at (i + j)) p)
unfolding assign_roles
assigned t i [] d u h j p e = ground arith
assigned t i (q ∷ ps) d u h zero p e =
    subst (λ p. get p.path_id (assign_roles t i (q ∷ ps) d) ≡ some (graded t (role_at (i + 0)) p))
      (some-injective q p e)
      (others_kept t (suc i) ps (step t (role_at i) q d) q.path_id (Apart-flip q ps u.0)
        ∙ step_own t (role_at i) q d h.0
        ∙ ap (λ n. some (graded t (role_at n) q)) (omega arith))
assigned t i (q ∷ ps) d u h (suc j) p e =
    assigned t (suc i) ps (step t (role_at i) q d) u.1 (step-Held t (role_at i) q d ps u.0 h.1) j p
      e
    ∙ ap (λ n. some (graded t (role_at n) p)) (omega arith)

-- A dead path is none of the living ones.
dead-Apart :
    (d : Paths) (k : Text) (p : PeerPath)
    → get k d ≡ some p
    → alive p ≡ false
    → (q : PeerPath) → Held d q
    → alive q ≡ true
    → text_eq q.path_id k ≡ false
unfolding Held
dead-Apart d k p e dead_ q h l = ground (arith, text_eq_iff q.path_id k)

-- Grading follows the order by priority and round trip: the living paths have an order in which none
-- has to come before one that precedes it, the path at each place of it takes the role of that place,
-- hot, warm_safe and then warm_loose, and a dead path stays as it is. Every path has to stand under
-- its own id, and no id twice.
pub regrade_lem :
    (t : Tuning) (d : Paths)
    → IsKeyed d
    → IsSorted t (ranking t d)
      × Perm (ranking t d) (select alive (values d))
      × ((j : ℕ) (p : PeerPath)
          → get_elem? (ranking t d) j ≡ some p
          → get p.path_id (regrade t d) ≡ some (graded t (role_at j) p))
      × ((k : Text) (p : PeerPath)
          → get k d ≡ some p
          → alive p ≡ false
          → get k (regrade t d) ≡ some p)
unfolding regrade
regrade_lem t d h =
    let living = select alive (values d) in
    let held = All-select (Held d) alive (values d) (values-Held d h) in
    let unique =
      sort_paths-Unique t living (select-Unique t alive (values d) (values-Unique d h)) in
    let both = All-both (Held d) (λ q. alive q ≡ true) living held (select-All alive (values d)) in
    (
      sort_paths-IsSorted t living,
      sort_paths-perm t living,
      (λ j p e.
          assigned t 0 (ranking t d) d unique (All-sort_paths t (Held d) living held) j p e
          ∙ ap (λ n. some (graded t (role_at n) p)) (omega arith)),
      (λ k p e dead_.
          others_kept t 0 (ranking t d) d k (
            All-sort_paths t _ living
              (All-weaken (λ q l. dead-Apart d k p e dead_ q l.0 l.1) living both))
          ∙ e),
    )
