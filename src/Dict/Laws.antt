-- ===== src/Dict/Laws.antt =====
-- What the clients of dictionaries use: lookups after an update, and the keys that stay distinct.
use dpmp.Prelude.{
  suc, ◌+◌, ◌≤◌, ◌≡◌, refl, sym, ap, ◌∙◌, false, either, none, some, [], ◌∷◌, Eq, ◌==◌,
  if◌then◌else◌, arith, length, is_some, All, Bool-cases, inl, inr,
}
use dpmp.Dict.{Dict, get, has, put, remove}

some-none {ℓ} : {A : Type ℓ} {a : A} → some a ≡ none → ⊥
some-none h = cc

module _ {ℓ} {K : Type 0} {V : Type ℓ} ⦃e : Eq K⦄ where
  pub get-put :
      (k j : K) (v : V) (d : Dict K V) → get j (put k v d) ≡ (if k == j then some v else get j d)
  unfolding get put
  get-put k j v [] = refl
  get-put k j v ((i, w) ∷ d) =
      ground (arith, e.beq_iff k j, e.beq_iff i k, e.beq_iff i j, get-put k j v d)

  pub has-get : (k : K) (d : Dict K V) → has k d ≡ is_some (get k d)
  unfolding get has
  has-get k [] = refl
  has-get k ((i, w) ∷ d) = ground (arith, has-get k d)

  -- No key stands twice.
  abbrev pub Distinct : Dict K V → Type ℓ
  Distinct [] = Unit
  Distinct ((k, v) ∷ d) = (get k d ≡ none) × Distinct d

  pub get-remove :
      (k j : K) (d : Dict K V)
      → Distinct d
      → get j (remove k d) ≡ (if k == j then none else get j d)
  unfolding get remove
  get-remove k j [] h = ground arith
  get-remove k j ((i, w) ∷ d) h =
      ground (arith, e.beq_iff k j, e.beq_iff i k, e.beq_iff i j, get-remove k j d h.1)

  pub get-remove_other : (k j : K) (d : Dict K V) → (k == j) ≡ false → get j (remove k d) ≡ get j d
  unfolding get remove
  get-remove_other k j [] n = refl
  get-remove_other k j ((i, w) ∷ d) n =
      let later = get-remove_other k j d n in ground (arith, e.beq_iff i k, e.beq_iff i j, n, later)

  pub put-Distinct : (k : K) (v : V) (d : Dict K V) → Distinct d → Distinct (put k v d)
  unfolding get put
  put-Distinct k v [] h = (refl, tt)
  put-Distinct k v ((i, w) ∷ d) h =
      ground (arith, e.beq_iff i k, e.beq_iff k i, get-put k i v d, put-Distinct k v d h.1)

  pub remove-Distinct : (k : K) (d : Dict K V) → Distinct d → Distinct (remove k d)
  unfolding get remove
  remove-Distinct k [] h = tt
  remove-Distinct k ((i, w) ∷ d) h =
      ground (arith, e.beq_iff i k, e.beq_iff k i, get-remove k i d h.1, remove-Distinct k d h.1)

  pub length-put :
      (k : K) (v : V) (d : Dict K V)
      → length (put k v d) ≡ (if has k d then length d else suc (length d))
  unfolding put has
  length-put k v [] = refl
  length-put k v ((i, w) ∷ d) = ground (arith, length-put k v d)

  pub length-remove : (k : K) (d : Dict K V) → length (remove k d) ≤ length d
  unfolding remove
  length-remove k [] = omega arith
  length-remove k ((i, w) ∷ d) = ground (arith, length-remove k d)

  pub length-remove_hit :
      (k : K) (v : V) (d : Dict K V) → get k d ≡ some v → length (remove k d) + 1 ≡ length d
  unfolding get remove
  length-remove_hit k v [] h = cc
  length-remove_hit k v ((i, w) ∷ d) h = ground (arith, length-remove_hit k v d)

  -- A key that is not there.
  pub absent-cons :
      (k j : K) (v : V) (d : Dict K V)
      → get j ((k, v) ∷ d) ≡ none
      → ((k == j) ≡ false) × (get j d ≡ none)
  unfolding get
  absent-cons k j v d h = ground arith

  pub put-absent :
      (k j : K) (v : V) (d : Dict K V)
      → (k == j) ≡ false
      → get j d ≡ none
      → get j (put k v d) ≡ none
  put-absent k j v d n h = get-put k j v d ∙ rw n h

  pub remove-absent : (k j : K) (d : Dict K V) → get j d ≡ none → get j (remove k d) ≡ none
  unfolding get remove
  remove-absent k j [] h = refl
  remove-absent k j ((i, w) ∷ d) h =
      let (first, later) = absent-cons i j w d h in
      either (λ r. get j r ≡ none) (i == k) d ((i, w) ∷ remove k d) later
        (rw first (remove-absent k j d later))

  pub present-apart :
      (k j : K) (v : V) (d : Dict K V) → get k d ≡ some v → get j d ≡ none → (k == j) ≡ false
  present-apart k j v d h n = elim (Bool-cases (k == j)) [
    | inl same ↦ absurd (some-none (sym h ∙ ap (λ i. get i d) ((e.beq_iff k j).0 same) ∙ n))
    | inr apart ↦ apart
  ]

-- What holds of every entry, and of the new one, holds of every entry after an update.
pub All-put {ℓ κ} :
    {K : Type 0} {V : Type ℓ} ⦃e : Eq K⦄ (P : K × V → Type κ) (k : K) (v : V) (d : Dict K V)
    → P (k, v)
    → All P d
    → All P (put k v d)
unfolding put
All-put P k v [] p h = (p, tt)
All-put P k v ((j, w) ∷ d) p h = elim (Bool-cases (j == k)) [
  | inl e ↦ rw e (p, h.1)
  | inr e ↦ rw e (h.0, All-put P k v d p h.1)
]

pub ruleset dict_laws = (get-put, get-remove, has-get, put-Distinct, remove-Distinct)
