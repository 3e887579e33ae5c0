-- ===== src/Dict.antt =====
-- Python's `dict`: an association list in insertion order, as iteration sees it.
pub mod Laws
use dpmp.Prelude.{Bool, true, false, Option, none, some, List, [], ◌∷◌, Eq, ◌==◌, if◌then◌else◌}

abbrev pub Dict {ℓ} : Type 0 → Type ℓ → Type ℓ
Dict K V = List (K × V)

module _ {ℓ} {K : Type 0} {V : Type ℓ} ⦃e : Eq K⦄ where
  -- d.get(k)
  unfoldable pub get : K → Dict K V → Option V
  get k [] = none
  get k ((j, v) ∷ d) = if j == k then some v else get k d

  -- k in d
  unfoldable pub has : K → Dict K V → Bool
  has k [] = false
  has k ((j, v) ∷ d) = if j == k then true else has k d

  -- d[k] = v: in place for a key that is there, at the end for a new one
  unfoldable pub put : K → V → Dict K V → Dict K V
  put k v [] = (k, v) ∷ []
  put k v ((j, w) ∷ d) = if j == k then (k, v) ∷ d else (j, w) ∷ put k v d

  -- d.pop(k, None)
  unfoldable pub remove : K → Dict K V → Dict K V
  remove k [] = []
  remove k ((j, v) ∷ d) = if j == k then d else (j, v) ∷ remove k d

-- list(d.keys()), list(d.values())
abbrev pub keys {ℓ} : {K : Type 0} {V : Type ℓ} → Dict K V → List K
keys [] = []
keys ((j, v) ∷ d) = j ∷ keys d

abbrev pub values {ℓ} : {K : Type 0} {V : Type ℓ} → Dict K V → List V
values [] = []
values ((j, v) ∷ d) = v ∷ values d
