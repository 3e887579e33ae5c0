-- ===== src/Client/Address/Split.antt =====
-- Where a text is split at a character.
use dpmp.Prelude.{ℕ, ◌≡◌, refl, false, ◌||◌, none, some, [], ◌∷◌, ◌++◌, Text, has_char, arith}
use dpmp.Client.Address.{split_first, split_last}

pub has_char-append : (x : ℕ) (s t : Text) → has_char x (s ++ t) ≡ (has_char x s || has_char x t)
unfolding has_char
has_char-append x [] t = refl
has_char-append x (c ∷ s) t = let rest = has_char-append x s t in ground (arith, rest)

pub split_first_lem :
    (x : ℕ) (s t : Text) → has_char x s ≡ false → split_first x (s ++ x ∷ t) ≡ some (s, t)
unfolding split_first has_char
split_first_lem x [] t h = ground arith
split_first_lem x (c ∷ s) t h =
    let rest = split_first_lem x s t in ground (arith, rest (ground arith))

pub split_last-none : (x : ℕ) (t : Text) → has_char x t ≡ false → split_last x t ≡ none
unfolding split_last has_char
split_last-none x [] h = refl
split_last-none x (c ∷ t) h = let rest = split_last-none x t in ground (arith, rest (ground arith))

pub split_last_lem :
    (x : ℕ) (s t : Text) → has_char x t ≡ false → split_last x (s ++ x ∷ t) ≡ some (s, t)
unfolding split_last
split_last_lem x [] t h = let e = split_last-none x t h in ground (arith, e)
split_last_lem x (c ∷ s) t h = let e = split_last_lem x s t h in rw e refl
