-- ===== src/Server/State/Sizes.antt =====
-- The sizes of the rooms in the table, over its updates.
use dpmp.Prelude.{ℕ, ◌≤◌, [], ◌∷◌, Text, text_key, length, arith}
use dpmp.Dict.{Dict, get, put, remove}
use dpmp.Server.State.{Room, or_default}

-- Every room has at most `n` members.
abbrev pub IsBounded : ℕ → Dict Text Room → Type 0
IsBounded n [] = Unit
IsBounded n ((r, members) ∷ rooms) = (length members ≤ n) × IsBounded n rooms

pub put-IsBounded :
    (n : ℕ) (r : Text) (members : Room) (rooms : Dict Text Room)
    → length members ≤ n
    → IsBounded n rooms
    → IsBounded n (put r members rooms)
unfolding put
put-IsBounded n r members [] h b = (h, tt)
put-IsBounded n r members ((q, ms) ∷ rooms) h b =
    let rest = put-IsBounded n r members rooms h b.1 in ground (arith, rest)

pub remove-IsBounded :
    (n : ℕ) (r : Text) (rooms : Dict Text Room) → IsBounded n rooms → IsBounded n (remove r rooms)
unfolding remove
remove-IsBounded n r [] b = tt
remove-IsBounded n r ((q, ms) ∷ rooms) b =
    let rest = remove-IsBounded n r rooms b.1 in ground (arith, rest)

pub get-IsBounded :
    (n : ℕ) (r : Text) (rooms : Dict Text Room)
    → IsBounded n rooms
    → length (or_default [] (get r rooms)) ≤ n
unfolding get
get-IsBounded n r [] b = omega arith
get-IsBounded n r ((q, ms) ∷ rooms) b =
    let rest = get-IsBounded n r rooms b.1 in ground (arith, rest)
