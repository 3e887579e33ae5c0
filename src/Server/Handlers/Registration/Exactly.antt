-- ===== src/Server/Handlers/Registration/Exactly.antt =====
-- recv_exact against the bytes of the connection, however they are cut.
use dpmp.Prelude.{
  ℕ, zero, suc, ◌+◌, ◌-◌, ◌≤◌, ◌<◌, ◌≡◌, refl, sym, ap, subst, ◌∙◌, true, false, none, some, Option,
  List, [], ◌∷◌, ◌++◌, leb, length, take, drop, nonempty, arith, Bool-cases, inl, inr, All,
  length-append, take-append-drop, append_assoc, append-nil,
}
use dpmp.Codec.BigEndian.{Bytes}
use dpmp.Server.Handlers.Registration.{recv, recv_exact_loop, recv_exact}

-- `recv` never delivers an empty piece before the end.
abbrev pub IsSolid : List Bytes → Type 0
IsSolid = All (λ p. nonempty p ≡ true)

abbrev pub joined : List Bytes → Bytes
joined [] = []
joined (p ∷ ps) = p ++ joined ps

abbrev Received : ℕ → List Bytes → Bytes × List Bytes → Type 0
Received k conn (chunk, conn') =
    (chunk ++ joined conn' ≡ joined conn)
    × (length chunk ≤ k)
    × IsSolid conn'
    × (1 ≤ k → 1 ≤ length (joined conn) → nonempty chunk ≡ true)

solid_drop : (k : ℕ) (p : Bytes) → k < length p → nonempty (drop k p) ≡ true
solid_drop k [] h = absurd (omega arith)
solid_drop zero (b ∷ p) h = refl
solid_drop (suc k) (b ∷ p) h = solid_drop k p (omega arith)

take_some : (k : ℕ) (p : Bytes) → 1 ≤ k → nonempty p ≡ true → nonempty (take k p) ≡ true
take_some zero p h e = absurd (omega arith)
take_some (suc k) [] h e = e
take_some (suc k) (b ∷ p) h e = refl

length-take_le : (k : ℕ) (p : Bytes) → length (take k p) ≤ k
length-take_le zero p = ground arith
length-take_le (suc k) [] = ground arith
length-take_le (suc k) (b ∷ p) = omega (arith, length-take_le k p)

recv_lem : (k : ℕ) (conn : List Bytes) → IsSolid conn → Received k conn (recv k conn)
unfolding recv
recv_lem k [] h = (refl, ground arith, tt, λ a b. absurd (omega arith))
recv_lem k (p ∷ ps) h = elim (Bool-cases (leb (length p) k)) [
  | inl e ↦ rw e (refl, ground arith, h.1, λ a b. h.0)
  | inr e ↦ rw e (
    sym (append_assoc (take k p) (drop k p) (joined ps))
        ∙ ap (λ q. q ++ joined ps) (take-append-drop k p),
    length-take_le k p,
    (solid_drop k p (ground arith), h.1),
    λ a b. take_some k p a h.0,
  )
]

pub take-append_past : (n : ℕ) (xs ys : Bytes) → take (length xs + n) (xs ++ ys) ≡ xs ++ take n ys
take-append_past n [] ys = ap (λ k. take k ys) (omega arith)
take-append_past n (x ∷ xs) ys =
    let onward : suc (length xs) + n ≡ suc (length xs + n) = omega arith in
    rw onward (ap (◌∷◌ x) (take-append_past n xs ys))

drop-append_past : (n : ℕ) (xs ys : Bytes) → drop (length xs + n) (xs ++ ys) ≡ drop n ys
drop-append_past n [] ys = ap (λ k. drop k ys) (omega arith)
drop-append_past n (x ∷ xs) ys =
    let onward : suc (length xs) + n ≡ suc (length xs + n) = omega arith in
    rw onward (drop-append_past n xs ys)

-- What the loop gives, with `k` bytes to go.
abbrev pub Exactly : ℕ → Bytes → List Bytes → Option (Bytes × List Bytes) → Type 0
Exactly k buf conn r =
    (k ≤ length (joined conn)
      → (conn' : List Bytes) × (r ≡ some (buf ++ take k (joined conn), conn'))
        × IsSolid conn'
        × (joined conn' ≡ drop k (joined conn)))
    × (length (joined conn) < k → r ≡ none)

onward :
    (k j : ℕ) (buf chunk : Bytes) (conn conn' : List Bytes) (r : Option (Bytes × List Bytes))
    → chunk ++ joined conn' ≡ joined conn
    → length chunk + j ≡ k
    → Exactly j (buf ++ chunk) conn' r
    → Exactly k buf conn r
onward k j buf chunk conn conn' r e n (whole, short) =
    let total : length chunk + length (joined conn') ≡ length (joined conn) =
      sym (length-append chunk (joined conn')) ∙ ap length e in
    (
      λ enough.
          let (left, given, solid, rest) = whole (omega arith) in
          (
            left,
            given
                ∙ ap (λ b. some (b, left))
                    (append_assoc buf chunk (take j (joined conn'))
                      ∙ ap (◌++◌ buf)
                          (sym (take-append_past j chunk (joined conn')) ∙ rw (e, n) refl)),
            solid,
            rest ∙ sym (drop-append_past j chunk (joined conn')) ∙ rw (e, n) refl,
          ),
      λ few. short (omega arith),
    )

nonempty_length : (b : Bytes) → nonempty b ≡ true → 1 ≤ length b
nonempty_length [] h = absurd cc
nonempty_length (x ∷ b) h = omega arith

never : false ≡ true → ⊥
never h = cc

loop_lem :
    (fuel n : ℕ) (buf : Bytes) (conn : List Bytes)
    → IsSolid conn
    → n - length buf < fuel
    → length buf ≤ n
    → Exactly (n - length buf) buf conn (recv_exact_loop fuel n buf conn)
unfolding recv_exact_loop
loop_lem zero n buf conn solid h le = absurd (omega arith)
loop_lem (suc fuel) n buf conn solid h le =
    let k = n - length buf in
    let (chunk, conn') = recv k conn in
    let (pieces, few, solid', some_of) = recv_lem k conn solid in
    let longer = length-append buf chunk in
    elim (Bool-cases (leb n (length buf))) [
      | inl full ↦
          let none_left : k ≡ 0 = ground arith in
          rw (full, none_left)
            (
              (λ enough. (conn, ap (λ b. some (b, conn)) (sym (append-nil buf)), solid, refl)),
              (λ a. absurd (omega arith)),
            )
      | inr wants ↦ elim (Bool-cases (nonempty chunk)) [
        | inl got ↦
            let size = nonempty_length chunk got in
            rw (wants, got)
              (onward k (n - length (buf ++ chunk)) buf chunk conn conn' _ pieces (ground arith)
                (loop_lem fuel n (buf ++ chunk) conn' solid' (ground arith) (ground arith)))
        | inr ended ↦
            rw (wants, ended)
              (
                (λ enough. absurd (never (sym ended ∙ some_of (ground arith) (ground arith)))),
                (λ a. refl),
              )
      ]
    ]

-- recv_exact gives the next `n` bytes and leaves the rest, however they are cut, and none where fewer
-- are to come.
pub exactly_lem : (n : ℕ) (conn : List Bytes) → IsSolid conn → Exactly n [] conn (recv_exact n conn)
unfolding recv_exact
exactly_lem n conn solid =
    let all : n - 0 ≡ n = omega arith in
    subst (λ k. Exactly k [] conn (recv_exact_loop (n + 1) n [] conn)) all
      (loop_lem (n + 1) n [] conn solid (omega arith) (omega arith))
