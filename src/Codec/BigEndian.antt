-- ===== src/Codec/BigEndian.antt =====
-- Python's `struct` for unsigned big-endian fields: `pack` and `unpack` over a list of widths.
pub mod Octets
use mathlib.Core.List.{foldl, foldl-append}
use native.Mathlib.Nat.{pow-suc}
use dpmp.Prelude.{
  ℕ, zero, suc, ◌+◌, ◌*◌, ◌/◌, ◌%◌, ◌^◌, ◌≤◌, ◌<◌, ◌≡◌, refl, ap, Option, none, some, List, [], ◌∷◌,
  ◌++◌, map, ℤ, pos, negsuc, ltb, leb, if◌then◌else◌, length, take, drop, length-append,
  take-append_of, drop-append_of, true, arith, Option-cases, inl, inr,
}

abbrev pub Bytes : Type 0
Bytes = List ℕ

unfoldable pub encode : ℕ → ℕ → Bytes
encode zero n = []
encode (suc w) n = encode w (n / 256) ++ (n % 256) ∷ []

unfoldable pub decode : Bytes → ℕ
decode bytes = foldl (λ acc b. acc * 256 + b) 0 bytes

-- A negative number and one that is too large are errors.
unfoldable pub pack_field : ℕ → ℤ → Option Bytes
unfolding encode
pack_field w (negsuc n) = none
pack_field w (pos n) = if ltb n (256 ^ w) then some (encode w n) else none

abbrev both : Option Bytes → Option Bytes → Option Bytes
both none r = none
both (some b) none = none
both (some b) (some r) = some (b ++ r)

unfoldable pub pack : List ℕ → List ℤ → Option Bytes
unfolding pack_field
pack [] [] = some []
pack [] (z ∷ zs) = none
pack (w ∷ ws) [] = none
pack (w ∷ ws) (z ∷ zs) = both (pack_field w z) (pack ws zs)

abbrev add_field : ℕ → Option (List ℕ) → Option (List ℕ)
add_field n none = none
add_field n (some ns) = some (n ∷ ns)

-- The bytes must be as many as the format says.
unfoldable pub unpack : List ℕ → Bytes → Option (List ℕ)
unfolding decode
unpack [] [] = some []
unpack [] (b ∷ bytes) = none
unpack (w ∷ ws) bytes =
    if leb w (length bytes)
    then add_field (decode (take w bytes)) (unpack ws (drop w bytes))
    else none

pub length-encode : (w n : ℕ) → length (encode w n) ≡ w
unfolding encode
length-encode zero n = refl
length-encode (suc w) n =
    omega (arith, length-append (encode w (n / 256)) ((n % 256) ∷ []), length-encode w (n / 256))

decode-snoc : (bs : Bytes) (b : ℕ) → decode (bs ++ b ∷ []) ≡ decode bs * 256 + b
unfolding decode
decode-snoc bs b = rw foldl-append refl

pub decode-encode : (w n : ℕ) → n < 256 ^ w → decode (encode w n) ≡ n
unfolding encode
decode-encode zero n h = unfold decode in omega arith
decode-encode (suc w) n h =
    rw (decode-snoc (encode w (n / 256)) (n % 256))
      (rw (decode-encode w (n / 256) (omega (arith, pow-suc 256 w))) (omega arith))

-- The values fit the fields, one for one.
abbrev pub Fits : List ℕ → List ℕ → Type 0
Fits [] [] = Unit {0}
Fits [] (n ∷ ns) = ⊥
Fits (w ∷ ws) [] = ⊥
Fits (w ∷ ws) (n ∷ ns) = (n < 256 ^ w) × Fits ws ns

abbrev pub sum_widths : List ℕ → ℕ
sum_widths [] = 0
sum_widths (w ∷ ws) = w + sum_widths ws

-- The bytes of the values, field after field.
pub packed : List ℕ → List ℕ → Bytes
packed [] ns = []
packed (w ∷ ws) [] = []
packed (w ∷ ws) (n ∷ ns) = encode w n ++ packed ws ns

-- What fits is packed.
pub pack_total : (ws ns : List ℕ) → Fits ws ns → pack ws (map pos ns) ≡ some (packed ws ns)
unfolding pack packed
pack_total [] [] h = refl
pack_total [] (n ∷ ns) h = absurd h
pack_total (w ∷ ws) [] h = absurd h
pack_total (w ∷ ws) (n ∷ ns) h = ground (arith, pack_total ws ns h.1)

le-length-encode : (w n : ℕ) (bs : Bytes) → leb w (length (encode w n ++ bs)) ≡ true
le-length-encode w n bs = ground (arith, length-append (encode w n) bs, length-encode w n)

-- And `unpack` gives it back.
pub unpack-packed : (ws ns : List ℕ) → Fits ws ns → unpack ws (packed ws ns) ≡ some ns
unfolding unpack packed
unpack-packed [] [] h = refl
unpack-packed [] (n ∷ ns) h = absurd h
unpack-packed (w ∷ ws) [] h = absurd h
unpack-packed (w ∷ ws) (n ∷ ns) h = rw (
  le-length-encode w n (packed ws ns),
  take-append_of (encode w n) (packed ws ns) (length-encode w n),
  drop-append_of (encode w n) (packed ws ns) (length-encode w n),
  decode-encode w n h.0,
  unpack-packed ws ns h.1,
)

pub length-packed : (ws ns : List ℕ) → Fits ws ns → length (packed ws ns) ≡ sum_widths ws
unfolding packed
length-packed [] [] h = refl
length-packed [] (n ∷ ns) h = absurd h
length-packed (w ∷ ws) [] h = absurd h
length-packed (w ∷ ws) (n ∷ ns) h =
    omega
      (arith, length-append (encode w n) (packed ws ns), length-encode w n, length-packed ws ns h.1)

-- A value that is negative or too large is an error, whatever the other fields hold.
pub pack_reject :
    (w : ℕ) (ws : List ℕ) (n : ℕ) (zs : List ℤ) → 256 ^ w ≤ n → pack (w ∷ ws) (pos n ∷ zs) ≡ none
unfolding pack
pack_reject w ws n zs h = ground arith

-- Only values that fit the fields are packed.
pub pack_sound :
    (ws : List ℕ) (zs : List ℤ) (bytes : Bytes)
    → pack ws zs ≡ some bytes
    → (ns : List ℕ) × (zs ≡ map pos ns) × Fits ws ns × (bytes ≡ packed ws ns)
unfolding pack packed
pack_sound [] [] bytes h = ([], refl, tt, cc)
pack_sound [] (z ∷ zs) bytes h = cc
pack_sound (w ∷ ws) [] bytes h = cc
pack_sound (w ∷ ws) (negsuc n ∷ zs) bytes h = cc
pack_sound (w ∷ ws) (pos n ∷ zs) bytes h = elim (Option-cases (pack ws zs)) [
  | inl e ↦ ground arith
  | inr (rest, e) ↦
      let (ns, eq, fits, same) = pack_sound ws zs rest e in
      (n ∷ ns, ap (◌∷◌ (pos n)) eq, (ground arith, fits), ground arith)
]
