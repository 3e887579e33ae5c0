-- ===== src/Client/Address/Numeral.antt =====
-- Numerals: what "%d" writes and what int() reads.
use dpmp.Prelude.{
  ℕ, zero, suc, ◌+◌, ◌*◌, ◌-◌, ◌/◌, ◌%◌, ◌≤◌, ◌≡◌, refl, sym, ap, ◌∙◌, inl, inr, Bool, true, false,
  some, [], ◌∷◌, ◌++◌, ltb, Text, has_char, pos, arith, All, All-append, Bool-cases,
}
use mathlib.Core.List.{reverse, reverse-append, reverse-reverse}
use dpmp.Server.Format.{is_space, lstrip, strip, decimal_loop, decimal}
use dpmp.Client.Address.{parse_digits, parse_int, parse_signed}

abbrev pub IsDigit : ℕ → Type 0
IsDigit c = (48 ≤ c) × (c ≤ 57)

-- The number that digits stand for, after `acc`.
pub value : ℕ → Text → ℕ
value acc [] = acc
value acc (c ∷ s) = value (acc * 10 + (c - 48)) s

parse_digits_lem :
    (after : Bool) (acc c : ℕ) (s : Text)
    → IsDigit c
    → All IsDigit s
    → parse_digits after acc (c ∷ s) ≡ some (value acc (c ∷ s))
unfolding parse_digits value
parse_digits_lem after acc c [] d h = ground arith
parse_digits_lem after acc c (e ∷ s) d h =
    let rest = parse_digits_lem true (acc * 10 + (c - 48)) e s h.0 h.1 in ground (arith, rest)

value-append : (acc c : ℕ) (s : Text) → value acc (s ++ c ∷ []) ≡ value acc s * 10 + (c - 48)
unfolding value
value-append acc c [] = refl
value-append acc c (d ∷ s) = value-append (acc * 10 + (d - 48)) c s

-- A numeral ends with a digit, after digits.
pub record IsNumeral (n : ℕ) (t : Text) : Type 0 where
  pub front : Text
  pub last : ℕ
  pub whole : t ≡ front ++ last ∷ []
  pub digits : All IsDigit front
  pub digit : IsDigit last
  pub worth : value 0 t ≡ n

pub decimal_lem : (fuel n : ℕ) → n ≤ fuel → IsNumeral n (decimal_loop fuel n)
unfolding decimal_loop value
decimal_lem zero n h = record {
  front = [];
  last = 48 + n % 10;
  whole = refl;
  digits = tt;
  digit = omega arith;
  worth = omega arith;
}
decimal_lem (suc fuel) n h = elim (Bool-cases (ltb n 10)) [
  | inl e ↦ rw e (record {
    front = [];
    last = 48 + n;
    whole = refl;
    digits = tt;
    digit = ground arith;
    worth = ground arith;
  })
  | inr e ↦
      let r = decimal_lem fuel (n / 10) (ground arith) in
      rw e (record {
        front = decimal_loop fuel (n / 10);
        last = 48 + n % 10;
        whole = refl;
        digits = rw r.whole (All-append IsDigit r.front (r.last ∷ []) r.digits (r.digit, tt));
        digit = omega arith;
        worth = value-append 0 (48 + n % 10) (decimal_loop fuel (n / 10)) ∙ omega (arith, r.worth);
      })
]

pub digit-not_space : (c : ℕ) → IsDigit c → is_space c ≡ false
unfolding is_space
digit-not_space c h = ground arith

pub lstrip_first : (c : ℕ) (s : Text) → is_space c ≡ false → lstrip (c ∷ s) ≡ c ∷ s
unfolding lstrip
lstrip_first c s h = rw h refl

-- Nothing is stripped off a text whose first and last characters are no white space.
pub strip_lem :
    (s front : Text) (last : ℕ)
    → lstrip s ≡ s
    → s ≡ front ++ last ∷ []
    → is_space last ≡ false
    → strip s ≡ s
unfolding strip
strip_lem s front last l e h =
    let r = ap reverse e ∙ reverse-append front (last ∷ []) in
    ap (λ t. reverse (lstrip (reverse t))) l
    ∙ ap (λ t. reverse (lstrip t)) r
    ∙ ap reverse (lstrip_first last (reverse front) h)
    ∙ ap reverse (sym r)
    ∙ reverse-reverse s

numeral_first :
    (n : ℕ) (t : Text)
    → IsNumeral n t
    → (c : ℕ) × (s : Text) × (t ≡ c ∷ s) × IsDigit c × All IsDigit s
numeral_first n t r = split r.front r.digits r.whole
  where
    split :
        (front : Text)
        → All IsDigit front
        → t ≡ front ++ r.last ∷ []
        → (c : ℕ) × (s : Text) × (t ≡ c ∷ s) × IsDigit c × All IsDigit s
    split [] d e = (r.last, [], e, r.digit, tt)
    split (c ∷ front) d e =
        (c, front ++ r.last ∷ [], e, d.0, All-append IsDigit front (r.last ∷ []) d.1 (r.digit, tt))

parse_signed_digits :
    (c : ℕ) (s : Text)
    → IsDigit c
    → All IsDigit s
    → parse_signed (c ∷ s) ≡ some (pos (value 0 (c ∷ s)))
parse_signed_digits c s d h = let e = parse_digits_lem false 0 c s d h in ground (arith, e)

pub parse_int_numeral : (n : ℕ) (t : Text) → IsNumeral n t → parse_int t ≡ some (pos n)
unfolding parse_int
parse_int_numeral n t r =
    let (c, s, e, d, h) = numeral_first n t r in
    let l = ap lstrip e ∙ lstrip_first c s (digit-not_space c d) ∙ sym e in
    ap parse_signed (strip_lem t r.front r.last l r.whole (digit-not_space r.last r.digit))
    ∙ ap parse_signed e
    ∙ parse_signed_digits c s d h
    ∙ ap (λ v. some (pos v)) (ap (value 0) (sym e) ∙ r.worth)

digits_lem : (s : Text) → All IsDigit s → has_char b':' s ≡ false
unfolding has_char
digits_lem [] h = refl
digits_lem (c ∷ s) h = let rest = digits_lem s h.1 in ground (arith, rest)

pub decimal_no_colon : (n : ℕ) → has_char b':' (decimal n) ≡ false
unfolding decimal
decimal_no_colon n =
    let r = decimal_lem n n (omega arith) in
    ap (has_char b':') r.whole
    ∙ digits_lem (r.front ++ r.last ∷ [])
        (All-append IsDigit r.front (r.last ∷ []) r.digits (r.digit, tt))
