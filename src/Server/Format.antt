-- ===== src/Server/Format.antt =====
-- Text functions of the server and of dpmp/protocol/addr.py: `str.strip`, "%d", and addresses.
use dpmp.Prelude.{
  ℕ, zero, suc, ◌+◌, ◌/◌, ◌%◌, Bool, ◌&&◌, ◌||◌, [], ◌∷◌, ◌++◌, if◌then◌else◌, ltb, leb, eqb, Text,
  has_char,
}
use mathlib.Core.List.{reverse}

abbrev pub Addr : Type 0
Addr = Text × ℕ

-- The white space of Python's `str.strip`.
unfoldable pub is_space : ℕ → Bool
is_space c =
    (leb 9 c && leb c 13)
    || (leb 28 c && leb c 32)
    || eqb c 133
    || eqb c 160
    || eqb c 5760
    || (leb 8192 c && leb c 8202)
    || eqb c 8232
    || eqb c 8233
    || eqb c 8239
    || eqb c 8287
    || eqb c 12288

unfoldable pub lstrip : Text → Text
lstrip [] = []
lstrip (c ∷ s) = let rest = lstrip s in if is_space c then rest else c ∷ s

unfoldable pub strip : Text → Text
unfolding lstrip is_space
strip s = reverse (lstrip (reverse (lstrip s)))

-- "%d" of a natural number. The fuel is the number itself: a tenth of a number is smaller.
unfoldable pub decimal_loop : ℕ → ℕ → Text
decimal_loop zero n = (48 + n % 10) ∷ []
decimal_loop (suc fuel) n =
    let higher = decimal_loop fuel (n / 10) in
    if ltb n 10 then (48 + n) ∷ [] else higher ++ (48 + n % 10) ∷ []

unfoldable pub decimal : ℕ → Text
unfolding decimal_loop
decimal n = decimal_loop n n

-- fmt_host_port and fmt_addr: an IPv6 address stands in brackets.
unfoldable pub fmt_host_port : Text → ℕ → Text
unfolding decimal
fmt_host_port ip port =
    if has_char b':' ip
    then b'[' ∷ (ip ++ (b']' ∷ b':' ∷ decimal port))
    else ip ++ (b':' ∷ decimal port)

unfoldable pub fmt_addr : Addr → Text
unfolding fmt_host_port
fmt_addr (ip, port) = fmt_host_port ip port
