-- ===== src/Client/Address.antt =====
-- dpmp/protocol/addr.py: reading `host:port`. `parse_int` is Python's `int` on a text of ASCII digits
-- (with white space around, a sign, and single underscores between digits); other digits of Unicode
-- are not read.
pub mod Numeral
pub mod RoundTrip
pub mod Split
use dpmp.Prelude.{
  ℕ, ◌+◌, ◌-◌, ◌*◌, Bool, true, false, ◌&&◌, Option, none, some, [], ◌∷◌, if◌then◌else◌, leb, eqb,
  Text, has_char, ℤ, pos, ◌-ℤ◌,
}
use dpmp.Server.Format.{strip}

-- The value of the digits after `acc`; `after` says whether a digit came just before.
unfoldable pub parse_digits : Bool → ℕ → Text → Option ℕ
parse_digits after acc [] = if after then some acc else none
parse_digits after acc (c ∷ s) =
    let digit = parse_digits true (acc * 10 + (c - 48)) s in
    let underscore = parse_digits false acc s in
    if leb 48 c && leb c 57 then digit else if after && eqb c b'_' then underscore else none

abbrev negative : Option ℕ → Option ℤ
negative none = none
negative (some n) = some (pos 0 -ℤ pos n)

abbrev pub positive : Option ℕ → Option ℤ
positive none = none
positive (some n) = some (pos n)

abbrev pub parse_signed : Text → Option ℤ
parse_signed [] = none
parse_signed (c ∷ s) =
    if eqb c b'-'
    then negative (parse_digits false 0 s)
    else if eqb c b'+'
    then positive (parse_digits false 0 s)
    else positive (parse_digits false 0 (c ∷ s))

unfoldable pub parse_int : Text → Option ℤ
unfolding parse_digits strip
parse_int s = parse_signed (strip s)

abbrev pub with_head : ℕ → Option (Text × Text) → Option (Text × Text)
with_head c none = none
with_head c (some (a, b)) = some (c ∷ a, b)

-- What stands before and after the first `x`, and the last.
unfoldable pub split_first : ℕ → Text → Option (Text × Text)
split_first x [] = none
split_first x (c ∷ s) =
    let later = split_first x s in if eqb c x then some ([], s) else with_head c later

abbrev pub or_here : ℕ → ℕ → Text → Option (Text × Text) → Option (Text × Text)
or_here x c s (some (a, b)) = some (c ∷ a, b)
or_here x c s none = if eqb c x then some ([], s) else none

unfoldable pub split_last : ℕ → Text → Option (Text × Text)
split_last x [] = none
split_last x (c ∷ s) = or_here x c s (split_last x s)

abbrev pub with_port : Text → Option ℤ → Option (Text × ℤ)
with_port ip none = none
with_port ip (some port) = some (ip, port)

abbrev pub port_after : Text → Text → Option (Text × ℤ)
port_after ip [] = none
port_after ip (c ∷ s) = if eqb c b':' then with_port ip (parse_int s) else none

abbrev pub bracketed : Option (Text × Text) → Option (Text × ℤ)
bracketed none = none
bracketed (some (ip, rest)) = port_after ip rest

abbrev pub plain : Option (Text × Text) → Option (Text × ℤ)
plain none = none
plain (some (ip, port)) = if has_char b':' ip then none else with_port ip (parse_int port)

abbrev pub parse_stripped : Text → Option (Text × ℤ)
parse_stripped [] = none
parse_stripped (c ∷ s) =
    if eqb c b'[' then bracketed (split_first b']' s) else plain (split_last b':' (c ∷ s))

unfoldable pub parse_host_port : Text → Option (Text × ℤ)
unfolding parse_int split_first split_last strip
parse_host_port s = parse_stripped (strip s)
