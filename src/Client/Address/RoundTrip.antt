-- ===== src/Client/Address/RoundTrip.antt =====
-- Formatting an address and reading it back.
use dpmp.Prelude.{
  ℕ, ◌≡◌, refl, ap, ◌∙◌, inl, inr, false, some, [], ◌∷◌, ◌++◌, eqb, Text, has_char, pos, arith,
  Bool-cases, append_assoc,
}
use dpmp.Server.Format.{is_space, lstrip, decimal_loop, decimal, fmt_host_port}
use dpmp.Client.Address.{
  parse_int, split_last, with_port, parse_stripped, bracketed, plain, parse_host_port,
}
use dpmp.Client.Address.Numeral.{
  decimal_lem, decimal_no_colon, digit-not_space, lstrip_first, strip_lem, parse_int_numeral,
}
use dpmp.Client.Address.Split.{split_first_lem, split_last_lem}

-- An address that does not begin with white space or a `[`, and has no `]` in it.
abbrev pub IsHost : Text → Type 0
IsHost [] = Unit
IsHost (c ∷ s) = (is_space c ≡ false) × (eqb c b'[' ≡ false) × (has_char b']' (c ∷ s) ≡ false)

host_no_close : (ip : Text) → IsHost ip → has_char b']' ip ≡ false
unfolding has_char
host_no_close [] h = refl
host_no_close (c ∷ s) h = h.2

lstrip_host : (ip t : Text) → IsHost ip → lstrip (ip ++ b':' ∷ t) ≡ ip ++ b':' ∷ t
unfolding is_space
lstrip_host [] t h = lstrip_first b':' t colon
  where
    colon : is_space b':' ≡ false
    colon = refl
lstrip_host (c ∷ s) t h = lstrip_first c (s ++ b':' ∷ t) h.0

open_bracket : is_space b'[' ≡ false
unfolding is_space
open_bracket = refl

bracketed_lem :
    (ip d front : Text) (last : ℕ)
    → d ≡ front ++ last ∷ []
    → is_space last ≡ false
    → has_char b']' ip ≡ false
    → parse_host_port (b'[' ∷ (ip ++ (b']' ∷ b':' ∷ d))) ≡ with_port ip (parse_int d)
unfolding parse_host_port
bracketed_lem ip d front last e h n =
    let whole : b'[' ∷ (ip ++ (b']' ∷ b':' ∷ d))
        ≡ (b'[' ∷ (ip ++ (b']' ∷ b':' ∷ front))) ++ last ∷ [] =
      simp (e, append_assoc) in
    let l = lstrip_first b'[' (ip ++ (b']' ∷ b':' ∷ d)) open_bracket in
    ap parse_stripped (strip_lem _ (b'[' ∷ (ip ++ (b']' ∷ b':' ∷ front))) last l whole h)
    ∙ ap bracketed (split_first_lem b']' ip (b':' ∷ d) n)

not_bracketed :
    (ip d : Text)
    → IsHost ip
    → parse_stripped (ip ++ b':' ∷ d) ≡ plain (split_last b':' (ip ++ b':' ∷ d))
not_bracketed [] d h = refl
not_bracketed (c ∷ s) d h = rw h.1 refl

plain_lem :
    (ip d front : Text) (last : ℕ)
    → d ≡ front ++ last ∷ []
    → is_space last ≡ false
    → IsHost ip
    → has_char b':' ip ≡ false
    → has_char b':' d ≡ false
    → parse_host_port (ip ++ (b':' ∷ d)) ≡ with_port ip (parse_int d)
unfolding parse_host_port
plain_lem ip d front last e h host n m =
    let whole : ip ++ (b':' ∷ d) ≡ (ip ++ (b':' ∷ front)) ++ last ∷ [] = simp (e, append_assoc) in
    ap parse_stripped (strip_lem _ (ip ++ (b':' ∷ front)) last (lstrip_host ip d host) whole h)
    ∙ not_bracketed ip d host
    ∙ ap plain (split_last_lem b':' ip d m)
    ∙ rw n refl

-- What the server and the clients write is read back: the address and the port.
pub parse_host_port-fmt_host_port :
    (ip : Text) (port : ℕ)
    → IsHost ip
    → parse_host_port (fmt_host_port ip port) ≡ some (ip, pos port)
unfolding fmt_host_port decimal
parse_host_port-fmt_host_port ip port h =
    let r = decimal_lem port port (omega arith) in
    let d = decimal_loop port port in
    let end = digit-not_space r.last r.digit in
    let no_colon = decimal_no_colon port in
    let read = ap (with_port ip) (parse_int_numeral port d r) in
    elim (Bool-cases (has_char b':' ip)) [
      | inl e ↦ rw e (bracketed_lem ip d r.front r.last r.whole end (host_no_close ip h) ∙ read)
      | inr e ↦ rw e (plain_lem ip d r.front r.last r.whole end h e no_colon ∙ read)
    ]
