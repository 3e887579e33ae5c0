-- ===== src/Server/Handlers/Registration.antt =====
-- How _handle_tcp_reg reads the id that a client registers its mapping under. A connection is the list of
-- what it delivers before it ends, as it comes: one `recv` gives no more than the first of them.
pub mod Exactly
use dpmp.Prelude.{
  ℕ, zero, suc, ◌+◌, ◌-◌, Option, none, some, List, [], ◌∷◌, ◌++◌, if◌then◌else◌, leb, length, take,
  drop, Text, nonempty,
}
use dpmp.Codec.BigEndian.{Bytes, unpack}

-- sock.recv(n), empty at the end
unfoldable pub recv : ℕ → List Bytes → Bytes × List Bytes
recv n [] = ([], [])
recv n (p ∷ ps) = if leb (length p) n then (p, ps) else (take n p, drop n p ∷ ps)

-- recv_exact: what it gives and what is left of the connection. Each round that goes on has read a byte, so
-- a fuel of one more than `n` is enough.
unfoldable pub recv_exact_loop : ℕ → ℕ → Bytes → List Bytes → Option (Bytes × List Bytes)
unfolding recv
recv_exact_loop zero n buf conn = none
recv_exact_loop (suc fuel) n buf conn =
    let (chunk, conn') = recv (n - length buf) conn in
    let later = recv_exact_loop fuel n (buf ++ chunk) conn' in
    if leb n (length buf) then some (buf, conn) else if nonempty chunk then later else none

unfoldable pub recv_exact : ℕ → List Bytes → Option (Bytes × List Bytes)
unfolding recv_exact_loop
recv_exact n conn = recv_exact_loop (n + 1) n [] conn

abbrev pub whole_or_empty : Option (Bytes × List Bytes) → Bytes
whole_or_empty none = []
whole_or_empty (some (b, conn)) = b

-- bytes.decode raises where it is none; an empty id is none too.
abbrev pub named : Option Text → Option Text
named none = none
named (some t) = if nonempty t then some t else none

abbrev pub id_after : (Bytes → Option Text) → Option (List ℕ) → List Bytes → Option Text
id_after decode none conn = none
id_after decode (some []) conn = none
id_after decode (some (n ∷ ns)) conn = named (decode (whole_or_empty (recv_exact n conn)))

abbrev pub after_length : (Bytes → Option Text) → Option (Bytes × List Bytes) → Option Text
after_length decode none = none
after_length decode (some (raw, conn)) = id_after decode (unpack (2 ∷ []) raw) conn

-- The id that is registered; none where the connection is closed without one.
unfoldable pub read_registration : (Bytes → Option Text) → List Bytes → Option Text
unfolding recv_exact unpack
read_registration decode conn = after_length decode (recv_exact 2 conn)
