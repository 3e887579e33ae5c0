-- ===== src/Codec/BigEndian/Octets.antt =====
-- What is packed is bytes, as many as the format says.
use dpmp.Prelude.{
  ℕ, zero, suc, ◌/◌, ◌%◌, ◌<◌, ◌≡◌, sym, subst, ap, ◌∙◌, some, List, [], ◌∷◌, ℤ, arith, All,
  All-append, length,
}
use dpmp.Codec.BigEndian.{Bytes, encode, pack, packed, pack_sound, length-packed, sum_widths}

abbrev pub IsOctet : ℕ → Type 0
IsOctet b = b < 256

encode-Octets : (w n : ℕ) → All IsOctet (encode w n)
unfolding encode
encode-Octets zero n = tt
encode-Octets (suc w) n =
    All-append IsOctet (encode w (n / 256)) ((n % 256) ∷ []) (encode-Octets w (n / 256))
      (omega arith, tt)

packed-Octets : (ws ns : List ℕ) → All IsOctet (packed ws ns)
unfolding packed
packed-Octets [] ns = tt
packed-Octets (w ∷ ws) [] = tt
packed-Octets (w ∷ ws) (n ∷ ns) =
    All-append IsOctet (encode w n) (packed ws ns) (encode-Octets w n) (packed-Octets ws ns)

pub pack-Octets :
    (ws : List ℕ) (zs : List ℤ) (bytes : Bytes)
    → pack ws zs ≡ some bytes
    → All IsOctet bytes × (length bytes ≡ sum_widths ws)
pack-Octets ws zs bytes h =
    let (ns, eq, fits, same) = pack_sound ws zs bytes h in
    (
      subst (All IsOctet) (sym same) (packed-Octets ws ns),
      ap length same ∙ length-packed ws ns fits,
    )
