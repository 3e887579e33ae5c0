-- ===== src/Codec/Packets.antt =====
-- What a packet is made of.
use dpmp.Prelude.{
  ℕ, ◌+◌, ◌≡◌, sym, ap, ◌∙◌, subst, some, ◌++◌, arith, All, All-append, length, length-append, inl,
  inr, Option-cases,
}
use dpmp.Codec.BigEndian.{Bytes}
use dpmp.Codec.BigEndian.Octets.{IsOctet, pack-Octets}
use dpmp.Codec.{pack_header, pack_packet}
use dpmp.Codec.RoundTrip.{InRange, packet_in_range}

header-Octets :
    (t s a n : ℕ) (header : Bytes)
    → pack_header t s a n 0 ≡ some header
    → All IsOctet header × (length header ≡ 12)
unfolding pack_header
header-Octets t s a n header h = pack-Octets _ _ header h

packet_parts :
    (t s a : ℕ) (payload bytes : Bytes)
    → pack_packet t s a payload ≡ some bytes
    → (header : Bytes) × (pack_header t s a (length payload) 0 ≡ some header)
      × (bytes ≡ header ++ payload)
unfolding pack_packet
packet_parts t s a payload bytes h = elim (Option-cases (pack_header t s a (length payload) 0)) [
  | inl e ↦ ground arith
  | inr (header, e) ↦ (header, e, ground arith)
]

-- What can be packed has fields in range, and gives bytes where the payload is bytes: twelve of them
-- before the payload.
pub packet_types :
    (t s a : ℕ) (payload bytes : Bytes)
    → pack_packet t s a payload ≡ some bytes
    → All IsOctet payload
    → InRange t s a (length payload) × All IsOctet bytes × (length bytes ≡ 12 + length payload)
packet_types t s a payload bytes h octets =
    let (header, e, same) = packet_parts t s a payload bytes h in
    let (octets', twelve) = header-Octets t s a (length payload) header e in
    (
      packet_in_range t s a payload bytes h,
      subst (All IsOctet) (sym same) (All-append IsOctet header payload octets' octets),
      ap length same ∙ omega (arith, length-append header payload, twelve),
    )
