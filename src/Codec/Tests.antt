-- ===== src/Codec/Tests.antt =====
-- Runs of the codec, and its theorems at concrete packets.
use dpmp.Prelude.{◌≡◌, refl, ◌∷◌, [], some, none, pos, negsuc, drop, arith}
use dpmp.Codec.BigEndian.{Bytes, pack}
use dpmp.Codec.{pack_header, pack_packet, unpack_header, pack_punch_round}
use dpmp.Prelude.{All, length}
use dpmp.Codec.BigEndian.Octets.{IsOctet}
use dpmp.Codec.Packets.{packet_types}
use dpmp.Codec.RoundTrip.{InRange, packet_roundtrip}

header_test : pack_header 7 1 258 4 0 ≡ some (7 ∷ 0 ∷ 0 ∷ 0 ∷ 1 ∷ 0 ∷ 0 ∷ 1 ∷ 2 ∷ 0 ∷ 4 ∷ 0 ∷ [])
unfolding pack_header pack
header_test = refl

negative_test : pack_punch_round (pos 1) (negsuc 4) ≡ none
unfolding pack_punch_round pack
negative_test = refl

abbrev payload : Bytes
payload = 104 ∷ 105 ∷ []

abbrev hi_range : InRange 0 5 3 2
hi_range = record {
  type_range = omega arith;
  seq_range = omega arith;
  ack_range = omega arith;
  length_range = omega arith;
}

hi_bytes :
    pack_packet 0 5 3 payload ≡ some (0 ∷ 0 ∷ 0 ∷ 0 ∷ 5 ∷ 0 ∷ 0 ∷ 0 ∷ 3 ∷ 0 ∷ 2 ∷ 0 ∷ payload)
unfolding pack_packet pack_header pack
hi_bytes = refl

packet_roundtrip_example :
    (bytes : Bytes) × (pack_packet 0 5 3 payload ≡ some bytes)
    × (unpack_header bytes
        ≡ some (record { ptype = 0; seq = 5; ack = 3; length = 2; reserved = 0 }))
    × (drop 12 bytes ≡ payload)
packet_roundtrip_example = packet_roundtrip 0 5 3 payload hi_range

packet_types_example :
    InRange 0 5 3 2
    × All IsOctet (0 ∷ 0 ∷ 0 ∷ 0 ∷ 5 ∷ 0 ∷ 0 ∷ 0 ∷ 3 ∷ 0 ∷ 2 ∷ 0 ∷ payload)
    × (length (0 ∷ 0 ∷ 0 ∷ 0 ∷ 5 ∷ 0 ∷ 0 ∷ 0 ∷ 3 ∷ 0 ∷ 2 ∷ 0 ∷ payload) ≡ 14)
packet_types_example = packet_types 0 5 3 payload _ hi_bytes (omega arith, (omega arith, tt))

-- The sample of test_vectors.json: 040000000a00000014000900.
vector_test : pack_header 4 10 20 9 0 ≡ some (4 ∷ 0 ∷ 0 ∷ 0 ∷ 10 ∷ 0 ∷ 0 ∷ 0 ∷ 20 ∷ 0 ∷ 9 ∷ 0 ∷ [])
unfolding pack_header pack
vector_test = refl
