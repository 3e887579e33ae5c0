-- ===== src/Codec/RoundTrip.antt =====
-- Packing and unpacking together, for whole packets and for each payload.
use dpmp.Prelude.{
  ℕ, ◌^◌, ◌<◌, ◌≡◌, Option, none, some, [], ◌∷◌, ◌++◌, ℤ, pos, arith, length, drop, length-append,
  take-append_of, drop-append_of, ltb, false, List, map, take_all, subst,
}
use dpmp.Codec.BigEndian.{
  Bytes, Fits, unpack, pack_sound, pack, packed, pack_total, unpack-packed, length-packed,
}
use dpmp.Codec.{
  two_of, pack_header, unpack_header, pack_packet, rtp_header, pack_sync_req, unpack_sync_req,
  pack_sync_ack, unpack_sync_ack, pack_sync_commit_v2, unpack_sync_commit_v2, pack_sync_commit_v1,
  unpack_sync_commit_v1, pack_punch_round, unpack_punch_round,
}

header_bytes : ℕ → ℕ → ℕ → ℕ → Bytes
header_bytes t s a l = packed rtp_header (t ∷ s ∷ a ∷ l ∷ 0 ∷ [])

-- The ranges of the header's fields.
pub record InRange (t s a l : ℕ) : Type 0 where
  pub type_range : t < 256
  pub seq_range : s < 2 ^ 32
  pub ack_range : a < 2 ^ 32
  pub length_range : l < 2 ^ 16

module _ (t s a : ℕ) (payload : Bytes) (r : InRange t s a (length payload)) where
  length-header_bytes : length (header_bytes t s a (length payload)) ≡ 12
  unfolding header_bytes
  length-header_bytes = length-packed rtp_header _ (omega arith)

  long_enough : ltb (length (header_bytes t s a (length payload) ++ payload)) 12 ≡ false
  long_enough =
      ground
        (arith, length-append (header_bytes t s a (length payload)) payload, length-header_bytes)

  unpack-header_bytes :
      unpack_header (header_bytes t s a (length payload) ++ payload)
      ≡ some (record { ptype = t; seq = s; ack = a; length = length payload; reserved = 0 })
  unfolding unpack_header
  unpack-header_bytes =
      rw
        (
          long_enough,
          take-append_of (header_bytes t s a (length payload)) payload length-header_bytes,
        )
        (unfold header_bytes in
          rw (unpack-packed rtp_header (t ∷ s ∷ a ∷ length payload ∷ 0 ∷ []) (omega arith)))

  pack-header_bytes :
      pack_packet t s a payload ≡ some (header_bytes t s a (length payload) ++ payload)
  unfolding pack_packet pack_header header_bytes
  pack-header_bytes =
      rw (pack_total rtp_header (t ∷ s ∷ a ∷ length payload ∷ 0 ∷ []) (omega arith), pack_packet)

-- A packet whose fields are in range is packed into its header and payload, and reading it gives back
-- the type, the sequence number, the acknowledgement, the payload's length and the payload.
pub packet_roundtrip :
    (t s a : ℕ) (payload : Bytes)
    → InRange t s a (length payload)
    → (bytes : Bytes) × (pack_packet t s a payload ≡ some bytes)
      × (unpack_header bytes
          ≡ some (record { ptype = t; seq = s; ack = a; length = length payload; reserved = 0 }))
      × (drop 12 bytes ≡ payload)
packet_roundtrip t s a payload r = (
  header_bytes t s a (length payload) ++ payload,
  pack-header_bytes t s a payload r,
  unpack-header_bytes t s a payload r,
  drop-append_of (header_bytes t s a (length payload)) payload
      (length-header_bytes t s a payload r),
)

-- Conversely, what could be packed was in range.
pub packet_in_range :
    (t s a : ℕ) (payload bytes : Bytes)
    → pack_packet t s a payload ≡ some bytes
    → InRange t s a (length payload)
unfolding pack_packet pack_header pack
packet_in_range t s a payload bytes h = ground arith

-- The packing succeeds, and what it gives is read as the value.
abbrev pub Reads : {A : Type 0} → Option Bytes → (Bytes → Option A) → A → Type 0
Reads none read a = ⊥
Reads (some bytes) read a = read bytes ≡ some a

-- The control payloads with fields in range: each is packed, and read back as it was; so are both
-- versions of SYNC_COMMIT, which have different lengths.
pub payload_roundtrips :
    (a b c v : ℕ)
    → a < 2 ^ 64
    → b < 2 ^ 64
    → c < 2 ^ 64
    → v < 256
    → Reads (pack_sync_req (pos a) (pos v)) unpack_sync_req (a, v)
      × Reads (pack_sync_ack (pos a) (pos b) (pos c) (pos v)) unpack_sync_ack (a, b, c, v)
      × Reads (pack_sync_commit_v2 (pos a) (pos b)) unpack_sync_commit_v2 (a, b)
      × Reads (pack_sync_commit_v1 (pos a)) unpack_sync_commit_v1 a
      × Reads (pack_punch_round (pos a) (pos b)) unpack_punch_round (a, b)
unfolding pack_sync_req unpack_sync_req pack_sync_ack unpack_sync_ack pack_sync_commit_v2
    unpack_sync_commit_v2 pack_sync_commit_v1 unpack_sync_commit_v1 pack_punch_round
    unpack_punch_round
payload_roundtrips a b c v ha hb hc hv = (
  rw (pack_total (8 ∷ 1 ∷ []) (a ∷ v ∷ []) (omega arith))
      (rw (unpack-packed (8 ∷ 1 ∷ []) (a ∷ v ∷ []) (omega arith))),
  rw (pack_total (8 ∷ 8 ∷ 8 ∷ 1 ∷ []) (a ∷ b ∷ c ∷ v ∷ []) (omega arith))
      (rw (unpack-packed (8 ∷ 8 ∷ 8 ∷ 1 ∷ []) (a ∷ b ∷ c ∷ v ∷ []) (omega arith))),
  rw (pack_total (8 ∷ 8 ∷ []) (a ∷ b ∷ []) (omega arith))
      (rw (unpack-packed (8 ∷ 8 ∷ []) (a ∷ b ∷ []) (omega arith))),
  rw (pack_total (8 ∷ []) (a ∷ []) (omega arith))
      (rw (unpack-packed (8 ∷ []) (a ∷ []) (omega arith))),
  rw (pack_total (8 ∷ 8 ∷ []) (a ∷ b ∷ []) (omega arith))
      (rw (unpack-packed (8 ∷ 8 ∷ []) (a ∷ b ∷ []) (omega arith))),
)

-- A bare header is read back too, and is twelve bytes long.
pub header_roundtrip :
    (t s a l : ℕ)
    → InRange t s a l
    → (bytes : Bytes) × (pack_header t s a l 0 ≡ some bytes)
      × (unpack_header bytes
          ≡ some (record { ptype = t; seq = s; ack = a; length = l; reserved = 0 }))
      × (length bytes ≡ 12)
unfolding pack_header unpack_header
header_roundtrip t s a l r =
    let fields : List ℕ = t ∷ s ∷ a ∷ l ∷ 0 ∷ [] in
    let size : length (packed rtp_header fields) ≡ 12 =
      length-packed rtp_header fields (omega arith) in
    (
      packed rtp_header fields,
      pack_total rtp_header fields (omega arith),
      rw (size, take_all 12 (packed rtp_header fields) (omega arith))
          (rw (unpack-packed rtp_header fields (omega arith))),
      size,
    )

-- What a packed commit of version 2 says is what is read, and its length tells the version.
pub commit_v2_read :
    (z id : ℤ) (payload : Bytes)
    → pack_sync_commit_v2 z id ≡ some payload
    → (t : ℕ) × (n : ℕ) × (z ≡ pos t)
      × (id ≡ pos n)
      × (length payload ≡ 16)
      × (unpack_sync_commit_v2 payload ≡ some (t, n))
unfolding pack_sync_commit_v2 unpack_sync_commit_v2
commit_v2_read z id payload h = commit_read (pack_sound (8 ∷ 8 ∷ []) (z ∷ id ∷ []) payload h)
  where
    commit_read :
        (ns : List ℕ) × ((z ∷ id ∷ []) ≡ map pos ns)
          × Fits (8 ∷ 8 ∷ []) ns
          × (payload ≡ packed (8 ∷ 8 ∷ []) ns)
        → (t : ℕ) × (n : ℕ) × (z ≡ pos t)
          × (id ≡ pos n)
          × (length payload ≡ 16)
          × (two_of (unpack (8 ∷ 8 ∷ []) payload) ≡ some (t, n))
    commit_read ([], e, f, p) = absurd f
    commit_read (t ∷ [], e, f, p) = absurd (f.1)
    commit_read (t ∷ n ∷ [], e, f, p) = (
      t,
      n,
      cc,
      cc,
      rw p (length-packed (8 ∷ 8 ∷ []) (t ∷ n ∷ []) f),
      rw p (rw (unpack-packed (8 ∷ 8 ∷ []) (t ∷ n ∷ []) f)),
    )
    commit_read (t ∷ n ∷ m ∷ ns, e, f, p) = absurd (f.1.1)

-- What was packed as a packet is read as its header, and its payload follows the header.
pub packet_read :
    (t s a : ℕ) (payload bytes : Bytes)
    → pack_packet t s a payload ≡ some bytes
    → (unpack_header bytes
        ≡ some (record { ptype = t; seq = s; ack = a; length = length payload; reserved = 0 }))
      × (drop 12 bytes ≡ payload)
packet_read t s a payload bytes h =
    let r = packet_in_range t s a payload bytes h in
    let whole = header_bytes t s a (length payload) ++ payload in
    let same : whole ≡ bytes = cc (pack-header_bytes t s a payload r) in
    (
      subst
          (λ b.
            unpack_header b
            ≡ some (record { ptype = t; seq = s; ack = a; length = length payload; reserved = 0 }))
          same (unpack-header_bytes t s a payload r),
      subst (λ b. drop 12 b ≡ payload) same
          (drop-append_of (header_bytes t s a (length payload)) payload
            (length-header_bytes t s a payload r)),
    )
