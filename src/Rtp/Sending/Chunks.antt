-- ===== src/Rtp/Sending/Chunks.antt =====
-- The chunks that `sendall` cuts the data into, and their numbers.
use dpmp.Prelude.{
  ℕ, zero, suc, ◌≤◌, ◌<◌, ◌≡◌, refl, ap, ◌∙◌, List, [], ◌∷◌, ◌++◌, length, take, drop, length-take,
  length-drop, take-append-drop, arith, All,
}
use dpmp.Codec.BigEndian.{Bytes}
use dpmp.Rtp.Sending.{chunks}

abbrev pub concat : List Bytes → Bytes
concat [] = []
concat (c ∷ cs) = c ++ concat cs

-- With a positive size, and the length of the data as fuel, the chunks join to the data; none is empty
-- and none is longer than the size.
pub chunks_lem :
    (fuel size : ℕ) (bytes : Bytes)
    → 0 < size
    → length bytes ≤ fuel
    → (concat (chunks fuel size bytes) ≡ bytes)
      × All (λ c. (0 < length c) × (length c ≤ size)) (chunks fuel size bytes)
unfolding chunks
chunks_lem zero size [] p h = (refl, tt)
chunks_lem zero size (b ∷ bytes) p h = absurd (omega arith)
chunks_lem (suc fuel) size [] p h = (refl, tt)
chunks_lem (suc fuel) size (b ∷ bytes) p h =
    let rest =
      chunks_lem fuel size (drop size (b ∷ bytes)) p
        (omega (arith, length-drop size (b ∷ bytes))) in
    (
      ap (◌++◌ (take size (b ∷ bytes))) rest.0 ∙ take-append-drop size (b ∷ bytes),
      (
        (omega (arith, length-take size (b ∷ bytes)), omega (arith, length-take size (b ∷ bytes))),
        rest.1,
      ),
    )
