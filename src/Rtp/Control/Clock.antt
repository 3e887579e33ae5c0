-- ===== src/Rtp/Control/Clock.antt =====
-- What one sample of SYNC measures, against the true difference of the two clocks.
use dpmp.Prelude.{
  ℕ, ◌+◌, ◌≡◌, ap, ℤ, pos, pos_part, neg_part, ◌+ℤ◌, ◌-ℤ◌, ◌≤ℤ◌, half_ℤ, arith, int_laws, +ℤ_parts,
}
use dpmp.Rtp.Control.{sync_rtt_of, sync_offset_of}

-- The clocks of one exchange: the responder's clock runs `o` ahead of the initiator's. The request
-- takes `there`, the responder holds it for `held`, and the answer takes `back`.
pub record Exchange (o : ℤ) (there held back t1 t2 t3 t4 : ℕ) : Type 0 where
  pub arrival : pos t2 ≡ pos (t1 + there) +ℤ o
  pub answer : t3 ≡ t2 + held
  pub return : t4 ≡ t1 + there + held + back

half_bounds : (z : ℤ) → (half_ℤ z +ℤ half_ℤ z ≤ℤ z) × (z ≤ℤ half_ℤ z +ℤ half_ℤ z +ℤ pos 1)
unfolding half_ℤ ◌+ℤ◌
half_bounds z = ground arith

-- The round trip that a sample computes is the time spent on the way. Twice its offset is the true
-- offset twice, moved by the difference of the two delays and rounded down: so twice the error is at
-- most the round trip and one more, and with equal delays the offset is exact.
pub sample_accuracy :
    (o : ℤ) (there held back t1 t2 t3 t4 : ℕ)
    → Exchange o there held back t1 t2 t3 t4
    → (sync_rtt_of t1 t2 t3 t4 ≡ pos (there + back))
      × (sync_offset_of t1 t2 t3 t4 +ℤ sync_offset_of t1 t2 t3 t4
          ≤ℤ o +ℤ o +ℤ pos there -ℤ pos back)
      × (o +ℤ o +ℤ pos there -ℤ pos back
          ≤ℤ sync_offset_of t1 t2 t3 t4 +ℤ sync_offset_of t1 t2 t3 t4 +ℤ pos 1)
      × (there ≡ back → sync_offset_of t1 t2 t3 t4 ≡ o)
unfolding sync_rtt_of sync_offset_of
sample_accuracy o there held back t1 t2 t3 t4 x =
    let a = +ℤ_parts (pos (t1 + there)) o in
    let b = half_bounds ((pos t2 -ℤ pos t1) +ℤ (pos t3 -ℤ pos t4)) in
    let p = ap pos_part x.arrival in
    let n = ap neg_part x.arrival in
    (
      omega (int_laws, a, b, p, n),
      omega (int_laws, a, b, p, n),
      omega (int_laws, a, b, p, n),
      λ e. omega (int_laws, a, b, p, n),
    )
