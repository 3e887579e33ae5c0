-- ===== src/Path/Keepalive/Interval.antt =====
-- The interval of a path over a sequence of probes.
use dpmp.Prelude.{
  ℕ, ◌*◌, ◌≤◌, ◌<◌, ◌≡◌, refl, Bool, true, false, Option, none, some, List, [], ◌∷◌, arith,
}
use dpmp.Path.Keepalive.{
  Role, Proto, Tuning, KeepaliveScheduler, new_scheduler, cap_of, on_success, on_failure,
}

abbrev pub cap : KeepaliveScheduler → ℕ
cap k = cap_of k.role k.safe_cap

abbrev AtMost : Option ℕ → ℕ → Type 0
AtMost none n = Unit
AtMost (some m) n = m ≤ n

abbrev AtLeast : Option ℕ → ℕ → Type 0
AtLeast none n = Unit
AtLeast (some m) n = n ≤ m

-- The interval that failed last is no shorter than the present one; up to the second failure, the one
-- that succeeded last is no longer.
pub record IsSound (k : KeepaliveScheduler) : Type 0 where
  pub above_floor : k.floor ≤ k.current_interval
  pub below_cap : k.current_interval ≤ cap k
  pub failed : AtLeast k.lower_bound k.current_interval
  pub succeeded : k.fail_count < 3 → AtMost k.upper_bound k.current_interval

le-mul : (n f : ℕ) → 1 ≤ f → n ≤ n * f
le-mul n f h = grind arith

success-IsSound :
    (t : Tuning) (k : KeepaliveScheduler)
    → 1 ≤ t.doubled_factor k.role
    → IsSound k
    → IsSound (on_success t k)
unfolding on_success
success-IsSound t k f h =
    let more = le-mul k.current_interval (t.doubled_factor k.role) f in
    record {
      above_floor = ground (arith, more);
      below_cap = ground (arith, more);
      failed = ground (arith, more);
      succeeded = λ few. ground (arith, more);
    }

failure-IsSound : (k : KeepaliveScheduler) → IsSound k → IsSound (on_failure k)
unfolding on_failure
failure-IsSound k h = record {
  above_floor = ground arith;
  below_cap = ground arith;
  failed = ground arith;
  succeeded = λ few. ground arith;
}

-- A success keeps the interval or makes it longer, a failure keeps it or makes it shorter, and from
-- the third failure on a failure puts it at the floor.
pub probe_direction :
    (t : Tuning) (k : KeepaliveScheduler)
    → 1 ≤ t.doubled_factor k.role
    → IsSound k
    → (k.current_interval ≤ (on_success t k).current_interval)
      × ((on_failure k).current_interval ≤ k.current_interval)
      × (2 ≤ k.fail_count → (on_failure k).current_interval ≡ k.floor)
unfolding on_success on_failure
probe_direction t k f h =
    let more = le-mul k.current_interval (t.doubled_factor k.role) f in
    (ground (arith, more), ground arith, λ many. ground arith)

-- The probes of a path, one after another: true for a success.
unfoldable pub probes : Tuning → List Bool → KeepaliveScheduler → KeepaliveScheduler
probes t [] k = k
probes t (true ∷ bs) k = probes t bs (on_success t k)
probes t (false ∷ bs) k = probes t bs (on_failure k)

same_place :
    (t : Tuning) (k : KeepaliveScheduler)
    → ((on_success t k).floor ≡ k.floor)
      × ((on_success t k).role ≡ k.role)
      × ((on_success t k).safe_cap ≡ k.safe_cap)
unfolding on_success
same_place t k = ground arith

same_place_failure :
    (k : KeepaliveScheduler)
    → ((on_failure k).floor ≡ k.floor)
      × ((on_failure k).role ≡ k.role)
      × ((on_failure k).safe_cap ≡ k.safe_cap)
unfolding on_failure
same_place_failure k = (refl, refl, refl)

probes-IsSound :
    (t : Tuning) (bs : List Bool) (k : KeepaliveScheduler)
    → ((r : Role) → 1 ≤ t.doubled_factor r)
    → IsSound k
    → IsSound (probes t bs k) × ((probes t bs k).floor ≡ k.floor) × (cap (probes t bs k) ≡ cap k)
unfolding probes
probes-IsSound t [] k f h = (h, refl, refl)
probes-IsSound t (true ∷ bs) k f h =
    let (s, a, b) = probes-IsSound t bs (on_success t k) f (success-IsSound t k (f k.role) h) in
    (s, ground (arith, same_place t k), ground (arith, same_place t k))
probes-IsSound t (false ∷ bs) k f h =
    let (s, a, b) = probes-IsSound t bs (on_failure k) f (failure-IsSound k h) in
    (s, ground (arith, same_place_failure k), ground (arith, same_place_failure k))

-- A new path whose protocol has twice its floor within the role's cap, with factors of at least one
-- half: after any probes its interval lies between the floor of its protocol and the cap of its role.
pub interval_bounds :
    (t : Tuning) (r : Role) (p : Proto) (bs : List Bool)
    → ((r : Role) → 1 ≤ t.doubled_factor r)
    → t.proto_floor p * 2 ≤ cap_of r (t.proto_safe_cap p)
    → (t.proto_floor p ≤ (probes t bs (new_scheduler t r p)).current_interval)
      × ((probes t bs (new_scheduler t r p)).current_interval ≤ cap_of r (t.proto_safe_cap p))
unfolding new_scheduler
interval_bounds t r p bs f fits =
    let (s, a, b) =
      probes-IsSound t bs (new_scheduler t r p) f (record {
        above_floor = omega arith;
        below_cap = fits;
        failed = tt;
        succeeded = λ h. tt;
      }) in
    (omega (arith, s.above_floor, a), omega (arith, s.below_cap, b))
