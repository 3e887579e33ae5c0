-- ===== src/Path/Keepalive.antt =====
-- KeepaliveScheduler: the interval of one path, in whole seconds. A factor of `role_factor` is kept
-- doubled, so that 1.5 is 3; `int(interval * 2 * factor)` is then a product of numbers.
pub mod Interval
use dpmp.Prelude.{
  ℕ, zero, suc, ◌+◌, ◌*◌, ◌/◌, min, max, Bool, true, false, ◌&&◌, Option, none, some, List, [], ◌∷◌,
  if◌then◌else◌, ltb, leb,
}

pub data Role : Type 0 where
  hot warm_safe warm_loose dead : Role

-- "tcp", "udp", or another name, for which the tables have no entry
pub data Proto : Type 0 where
  tcp udp other : Proto

-- The entries of PROTO_FLOOR, PROTO_SAFE_CAP, ROLE_FACTOR (doubled) and PROTO_PRIORITY
pub record Tuning : Type 0 where
  pub proto_floor : Proto → ℕ
  pub proto_safe_cap : Proto → ℕ
  pub doubled_factor : Role → ℕ
  pub proto_priority : Proto → ℕ

abbrev floor_of : Proto → ℕ
floor_of tcp = 30
floor_of udp = 15
floor_of other = 15

abbrev safe_cap_of : Proto → ℕ
safe_cap_of tcp = 3600
safe_cap_of udp = 60
safe_cap_of other = 60

abbrev doubled_factor_of : Role → ℕ
doubled_factor_of hot = 2
doubled_factor_of warm_safe = 3
doubled_factor_of warm_loose = 8
doubled_factor_of dead = 2

abbrev priority_of : Proto → ℕ
priority_of tcp = 0
priority_of udp = 1
priority_of other = 9

abbrev pub default_tuning : Tuning
default_tuning = record {
  proto_floor = floor_of;
  proto_safe_cap = safe_cap_of;
  doubled_factor = doubled_factor_of;
  proto_priority = priority_of;
}

pub record KeepaliveScheduler : Type 0 where
  pub role : Role
  pub proto : Proto
  pub floor : ℕ
  pub safe_cap : ℕ
  pub current_interval : ℕ
  pub upper_bound : Option ℕ
  pub lower_bound : Option ℕ
  pub success_count : ℕ
  pub fail_count : ℕ
  pub stable : Bool

-- __init__
unfoldable pub new_scheduler : Tuning → Role → Proto → KeepaliveScheduler
new_scheduler t role proto = record {
  role = role;
  proto = proto;
  floor = t.proto_floor proto;
  safe_cap = t.proto_safe_cap proto;
  current_interval = t.proto_floor proto * 2;
  upper_bound = none;
  lower_bound = none;
  success_count = 0;
  fail_count = 0;
  stable = false;
}

-- the upper end of _clamp
abbrev pub cap_of : Role → ℕ → ℕ
cap_of warm_safe safe_cap = safe_cap
cap_of hot safe_cap = 3600
cap_of warm_loose safe_cap = 3600
cap_of dead safe_cap = 3600

unfoldable pub clamp : KeepaliveScheduler → ℕ → ℕ
clamp k v = min (max v k.floor) (cap_of k.role k.safe_cap)

-- The end of on_success: towards the interval that failed, if one did, and then it is settled.
abbrev lengthen : KeepaliveScheduler → ℕ → Option ℕ → KeepaliveScheduler
lengthen k c none = record k { current_interval = clamp k c }
lengthen k c (some lower) = record k {
  current_interval = clamp k (min c ((k.current_interval + lower) / 2));
  stable = true;
}

-- `fail_count / (total + 1) > 0.05` is `20 * fail_count > total + 1`
unfoldable pub on_success : Tuning → KeepaliveScheduler → KeepaliveScheduler
unfolding clamp
on_success t k =
    let k' = record k {
      success_count = k.success_count + 1;
      upper_bound = some k.current_interval;
    } in
    let total = k'.success_count + k'.fail_count in
    if k'.stable
    then k'
    else if leb 5 total && ltb (total + 1) (20 * k'.fail_count)
    then record k' { stable = true }
    else lengthen k' (k'.current_interval * t.doubled_factor k'.role) k'.lower_bound

abbrev shorten : KeepaliveScheduler → Option ℕ → ℕ
shorten k none = k.floor
shorten k (some upper) = (upper + k.current_interval) / 2

unfoldable pub on_failure : KeepaliveScheduler → KeepaliveScheduler
unfolding clamp
on_failure k =
    let k' = record k {
      fail_count = k.fail_count + 1;
      lower_bound = some k.current_interval;
      stable = false;
    } in
    record k' {
      current_interval =
          if leb 3 k'.fail_count then k'.floor else clamp k' (shorten k k.upper_bound);
    }
