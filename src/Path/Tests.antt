-- ===== src/Path/Tests.antt =====
-- The theorems on the keepalive intervals at a path of TCP with the default factors.
use dpmp.Prelude.{
  ℕ, ◌≤◌, ◌≡◌, arith, true, false, [], ◌∷◌, Text, text_key, text_eq, refl, select, some, get_elem?,
}
use mathlib.Core.List.{Perm}
use dpmp.Dict.{get, values}
use dpmp.Path.Scheduler.{PeerPath, Paths, new_path, alive, role_at, regrade}
use dpmp.Path.Roles.Order.{IsSorted}
use dpmp.Path.Roles.{graded, ranking, regrade_lem}
use dpmp.Path.Keepalive.{
  Role, hot, warm_safe, warm_loose, dead, tcp, udp, default_tuning, new_scheduler, cap_of,
}
use dpmp.Path.Keepalive.Interval.{IsSound, interval_bounds, probes}

factors : (r : Role) → 1 ≤ default_tuning.doubled_factor r
factors hot = ground arith
factors warm_safe = ground arith
factors warm_loose = ground arith
factors dead = ground arith

hot_tcp-IsSound : IsSound (new_scheduler default_tuning hot tcp)
unfolding new_scheduler
hot_tcp-IsSound = record {
  above_floor = ground arith;
  below_cap = ground arith;
  failed = ground arith;
  succeeded = λ h. ground arith;
}

interval_bounds_example :
    (default_tuning.proto_floor tcp
      ≤ (probes default_tuning
          (true ∷ true ∷ false ∷ [])
          (new_scheduler default_tuning hot tcp)).current_interval)
    × ((probes default_tuning
          (true ∷ true ∷ false ∷ [])
          (new_scheduler default_tuning hot tcp)).current_interval
        ≤ cap_of hot (default_tuning.proto_safe_cap tcp))
interval_bounds_example =
    interval_bounds default_tuning hot tcp (true ∷ true ∷ false ∷ []) factors (ground arith)

-- A UDP path, and a TCP path that came later.
abbrev two_paths : Paths
two_paths =
    (b'u' ∷ [], new_path default_tuning 0 (b'u' ∷ []) udp warm_loose 0)
    ∷ (b't' ∷ [], new_path default_tuning 5 (b't' ∷ []) tcp warm_loose 0)
    ∷ []

regrade_lem_example :
    IsSorted default_tuning (ranking default_tuning two_paths)
    × Perm (ranking default_tuning two_paths) (select alive (values two_paths))
    × ((j : ℕ) (p : PeerPath)
        → get_elem? (ranking default_tuning two_paths) j ≡ some p
        → get p.path_id (regrade default_tuning two_paths)
          ≡ some (graded default_tuning (role_at j) p))
    × ((k : Text) (p : PeerPath)
        → get k two_paths ≡ some p
        → alive p ≡ false
        → get k (regrade default_tuning two_paths) ≡ some p)
unfolding get new_path text_eq
regrade_lem_example = regrade_lem default_tuning two_paths (refl, refl, (refl, refl, tt))
