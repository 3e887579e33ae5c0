-- ===== src/Path/Scheduler.antt =====
-- PeerPathScheduler: the paths to one peer, by their ids, in the order in which they came. The source
-- shares a path object between the table and the sorted list; here a change is written to the table
-- under the path's id, which is its key.
use dpmp.Prelude.{
  ℕ, zero, suc, Bool, true, false, not, ◌&&◌, ◌||◌, Option, none, some, List, [], ◌∷◌,
  if◌then◌else◌, ltb, eqb, Text, text_key, select,
}
use dpmp.Dict.{Dict, get, put, remove, values}
use dpmp.Path.Keepalive.{
  Role, hot, warm_safe, warm_loose, dead, Proto, Tuning, KeepaliveScheduler, new_scheduler,
}

pub record PeerPath : Type 0 where
  pub path_id : Text
  pub proto : Proto
  pub role : Role
  pub scheduler : KeepaliveScheduler
  pub last_seen : ℕ
  pub rtt_ms : ℕ

abbrev pub Paths : Type 0
Paths = Dict Text PeerPath

unfoldable pub new_path : Tuning → ℕ → Text → Proto → Role → ℕ → PeerPath
new_path t now path_id proto role rtt_ms = record {
  path_id = path_id;
  proto = proto;
  role = role;
  scheduler = new_scheduler t role proto;
  last_seen = now;
  rtt_ms = rtt_ms;
}

unfoldable pub set_role : Tuning → Role → PeerPath → PeerPath
set_role t role p = record p { role = role; scheduler = new_scheduler t role p.proto }

abbrev pub role_eq : Role → Role → Bool
role_eq hot hot = true
role_eq warm_safe warm_safe = true
role_eq warm_loose warm_loose = true
role_eq dead dead = true
role_eq _ _ = false

abbrev pub alive : PeerPath → Bool
alive p = not (role_eq p.role dead)

-- The sort key is (priority, rtt); `before p q` when p's key is smaller than q's.
unfoldable pub before : Tuning → PeerPath → PeerPath → Bool
before t p q =
    let a = t.proto_priority p.proto in
    let b = t.proto_priority q.proto in ltb a b || (eqb a b && ltb p.rtt_ms q.rtt_ms)

-- `list.sort` is stable: equal keys keep their order.
unfoldable pub insert_sorted : Tuning → PeerPath → List PeerPath → List PeerPath
insert_sorted t p [] = p ∷ []
insert_sorted t p (q ∷ qs) = if before t q p then q ∷ insert_sorted t p qs else p ∷ q ∷ qs

unfoldable pub sort_paths : Tuning → List PeerPath → List PeerPath
sort_paths t [] = []
sort_paths t (p ∷ ps) = insert_sorted t p (sort_paths t ps)

-- `roles[i] if i < len(roles) else ROLE_WARM_LOOSE`
abbrev pub role_at : ℕ → Role
role_at zero = hot
role_at (suc zero) = warm_safe
role_at (suc (suc i)) = warm_loose

unfoldable pub assign_roles : Tuning → ℕ → List PeerPath → Paths → Paths
assign_roles t i [] paths = paths
assign_roles t i (p ∷ ps) paths =
    assign_roles t (suc i) ps
      (if role_eq p.role (role_at i) then paths else put p.path_id (set_role t (role_at i) p) paths)

-- _regrade_locked, regrade
unfoldable pub regrade : Tuning → Paths → Paths
regrade t paths = assign_roles t 0 (sort_paths t (select alive (values paths))) paths

abbrev register_new : Tuning → ℕ → Text → Proto → ℕ → Paths → Paths
register_new t now path_id proto rtt_ms paths =
    regrade t (put path_id (new_path t now path_id proto warm_loose rtt_ms) paths)

-- A living path is used again as it is; otherwise a new one is entered as warm_loose and all are
-- graded.
unfoldable pub register : Tuning → ℕ → Text → Proto → ℕ → Paths → Paths
register t now path_id proto rtt_ms paths = elim (get path_id paths) [
  | none ↦ register_new t now path_id proto rtt_ms paths
  | some p ↦ if alive p then paths else register_new t now path_id proto rtt_ms paths
]

unfoldable pub remove_path : Text → Paths → Paths
remove_path path_id paths = remove path_id paths

unfoldable pub get_by_role : Role → Paths → Option PeerPath
get_by_role role [] = none
get_by_role role ((k, p) ∷ paths) = if role_eq p.role role then some p else get_by_role role paths

unfoldable pub get_hot : Paths → Option PeerPath
get_hot paths = get_by_role hot paths

unfoldable pub role_of : Text → Paths → Option Role
role_of path_id paths = elim (get path_id paths) [ none ↦ none | some p ↦ some p.role ]

-- The last path with a role, which is what the loop of promote_on_hot_failure leaves.
unfoldable pub last_with_role : Role → Paths → Option PeerPath → Option PeerPath
last_with_role role [] found = found
last_with_role role ((k, p) ∷ paths) found =
    last_with_role role paths (if role_eq p.role role then some p else found)

abbrev kill : Option PeerPath → Paths → Paths
kill none paths = paths
kill (some p) paths = put p.path_id (record p { role = dead }) paths

abbrev raise : Tuning → Role → Option PeerPath → Paths → Paths
raise t role none paths = paths
raise t role (some p) paths = put p.path_id (set_role t role p) paths

abbrev id_of : Option PeerPath → Option Text
id_of none = none
id_of (some p) = some p.path_id

-- The hot path dies (its scheduler stays), the safe one becomes hot, the loose one safe; the id of the
-- new hot path comes back.
unfoldable pub promote_on_hot_failure : Tuning → Paths → Paths × Option Text
unfolding last_with_role
promote_on_hot_failure t paths =
    let old_hot = last_with_role hot paths none in
    let safe = last_with_role warm_safe paths none in
    let loose = last_with_role warm_loose paths none in
    (raise t warm_safe loose (raise t hot safe (kill old_hot paths)), id_of safe)
