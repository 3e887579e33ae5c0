-- ===== src/Client/Manager/Punching/Tasks.antt =====
-- How many punching tasks of a peer run at once.
use dpmp.Prelude.{ℕ, ◌+◌, ◌≡◌, true, false, leb, Text, text_eq, text_eq_iff, text_key, arith}
use dpmp.Dict.{get, put}
use dpmp.Dict.Laws.{get-put, get-remove, Distinct, put-Distinct}
use dpmp.Server.State.{or_default}
use dpmp.Client.Manager.State.{Manager}
use dpmp.Client.Manager.Punching.{punch_enter, punch_leave}

abbrev pub tasks : Text → Manager → ℕ
tasks p s = or_default 0 (get p s.punch_active)

-- A task of a peer starts exactly if fewer than two run; there is then one more, and of other peers as many as
-- before; and when it ends, there are as many as before it started.
pub punch_tasks_lem :
    (p q : Text) (s : Manager)
    → Distinct s.punch_active
    → text_eq p q ≡ false
    → ((punch_enter p s).1 ≡ leb (tasks p s + 1) 2)
      × ((punch_enter p s).1 ≡ true
          → (tasks p (punch_enter p s).0 ≡ tasks p s + 1)
            × (tasks q (punch_enter p s).0 ≡ tasks q s)
            × (tasks p (punch_leave p (punch_enter p s).0) ≡ tasks p s))
unfolding punch_enter punch_leave
punch_tasks_lem p q s h e =
    let n = tasks p s + 1 in
    let same = text_eq_iff p p in
    let a = get-put p p n s.punch_active in
    let b = get-put p q n s.punch_active in
    let d = put-Distinct p n s.punch_active h in
    let r = get-remove p p (put p n s.punch_active) d in
    let w = get-put p p (tasks p s) (put p n s.punch_active) in
    (
      ground arith,
      λ started. (ground (arith, a, same), ground (arith, b, e), ground (arith, a, same, r, w)),
    )
