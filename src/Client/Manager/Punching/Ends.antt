-- ===== src/Client/Manager/Punching/Ends.antt =====
-- A punching task comes to its end, whatever the other threads make of the manager meanwhile.
use dpmp.Prelude.{
  ℕ, ◌+◌, ◌-◌, ◌*◌, ◌≤◌, ◌≡◌, refl, none, some, List, [], ◌∷◌, length, Option, arith,
}
use dpmp.Server.Format.{Addr}
use dpmp.Server.State.{PeerInfo}
use dpmp.Client.Manager.State.{Manager}
use dpmp.Client.Manager.Punching.Rounds.{
  Phase, entering, queued, looking, looking_again, punching, waiting, giving_up, leaving, ended,
  Rounds, Moment, task_step, look, look_again, punched,
}

-- The task's steps, each on the manager as it then is.
unfoldable pub task_run : Rounds → PeerInfo → Phase → List (Moment × Manager) → Phase
task_run c peer phase [] = phase
task_run c peer phase ((m, s) ∷ views) = task_run c peer (task_step c peer phase m s).0 views

-- How many steps are left at most.
abbrev left : Rounds → Phase → ℕ
left c (entering at) = 4 * c.retry + 7
left c (queued at) = 4 * c.retry + 6
left c (looking n at) = 4 * (c.retry + 1 - n) + 5
left c (looking_again n at old) = 4 * (c.retry + 1 - n) + 4
left c (punching n at target) = 4 * (c.retry + 1 - n) + 3
left c (waiting n) = 4 * (c.retry - n) + 6
left c giving_up = 2
left c leaving = 1
left c ended = 0

left-punched :
    (c : Rounds) (peer : PeerInfo) (n : ℕ) (r : Option (ℕ × Addr)) (m : Moment) (s : Manager)
    → left c (punched c peer n r m s).0 + 1 ≤ 4 * (c.retry + 1 - n) + 3
unfolding punched
left-punched c peer n none m s = ground arith
left-punched c peer n (some (sock, addr)) m s = omega arith

left-task_step :
    (c : Rounds) (peer : PeerInfo) (phase : Phase) (m : Moment) (s : Manager)
    → left c (task_step c peer phase m s).0 ≤ left c phase - 1
unfolding task_step
left-task_step c peer (entering at) m s = ground arith
left-task_step c peer (queued at) m s = omega arith
left-task_step c peer (looking n at) m s = unfold look in ground arith
left-task_step c peer (looking_again n at old) m s = unfold look_again in ground arith
left-task_step c peer (punching n at target) m s = omega (arith, left-punched c peer n m.result m s)
left-task_step c peer (waiting n) m s = omega arith
left-task_step c peer giving_up m s = omega arith
left-task_step c peer leaving m s = omega arith
left-task_step c peer ended m s = omega arith

none_left : (c : Rounds) (phase : Phase) → left c phase ≤ 0 → phase ≡ ended
none_left c (entering at) h = absurd (omega arith)
none_left c (queued at) h = absurd (omega arith)
none_left c (looking n at) h = absurd (omega arith)
none_left c (looking_again n at old) h = absurd (omega arith)
none_left c (punching n at target) h = absurd (omega arith)
none_left c (waiting n) h = absurd (omega arith)
none_left c giving_up h = absurd (omega arith)
none_left c leaving h = absurd (omega arith)
none_left c ended h = refl

left-task_run :
    (c : Rounds) (peer : PeerInfo) (phase : Phase) (views : List (Moment × Manager))
    → left c (task_run c peer phase views) ≤ left c phase - length views
unfolding task_run
left-task_run c peer phase [] = omega arith
left-task_run c peer phase ((m, s) ∷ views) = omega (
  arith,
  left-task_step c peer phase m s,
  left-task_run c peer (task_step c peer phase m s).0 views,
)

-- A punching task has ended after four steps for each round that it may make and seven more, whatever
-- the manager is at each of its steps and whatever its punches come to.
pub task_ends :
    (c : Rounds) (peer : PeerInfo) (at : ℕ) (views : List (Moment × Manager))
    → 4 * c.retry + 7 ≤ length views
    → task_run c peer (entering at) views ≡ ended
task_ends c peer at views h =
    none_left c _ (omega (arith, left-task_run c peer (entering at) views))
