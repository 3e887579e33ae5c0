-- ===== src/Client/Manager/Punching/Interleaved.antt =====
-- Any number of punching tasks, of any peers, and the manager's other threads, in any order.
use dpmp.Prelude.{ℕ, zero, suc, ◌+◌, ◌-◌, Bool, true, false, List, [], ◌∷◌, if◌then◌else◌}
use dpmp.Server.State.{PeerInfo}
use dpmp.Client.Manager.State.{Manager}
use dpmp.Client.Manager.Traces.{Event, step}
use dpmp.Client.Manager.Punching.Rounds.{
  Phase, entering, queued, leaving, Rounds, Moment, task_step,
}

pub record System : Type 0 where
  pub manager : Manager
  pub free : ℕ
  pub tasks : List (PeerInfo × Phase)

-- What happens next: a new task, the next step of the i-th task, or another thread of the manager.
pub data Move : Type 0 where
  starts : PeerInfo → ℕ → Move
  steps : ℕ → Moment → Move
  others : Event → Move

-- `_punch_sem.acquire()` waits while no permit is free.
abbrev pub blocked : Phase → ℕ → Bool
blocked (queued at) zero = true
blocked _ free = false

-- The permits after a step.
abbrev pub permits : Phase → ℕ → ℕ
permits (queued at) free = free - 1
permits leaving free = free + 1
permits _ free = free

unfoldable pub advance : Rounds → PeerInfo → Phase → Moment → Manager → ℕ → Phase × Manager × ℕ
unfolding task_step
advance c peer phase m s free =
    let (phase', s', out) = task_step c peer phase m s in
    if blocked phase free then (phase, s, free) else (phase', s', permits phase free)

unfoldable pub move_task :
    Rounds
    → ℕ
    → Moment
    → List (PeerInfo × Phase)
    → Manager
    → ℕ
    → List (PeerInfo × Phase) × Manager × ℕ
unfolding advance
move_task c i m [] s free = ([], s, free)
move_task c zero m ((peer, phase) ∷ ts) s free =
    let (phase', s', free') = advance c peer phase m s free in ((peer, phase') ∷ ts, s', free')
move_task c (suc i) m (t ∷ ts) s free =
    let (ts', s', free') = move_task c i m ts s free in (t ∷ ts', s', free')

unfoldable pub move : Rounds → Move → System → System
unfolding move_task
move c (starts peer at) y = record y { tasks = (peer, entering at) ∷ y.tasks }
move c (steps i m) y =
    let (ts, s, free) = move_task c i m y.tasks y.manager y.free in
    record { manager = s; free = free; tasks = ts }
move c (others e) y = record y { manager = step e y.manager }

unfoldable pub run : Rounds → List Move → System → System
unfolding move
run c [] y = y
run c (mv ∷ mvs) y = run c mvs (move c mv y)
