-- ===== src/Client/Manager/Punching/Counted.antt =====
-- The counter of the tasks and the semaphore, through any interleaving.
use dpmp.Prelude.{
  ℕ, zero, suc, ◌+◌, ◌≤◌, ◌≡◌, refl, sym, ap, subst, ◌∙◌, false, List, [], ◌∷◌, Text, text_eq_iff,
  text_key, All, arith,
}
use dpmp.Dict.{get}
use dpmp.Dict.Laws.{Distinct}
use dpmp.Server.State.{PeerInfo, or_default}
use dpmp.Client.Manager.State.{Manager}
use dpmp.Client.Manager.Traces.Tasks.{counts_task, step-Keeps}
use dpmp.Client.Manager.Punching.Tasks.{tasks}
use dpmp.Client.Manager.Punching.Rounds.{Phase, Rounds, Moment}
use dpmp.Client.Manager.Punching.Interleaved.{
  System, Move, starts, steps, others, move_task, move, run,
}
use dpmp.Client.Manager.Punching.Counting.{
  active, running, holders, advance-IsCounted, advance_permits,
}

-- One move of the tasks, in a list of them.
record Moved (q : Text) (ts : List (PeerInfo × Phase)) (s : Manager) (free : ℕ)
    (r : List (PeerInfo × Phase) × Manager × ℕ) : Type 0 where
  counted : tasks q r.1 + running q ts ≡ tasks q s + running q r.0
  below : tasks q s ≤ 2 → tasks q r.1 ≤ 2
  apart : Distinct r.1.punch_active
  permitted : r.2 + holders r.0 ≡ free + holders ts

own_count :
    (peer : PeerInfo) (phase : Phase) (ts : List (PeerInfo × Phase))
    → active phase ≤ running peer.id ((peer, phase) ∷ ts)
own_count peer phase ts = ground (arith, text_eq_iff peer.id peer.id)

move_task-Moved :
    (q : Text) (c : Rounds) (i : ℕ) (m : Moment) (ts : List (PeerInfo × Phase)) (s : Manager)
    (free : ℕ)
    → Distinct s.punch_active
    → ((p : Text) → running p ts ≤ tasks p s)
    → Moved q ts s free (move_task c i m ts s free)
unfolding move_task
move_task-Moved q c i m [] s free d h = record {
  counted = refl;
  below = λ b. b;
  apart = d;
  permitted = refl;
}
move_task-Moved q c zero m ((peer, phase) ∷ ts) s free d h =
    let there : active phase ≤ tasks peer.id s =
      omega (arith, own_count peer phase ts, h peer.id) in
    let step = advance-IsCounted q c peer phase m s free d there in
    record {
      counted = omega (arith, step.moved);
      below = step.below;
      apart = step.apart;
      permitted = omega (arith, advance_permits c peer phase m s free);
    }
move_task-Moved q c (suc i) m ((peer, phase) ∷ ts) s free d h =
    let later = move_task-Moved q c i m ts s free d (λ p. omega (arith, h p)) in
    record {
      counted = omega (arith, later.counted);
      below = later.below;
      apart = later.apart;
      permitted = omega (arith, later.permitted);
    }

-- The counter of every peer is the number of its tasks that run, at most two; the permits that are
-- free and those that tasks have are as many as the semaphore has.
pub record IsSettled (limit : ℕ) (y : System) : Type 0 where
  pub counted : (p : Text) → tasks p y.manager ≡ running p y.tasks
  pub at_most_two : (p : Text) → running p y.tasks ≤ 2
  pub apart : Distinct y.manager.punch_active
  pub permitted : y.free + holders y.tasks ≡ limit

-- The ends of a task are moves of it, not events of another thread.
abbrev pub IsOwn : Move → Type 0
IsOwn (others e) = counts_task e ≡ false
IsOwn _ = Unit

move-IsSettled :
    (limit : ℕ) (c : Rounds) (mv : Move) (y : System)
    → IsOwn mv
    → IsSettled limit y
    → IsSettled limit (move c mv y)
unfolding move
move-IsSettled limit c (starts peer at) y own h = record {
  counted = λ p. ground (arith, h.counted p);
  at_most_two = λ p. ground (arith, h.at_most_two p);
  apart = h.apart;
  permitted = omega (arith, h.permitted);
}
move-IsSettled limit c (steps i m) y own h =
    let moved = λ (p : Text).
      move_task-Moved p c i m y.tasks y.manager y.free h.apart (λ q. omega (arith, h.counted q)) in
    record {
      counted = λ p. omega (arith, (moved p).counted, h.counted p);
      at_most_two =
          λ p. omega (arith, (moved p).counted, (moved p).below, h.counted p, h.at_most_two p);
      apart = (moved []).apart;
      permitted = omega (arith, (moved []).permitted, h.permitted);
    }
move-IsSettled limit c (others e) y own h =
    let k = step-Keeps e y.manager own in
    record {
      counted = λ p. ap (λ t. or_default 0 (get p t)) k ∙ h.counted p;
      at_most_two = h.at_most_two;
      apart = subst Distinct (sym k) h.apart;
      permitted = h.permitted;
    }

-- Through any interleaving of the steps of any number of punching tasks with the events of the
-- manager's other threads, the counter of each peer is the number of its tasks that run, which is at
-- most two, and the permits of the semaphore that are free and those that tasks have stay as many
-- together, if that is so at the start.
pub run-IsSettled :
    (limit : ℕ) (c : Rounds) (moves : List Move) (y : System)
    → All IsOwn moves
    → IsSettled limit y
    → IsSettled limit (run c moves y)
unfolding run
run-IsSettled limit c [] y own h = h
run-IsSettled limit c (mv ∷ mvs) y own h =
    run-IsSettled limit c mvs (move c mv y) own.1 (move-IsSettled limit c mv y own.0 h)
