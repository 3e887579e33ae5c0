-- ===== src/Client/Manager/Punching/Counting.antt =====
-- What one step of a punching task does to the counter of its peer and to the semaphore.
use dpmp.Prelude.{
  ℕ, zero, suc, ◌+◌, ◌-◌, ◌≤◌, ◌≡◌, refl, sym, ap, subst, ◌∙◌, inl, inr, Bool, true, false, Option,
  none, some, List, [], ◌∷◌, Text, text_eq, text_eq_iff, text_key, if◌then◌else◌, arith, either,
  Bool-cases,
}
use dpmp.Dict.{get}
use dpmp.Dict.Laws.{get-put, get-remove, Distinct, put-Distinct, remove-Distinct}
use dpmp.Server.Format.{Addr}
use dpmp.Server.State.{PeerInfo, or_default}
use dpmp.Client.Manager.State.{Manager}
use dpmp.Client.Manager.Traces.Tasks.{Keeps, install-Keeps, give_up-Keeps}
use dpmp.Client.Manager.Punching.{punch_enter, punch_leave}
use dpmp.Client.Manager.Punching.Tasks.{tasks}
use dpmp.Client.Manager.Punching.Rounds.{
  Phase, entering, queued, looking, looking_again, punching, waiting, giving_up, leaving, ended,
  Rounds, Moment, look, look_again, task_step, punched, give_up,
}
use dpmp.Client.Manager.Punching.Interleaved.{blocked, advance}

-- Between the two counts, the task is counted as running; it has a permit from `looking` on.
abbrev pub active : Phase → ℕ
active (entering at) = 0
active ended = 0
active _ = 1

abbrev pub holds : Phase → ℕ
holds (entering at) = 0
holds (queued at) = 0
holds ended = 0
holds _ = 1

abbrev pub if_peer : Text → Text → ℕ → ℕ
if_peer p q n = if text_eq p q then n else 0

-- How many tasks of a peer run, and how many of all have a permit.
abbrev pub running : Text → List (PeerInfo × Phase) → ℕ
running q [] = 0
running q ((peer, phase) ∷ ts) = if_peer peer.id q (active phase) + running q ts

abbrev pub holders : List (PeerInfo × Phase) → ℕ
holders [] = 0
holders ((peer, phase) ∷ ts) = holds phase + holders ts

abbrev one_if : Bool → ℕ
one_if true = 1
one_if false = 0

-- The counter at the two ends of a task.
enter_counts :
    (p q : Text) (s : Manager)
    → (tasks q (punch_enter p s).0 ≡ tasks q s + if_peer p q (one_if (punch_enter p s).1))
      × (tasks q s ≤ 2 → tasks q (punch_enter p s).0 ≤ 2)
unfolding punch_enter
enter_counts p q s =
    let a = get-put p q (tasks p s + 1) s.punch_active in
    let same = text_eq_iff p q in (ground (arith, a, same), λ h. ground (arith, a, same))

leave_counts :
    (p q : Text) (s : Manager)
    → Distinct s.punch_active
    → 1 ≤ tasks p s
    → tasks q (punch_leave p s) + if_peer p q 1 ≡ tasks q s
unfolding punch_leave
leave_counts p q s d h =
    let c = or_default 1 (get p s.punch_active) - 1 in
    let a = get-put p q c s.punch_active in
    let r = get-remove p q s.punch_active d in
    let same = text_eq_iff p q in ground (arith, a, r, same)

-- What one step of a task leaves: the counters move with its phase, and no peer gets a third task.
pub record IsCounted (q p : Text) (phase phase' : Phase) (s s' : Manager) : Type 0 where
  pub moved : tasks q s' + if_peer p q (active phase) ≡ tasks q s + if_peer p q (active phase')
  pub below : tasks q s ≤ 2 → tasks q s' ≤ 2
  pub apart : Distinct s'.punch_active

-- A step that leaves the counters and the task's place among the counted as they are.
kept_IsCounted :
    (q p : Text) (phase phase' : Phase) (s s' : Manager)
    → Keeps s s'
    → active phase ≡ active phase'
    → Distinct s.punch_active
    → IsCounted q p phase phase' s s'
kept_IsCounted q p phase phase' s s' k e d =
    let same : tasks q s' ≡ tasks q s = ap (λ t. or_default 0 (get q t)) k in
    record {
      moved = ap (λ n. n + if_peer p q (active phase)) same ∙ ap (λ n. tasks q s + if_peer p q n) e;
      below = λ h. omega arith;
      apart = subst Distinct (sym k) d;
    }

enter_Distinct :
    (p : Text) (s : Manager) → Distinct s.punch_active → Distinct (punch_enter p s).0.punch_active
unfolding punch_enter
enter_Distinct p s d =
    either (λ (r : Manager × Bool). Distinct r.0.punch_active) _ _ _ d
      (put-Distinct p _ s.punch_active d)

leave_Distinct :
    (p : Text) (s : Manager) → Distinct s.punch_active → Distinct (punch_leave p s).punch_active
unfolding punch_leave
leave_Distinct p s d =
    either Distinct _ _ _ (remove-Distinct p s.punch_active d) (put-Distinct p _ s.punch_active d)

-- A task in its rounds is counted and has a permit.
abbrev InRounds : Phase → Type 0
InRounds phase = (active phase ≡ 1) × (holds phase ≡ 1)

look-InRounds :
    (c : Rounds) (peer : PeerInfo) (n at : ℕ) (s : Manager) → InRounds (look c peer n at s).0
unfolding look
look-InRounds c peer n at s = (ground arith, ground arith)

look_again-InRounds :
    (peer : PeerInfo) (n at : ℕ) (old : PeerInfo) (s : Manager)
    → InRounds (look_again peer n at old s)
unfolding look_again
look_again-InRounds peer n at old s = (ground arith, ground arith)

punched-InRounds :
    (c : Rounds) (peer : PeerInfo) (n : ℕ) (r : Option (ℕ × Addr)) (m : Moment) (s : Manager)
    → InRounds (punched c peer n r m s).0 × Keeps s (punched c peer n r m s).1
unfolding punched
punched-InRounds c peer n none m s = ((ground arith, ground arith), ground arith)
punched-InRounds c peer n (some (sock, addr)) m s =
    ((refl, refl), install-Keeps peer.id sock addr m.now s)

gave_up-Keeps : (peer : PeerInfo) (s : Manager) → Keeps s (give_up peer s).0
unfolding give_up
gave_up-Keeps peer s = give_up-Keeps peer.id s

module _ (q : Text) (c : Rounds) (peer : PeerInfo) (m : Moment) (s : Manager)
    (d : Distinct s.punch_active) where
  Stepped : Phase → Type 0
  Stepped phase =
      IsCounted q peer.id phase (task_step c peer phase m s).0 s (task_step c peer phase m s).1

  entered-IsCounted : (at : ℕ) → Stepped (entering at)
  unfolding Stepped task_step
  entered-IsCounted at =
      let counts = enter_counts peer.id q s in
      let apart = enter_Distinct peer.id s d in
      elim (Bool-cases (punch_enter peer.id s).1) [
        | inl e ↦
            rw e (record { moved = ground (arith, counts.0, e); below = counts.1; apart = apart })
        | inr e ↦
            rw e (record { moved = ground (arith, counts.0, e); below = counts.1; apart = apart })
      ]

  -- Each step of a task whose place is counted.
  task_step-IsCounted : (phase : Phase) → active phase ≤ tasks peer.id s → Stepped phase
  unfolding Stepped task_step
  task_step-IsCounted (entering at) h = entered-IsCounted at
  task_step-IsCounted (queued at) h = kept_IsCounted q peer.id _ _ s s refl refl d
  task_step-IsCounted (looking n at) h =
      kept_IsCounted q peer.id _ _ s s refl (sym (look-InRounds c peer n at s).0) d
  task_step-IsCounted (looking_again n at old) h =
      kept_IsCounted q peer.id _ _ s s refl (sym (look_again-InRounds peer n at old s).0) d
  task_step-IsCounted (punching n at target) h =
      let (on, k) = punched-InRounds c peer n m.result m s in
      kept_IsCounted q peer.id _ _ s _ k (sym on.0) d
  task_step-IsCounted (waiting n) h = kept_IsCounted q peer.id _ _ s s refl refl d
  task_step-IsCounted giving_up h = kept_IsCounted q peer.id _ _ s _ (gave_up-Keeps peer s) refl d
  task_step-IsCounted leaving h = record {
    moved = ground (arith, leave_counts peer.id q s d h);
    below = λ b. omega (arith, leave_counts peer.id q s d h);
    apart = leave_Distinct peer.id s d;
  }
  task_step-IsCounted ended h = kept_IsCounted q peer.id _ _ s s refl refl d

-- One task of the system moves, if the semaphore lets it.
pub advance-IsCounted :
    (q : Text) (c : Rounds) (peer : PeerInfo) (phase : Phase) (m : Moment) (s : Manager) (free : ℕ)
    → Distinct s.punch_active
    → active phase ≤ tasks peer.id s
    → IsCounted q peer.id phase
        (advance c peer phase m s free).0
        s
        (advance c peer phase m s free).1
unfolding advance Stepped
advance-IsCounted q c peer phase m s free d h = elim (Bool-cases (blocked phase free)) [
  | inl e ↦ rw e (kept_IsCounted q peer.id _ _ s s refl refl d)
  | inr e ↦ rw e (task_step-IsCounted q c peer m s d phase h)
]

pub advance_permits :
    (c : Rounds) (peer : PeerInfo) (phase : Phase) (m : Moment) (s : Manager) (free : ℕ)
    → (advance c peer phase m s free).2 + holds (advance c peer phase m s free).0
      ≡ free + holds phase
unfolding advance task_step
advance_permits c peer (entering at) m s free = ground arith
advance_permits c peer (queued at) m s zero = ground arith
advance_permits c peer (queued at) m s (suc free) = ground arith
advance_permits c peer (looking n at) m s free = omega (arith, (look-InRounds c peer n at s).1)
advance_permits c peer (looking_again n at old) m s free =
    omega (arith, (look_again-InRounds peer n at old s).1)
advance_permits c peer (punching n at target) m s free =
    omega (arith, (punched-InRounds c peer n m.result m s).0.1)
advance_permits c peer (waiting n) m s free = ground arith
advance_permits c peer giving_up m s free = ground arith
advance_permits c peer leaving m s free = ground arith
advance_permits c peer ended m s free = ground arith
