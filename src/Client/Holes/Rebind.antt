-- ===== src/Client/Holes/Rebind.antt =====
-- Rebinding after a change of the network.
use dpmp.Prelude.{
  ℕ, ◌+◌, ◌∷◌, either, nonempty, ◌≡◌, refl, sym, subst, ap, Bool, true, false, none, some, List, [],
  if◌then◌else◌, Text, Bool-cases, inl, inr,
}
use dpmp.Client.Signaling.{
  Candidate, Attempt, accepted, rejected, silent, fails, Client, End, joins, unreached, throws,
  turned_away, Started, joined, not_joined, raised, unanswered, after_attempt, failover, started,
  start,
}
use dpmp.Client.Holes.{
  Action, Link, Welcome, stop, connect, rebind, linked, forgotten, after_closing,
}
use dpmp.Server.State.{or_default}

-- The loop leaves `_running` alone.
unanswered-running :
    (s : Client) (later : Client × End)
    → later.0.running ≡ s.running
    → (unanswered s later).0.running ≡ s.running
unanswered-running s later h =
    either (λ (r : Client × End). r.0.running ≡ s.running) s.auto_failover _ _ h refl

attempt-running :
    (a : Attempt) (s : Client) (later : Client × End)
    → later.0.running ≡ s.running
    → (after_attempt a s later).0.running ≡ s.running
attempt-running accepted s later h = refl
attempt-running (rejected code) s later h =
    either (λ (r : Client × End). r.0.running ≡ s.running) (nonempty code) _ _ refl
      (unanswered-running (record s { last_join_error = some code }) later h)
attempt-running silent s later h = unanswered-running s later h
attempt-running fails s later h = refl

failover-running :
    (attempt : Candidate → Attempt) (idx : ℕ) (cs : List Candidate) (s : Client)
    → (failover attempt idx cs s).0.running ≡ s.running
unfolding failover
failover-running attempt idx [] s = refl
failover-running attempt idx (c ∷ cs) s =
    let s' = record s { server_idx = idx; server = some c; last_join_error = none } in
    attempt-running (attempt c) s' (failover attempt (idx + 1) cs s')
      (failover-running attempt (idx + 1) cs s')

-- Whether the client runs after a call: not where it has given False, and still where it has raised.
abbrev Runs : Client → Started → Type 0
Runs c joined = Unit
Runs c not_joined = c.running ≡ false
Runs c raised = c.running ≡ true

started-Runs : (r : Client × End) → r.0.running ≡ true → Runs (started r).0 (started r).1
started-Runs (s, joins) h = tt
started-Runs (s, throws) h = h
started-Runs (s, turned_away code) h = refl
started-Runs (s, unreached) h = refl

start-Runs :
    (attempt : Candidate → Attempt) (s : Client)
    → s.running ≡ false
    → Runs (start attempt s).0 (start attempt s).1
unfolding start
start-Runs attempt s off = rw off (
    started-Runs (failover attempt 0 s.servers (record s { running = true }))
      (failover-running attempt 0 s.servers (record s { running = true })))

linked-Runs :
    (welcome : Candidate → Welcome) (bound : Bool) (s : Link) (r : Client × Started × List Text)
    → Runs r.0 r.1
    → Runs (linked welcome bound s r).0.client (linked welcome bound s r).1
linked-Runs welcome bound s (c, joined, errors) h = tt
linked-Runs welcome bound s (c, not_joined, errors) h = h
linked-Runs welcome bound s (c, raised, errors) h = h

connect-Runs :
    (attempt : Candidate → Attempt) (welcome : Candidate → Welcome) (bound : Bool) (s : Link)
    → s.client.running ≡ false
    → Runs (connect attempt welcome bound s).0.client (connect attempt welcome bound s).1
unfolding connect
connect-Runs attempt welcome bound s off =
    linked-Runs welcome bound s (start attempt s.client) (start-Runs attempt s.client off)

closing-Runs :
    (closed : List Action) (r : Link × Started × List Action)
    → Runs r.0.client r.1
    → Runs (after_closing closed r).0.client (after_closing closed r).1
closing-Runs closed (s, ok, acts) h = h

if_on {ℓ} : {A : Type ℓ} {b : Bool} (x y : A) → b ≡ true → (if b then x else y) ≡ x
if_on x y on = ap (λ b. if b then x else y) on

-- The link as it is when the client connects again.
abbrev closed : Link → Link
closed s = forgotten (stop true (record s { reuse_id = or_default [] s.my_id })).0

closed_off : (s : Link) → s.client.running ≡ true → (closed s).client.running ≡ false
unfolding stop
closed_off s on = rw on refl

rebind_on :
    (attempt : Candidate → Attempt) (welcome : Candidate → Welcome) (bound : Bool) (s : Link)
    → s.client.running ≡ true
    → rebind attempt welcome bound s
      ≡ after_closing
          (stop true (record s { reuse_id = or_default [] s.my_id })).1
          (connect attempt welcome bound (closed s))
unfolding rebind
rebind_on attempt welcome bound s on = if_on _ _ on

stays_off :
    (attempt : Candidate → Attempt) (welcome : Candidate → Welcome) (bound : Bool) (s : Link)
    → s.client.running ≡ false
    → rebind attempt welcome bound s ≡ (s, not_joined, [])
unfolding rebind
stays_off attempt welcome bound s off = rw off refl

rebind-Runs :
    (attempt : Candidate → Attempt) (welcome : Candidate → Welcome) (bound : Bool) (s : Link)
    → Runs (rebind attempt welcome bound s).0.client (rebind attempt welcome bound s).1
rebind-Runs attempt welcome bound s = elim (Bool-cases s.client.running) [
  | inl on ↦
      subst (λ r. Runs r.0.client r.1) (sym (rebind_on attempt welcome bound s on))
        (closing-Runs (stop true (record s { reuse_id = or_default [] s.my_id })).1
          (connect attempt welcome bound (closed s))
          (connect-Runs attempt welcome bound (closed s) (closed_off s on)))
  | inr off ↦ subst (λ r. Runs r.0.client r.1) (sym (stays_off attempt welcome bound s off)) off
]

-- A rebind that gives False, because no server answers, is the last: whatever the network and the
-- servers do from then on, rebinding again gives False, and does nothing. One that raises leaves the
-- client marked as running, so that the next rebind tries again.
pub rebind_gives_up :
    (attempt attempt' : Candidate → Attempt) (welcome welcome' : Candidate → Welcome)
    (bound bound' : Bool) (s : Link)
    → ((rebind attempt welcome bound s).1 ≡ not_joined
        → rebind attempt' welcome' bound' (rebind attempt welcome bound s).0
          ≡ ((rebind attempt welcome bound s).0, not_joined, []))
      × ((rebind attempt welcome bound s).1 ≡ raised
          → (rebind attempt welcome bound s).0.client.running ≡ true)
rebind_gives_up attempt attempt' welcome welcome' bound bound' s =
    let runs = rebind-Runs attempt welcome bound s in
    let s' = (rebind attempt welcome bound s).0 in
    (
      λ h. stays_off attempt' welcome' bound' s' (subst (Runs s'.client) h runs),
      λ h. subst (Runs s'.client) h runs,
    )
