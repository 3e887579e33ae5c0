-- ===== src/Client/Signaling/Failover.antt =====
-- Which server `start` ends at.
use dpmp.Prelude.{
  ℕ, ◌+◌, ◌≡◌, refl, ◌∙◌, true, false, none, some, List, [], ◌∷◌, ◌++◌, Text, nonempty,
}
use dpmp.Client.Signaling.{
  Candidate, Attempt, accepted, rejected, silent, fails, Client, End, joined, not_joined, raised,
  after_attempt, failover, start,
}

-- A server that does not answer, or turns the client away with an empty code.
abbrev pub IsPassed : Attempt → Type 0
IsPassed silent = Unit
IsPassed (rejected code) = nonempty code ≡ false
IsPassed _ = ⊥

abbrev pub AllPassed : (Candidate → Attempt) → List Candidate → Type 0
AllPassed attempt [] = Unit
AllPassed attempt (c ∷ cs) = IsPassed (attempt c) × AllPassed attempt cs

passes :
    (a : Attempt) (s : Client) (later : Client × End)
    → IsPassed a
    → s.auto_failover ≡ true
    → after_attempt a s later ≡ later
passes accepted s later h f = absurd h
passes (rejected code) s later h f = rw (h, f) refl
passes silent s later h f = rw f refl
passes fails s later h f = absurd h

-- The loop goes on to the first server that is not passed.
skip_passed :
    (attempt : Candidate → Attempt) (idx : ℕ) (before after : List Candidate) (c : Candidate)
    (s : Client)
    → s.auto_failover ≡ true
    → AllPassed attempt before
    → (s' : Client) × (later : Client × End) × (s'.server ≡ some c)
      × (s'.running ≡ s.running)
      × (failover attempt idx (before ++ c ∷ after) s ≡ after_attempt (attempt c) s' later)
unfolding failover
skip_passed attempt idx [] after c s f h = (
  record s { server_idx = idx; server = some c; last_join_error = none },
  failover attempt (idx + 1) after
      (record s { server_idx = idx; server = some c; last_join_error = none }),
  refl,
  refl,
  refl,
)
skip_passed attempt idx (b ∷ before) after c s f h =
    let s' = record s { server_idx = idx; server = some b; last_join_error = none } in
    let (t, later, at, on, e) = skip_passed attempt (idx + 1) before after c s' f h.1 in
    (t, later, at, on, passes (attempt b) s' _ h.0 f ∙ e)

-- A client that is not running, with failover on, comes past the servers that do not answer, or turn it
-- away with an empty code. If the next one lets it in, it is running and joined there. If that one turns
-- it away with a code, it is stopped with that code, and does not report that no server was reached. If
-- sending to that one raises, `start` raises, other servers or not, and the client stays marked as running.
pub start_outcome :
    (attempt : Candidate → Attempt) (before after : List Candidate) (c : Candidate) (s : Client)
    → s.running ≡ false
    → s.auto_failover ≡ true
    → s.servers ≡ before ++ c ∷ after
    → AllPassed attempt before
    → (attempt c ≡ accepted
        → ((start attempt s).1 ≡ joined)
          × ((start attempt s).0.server ≡ some c)
          × ((start attempt s).0.running ≡ true)
          × ((start attempt s).2 ≡ []))
      × ((code : Text)
          → attempt c ≡ rejected code
          → nonempty code ≡ true
          → ((start attempt s).1 ≡ not_joined)
            × ((start attempt s).0.last_join_error ≡ some code)
            × ((start attempt s).0.running ≡ false)
            × ((start attempt s).2 ≡ []))
      × (attempt c ≡ fails
          → ((start attempt s).1 ≡ raised)
            × ((start attempt s).0.server ≡ some c)
            × ((start attempt s).0.running ≡ true)
            × ((start attempt s).2 ≡ []))
unfolding start
start_outcome attempt before after c s off f e h =
    let t = record s { running = true; servers = before ++ c ∷ after } in
    let (s', later, at, on, ends) = skip_passed attempt 0 before after c t f h in
    rw (off, e)
      (
        λ a. rw (ends, a) (refl, at, on, refl),
        λ code a more. rw (ends, a, more) (refl, refl, refl, refl),
        λ a. rw (ends, a) (refl, at, on, refl),
      )
