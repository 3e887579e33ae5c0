-- ===== src/Client/Puncher/Race/Winner.antt =====
-- Who wins the race of the candidates, and what becomes of the other connections.
use dpmp.Prelude.{ℕ, ◌≡◌, refl, ap, Option, none, some, List, [], ◌∷◌, ◌++◌}
use dpmp.Client.Puncher.Race.{Race, finish_all, connect_candidates}

-- The connections that come about, in their order.
abbrev pub made : List (Option ℕ) → List ℕ
made [] = []
made (none ∷ os) = made os
made (some sock ∷ os) = sock ∷ made os

abbrev pub first : List ℕ → Option ℕ
first [] = none
first (sock ∷ socks) = some sock

abbrev pub others : List ℕ → List ℕ
others [] = []
others (sock ∷ socks) = socks

-- Once there is a winner, all are closed.
won :
    (w : ℕ) (os : List (Option ℕ))
    → finish_all os (record { winner = some w }) ≡ (record { winner = some w }, made os)
unfolding finish_all
won w [] = refl
won w (none ∷ os) = rw (won w os) refl
won w (some sock ∷ os) = rw (won w os) refl

raced :
    (os : List (Option ℕ))
    → finish_all os (record { winner = none })
      ≡ (record { winner = first (made os) }, others (made os))
unfolding finish_all
raced [] = refl
raced (none ∷ os) = rw (raced os) refl
raced (some sock ∷ os) = rw (won sock os) refl

-- What ends after connections have been made.
abbrev end_of : List ℕ → Race × List ℕ → Race × List ℕ
end_of ms (r, closed) = (r, others ms ++ closed)

later :
    (ms : List ℕ) (os : List (Option ℕ))
    → end_of ms (finish_all os (record { winner = first ms }))
      ≡ (record { winner = first (ms ++ made os) }, others (ms ++ made os))
later [] os = rw (raced os) refl
later (w ∷ ws) os = rw (won w os) refl

-- However the workers end, of two candidates at least, the first connection is kept and every later one is closed, and what is
-- returned is the first of those that came in time: a first connection that comes too late is
-- neither returned nor closed.
pub race_lem :
    (before after : List (Option ℕ))
    → connect_candidates before after ≡ (
      first (made before),
      record { winner = first (made before ++ made after) },
      others (made before ++ made after),
    )
unfolding connect_candidates
race_lem before after =
    rw (raced before) (ap (λ r. (first (made before), r.0, r.1)) (later (made before) after))
