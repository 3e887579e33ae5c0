-- ===== src/Client/Puncher/Race.antt =====
-- The connects of a punch: one attempt, and the race of the candidates.
pub mod Winner
use dpmp.Prelude.{
  Bool, not, ◌&&◌, ◌||◌, Option, none, some, List, [], ◌∷◌, ◌++◌, if◌then◌else◌, is_some, ℕ,
}

-- What the calls of one attempt come to: whether the socket could be made, whether connect_ex gave 0,
-- whether select found it writable or in error, and whether SO_ERROR was 0.
pub record Attempted : Type 0 where
  pub made : Bool
  pub at_once : Bool
  pub selected : Bool
  pub no_error : Bool

-- _try_connect: the connection, or none with the sockets that are closed
unfoldable pub try_connect : Attempted → ℕ → Option ℕ × List ℕ
try_connect a sock =
    if not a.made
    then (none, [])
    else if a.at_once || (a.selected && a.no_error)
    then (some sock, [])
    else (none, sock ∷ [])

-- `results` with the event `done`, which is set as the first connection comes.
pub record Race : Type 0 where
  pub winner : Option ℕ

-- A worker asks this before it connects.
abbrev pub may_connect : Race → Bool
may_connect r = not (is_some r.winner)

-- The end of `worker`, under `win_lock`: the first connection is kept, a later one is closed.
unfoldable pub finish : Option ℕ → Race → Race × List ℕ
finish none r = (r, [])
finish (some sock) r =
    if is_some r.winner then (r, sock ∷ []) else (record { winner = some sock }, [])

-- The workers in the order in which they come to their end.
unfoldable pub finish_all : List (Option ℕ) → Race → Race × List ℕ
unfolding finish
finish_all [] r = (r, [])
finish_all (o ∷ os) r =
    let (r', closed) = finish o r in let (r'', more) = finish_all os r' in (r'', closed ++ more)

-- What _connect_candidates_parallel returns, of two candidates at least, when those workers ended before it stopped to wait; what
-- ends later, ends without being asked for.
unfoldable pub connect_candidates : List (Option ℕ) → List (Option ℕ) → Option ℕ × Race × List ℕ
unfolding finish_all
connect_candidates before after =
    let (r, closed) = finish_all before (record { winner = none }) in
    let (r', more) = finish_all after r in (r.winner, r', closed ++ more)
