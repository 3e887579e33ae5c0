-- ===== src/Client/Manager/Channels/DueTimes.antt =====
-- The due times of the probes, with more than one peer.
use dpmp.Prelude.{ℕ, ◌≡◌, refl, Bool, false, none, [], ◌∷◌, Text, text_key, arith, text_eq_iff}
use dpmp.Dict.{Dict, get}
use dpmp.Path.Keepalive.{Tuning}
use dpmp.Path.Scheduler.{Paths}
use dpmp.Client.Manager.Channels.{is_live, drop_stale, probe_paths, probe_peer}

dropped :
    (k : Text) (ps : Paths) (due : Dict Text ℕ)
    → is_live k ps ≡ false
    → get k (drop_stale ps due) ≡ none
unfolding drop_stale get
dropped k ps [] h = refl
dropped k ps ((j, at) ∷ due) h =
    let rest = dropped k ps due h in ground (arith, rest, text_eq_iff j k)

-- After the round of a peer, no due time is left of a path that is not a living path of that peer; so
-- with two peers, the round of the one forgets the due times of the other.
pub due_time_forgotten :
    (t : Tuning) (ok : Text → Bool) (now factor : ℕ) (k : Text) (ps : Paths) (due : Dict Text ℕ)
    → is_live k ps ≡ false
    → get k (probe_peer t ok now factor ps due).1 ≡ none
unfolding probe_peer
due_time_forgotten t ok now factor k ps due h =
    dropped k ps (probe_paths t ok now factor ps due).1 h
