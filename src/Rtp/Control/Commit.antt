-- ===== src/Rtp/Control/Commit.antt =====
-- SYNC_COMMIT: its copies, and the times at which the two ends meet.
use dpmp.Prelude.{
  ℕ, ◌≡◌, none, some, List, [], ◌∷◌, length, ℤ, pos, ◌-ℤ◌, ◌≤ℤ◌, arith, Option-cases, inl, inr,
}
use dpmp.Codec.BigEndian.{Bytes}
use dpmp.Codec.{unpack_sync_commit_v2}
use dpmp.Rtp.State.{Rtp, sync_ready}
use dpmp.Rtp.Control.{on_sync_commit, or_zero}

abbrev last_id : Rtp → ℤ
last_id s = s.sync.last_commit_id

-- Commits that arrive one after another, each with its time.
unfoldable pub commits : List (ℕ × Bytes) → Rtp → Rtp
commits [] s = s
commits ((now, payload) ∷ rest) s = commits rest (on_sync_commit now payload s).0

commit-mono :
    (now : ℕ) (payload : Bytes) (s : Rtp) → last_id s ≤ℤ last_id (on_sync_commit now payload s).0
unfolding on_sync_commit
commit-mono now payload s = ground arith

commits-mono : (rest : List (ℕ × Bytes)) (s : Rtp) → last_id s ≤ℤ last_id (commits rest s)
unfolding commits
commits-mono [] s = omega arith
commits-mono ((now, payload) ∷ rest) s =
    omega (arith, commit-mono now payload s, commits-mono rest (on_sync_commit now payload s).0)

unreadable :
    (now : ℕ) (payload : Bytes) (s : Rtp)
    → length payload ≡ 16
    → unpack_sync_commit_v2 payload ≡ none
    → on_sync_commit now payload s ≡ (s, [])
unfolding on_sync_commit
unreadable now payload s h e = rw (h, e, on_sync_commit)

duplicate :
    (now : ℕ) (payload : Bytes) (s : Rtp) (t n : ℕ)
    → length payload ≡ 16
    → unpack_sync_commit_v2 payload ≡ some (t, n)
    → pos n ≤ℤ last_id s
    → on_sync_commit now payload s ≡ (s, [])
unfolding on_sync_commit
duplicate now payload s t n h e l = rw (h, e, on_sync_commit) (ground arith)

remembered :
    (now : ℕ) (payload : Bytes) (s : Rtp) (t n : ℕ)
    → length payload ≡ 16
    → unpack_sync_commit_v2 payload ≡ some (t, n)
    → pos n ≤ℤ last_id (on_sync_commit now payload s).0
unfolding on_sync_commit
remembered now payload s t n h e = rw (h, e, on_sync_commit) (ground arith)

-- A commit of version 2 that was handled once is never answered again: whatever commits came in
-- between, another copy of it has no effect and changes nothing.
pub commit_once :
    (first later : ℕ) (payload : Bytes) (between : List (ℕ × Bytes)) (s : Rtp)
    → length payload ≡ 16
    → let s' = commits between (on_sync_commit first payload s).0 in
      on_sync_commit later payload s' ≡ (s', [])
commit_once first later payload between s h =
    let s' = on_sync_commit first payload s in
    elim (Option-cases (unpack_sync_commit_v2 payload)) [
      | inl e ↦ unreadable later payload (commits between s'.0) h e
      | inr ((t, n), e) ↦
          duplicate later payload (commits between s'.0) t n h e
            (omega (arith, remembered first payload s t n h e, commits-mono between s'.0))
    ]

-- A commit that is new is answered by the time in it on the responder's clock.
pub answered :
    (now : ℕ) (payload : Bytes) (r : Rtp) (t n : ℕ) (id : ℤ)
    → length payload ≡ 16
    → unpack_sync_commit_v2 payload ≡ some (t, n)
    → id ≡ pos n
    → (id ≤ℤ last_id r → ⊥)
    → ((on_sync_commit now payload r).1 ≡ sync_ready (pos t -ℤ or_zero r.sync.sync_offset) ∷ [])
      × (last_id (on_sync_commit now payload r).0 ≡ id)
unfolding on_sync_commit
answered now payload r t n id h e i fresh = rw (h, e, i, on_sync_commit) (ground arith)
