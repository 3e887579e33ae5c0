-- ===== src/Client/Manager/Events/Cooldown.antt =====
-- How often a peer is asked to punch again.
use dpmp.Prelude.{ℕ, ◌+◌, ◌<◌, ◌≤◌, ◌≡◌, [], ◌∷◌, Text, text_eq_iff, text_key, arith}
use dpmp.Dict.Laws.{get-put}
use dpmp.Client.Manager.State.{Manager, requests_punch}
use dpmp.Client.Manager.Events.{request_rebuild}

-- After a request that went out, one for the same peer before the cool-down is over does nothing; one
-- for the peer when it is over goes out.
pub rebuild_cooldown_lem :
    (p : Text) (now later : ℕ) (s : Manager)
    → (request_rebuild p now s).1 ≡ requests_punch p ∷ []
    → (later < now + s.cfg.rebuild_cooldown_ms
        → request_rebuild p later (request_rebuild p now s).0 ≡ ((request_rebuild p now s).0, []))
      × (now + s.cfg.rebuild_cooldown_ms ≤ later
          → (request_rebuild p later (request_rebuild p now s).0).1 ≡ requests_punch p ∷ [])
unfolding request_rebuild
rebuild_cooldown_lem p now later s h =
    let g = get-put p p now s.rebuild_cooldown in
    let same = text_eq_iff p p in
    (λ early. ground (arith, g, same), λ over. ground (arith, g, same))
