-- ===== src/Client/Holes/Probing/Overlap.antt =====
-- How many probes there are, and what becomes of a second request while the first is probed for.
use dpmp.Prelude.{
  ℕ, ◌+◌, ◌*◌, ◌≤◌, ◌<◌, ◌≡◌, refl, ap, ◌∙◌, true, false, ◌&&◌, ◌⊎◌, inl, inr, Bool-cases, none,
  some, List, [], ◌∷◌, ltb, Text, text_eq_iff, text_key, pos, arith, is_some,
}
use dpmp.Dict.{get, has, put, remove}
use dpmp.Dict.Laws.{has-get, Distinct, put-Distinct}
use dpmp.Server.Format.{fmt_host_port}
use dpmp.Server.State.{PeerInfo}
use dpmp.Client.Address.RoundTrip.{IsHost}
use dpmp.Client.Holes.{
  Link, hole_ready, peer_key, start_udp_hole, on_udp_datagram, udp_hole_magic, end_udp_hole,
}
use dpmp.Client.Holes.Ready.{aimed, magic_lem, put_here, gone_here}
use dpmp.Client.Holes.Probing.{Turn, probe, udp_hole_thread}

-- Between two turns the thread sleeps for the interval.
abbrev pub Spaced : ℕ → ℕ → List Turn → Type 0
Spaced interval t [] = Unit
Spaced interval t (u ∷ us) = (t ≤ u.now) × Spaced interval (u.now + interval) us

probe_bound :
    (interval t t_end : ℕ) (ts : List Turn)
    → Spaced interval t ts
    → (probe t_end ts ≡ 0) ⊎ (probe t_end ts * interval + t ≤ t_end + interval)
unfolding probe
probe_bound interval t t_end [] h = inl refl
probe_bound interval t t_end (u ∷ us) h =
    let later = probe_bound interval (u.now + interval) t_end us h.1 in
    let first = h.0 in
    elim (Bool-cases (ltb u.now t_end && u.running && u.sends)) [
      | inl e ↦
          let early : u.now < t_end = ground arith in
          rw e (elim later [ inl z ↦ inr (rw z (omega arith)) | inr k ↦ inr (omega arith) ])
      | inr e ↦ rw e (inl refl)
    ]

-- The end of a thread takes the target out while there is no channel.
ended :
    (key p : Text) (s : Link)
    → get key s.hole_targets ≡ some p
    → has key s.handlers ≡ false
    → end_udp_hole key p s ≡ record s { hole_targets = remove key s.hole_targets }
unfolding end_udp_hole
ended key p s h n = rw (h, (text_eq_iff p p).1 refl, n) refl

-- A peer whose public UDP address the server has written down, and that has no channel yet. The thread
-- that is started for it sends at most as many probes as there are intervals in its duration, and one
-- more. When the peer is to be punched twice, its own probe makes its hole ready while both threads
-- run; but after the first thread has ended, it is passed over, though the second still runs.
pub probing_lem :
    (peer : PeerInfo) (ip : Text) (port : ℕ) (s : Link) (interval duration start : ℕ)
    (turns : List Turn)
    → s.hole_open ≡ true
    → peer.pub_udp ≡ fmt_host_port ip port
    → IsHost ip
    → Distinct s.hole_targets
    → get (peer_key (ip, pos port)) s.handlers ≡ none
    → Spaced interval start turns
    → ((udp_hole_thread
            (peer_key (ip, pos port))
            peer.id
            (start + duration)
            turns
            (start_udp_hole peer (start_udp_hole peer s).0).0).0
          * interval
        ≤ duration + interval)
      × (on_udp_datagram
            (peer_key (ip, pos port))
            udp_hole_magic
            (start_udp_hole peer (start_udp_hole peer s).0).0
          ≡ hole_ready peer.id (peer_key (ip, pos port)) ∷ [])
      × (on_udp_datagram
            (peer_key (ip, pos port))
            udp_hole_magic
            (udp_hole_thread
              (peer_key (ip, pos port))
              peer.id
              (start + duration)
              turns
              (start_udp_hole peer (start_udp_hole peer s).0).0).1
          ≡ [])
unfolding udp_hole_thread
probing_lem peer ip port s interval duration start turns o e h d free spaced =
    let key = peer_key (ip, pos port) in
    let once = put key peer.id s.hole_targets in
    let twice = put key peer.id once in
    let s1 = record s { hole_targets = once } in
    let s2 = record s { hole_targets = twice } in
    let s3 = record s { hole_targets = remove key twice } in
    let target = put_here key peer.id once in
    let distinct = put-Distinct key peer.id once (put-Distinct key peer.id s.hole_targets d) in
    let gone = gone_here key twice distinct in
    let empty = has-get key s.handlers ∙ ap is_some free in
    rw (aimed peer ip port s o e h, aimed peer ip port s1 o e h)
      (
        elim (probe_bound interval start (start + duration) turns spaced) [
          | inl z ↦ rw z (omega arith)
          | inr k ↦ omega arith
        ],
        magic_lem key s2 ∙ rw (target, empty) refl,
        rw (ended key peer.id s2 target empty) (magic_lem key s3 ∙ rw gone refl),
      )
