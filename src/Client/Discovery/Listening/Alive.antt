-- ===== src/Client/Discovery/Listening/Alive.antt =====
-- What a listener of discovery survives.
use dpmp.Prelude.{
  ℕ, ◌≡◌, refl, sym, ap, ◌∙◌, Bool, true, false, not, ◌||◌, inl, inr, Bool-cases, ◌⊎◌, List, [],
  ◌∷◌, ◌++◌, Text, arith,
}
use dpmp.Prelude.{◌&&◌}
use dpmp.Dict.{Dict}
use dpmp.Client.Discovery.{Node, Announcement, on_datagram, on_scan}
use dpmp.Client.Discovery.Sending.{Own, Datagram}
use dpmp.Client.Discovery.Exchange.{answers}
use dpmp.Client.Discovery.Listening.{
  Received, silence, fault, garbage, got, Turn, unanswered, udp_turn, scan_turn, listen,
}

-- What a message is answered with, and the nodes after it.
abbrev pub Handler : Type 0
Handler = Text → Announcement → ℕ → Dict Text Node → Dict Text Node × List Datagram

abbrev pub by_udp : Own → List Text → Handler
by_udp o ips ip msg now nodes =
    let (nodes', acts) = on_datagram o.device_id ips ip msg now nodes in (nodes', answers o acts)

abbrev pub by_scan : Own → List Text → Handler
by_scan o ips ip msg now nodes =
    let (nodes', acts) = on_scan o.device_id ips ip msg now nodes in (nodes', answers o acts)

-- The nodes after every message.
abbrev pub learned : Handler → List Received → Dict Text Node → Dict Text Node
learned h [] nodes = nodes
learned h (got ip msg now up ∷ rs) nodes = learned h rs (h ip msg now nodes).0
learned h (_ ∷ rs) nodes = learned h rs nodes

-- An error of the socket: it cannot be read, or an answer cannot be sent.
abbrev pub breaks : Handler → Received → Dict Text Node → Bool
breaks h (got ip msg now up) nodes = not (up || unanswered (h ip msg now nodes).1)
breaks h fault nodes = true
breaks h _ nodes = false

-- No such error occurs.
abbrev pub unbroken_by : Handler → List Received → Dict Text Node → Bool
unbroken_by h [] nodes = true
unbroken_by h (fault ∷ rs) nodes = false
unbroken_by h (silence ∷ rs) nodes = unbroken_by h rs nodes
unbroken_by h (garbage ∷ rs) nodes = unbroken_by h rs nodes
unbroken_by h (got ip msg now up ∷ rs) nodes =
    not (breaks h (got ip msg now up) nodes) && unbroken_by h rs (h ip msg now nodes).0

-- The loop has ended at the first such error, and what came after it does not count.
pub record EndsAt (h : Handler) (turn : Turn) (rs : List Received) (nodes : Dict Text Node)
    : Type 0 where
  pub served : List Received
  pub last : Received
  pub rest : List Received
  pub split : rs ≡ served ++ last ∷ rest
  pub unbroken : (listen turn served nodes).2 ≡ true
  pub broken : breaks h last (learned h served nodes) ≡ true
  pub result : listen turn rs nodes ≡ listen turn (served ++ last ∷ []) nodes

abbrev pub Outcome : Handler → Turn → List Received → Dict Text Node → Type 0
Outcome h turn rs nodes =
    ((unbroken_by h rs nodes ≡ true)
      × ((listen turn rs nodes).2 ≡ true)
      × ((listen turn rs nodes).0 ≡ learned h rs nodes))
    ⊎ ((unbroken_by h rs nodes ≡ false)
        × ((listen turn rs nodes).2 ≡ false)
        × EndsAt h turn rs nodes)

-- A turn does what its handler says, unless its answer cannot be sent.
module _ (h : Handler) (turn : Turn)
    (survives : (ip : Text) (msg : Announcement) (now : ℕ) (up : Bool) (nodes : Dict Text Node)
      → breaks h (got ip msg now up) nodes ≡ false
      → turn ip msg now up nodes ≡ ((h ip msg now nodes).0, (h ip msg now nodes).1, true))
    (ends : (ip : Text) (msg : Announcement) (now : ℕ) (up : Bool) (nodes : Dict Text Node)
      → breaks h (got ip msg now up) nodes ≡ true
      → (turn ip msg now up nodes).2 ≡ false) where
  abbrev Result : Type 0
  Result = Dict Text Node × List Datagram × Bool

  abbrev sent_before : List Datagram → Result → Result
  sent_before out (nodes, more, alive) = (nodes, out ++ more, alive)

  goes_on :
      (ip : Text) (msg : Announcement) (now : ℕ) (up : Bool) (rs : List Received)
      (nodes : Dict Text Node)
      → breaks h (got ip msg now up) nodes ≡ false
      → listen turn (got ip msg now up ∷ rs) nodes
        ≡ sent_before (h ip msg now nodes).1 (listen turn rs (h ip msg now nodes).0)
  unfolding listen
  goes_on ip msg now up rs nodes b = rw (survives ip msg now up nodes b) refl

  stops_at :
      (ip : Text) (msg : Announcement) (now : ℕ) (up : Bool) (rs : List Received)
      (nodes : Dict Text Node)
      → breaks h (got ip msg now up) nodes ≡ true
      → listen turn (got ip msg now up ∷ rs) nodes
        ≡ ((turn ip msg now up nodes).0, (turn ip msg now up nodes).1, false)
  unfolding listen
  stops_at ip msg now up rs nodes b = rw (ends ip msg now up nodes b) refl

  -- One more message that was served.
  after_message :
      (ip : Text) (msg : Announcement) (now : ℕ) (up : Bool) (rs : List Received)
      (nodes : Dict Text Node)
      → breaks h (got ip msg now up) nodes ≡ false
      → Outcome h turn rs (h ip msg now nodes).0
      → Outcome h turn (got ip msg now up ∷ rs) nodes
  after_message ip msg now up rs nodes b (inl (clean, alive, all)) =
      let e = goes_on ip msg now up rs nodes b in
      inl (rw b clean, ap (λ r. r.2) e ∙ alive, ap (λ r. r.0) e ∙ all)
  after_message ip msg now up rs nodes b (inr (dirty, gone, end)) =
      let x = got ip msg now up in
      let out = (h ip msg now nodes).1 in
      let on = λ (qs : List Received). goes_on ip msg now up qs nodes b in
      inr (
        rw b dirty,
        ap (λ r. r.2) (on rs) ∙ gone,
        record {
          served = x ∷ end.served;
          last = end.last;
          rest = end.rest;
          split = ap (λ qs. x ∷ qs) end.split;
          unbroken = ap (λ r. r.2) (on end.served) ∙ end.unbroken;
          broken = end.broken;
          result = on rs ∙ ap (sent_before out) end.result ∙ sym (on (end.served ++ end.last ∷ []));
        },
      )

  -- What the loop passes over.
  after_quiet :
      (r : Received) (rs : List Received) (nodes : Dict Text Node)
      → ((qs : List Received) → listen turn (r ∷ qs) nodes ≡ listen turn qs nodes)
      → ((qs : List Received) → learned h (r ∷ qs) nodes ≡ learned h qs nodes)
      → unbroken_by h (r ∷ rs) nodes ≡ unbroken_by h rs nodes
      → Outcome h turn rs nodes
      → Outcome h turn (r ∷ rs) nodes
  after_quiet r rs nodes on same still (inl (clean, alive, all)) =
      inl
        (still ∙ clean, ap (λ r. r.2) (on rs) ∙ alive, ap (λ r. r.0) (on rs) ∙ all ∙ sym (same rs))
  after_quiet r rs nodes on same still (inr (dirty, gone, end)) = inr (
    still ∙ dirty,
    ap (λ r. r.2) (on rs) ∙ gone,
    record {
      served = r ∷ end.served;
      last = end.last;
      rest = end.rest;
      split = ap (λ qs. r ∷ qs) end.split;
      unbroken = ap (λ r. r.2) (on end.served) ∙ end.unbroken;
      broken = ap (breaks h end.last) (same end.served) ∙ end.broken;
      result = on rs ∙ end.result ∙ sym (on (end.served ++ end.last ∷ []));
    },
  )

  pub listen-Outcome : (rs : List Received) (nodes : Dict Text Node) → Outcome h turn rs nodes
  unfolding listen
  listen-Outcome [] nodes = inl (refl, refl, refl)
  listen-Outcome (silence ∷ rs) nodes =
      after_quiet silence rs nodes (λ qs. refl) (λ qs. refl) refl (listen-Outcome rs nodes)
  listen-Outcome (garbage ∷ rs) nodes =
      after_quiet garbage rs nodes (λ qs. refl) (λ qs. refl) refl (listen-Outcome rs nodes)
  listen-Outcome (fault ∷ rs) nodes = inr (
    refl,
    refl,
    record {
      served = [];
      last = fault;
      rest = rs;
      split = refl;
      unbroken = refl;
      broken = refl;
      result = refl;
    },
  )
  listen-Outcome (got ip msg now up ∷ rs) nodes =
      elim (Bool-cases (breaks h (got ip msg now up) nodes)) [
        | inl b ↦
            let stop = λ (qs : List Received). stops_at ip msg now up qs nodes b in
            inr (
              rw b refl,
              ap (λ r. r.2) (stop rs),
              record {
                served = [];
                last = got ip msg now up;
                rest = rs;
                split = refl;
                unbroken = refl;
                broken = b;
                result = stop rs ∙ sym (stop []);
              },
            )
        | inr b ↦ after_message ip msg now up rs nodes b (listen-Outcome rs (h ip msg now nodes).0)
      ]

-- A listener of discovery whose socket has no error goes on through timeouts and through what is no
-- message, and its nodes are those after every message. With an error, which an answer that cannot be
-- sent is too, it has ended for good at the first one. That holds of the listener for broadcasts and of
-- that for scans.
pub listeners_lem :
    (o : Own) (ips : List Text) (rs : List Received) (nodes : Dict Text Node)
    → Outcome (by_udp o ips) (udp_turn o ips) rs nodes
      × Outcome (by_scan o ips) (scan_turn o ips) rs nodes
unfolding udp_turn scan_turn
listeners_lem o ips rs nodes = (
  listen-Outcome (by_udp o ips) (udp_turn o ips) (λ ip msg now up nodes b. ground arith)
      (λ ip msg now up nodes b. ground arith) rs nodes,
  listen-Outcome (by_scan o ips) (scan_turn o ips) (λ ip msg now up nodes b. ground arith)
      (λ ip msg now up nodes b. ground arith) rs nodes,
)
