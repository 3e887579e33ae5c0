-- ===== src/Rtp/Sending/Queue.antt =====
-- The send queue and the window: what an acknowledgement and a time-out change, and what they keep.
use dpmp.Prelude.{
  ℕ, ◌+◌, ◌-◌, ◌≤◌, ◌<◌, ◌≡◌, refl, ap, ◌⊎◌, inl, inr, Bool, true, none, some, List, [], ◌∷◌,
  if◌then◌else◌, ltb, length, min, nat_eq, arith, Bool-cases,
}
use mathlib.Core.Option
use dpmp.Dict.{Dict, get}
use dpmp.Codec.BigEndian.{Bytes}
use dpmp.Rtp.State.{Config, Sending, Rtp, sent}
use dpmp.Rtp.Sending.{not_below, on_ack, overdue, restamp, on_timeout, send_each, rtx_round}

abbrev Queue : Type 0
Queue = Dict ℕ (Bytes × ℕ)

pub get-not_below :
    (a k : ℕ) (q : Queue) → get k (not_below a q) ≡ (if ltb k a then none else get k q)
unfolding not_below get
get-not_below a k [] = ground arith
get-not_below a k ((s, e) ∷ q) = ground (arith, get-not_below a k q)

pub length-not_below : (a : ℕ) (q : Queue) → length (not_below a q) ≤ length q
unfolding not_below
length-not_below a [] = omega arith
length-not_below a ((s, e) ∷ q) = ground (arith, length-not_below a q)

-- The window lies within the configured bounds.
pub record IsWithin (c : Config) (s : Sending) : Type 0 where
  pub low : c.window_min ≤ s.window
  pub high : s.window ≤ c.window_max

pub on_ack-IsWithin : (c : Config) (a : ℕ) (s : Sending) → IsWithin c s → IsWithin c (on_ack c a s)
unfolding on_ack
on_ack-IsWithin c a s h = record { low = ground arith; high = ground arith }

pub on_timeout-IsWithin :
    (c : Config) (now : ℕ) (s : Sending) → IsWithin c s → IsWithin c (on_timeout c now s)
unfolding on_timeout
on_timeout-IsWithin c now s h = record { low = ground arith; high = ground arith }

-- An acknowledgement takes exactly the entries below it out of the queue. The window grows by as many
-- as were taken, up to its maximum, and stays where none was.
pub on_ack_lem :
    (c : Config) (a : ℕ) (s : Sending)
    → ((k : ℕ) → get k (on_ack c a s).send_queue ≡ (if ltb k a then none else get k s.send_queue))
      × ((length (on_ack c a s).send_queue ≡ length s.send_queue)
            × ((on_ack c a s).window ≡ s.window)
          ⊎ (length (on_ack c a s).send_queue < length s.send_queue)
            × ((on_ack c a s).window
                ≡ min c.window_max
                    (s.window + (length s.send_queue - length (on_ack c a s).send_queue))))
unfolding on_ack
on_ack_lem c a s =
    (λ k. get-not_below a k s.send_queue, ground (arith, length-not_below a s.send_queue))

-- The entry after a round at `now`: stamped anew if its time was up.
abbrev pub restamped : ℕ → ℕ → Bytes × ℕ → Bytes × ℕ
restamped rto now (packet, ts) = (packet, if ltb rto (now - ts) then now else ts)

pub get-restamp :
    (rto now k : ℕ) (q : Queue)
    → get k (restamp rto now q) ≡ Option.map (restamped rto now) (get k q)
unfolding restamp get
get-restamp rto now k [] = refl
get-restamp rto now k ((s, (p, ts)) ∷ q) = ground (arith, get-restamp rto now k q)

-- A packet stands in a list.
abbrev pub Holds : {A : Type 0} → A → List A → Type 0
Holds a [] = ⊥
Holds a (x ∷ xs) = (a ≡ x) ⊎ Holds a xs

overdue-Holds :
    (rto now k : ℕ) (p : Bytes) (ts : ℕ) (q : Queue)
    → get k q ≡ some (p, ts)
    → rto < now - ts
    → Holds p (overdue rto now q)
unfolding overdue get
overdue-Holds rto now k p ts [] h l = cc
overdue-Holds rto now k p ts ((s, (p', ts')) ∷ q) h l =
    ground (arith, overdue-Holds rto now k p ts q)

send_each-Holds :
    (up : Bytes → Bool) (now : ℕ) (p : Bytes) (ps : List Bytes) (s : Rtp)
    → Holds p ps
    → up p ≡ true
    → Holds (sent p) (send_each up now ps s).1
unfolding send_each
send_each-Holds up now p [] s h u = h
send_each-Holds up now p (x ∷ xs) s h u = elim (Bool-cases (up x)) [
  | inl e ↦ rw e (elim h [
    | inl q ↦ inl (ap sent q)
    | inr r ↦ inr (send_each-Holds up now p xs (record s { last_send_time = now }) r u)
  ])
  | inr e ↦ rw e (elim h [ inl q ↦ cc | inr r ↦ send_each-Holds up now p xs s r u ])
]

send_each-sending :
    (up : Bytes → Bool) (now : ℕ) (ps : List Bytes) (s : Rtp)
    → (send_each up now ps s).0.sending ≡ s.sending
unfolding send_each
send_each-sending up now [] s = refl
send_each-sending up now (x ∷ xs) s = elim (Bool-cases (up x)) [
  | inl e ↦ rw e (send_each-sending up now xs (record s { last_send_time = now }))
  | inr e ↦ rw e (send_each-sending up now xs s)
]

-- A round of the retransmission thread drops nothing: every packet in the queue stays. One whose time
-- is up is sent again, if sending works, and stamped with the time of the round; the others keep
-- their times.
pub rtx_round_lem :
    (up : Bytes → Bool) (now : ℕ) (s : Rtp) (k : ℕ) (packet : Bytes) (ts : ℕ)
    → get k s.sending.send_queue ≡ some (packet, ts)
    → (get k (rtx_round up now s).0.sending.send_queue
        ≡ some (packet, if ltb s.cfg.rto_ms (now - ts) then now else ts))
      × (s.cfg.rto_ms < now - ts → up packet ≡ true → Holds (sent packet) (rtx_round up now s).1)
unfolding rtx_round on_timeout
rtx_round_lem up now s k packet ts h = (
  rw send_each-sending (rw (get-restamp s.cfg.rto_ms now k s.sending.send_queue, h)),
  λ late u.
      send_each-Holds up now packet _ _
        (overdue-Holds s.cfg.rto_ms now k packet ts s.sending.send_queue h late) u,
)
