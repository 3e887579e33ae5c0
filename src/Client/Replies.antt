-- ===== src/Client/Replies.antt =====
-- What the client does with the datagrams it gets: _wait_joined, the body of _recv_loop, _sync_time of
-- dpmp/link/signaling.py, and detect_nat_type of dpmp/link/natprobe.py. A datagram that is not JSON is
-- `garbage`; the descriptions of members are those of the server.
use dpmp.Prelude.{
  ℕ, ◌+◌, Bool, true, false, Option, none, some, List, [], ◌∷◌, if◌then◌else◌, eqb, ltb, Text,
  text_eq, nonempty, ℤ, pos, ◌-ℤ◌, half_ℤ, leb_ℤ,
}
use dpmp.Server.State.{PeerInfo}

-- What `recvfrom` gives, with the time at which it does.
pub data Datagram : Type 0 where
  timed_out garbage : Datagram
  joined : Text → List PeerInfo → Datagram
  member_join member_update : PeerInfo → Datagram
  member_leave : Text → Datagram
  punch_go : PeerInfo → ℕ → Datagram
  error : Text → Datagram
  time_reply : ℕ → ℕ → Datagram
  nat_probe_reply : Text → Datagram

pub record Session : Type 0 where
  pub my_id : Option Text
  pub joined_members : List PeerInfo
  pub last_join_error : Option Text

pub data Action : Type 0 where
  sends_join : Action
  reports_error : Text → Action
  on_member_join : PeerInfo → Action
  on_member_leave : Text → Action
  starts_udp_hole : PeerInfo → Action
  on_punch_go : PeerInfo → ℕ → Action

-- _wait_joined: the datagrams come with the time of the test before each; `deadline` ends the loop.
unfoldable pub wait_joined : ℕ → List (ℕ × Datagram) → Session → Session × Bool × List Action
wait_joined deadline [] s = (s, false, [])
wait_joined deadline ((now, d) ∷ ds) s =
    let (later, ok, acts) = wait_joined deadline ds s in
    if ltb now deadline
    then elim d [
      | timed_out ↦ (later, ok, sends_join ∷ acts)
      | joined my_id ms ↦ (record s { my_id = some my_id; joined_members = ms }, true, [])
      | error code ↦ (record s { last_join_error = some code }, false, reports_error code ∷ [])
      | _ ↦ (later, ok, acts)
    ]
    else (s, false, [])

-- One pass of _recv_loop.
unfoldable pub received : Datagram → List Action
received (member_join m) = on_member_join m ∷ []
received (member_update m) = on_member_join m ∷ []
received (member_leave m) = on_member_leave m ∷ []
received (punch_go peer at) = starts_udp_hole peer ∷ on_punch_go peer at ∷ []
received (error code) = reports_error code ∷ []
received timed_out = []
received garbage = []
received (joined my_id ms) = []
received (time_reply t1 t2) = []
received (nat_probe_reply a) = []

-- The wait for the answer to the sample sent at `t1`: its t2, and the time t3 after it.
unfoldable pub await_reply : ℕ → ℕ → List (ℕ × Datagram) → Option (ℕ × ℕ)
await_reply t1 deadline [] = none
await_reply t1 deadline ((now, d) ∷ ds) =
    let later = await_reply t1 deadline ds in
    if ltb now deadline
    then elim d [
      | timed_out ↦ none
      | time_reply u t2 ↦ if eqb u t1 then some (t2, now) else later
      | _ ↦ later
    ]
    else none

-- rtt and offset of one sample
unfoldable pub sample : ℕ → ℕ → ℕ → ℤ × ℤ
sample t1 t2 t3 = (pos t3 -ℤ pos t1, pos t2 -ℤ half_ℤ (pos (t1 + t3)))

abbrev better : ℤ × ℤ → Option (ℤ × ℤ) → ℤ × ℤ
better x none = x
better x (some best) = if leb_ℤ best.0 x.0 then best else x

abbrev keep_better : ℕ → Option (ℕ × ℕ) → Option (ℤ × ℤ) → Option (ℤ × ℤ)
keep_better t1 none best = best
keep_better t1 (some (t2, t3)) best = some (better (sample t1 t2 t3) best)

-- _sync_time: each sample is sent at its t1 and waits until a second after; the least round trip wins.
unfoldable pub sync_samples : List (ℕ × List (ℕ × Datagram)) → Option (ℤ × ℤ) → Option (ℤ × ℤ)
unfolding await_reply
sync_samples [] best = best
sync_samples ((t1, ds) ∷ rest) best =
    sync_samples rest (keep_better t1 (await_reply t1 (t1 + 1000) ds) best)

unfoldable pub sync_time : List (ℕ × List (ℕ × Datagram)) → ℤ → ℤ
unfolding sync_samples
sync_time samples clock_offset = elim (sync_samples samples none) [
  | none ↦ clock_offset
  | some best ↦ best.1
]

pub data NatType : Type 0 where
  cone symmetric undecided no_udp : NatType

-- A probe that could not be sent has no answer; another answer than a reply counts as none.
abbrev probe_reply : Option Datagram → Option Text
probe_reply (some (nat_probe_reply a)) = if nonempty a then some a else none
probe_reply _ = none

abbrev decide_nat : Option Text → Option Text → NatType × Option Text × Option Text
decide_nat none none = (no_udp, none, none)
decide_nat none (some alt) = (undecided, none, some alt)
decide_nat (some primary) none = (undecided, some primary, none)
decide_nat (some primary) (some alt) =
    if text_eq primary alt
    then (cone, some primary, some alt)
    else (symmetric, some primary, some alt)

-- detect_nat_type, with what comes back after each of the two probes; without a socket it is undecided
unfoldable pub detect_nat_type :
    Bool → Option Datagram → Option Datagram → NatType × Option Text × Option Text
detect_nat_type has_socket primary alt =
    if has_socket
    then decide_nat (probe_reply primary) (probe_reply alt)
    else (undecided, none, none)
