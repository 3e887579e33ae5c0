-- ===== src/Client/Manager/Punching.antt =====
-- The parts of _punch_task: its counter of the tasks of a peer, the wait between two rounds, and its
-- end. The punch itself is that of Puncher; Rounds puts the parts together.
pub mod Tasks
pub mod Rounds
pub mod Interleaved
pub mod Counting
pub mod Counted
pub mod Ends
use dpmp.Prelude.{
  ℕ, ◌+◌, ◌-◌, ◌*◌, Bool, true, false, not, ◌||◌, Option, none, some, List, [], ◌∷◌, if◌then◌else◌,
  eqb, leb, Text, text_key, nonempty, is_some, ℤ, pos, ◌+ℤ◌,
}
use dpmp.Dict.{Dict, get, put, remove}
use dpmp.Server.State.{PeerInfo, or_default}
use dpmp.Client.Manager.State.{Conn, failed, is_connected, Manager, Action, requests_punch}
use dpmp.Prelude.{text_lt}

-- The first part: a third task of a peer does not start.
unfoldable pub punch_enter : Text → Manager → Manager × Bool
punch_enter p s =
    let cnt = or_default 0 (get p s.punch_active) in
    if leb 2 cnt
    then (s, false)
    else (record s { punch_active = put p (cnt + 1) s.punch_active }, true)

-- Its `finally`
unfoldable pub punch_leave : Text → Manager → Manager
punch_leave p s =
    let c = or_default 1 (get p s.punch_active) - 1 in
    record s { punch_active = if eqb c 0 then remove p s.punch_active else put p c s.punch_active }

-- _has_reachable_target
unfoldable pub has_reachable_target : PeerInfo → Bool
has_reachable_target peer =
    if nonempty peer.pub_tcp then true else elim peer.lan [ [] ↦ false | x ∷ xs ↦ true ]

abbrev pub connected_now : Option Conn → Bool
connected_now none = false
connected_now (some c) = is_connected c.state

-- The wait before the next round: the smaller id sends the time, on the other's clock, and waits for
-- it on its own; the larger waits for word; without a channel both sleep.
pub data Backoff : Type 0 where
  leads : ℕ → ℤ → ℕ → Backoff
  follows : ℕ → ℕ → Backoff
  sleeps : ℕ → Backoff

unfoldable pub punch_backoff : Text → ℕ → ℕ → ℤ → ℕ → Manager → Backoff
unfolding text_lt
punch_backoff p attempt retry_backoff off now s =
    let backoff = attempt * retry_backoff in
    let t_go = now + backoff * 1000 in
    if not (is_some (get p s.udp_conns)) || not (nonempty s.my_id)
    then sleeps backoff
    else if text_lt s.my_id p
    then leads (attempt + 1) (pos t_go +ℤ off) t_go
    else if text_lt p s.my_id
    then follows (attempt + 1) (backoff + 2)
    else sleeps backoff

abbrev pub failed_conn : Text → Option Conn → Manager → Manager × Bool
failed_conn p none s = (s, false)
failed_conn p (some c) s =
    if is_connected c.state
    then (s, false)
    else (record s { connections = put p (record c { state = failed }) s.connections }, true)

-- After the last attempt: the connection is marked unless another task has made it, and the result
-- says whether the peer is told.
unfoldable pub punch_give_up : Text → Manager → Manager × Bool
punch_give_up p s = failed_conn p (get p s.connections) s

-- _on_punch_round and the test of _wait_punch_round
unfoldable pub on_punch_round : Text → ℕ → ℕ → Dict Text (ℕ × ℕ) → Dict Text (ℕ × ℕ)
on_punch_round p round_no t_go_r events = put p (round_no, t_go_r) events

abbrev reached : ℕ → Option (ℕ × ℕ) → Option ℕ
reached round_no none = none
reached round_no (some (r, t)) = if leb round_no r then some t else none

unfoldable pub punch_round_known : Text → ℕ → Dict Text (ℕ × ℕ) → Option ℕ
punch_round_known p round_no events = reached round_no (get p events)
