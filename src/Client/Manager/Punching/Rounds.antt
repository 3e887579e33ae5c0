-- ===== src/Client/Manager/Punching/Rounds.antt =====
-- _punch_task as one thread: what it runs between two waits is a step. Between the steps the other
-- threads change the manager; the semaphore is that of Interleaved.
use dpmp.Prelude.{
  ℕ, ◌+◌, not, ◌&&◌, ◌||◌, Option, none, some, List, [], ◌∷◌, map, if◌then◌else◌, leb, ltb, Text,
  text_key, is_some, ℤ,
}
use dpmp.Dict.{get}
use dpmp.Server.Format.{Addr}
use dpmp.Server.State.{PeerInfo, or_default}
use dpmp.Client.Manager.State.{Manager, Action, requests_punch}
use dpmp.Client.Manager.Sockets.{install_socket}
use dpmp.Client.Manager.Punching.{
  punch_enter, punch_leave, has_reachable_target, connected_now, Backoff, punch_backoff,
  punch_give_up,
}

-- Where the task is: with the time at which to punch, the number of the round, and its target.
pub data Phase : Type 0 where
  entering queued : ℕ → Phase
  looking : ℕ → ℕ → Phase
  looking_again punching : ℕ → ℕ → PeerInfo → Phase
  waiting : ℕ → Phase
  giving_up leaving ended : Phase

-- cfg.punch_retry and cfg.punch_retry_backoff
pub record Rounds : Type 0 where
  pub retry : ℕ
  pub backoff : ℕ

-- What a step gets from outside: the clock in milliseconds, what the punch comes to, and the offset
-- of the UDP channel's clock.
pub record Moment : Type 0 where
  pub now : ℕ
  pub result : Option (ℕ × Addr)
  pub offset : ℤ

pub data Effect : Type 0 where
  acts : Action → Effect
  backs_off : Backoff → Effect
  sends_punch_fail : Text → Effect

abbrev pub latest_of : PeerInfo → PeerInfo → Manager → PeerInfo
latest_of peer old s = or_default old (get peer.id s.members)

-- The head of a round: is there something to do, and does the peer have a target?
unfoldable pub look : Rounds → PeerInfo → ℕ → ℕ → Manager → Phase × List Effect
unfolding has_reachable_target
look c peer attempt at s =
    let latest = latest_of peer peer s in
    if not (leb attempt c.retry)
    then (giving_up, [])
    else if not s.running || connected_now (get peer.id s.connections)
    then (leaving, [])
    else if has_reachable_target latest
    then (punching attempt at latest, [])
    else (looking_again attempt at latest, acts (requests_punch peer.id) ∷ [])

-- Half a second later: without a target the task ends.
unfoldable pub look_again : PeerInfo → ℕ → ℕ → PeerInfo → Manager → Phase
unfolding has_reachable_target
look_again peer attempt at old s =
    let latest = latest_of peer old s in
    if has_reachable_target latest then punching attempt at latest else leaving

-- After a punch: the socket is installed, or there is a further round, or none is left.
unfoldable pub punched :
    Rounds → PeerInfo → ℕ → Option (ℕ × Addr) → Moment → Manager → Phase × Manager × List Effect
unfolding install_socket punch_backoff
punched c peer attempt none m s =
    if ltb attempt c.retry
    then (
      waiting attempt,
      s,
      backs_off (punch_backoff peer.id attempt c.backoff m.offset m.now s) ∷ [],
    )
    else (giving_up, s, [])
punched c peer attempt (some (sock, addr)) m s =
    let (s', done) = install_socket peer.id sock addr m.now s in (leaving, s', map acts done)

-- The end of the rounds: the connection is marked and the peer told, unless another task has made it.
unfoldable pub give_up : PeerInfo → Manager → Manager × List Effect
unfolding punch_give_up
give_up peer s =
    let (s', marked) = punch_give_up peer.id s in
    (s', if marked && is_some (get peer.id s'.udp_conns) then sends_punch_fail peer.id ∷ [] else [])

unfoldable pub task_step :
    Rounds → PeerInfo → Phase → Moment → Manager → Phase × Manager × List Effect
unfolding punch_enter punch_leave look look_again punched give_up
task_step c peer (entering at) m s =
    let (s', started) = punch_enter peer.id s in
    if started then (queued at, s', []) else (ended, s', [])
task_step c peer (queued at) m s = (looking 1 at, s, [])
task_step c peer (looking attempt at) m s =
    let (next, out) = look c peer attempt at s in (next, s, out)
task_step c peer (looking_again attempt at old) m s = (look_again peer attempt at old s, s, [])
task_step c peer (punching attempt at target) m s = punched c peer attempt m.result m s
task_step c peer (waiting attempt) m s = (looking (attempt + 1) 0, s, [])
task_step c peer giving_up m s = let (s', out) = give_up peer s in (leaving, s', out)
task_step c peer leaving m s = (ended, punch_leave peer.id s, [])
task_step c peer ended m s = (ended, s, [])
