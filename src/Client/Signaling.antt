-- ===== src/Client/Signaling.antt =====
-- dpmp/link/signaling.py: the servers and the failover between them. The outcome of one attempt to join
-- (_try_connect_one) is a function of the candidate.
pub mod Failover
use dpmp.Prelude.{
  ℕ, ◌+◌, Bool, true, false, not, ◌&&◌, ◌||◌, Option, none, some, List, [], ◌∷◌, if◌then◌else◌,
  Text, codes, nonempty, ℤ, pos, leb_ℤ,
}
use dpmp.Client.Address.{parse_host_port}

-- (ip, port, tcp_port, nat_port)
abbrev pub Candidate : Type 0
Candidate = Text × ℤ × ℤ × ℤ

-- A description of a server: a text, a tuple of at least two, a shorter tuple, or a dict.
pub data ServerSpec : Type 0 where
  spec_text : Text → ServerSpec
  spec_tuple : Text → ℤ → Option ℤ → Option ℤ → ServerSpec
  spec_short : ServerSpec
  spec_dict : Option Text → Option ℤ → Option ℤ → Option ℤ → ServerSpec

-- `int(x)` if it is there and not 0
abbrev truthy_or : ℤ → Option ℤ → ℤ
truthy_or d none = d
truthy_or d (some x) = if leb_ℤ x (pos 0) && leb_ℤ (pos 0) x then d else x

abbrev candidate : Option Text → Option ℤ → ℤ → ℤ → Option Candidate
candidate none port tcp nat = none
candidate (some ip) none tcp nat = none
candidate (some ip) (some port) tcp nat =
    if not (nonempty ip) || (leb_ℤ port (pos 0) && leb_ℤ (pos 0) port)
    then none
    else some (ip, port, tcp, nat)

abbrev from_parsed : Option (Text × ℤ) → ℤ → ℤ → Option Candidate
from_parsed none tcp nat = none
from_parsed (some (ip, port)) tcp nat = candidate (some ip) (some port) tcp nat

-- _parse_server_spec
unfoldable pub parse_server_spec : ServerSpec → ℤ → ℤ → Option Candidate
parse_server_spec (spec_text s) tcp nat = from_parsed (parse_host_port s) tcp nat
parse_server_spec (spec_tuple ip port t n) tcp nat =
    candidate (some ip) (some port) (truthy_or tcp t) (truthy_or nat n)
parse_server_spec spec_short tcp nat = none
parse_server_spec (spec_dict ip port t n) tcp nat =
    candidate ip port (truthy_or tcp t) (truthy_or nat n)

unfoldable pub parse_specs : List ServerSpec → ℤ → ℤ → List Candidate
unfolding parse_server_spec
parse_specs [] tcp nat = []
parse_specs (s ∷ specs) tcp nat =
    let later = parse_specs specs tcp nat in
    elim (parse_server_spec s tcp nat) [ none ↦ later | some c ↦ c ∷ later ]

abbrev default_candidate : Option Text → Option ℤ → ℤ → ℤ → List Candidate
default_candidate none port tcp nat = []
default_candidate (some ip) port tcp nat =
    if nonempty ip then (ip, truthy_or (pos 3336) port, tcp, nat) ∷ [] else []

-- _normalize_servers
unfoldable pub normalize_servers :
    List ServerSpec → Option Text → Option ℤ → Option ℤ → Option ℤ → List Candidate
unfolding parse_specs
normalize_servers servers ip port default_tcp default_nat =
    let tcp = truthy_or (pos 3337) default_tcp in
    let nat = truthy_or (pos 3338) default_nat in
    elim (parse_specs servers tcp nat) [ [] ↦ default_candidate ip port tcp nat | c ∷ cs ↦ c ∷ cs ]

-- What one attempt comes to: the server lets the client in, turns it away, or does not answer; or
-- `_send_join` raises, as where the network is down.
pub data Attempt : Type 0 where
  accepted : Attempt
  rejected : Text → Attempt
  silent fails : Attempt

pub record Client : Type 0 where
  pub running : Bool
  pub servers : List Candidate
  pub server_idx : ℕ
  pub server : Option Candidate
  pub auto_failover : Bool
  pub last_join_error : Option Text

-- How the loop of `start` ends: by a `return True`, a break with a code, or the end of the candidates;
-- or an exception leaves it.
pub data End : Type 0 where
  joins unreached throws : End
  turned_away : Text → End

-- The loop from candidate `idx` on. `later` is what the other candidates come to. An empty code does
-- not count as one.
abbrev pub unanswered : Client → Client × End → Client × End
unanswered s later = if s.auto_failover then later else (s, unreached)

abbrev pub after_attempt : Attempt → Client → Client × End → Client × End
after_attempt accepted s later = (s, joins)
after_attempt (rejected code) s later =
    let s' = record s { last_join_error = some code } in
    if nonempty code then (s', turned_away code) else unanswered s' later
after_attempt silent s later = unanswered s later
after_attempt fails s later = (s, throws)

unfoldable pub failover : (Candidate → Attempt) → ℕ → List Candidate → Client → Client × End
failover attempt idx [] s = (s, unreached)
failover attempt idx (c ∷ cs) s =
    let s' = record s { server_idx = idx; server = some c; last_join_error = none } in
    after_attempt (attempt c) s' (failover attempt (idx + 1) cs s')

-- What a call gives: True, False, or an exception.
pub data Started : Type 0 where
  joined not_joined raised : Started

-- An exception passes over the line that clears `_running`.
abbrev pub started : Client × End → Client × Started × List Text
started (s, joins) = (s, joined, [])
started (s, throws) = (s, raised, [])
started (s, turned_away code) = (record s { running = false }, not_joined, [])
started (s, unreached) = (record s { running = false }, not_joined, codes "CONNECT_FAILED" ∷ [])

-- start: with the codes given to `on_error` by `start` itself
unfoldable pub start : (Candidate → Attempt) → Client → Client × Started × List Text
unfolding failover
start attempt s =
    if s.running
    then (s, not_joined, [])
    else started (failover attempt 0 s.servers (record s { running = true }))
