-- ===== src/Client/Setup.antt =====
-- dpmp/defaults.py, the making of a SignalingClient, and its connection to the TCP observation port.
pub mod Registered
use dpmp.Prelude.{
  ℕ, ◌+◌, ◌*◌, Bool, true, false, Option, none, some, List, [], ◌∷◌, ◌++◌, if◌then◌else◌, min, Text,
  codes, ℤ, pos, length,
}
use dpmp.Codec.BigEndian.{Bytes, pack}
use dpmp.Client.Signaling.{Candidate, ServerSpec, normalize_servers, Client}
use dpmp.Client.Holes.{Link}

-- default_servers
abbrev pub default_servers : List Candidate
default_servers = (codes "42.194.133.132", pos 3336, pos 3337, pos 3338) ∷ []

abbrev or_defaults : List Candidate → List Candidate × Bool
or_defaults [] = (default_servers, true)
or_defaults (c ∷ cs) = (c ∷ cs, false)

-- The servers of __init__, and whether they are the defaults.
unfoldable pub servers_of :
    List ServerSpec → Option Text → Option ℤ → Option ℤ → Option ℤ → List Candidate × Bool
unfolding normalize_servers
servers_of servers ip port tcp nat = or_defaults (normalize_servers servers ip port tcp nat)

-- __init__, given the servers
unfoldable pub new_client : List Candidate → Bool → Client
new_client servers auto_failover = record {
  running = false;
  servers = servers;
  server_idx = 0;
  server = none;
  auto_failover = auto_failover;
  last_join_error = none;
}

unfoldable pub new_link : List Candidate → Bool → Link
unfolding new_client
new_link servers auto_failover = record {
  client = new_client servers auto_failover;
  my_id = none;
  reuse_id = [];
  joined_members = [];
  hole_open = false;
  recv_running = false;
  handlers = [];
  hole_targets = [];
}

abbrev before : Option Bytes → Bytes → Option Bytes
before none mid = none
before (some head) mid = some (head ++ mid)

unfoldable pub framed : Option Bytes → Option Bytes
unfolding pack
framed none = none
framed (some mid_b) = before (pack (2 ∷ []) (pos (length mid_b) ∷ [])) mid_b

-- What _open_mapping sends: the id as `encode` gives it, after the length of that; none where `encode`
-- or struct.pack raises.
unfoldable pub registration : (Text → Option Bytes) → Text → Option Bytes
unfolding framed
registration encode mid = framed (encode mid)

-- The loop of _open_mapping over its attempts, each with whether the client still runs when it begins
-- and whether the connection comes about; `attempt` have been made. It gives the pauses in
-- milliseconds, and whether the mapping is there in the end.
unfoldable pub open_mapping : ℕ → List (Bool × Bool) → List ℕ × Bool
open_mapping attempt [] = ([], false)
open_mapping attempt ((running, connected) ∷ attempts) =
    let (pauses, there) = open_mapping (attempt + 1) attempts in
    if running
    then (if connected then ([], true) else (min (500 * (attempt + 1)) 3000 ∷ pauses, there))
    else ([], false)
