-- ===== src/Client/Tests.antt =====
-- The theorems on the clients, at two peers and two servers.
use dpmp.Prelude.{Option, List, nonempty}
use dpmp.Prelude.{◌≡◌, refl, true, false, none, some, [], ◌∷◌, Text, text_key, text_eq, arith}
use dpmp.Dict.{get}
use dpmp.Server.Format.{Addr}
use dpmp.Path.Keepalive.{default_tuning}
use dpmp.Client.Manager.State.{Manager, UdpConn, live_sock}
use dpmp.Client.Manager.Sockets.{settle}
use dpmp.Client.Manager.Sockets.Dedup.{preferred_stays}
use dpmp.Client.Signaling.{
  Candidate, Attempt, accepted, rejected, silent, fails, Client, joined, not_joined, raised, start,
}
use dpmp.Client.Signaling.Failover.{start_outcome}
use dpmp.Server.State.{PeerInfo}
use dpmp.Server.Handlers.Registration.{read_registration}
use dpmp.Codec.BigEndian.{Bytes}
use dpmp.Client.Setup.{registration}
use dpmp.Client.Setup.Registered.{registration_roundtrip, sent_for}
use dpmp.Client.Puncher.Race.{connect_candidates}
use dpmp.Client.Puncher.Race.Winner.{made, first, others, race_lem}
use dpmp.Prelude.{◌++◌}
use dpmp.Prelude.{pos, if◌then◌else◌}

abbrev pub alice : Text
alice = b'a' ∷ []

abbrev pub bob : Text
bob = b'b' ∷ []

abbrev pub at_home : Addr
at_home = (b'1' ∷ [], 3335)

abbrev pub over_udp : UdpConn
over_udp = record { chan = 9; peer = at_home; closed = false }

-- Alice's manager, with a UDP channel to Bob.
abbrev pub of_alice : Manager
of_alice = record {
  cfg = record {
    rebuild_cooldown_ms = 30000;
    idle_factor_tiers = (60000, 1) ∷ [];
    idle_factor_max = 4;
    tuning = default_tuning;
  };
  my_id = alice;
  running = true;
  members = [];
  connections = [];
  udp_conns = (bob, over_udp) ∷ [];
  path_schedulers = [];
  punch_active = [];
  peer_last_active = [];
  recv_epoch = [];
  rebuild_cooldown = [];
  network_rebind_last = none;
  mapping_ready = false;
}

preferred_stays_example :
    (live_sock (
        get bob
          (settle bob none 2 at_home true
            (settle bob none 1 at_home false of_alice).0).0.connections)
      ≡ some 2)
    × (live_sock (
          get bob
            (settle bob none 1 at_home false
              (settle bob none 2 at_home true of_alice).0).0.connections)
        ≡ some 2)
unfolding get
preferred_stays_example = preferred_stays bob none none 1 2 at_home at_home false of_alice refl

abbrev first_server : Candidate
first_server = (alice, pos 1, pos 2, pos 3)

abbrev second_server : Candidate
second_server = (bob, pos 1, pos 2, pos 3)

abbrev only_second : Candidate → Attempt
only_second c = if text_eq c.0 bob then accepted else silent

abbrev new_client : Client
new_client = record {
  running = false;
  servers = first_server ∷ second_server ∷ [];
  server_idx = 0;
  server = none;
  auto_failover = true;
  last_join_error = none;
}

start_outcome_example :
    (only_second second_server ≡ accepted
      → ((start only_second new_client).1 ≡ joined)
        × ((start only_second new_client).0.server ≡ some second_server)
        × ((start only_second new_client).0.running ≡ true)
        × ((start only_second new_client).2 ≡ []))
    × ((code : Text)
        → only_second second_server ≡ rejected code
        → nonempty code ≡ true
        → ((start only_second new_client).1 ≡ not_joined)
          × ((start only_second new_client).0.last_join_error ≡ some code)
          × ((start only_second new_client).0.running ≡ false)
          × ((start only_second new_client).2 ≡ []))
    × (only_second second_server ≡ fails
        → ((start only_second new_client).1 ≡ raised)
          × ((start only_second new_client).0.server ≡ some second_server)
          × ((start only_second new_client).0.running ≡ true)
          × ((start only_second new_client).2 ≡ []))
unfolding text_eq
start_outcome_example =
    start_outcome only_second (first_server ∷ []) [] second_server new_client refl refl refl
      (tt, tt)

abbrev pub to_punch : PeerInfo
to_punch = record {
  id = bob;
  did = [];
  name = bob;
  pub_addr = [];
  pub_tcp = [];
  pub_udp = [];
  tcp_udp_offset = none;
  lan = alice ∷ alice ∷ [];
  tcp = 9998;
}

-- An id of three bytes, in ASCII, that comes in three pieces with one byte after it, and again with its
-- last byte cut off.
abbrev ascii : Text → Option Bytes
ascii t = some t

abbrev in_pieces : List Bytes
in_pieces = (0 ∷ []) ∷ (3 ∷ 97 ∷ []) ∷ (98 ∷ 99 ∷ 7 ∷ []) ∷ []

abbrev cut_off : List Bytes
cut_off = (0 ∷ 3 ∷ []) ∷ (97 ∷ 98 ∷ []) ∷ []

registration_roundtrip_example :
    (registration ascii (97 ∷ 98 ∷ 99 ∷ []) ≡ some (sent_for ascii (97 ∷ 98 ∷ 99 ∷ [])))
    × (read_registration ascii in_pieces ≡ some (97 ∷ 98 ∷ 99 ∷ []))
    × (read_registration ascii cut_off ≡ none)
registration_roundtrip_example =
    registration_roundtrip ascii ascii (97 ∷ 98 ∷ 99 ∷ []) (97 ∷ 98 ∷ 99 ∷ []) (7 ∷ []) 4 in_pieces
      cut_off refl refl refl refl (omega arith) (refl, (refl, (refl, tt)))
      (unfold registration in refl) (refl, (refl, tt)) (unfold registration in refl)
      (unfold registration in omega arith)

-- One candidate fails, two connect, and a third one connects too late.
race_lem_example : connect_candidates (none ∷ some 4 ∷ some 5 ∷ []) (some 6 ∷ []) ≡ (
  first (made (none ∷ some 4 ∷ some 5 ∷ [])),
  record { winner = first (made (none ∷ some 4 ∷ some 5 ∷ []) ++ made (some 6 ∷ [])) },
  others (made (none ∷ some 4 ∷ some 5 ∷ []) ++ made (some 6 ∷ [])),
)
race_lem_example = race_lem (none ∷ some 4 ∷ some 5 ∷ []) (some 6 ∷ [])
