-- ===== src/Client/Manager/Tests.antt =====
-- The theorems on the manager's paths and incoming connections, at two peers.
use dpmp.Prelude.{
  ◌≡◌, ◌++◌, refl, inr, not, some, [], ◌∷◌, List, Text, text_key, text_eq, codes, has_char, is_some,
}
use dpmp.Dict.{get, has}
use dpmp.Server.Format.{fmt_addr, is_space}
use dpmp.Server.State.{PeerInfo}
use dpmp.Path.Keepalive.{default_tuning, udp, hot, dead}
use dpmp.Path.Scheduler.{PeerPath, new_path}
use dpmp.Client.Manager.State.{Manager}
use dpmp.Client.Manager.Sockets.{find_inbound}
use dpmp.Client.Manager.Sockets.Inbound.{inbound_lem}
use dpmp.Client.Manager.Events.{on_peer_punch_fail}
use dpmp.Client.Manager.Events.Fallback.{punch_fail_kills_path}
use dpmp.Client.Manager.Udp.{on_udp_hole_ready, mark_mapping_ready}
use dpmp.Client.Manager.Udp.Announced.{announced, announced_once}
use dpmp.Client.Manager.Traces.{
  Event, installs, peer_punch_fail, member_leaves, peer_tcp_ready, udp_peer_dies, hole_ready, run,
}
use dpmp.Client.Manager.Traces.Connected.{IsSound, run-IsSound}
use dpmp.Client.Manager.Traces.Leaver.{nothing_left_behind}
use dpmp.Client.Manager.Traces.Forgetting.{Forgotten}
use dpmp.Client.Manager.Sockets.{connected_to, install_socket, outbound_is_preferred}
use dpmp.Client.Manager.Punching.Rounds.{Rounds, Moment, entering, ended}
use dpmp.Client.Manager.Punching.Interleaved as Interleaved
use dpmp.Client.Manager.Punching.Interleaved.{System, Move, starts, steps, others}
use dpmp.Client.Manager.Punching.Counted.{IsSettled, run-IsSettled}
use dpmp.Client.Manager.Punching.Ends.{task_run, task_ends}
use dpmp.Prelude.{none, pos, arith}
use dpmp.Client.Tests.{alice, bob, at_home, of_alice, to_punch}

abbrev udp_path : PeerPath
udp_path = new_path default_tuning 0 (b'u' ∷ bob) udp hot 0

-- Alice's manager, with UDP as the only path to Bob.
abbrev only_udp : Manager
only_udp = record of_alice { path_schedulers = (bob, (b'u' ∷ bob, udp_path) ∷ []) ∷ [] }

punch_fail_kills_path_example :
    (get bob (on_peer_punch_fail bob only_udp).0.path_schedulers
      ≡ some ((b'u' ∷ bob, record udp_path { role = dead }) ∷ []))
    × ((on_peer_punch_fail bob only_udp).0.udp_conns ≡ only_udp.udp_conns)
    × (on_udp_hole_ready bob at_home 11 100 (on_peer_punch_fail bob only_udp).0
        ≡ ((on_peer_punch_fail bob only_udp).0, []))
unfolding get has text_eq new_path
punch_fail_kills_path_example =
    punch_fail_kills_path bob (b'u' ∷ bob) udp_path at_home 11 100 only_udp refl refl refl refl

abbrev over_ipv6 : Text
over_ipv6 = codes "2001:db8::7"

abbrev on_ipv6 : PeerInfo
on_ipv6 = record to_punch { pub_tcp = fmt_addr (over_ipv6, 4021) }

inbound_lem_example :
    is_some (find_inbound (over_ipv6, 4021) ((bob, on_ipv6) ∷ [])) ≡ not (has_char b':' over_ipv6)
unfolding get text_eq has_char is_space
inbound_lem_example =
    inbound_lem over_ipv6 4021 bob on_ipv6 ((bob, on_ipv6) ∷ []) refl refl (refl, refl, refl)
      (inr ((over_ipv6, 4021), refl), tt)

announced_once_example :
    ((mark_mapping_ready (on_udp_hole_ready alice at_home 11 100 of_alice).0).0
      ≡ (on_udp_hole_ready alice at_home 11 100 (mark_mapping_ready of_alice).0).0)
    × (announced alice (
          (on_udp_hole_ready alice at_home 11 100 of_alice).1
          ++ (mark_mapping_ready (on_udp_hole_ready alice at_home 11 100 of_alice).0).1)
        ≡ 1)
    × (announced alice (
          (mark_mapping_ready of_alice).1
          ++ (on_udp_hole_ready alice at_home 11 100 (mark_mapping_ready of_alice).0).1)
        ≡ 1)
unfolding has text_eq
announced_once_example = announced_once alice at_home 11 100 of_alice refl refl

-- A connection that comes in, is given up by the peer, and is made again.
abbrev ups_and_downs : List Event
ups_and_downs = installs bob 5 at_home 100 ∷ peer_punch_fail bob ∷ installs bob 6 at_home 200 ∷ []

run-IsSound_example : IsSound (run ups_and_downs of_alice)
run-IsSound_example = run-IsSound ups_and_downs of_alice tt

-- Bob has left; word from him comes late, his channel is found dead, and Alice's own channel opens.
abbrev late_word : List Event
late_word = peer_tcp_ready bob ∷ udp_peer_dies bob 200 ∷ hole_ready alice at_home 11 300 ∷ []

nothing_left_behind_example :
    Forgotten bob (run (member_leaves bob ∷ late_word) of_alice)
    × (get bob
          (install_socket bob 5 at_home 400
            (run (member_leaves bob ∷ late_word) of_alice)).0.connections
        ≡ some (
            connected_to none 5 at_home
              (outbound_is_preferred (run (member_leaves bob ∷ late_word) of_alice).my_id bob)))
unfolding text_eq get
nothing_left_behind_example =
    nothing_left_behind bob late_word of_alice 5 at_home 400 (tt, tt, (refl, tt), tt)
      (refl, (refl, (refl, tt)))

abbrev three_rounds : Rounds
three_rounds = record { retry = 3; backoff = 1 }

abbrev no_answer : Moment
no_answer = record { now = 100; result = none; offset = pos 0 }

-- Two tasks of Bob, before any of them has begun; he leaves while they run.
abbrev two_tasks : List Move
two_tasks =
    starts to_punch 0
    ∷ starts to_punch 0
    ∷ steps 0 no_answer
    ∷ steps 1 no_answer
    ∷ others (member_leaves bob)
    ∷ steps 0 no_answer
    ∷ []

abbrev at_rest : System
at_rest = record { manager = of_alice; free = 6; tasks = [] }

at_rest-IsSettled : IsSettled 6 at_rest
unfolding get
at_rest-IsSettled = record {
  counted = λ p. refl;
  at_most_two = λ p. omega arith;
  apart = tt;
  permitted = omega arith;
}

run-IsSettled_example : IsSettled 6 (Interleaved.run three_rounds two_tasks at_rest)
run-IsSettled_example =
    run-IsSettled 6 three_rounds two_tasks at_rest (tt, (tt, (tt, (tt, (refl, (tt, tt))))))
      at_rest-IsSettled

-- Two rounds, each of four steps at most, and seven more steps, on one state of the manager.
abbrev view : Moment × Manager
view = (no_answer, of_alice)

abbrev fifteen_views : List (Moment × Manager)
fifteen_views =
    view ∷ view ∷ view ∷ view ∷ view ∷ view ∷ view ∷ view ∷ view ∷ view ∷ view ∷ view ∷ view ∷ view
    ∷ view ∷ []

task_ends_example :
    task_run (record { retry = 2; backoff = 1 }) to_punch (entering 50) fifteen_views ≡ ended
task_ends_example =
    task_ends (record { retry = 2; backoff = 1 }) to_punch 50 fifteen_views (omega arith)
