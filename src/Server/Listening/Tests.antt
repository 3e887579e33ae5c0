-- ===== src/Server/Listening/Tests.antt =====
-- A receive loop that gets no JSON, then JSON that is no object, and then a further datagram.
use dpmp.Prelude.{◌≡◌, refl, ◌⊎◌, true, false, List, [], ◌∷◌, ◌++◌}
use dpmp.Server.Events.{run}
use dpmp.Server.State.{default_settings}
use dpmp.Server.Tests.{digest, q, home, two_rooms}
use dpmp.Server.Listening.{Received, broken, packet, no_json, no_object, raises, udp_recv_loop}
use dpmp.Server.Listening.Alive.{EndsAt, events_of, recv_loop_lem}

abbrev noise : List Received
noise = broken ∷ packet no_json home 5 q ∷ []

recv_loop_lem_example :
    ((udp_recv_loop digest default_settings noise two_rooms).2 ≡ true
      → (udp_recv_loop digest default_settings noise two_rooms).0
        ≡ run digest default_settings (events_of noise) two_rooms)
    × ((udp_recv_loop digest default_settings noise two_rooms).2 ≡ false
        → EndsAt digest default_settings noise two_rooms
            (udp_recv_loop digest default_settings noise two_rooms).0)
    × ((udp_recv_loop digest default_settings noise two_rooms).2 ≡ true
        → (no_object ≡ no_object)
          ⊎ (raises no_object (udp_recv_loop digest default_settings noise two_rooms).0 ≡ true)
        → udp_recv_loop digest default_settings
            (noise ++ packet no_object home 6 q ∷ packet no_json home 7 q ∷ [])
            two_rooms
          ≡ (
            (udp_recv_loop digest default_settings noise two_rooms).0,
            (udp_recv_loop digest default_settings noise two_rooms).1,
            false,
          ))
recv_loop_lem_example =
    recv_loop_lem digest default_settings noise (packet no_json home 7 q ∷ []) no_object home 6 q
      two_rooms refl refl refl
