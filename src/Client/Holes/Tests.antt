-- ===== src/Client/Holes/Tests.antt =====
-- The theorems on holes and addresses, at one peer.
use dpmp.Prelude.{
  ◌≡◌, refl, true, none, some, [], ◌∷◌, Text, text_key, text_eq, pos, codes, has_char,
}
use dpmp.Dict.{get}
use dpmp.Server.Format.{fmt_host_port, is_space}
use dpmp.Server.State.{PeerInfo}
use dpmp.Client.Address.{parse_host_port}
use dpmp.Client.Address.RoundTrip.{parse_host_port-fmt_host_port}
use dpmp.Client.Signaling.{Candidate, Attempt, silent, accepted, not_joined, raised, start}
use dpmp.Client.Holes.{
  Link, Welcome, hole_ready, handles, peer_key, start_udp_hole, on_udp_datagram, register_udp_rtp,
  unregister_udp_rtp, udp_hole_magic, rebind,
}
use dpmp.Server.Format.{Addr, strip}
use dpmp.Server.State.{Member, Server, empty_server, default_settings, member_at, members_of}
use dpmp.Server.Join.{handle_join, new_member, check_room}
use dpmp.Server.Join.Rejoin.{IsOnly}
use dpmp.Dict.{has}
use dpmp.Prelude.{arith}
use dpmp.Client.Holes.{Identity, join_message}
use dpmp.Client.Holes.Rejoin.{rejoin_keeps_id}
use dpmp.Client.Holes.Ready.{hole_lem}
use dpmp.Prelude.{◌≤◌, ◌+◌, ◌*◌, ℕ, List}
use dpmp.Client.Holes.Probing.{Turn, udp_hole_thread}
use dpmp.Client.Holes.Probing.Overlap.{probing_lem}
use dpmp.Client.Holes.Rebind.{rebind_gives_up}

abbrev remote : Text
remote = codes "9.8.7.6"

parse_host_port-fmt_host_port_example :
    parse_host_port (fmt_host_port remote 4021) ≡ some (remote, pos 4021)
unfolding is_space has_char
parse_host_port-fmt_host_port_example = parse_host_port-fmt_host_port remote 4021 (refl, refl, refl)

abbrev peer_b : PeerInfo
peer_b = record {
  id = b'b' ∷ [];
  did = [];
  name = b'b' ∷ [];
  pub_addr = [];
  pub_tcp = [];
  pub_udp = fmt_host_port remote 4021;
  tcp_udp_offset = none;
  lan = [];
  tcp = 0;
}

abbrev linked_a : Link
linked_a = record {
  client = record {
    running = true;
    servers = (remote, pos 1, pos 2, pos 3) ∷ [];
    server_idx = 0;
    server = none;
    auto_failover = true;
    last_join_error = none;
  };
  my_id = some (b'a' ∷ []);
  reuse_id = [];
  joined_members = [];
  hole_open = true;
  recv_running = true;
  handlers = [];
  hole_targets = [];
}

hole_lem_example :
    (on_udp_datagram (peer_key (remote, pos 4021)) udp_hole_magic (start_udp_hole peer_b linked_a).0
      ≡ hole_ready (b'b' ∷ []) (peer_key (remote, pos 4021)) ∷ [])
    × (on_udp_datagram (peer_key (remote, pos 4021)) (1 ∷ []) (start_udp_hole peer_b linked_a).0
        ≡ [])
    × (on_udp_datagram
          (peer_key (remote, pos 4021))
          udp_hole_magic
          (register_udp_rtp (peer_key (remote, pos 4021)) 7 (start_udp_hole peer_b linked_a).0)
        ≡ [])
    × (on_udp_datagram
          (peer_key (remote, pos 4021))
          (1 ∷ [])
          (register_udp_rtp (peer_key (remote, pos 4021)) 7 (start_udp_hole peer_b linked_a).0)
        ≡ handles 7 (1 ∷ []) ∷ [])
    × (on_udp_datagram (peer_key (remote, pos 4021)) udp_hole_magic (
          unregister_udp_rtp
            (peer_key (remote, pos 4021))
            (register_udp_rtp (peer_key (remote, pos 4021)) 7 (start_udp_hole peer_b linked_a).0))
        ≡ hole_ready (b'b' ∷ []) (peer_key (remote, pos 4021)) ∷ [])
unfolding text_eq is_space has_char get
hole_lem_example =
    hole_lem peer_b remote 4021 7 (1 ∷ []) linked_a refl refl (refl, refl, refl) tt refl refl

abbrev turn_at : ℕ → Turn
turn_at now = record { now = now; running = true; sends = true }

-- Three probes within a second.
abbrev turns : List Turn
turns = turn_at 1000 ∷ turn_at 1400 ∷ turn_at 1900 ∷ turn_at 2300 ∷ []

probing_lem_example :
    ((udp_hole_thread
          (peer_key (remote, pos 4021))
          (b'b' ∷ [])
          (1000 + 1000)
          turns
          (start_udp_hole peer_b (start_udp_hole peer_b linked_a).0).0).0
        * 400
      ≤ 1000 + 400)
    × (on_udp_datagram
          (peer_key (remote, pos 4021))
          udp_hole_magic
          (start_udp_hole peer_b (start_udp_hole peer_b linked_a).0).0
        ≡ hole_ready (b'b' ∷ []) (peer_key (remote, pos 4021)) ∷ [])
    × (on_udp_datagram
          (peer_key (remote, pos 4021))
          udp_hole_magic
          (udp_hole_thread
            (peer_key (remote, pos 4021))
            (b'b' ∷ [])
            (1000 + 1000)
            turns
            (start_udp_hole peer_b (start_udp_hole peer_b linked_a).0).0).1
        ≡ [])
unfolding is_space has_char get
probing_lem_example =
    probing_lem peer_b remote 4021 linked_a 400 1000 1000 turns refl refl (refl, refl, refl) tt refl
      (omega arith, (omega arith, (omega arith, (omega arith, tt))))

abbrev no_answer : Candidate → Attempt
no_answer c = silent

abbrev any_answer : Candidate → Attempt
any_answer c = accepted

abbrev let_in : Candidate → Welcome
let_in c = record { id = b'a' ∷ []; members = [] }

rebind_gives_up_example :
    ((rebind no_answer let_in true linked_a).1 ≡ not_joined
      → rebind any_answer let_in true (rebind no_answer let_in true linked_a).0
        ≡ ((rebind no_answer let_in true linked_a).0, not_joined, []))
    × ((rebind no_answer let_in true linked_a).1 ≡ raised
        → (rebind no_answer let_in true linked_a).0.client.running ≡ true)
rebind_gives_up_example = rebind_gives_up no_answer any_answer let_in let_in true true linked_a

no_more : (rebind no_answer let_in true linked_a).1 ≡ not_joined
unfolding rebind start
no_more = refl

abbrev old_self : Member
old_self = record {
  name = b'a' ∷ [];
  pub_addr = (remote, 4000);
  lan = [];
  tcp = 3335;
  last_hb = 7;
  did = b'd' ∷ [];
}

-- A room with two members of one device.
abbrev one_room : Server
one_room = record empty_server {
  rooms = (b'r' ∷ [], (b'x' ∷ [], old_self) ∷ (b'a' ∷ [], old_self) ∷ []) ∷ [];
  room_pwd = (b'r' ∷ [], none) ∷ [];
}

abbrev myself : Identity
myself = record {
  room = b'r' ∷ [];
  name = b'a' ∷ [];
  tcp_port = 3335;
  lan_ips = [];
  device_id = b'd' ∷ [];
  password = [];
}

abbrev digest : Text → Text
digest t = t

abbrev elsewhere : Addr
elsewhere = (remote, 9)

rejoin_keeps_id_example :
    (get
        (b'a' ∷ [])
        (handle_join digest default_settings
          (b'f' ∷ [])
          (join_message myself (b'a' ∷ []))
          elsewhere
          9
          one_room).0.id_index
      ≡ some (b'r' ∷ [], elsewhere))
    × (member_at
          (b'r' ∷ [])
          (b'a' ∷ [])
          (handle_join digest default_settings
            (b'f' ∷ [])
            (join_message myself (b'a' ∷ []))
            elsewhere
            9
            one_room).0
        ≡ some (new_member (join_message myself (b'a' ∷ [])) elsewhere 9))
    × IsOnly (b'd' ∷ []) (b'a' ∷ []) (
        members_of
          (b'r' ∷ [])
          (handle_join digest default_settings
            (b'f' ∷ [])
            (join_message myself (b'a' ∷ []))
            elsewhere
            9
            one_room).0)
unfolding strip get has text_eq check_room
rejoin_keeps_id_example =
    rejoin_keeps_id digest default_settings (b'f' ∷ []) (b'a' ∷ []) myself elsewhere 9 one_room
      old_self refl refl refl refl refl refl (ground arith) (refl, (refl, tt)) refl refl
