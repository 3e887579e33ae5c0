-- ===== src/Server/Tests.antt =====
-- The theorems on the server, with two rooms: `r`, whose password is `p`, and the open room `q`. The digest of
-- the examples is the text itself.
use dpmp.Prelude.{◌≡◌, refl, arith, true, none, some, [], ◌∷◌, Text, text_eq, text_key}
use dpmp.Dict.{get, has}
use dpmp.Dict.Laws.{Distinct}
use dpmp.Server.Format.{Addr, strip}
use dpmp.Server.State.{
  default_settings, Member, Room, Server, empty_server, Message, join, bad_password, error, sends,
  member_at, hash_room_pwd,
}
use dpmp.Server.Join.{handle_join, check_room}
use dpmp.Server.Join.Password.{join_without_password}
use dpmp.Server.Join.Entry.{id_taken_over}
use dpmp.Prelude.{◌+◌}
use dpmp.Server.State.{or_default}
use dpmp.Server.Handlers.{handle_punch_req}
use dpmp.Server.Handlers.Meeting.{AreTogether, both_told, punch_req_lem}
use dpmp.Server.Persist.{save_state, load_state, pwd_of}
use dpmp.Server.Persist.Restore.{IsTidy, restarted, state_restored}
use dpmp.Server.Events.{datagram, cleans, run}
use dpmp.Server.State.Sizes.{IsBounded}
use dpmp.Server.Events.Bounds.{rooms-IsBounded}

abbrev pub digest : Text → Text
digest t = t

abbrev r : Text
r = b'r' ∷ []

abbrev pub q : Text
q = b'q' ∷ []

abbrev m : Text
m = b'm' ∷ []

abbrev pub home : Addr
home = (b'1' ∷ [], 4000)

abbrev member : Member
member = record { name = m; pub_addr = home; lan = []; tcp = 3335; last_hb = 7; did = [] }

abbrev pub two_rooms : Server
two_rooms = record {
  rooms = (r, (m, member) ∷ []) ∷ (q, []) ∷ [];
  room_pwd = (r, some (b'r' ∷ b':' ∷ b'p' ∷ [])) ∷ (q, none) ∷ [];
  id_index = (m, (r, home)) ∷ [];
  tcp_mappings = [];
  tcp_socks = [];
  tcp_mapping_ts = [];
  udp_mappings = [];
}

abbrev to_join : Text → Text → Message
to_join room pwd = record {
  kind = join;
  room = some room;
  pwd = some pwd;
  name = some q;
  did = none;
  reuse_id = some m;
  id = none;
  target = none;
  probe = none;
  lan = none;
  tcp = none;
  t1 = none;
}

join_without_password_example :
    handle_join digest default_settings q (to_join r (b'x' ∷ [])) home 9 two_rooms
    ≡ (two_rooms, sends home (error bad_password) ∷ [])
unfolding strip get text_eq hash_room_pwd
join_without_password_example =
    join_without_password digest default_settings q (to_join r (b'x' ∷ [])) home 9 two_rooms
      ((m, member) ∷ []) (b'r' ∷ b':' ∷ b'p' ∷ []) refl refl refl refl

id_taken_over_example :
    (get m (handle_join digest default_settings q (to_join q []) home 9 two_rooms).0.id_index
      ≡ some (q, home))
    × (member_at r m (handle_join digest default_settings q (to_join q []) home 9 two_rooms).0
        ≡ member_at r m two_rooms)
unfolding strip get check_room has text_eq
id_taken_over_example =
    id_taken_over digest default_settings q r m (to_join q []) home 9 two_rooms refl refl refl refl
      refl (ground arith) refl (ground arith) refl

rooms-IsBounded_example :
    IsBounded 16
      (run digest default_settings
        (datagram q (to_join r (b'p' ∷ [])) home 9 ∷ cleans 90000 90001 ∷ [])
        two_rooms).rooms
rooms-IsBounded_example =
    rooms-IsBounded digest default_settings
      (datagram q (to_join r (b'p' ∷ [])) home 9 ∷ cleans 90000 90001 ∷ []) two_rooms (ground arith)

two_rooms-members : (k : Text) (ms : Room) → get k two_rooms.rooms ≡ some ms → Distinct ms
unfolding get text_eq
two_rooms-members k ms h = ground arith

two_rooms-IsTidy : IsTidy two_rooms
unfolding get text_eq
two_rooms-IsTidy = record {
  rooms = (refl, (refl, tt));
  members = two_rooms-members;
  id_index = (refl, tt);
  room_pwd = (refl, (refl, tt));
}

state_restored_example :
    (member_at r m (load_state 50 (save_state two_rooms) empty_server)
      ≡ restarted 50 (member_at r m two_rooms))
    × (get m (load_state 50 (save_state two_rooms) empty_server).id_index
        ≡ get m two_rooms.id_index)
    × (has r two_rooms.rooms ≡ true
        → get r (load_state 50 (save_state two_rooms) empty_server).room_pwd
          ≡ some (pwd_of (get r two_rooms.room_pwd)))
state_restored_example = state_restored 50 two_rooms two_rooms-IsTidy r m

-- A second member of the room, from another address.
abbrev away : Addr
away = (b'2' ∷ [], 5000)

abbrev member_q : Member
member_q = record member { name = q; pub_addr = away }

abbrev pair : Server
pair = record two_rooms {
  rooms = (r, (m, member) ∷ (q, member_q) ∷ []) ∷ [];
  id_index = (m, (r, home)) ∷ (q, (r, away)) ∷ [];
}

pair-AreTogether : AreTogether m q pair member member_q
unfolding get text_eq
pair-AreTogether = record {
  room = r;
  my_addr = home;
  its_addr = away;
  members = (m, member) ∷ (q, member_q) ∷ [];
  mine = refl;
  its = refl;
  there = refl;
  me_there = refl;
  it_there = refl;
}

punch_req_lem_example :
    ((a b : Member)
      → AreTogether m q pair a b
      → handle_punch_req default_settings (some m) (some q) 9 pair
        ≡ some (both_told m q (9 + 1000) pair a b))
    × (((a b : Member) → ¬ AreTogether m q pair a b)
        → or_default [] (handle_punch_req default_settings (some m) (some q) 9 pair) ≡ [])
punch_req_lem_example = punch_req_lem default_settings m q 9 pair

both_sent :
    handle_punch_req default_settings (some m) (some q) 9 pair
    ≡ some (both_told m q (9 + 1000) pair member member_q)
both_sent = punch_req_lem_example.0 member member_q pair-AreTogether
