-- ===== src/Server/Events/Bounds.antt =====
-- The sizes of the rooms over a sequence of events.
use dpmp.Prelude.{
  ℕ, ◌≤◌, ◌≡◌, refl, inl, inr, true, Option, none, some, List, [], ◌∷◌, Text, text_key, nonempty,
  length, arith, Bool-cases, Option-cases, is_some,
}
use dpmp.Dict.{get, put, remove}
use dpmp.Dict.Laws.{has-get, length-put, length-remove}
use dpmp.Server.Format.{Addr}
use dpmp.Server.State.{
  Settings, Member, Room, Server, MessageType, join, hb, punch_req, bye, nat_probe, time_req,
  udp_hello, unknown, Message, members_of, set_room, member_at,
}
use dpmp.Server.Handlers.{
  handle_hb, remove_member, handle_bye, handle_udp_hello, handle, dispatch, tcp_registered,
  tcp_closed, remove_all, cleanup, stale, touch_entry, hb_entry, left_with, remove_entry,
}
use dpmp.Server.Events.{Event, datagram, registers, disconnects, cleans, step, run}
use dpmp.Server.State.Sizes.{IsBounded, put-IsBounded, remove-IsBounded, get-IsBounded}
use dpmp.Server.Join.Sizes.{join-IsBounded}

touch-IsBounded :
    (n : ℕ) (room mid : Text) (m : Member) (s : Server)
    → is_some (member_at room mid s) ≡ true
    → IsBounded n s.rooms
    → IsBounded n (set_room room (put mid m (members_of room s)) s).rooms
touch-IsBounded n room mid m s h b =
    let g = get-IsBounded n room s.rooms b in
    let l = length-put mid m (members_of room s) in
    let e = has-get mid (members_of room s) in
    put-IsBounded n room (put mid m (members_of room s)) s.rooms (ground (arith, g, l, e)) b

left-IsBounded :
    (n : ℕ) (room : Text) (left : Room) (s : Server)
    → length left ≤ n
    → IsBounded n s.rooms
    → IsBounded n (left_with room left s).rooms
left-IsBounded n room [] s h b = remove-IsBounded n room s.rooms b
left-IsBounded n room (x ∷ xs) s h b = put-IsBounded n room (x ∷ xs) s.rooms h b

entry-IsBounded :
    (n : ℕ) (mid : Text) (info : Option (Text × Addr)) (s : Server)
    → IsBounded n s.rooms
    → IsBounded n (remove_entry mid info s).0.rooms
entry-IsBounded n mid none s b = b
entry-IsBounded n mid (some (room, a)) s b =
    let g = get-IsBounded n room s.rooms b in
    let l = length-remove mid (members_of room s) in
    left-IsBounded n room (remove mid (members_of room s)) s (omega (arith, g, l)) b

touch_entry-IsBounded :
    (n : ℕ) (mid : Text) (info : Option (Text × Addr)) (now : ℕ) (s : Server)
    → IsBounded n s.rooms
    → IsBounded n (touch_entry mid info now s).rooms
touch_entry-IsBounded n mid none now s b = b
touch_entry-IsBounded n mid (some (room, a)) now s b = elim (Option-cases (member_at room mid s)) [
  | inl e ↦ rw e b
  | inr (m, e) ↦ rw e (touch-IsBounded n room mid (record m { last_hb = now }) s (rw e refl) b)
]

hb-IsBounded :
    (n : ℕ) (mid : Text) (info : Option (Text × Addr)) (addr : Addr) (now : ℕ) (s : Server)
    → IsBounded n s.rooms
    → IsBounded n (hb_entry mid info addr now s).rooms
hb-IsBounded n mid none addr now s b = b
hb-IsBounded n mid (some (room, a)) addr now s b = elim (Option-cases (member_at room mid s)) [
  | inl e ↦ rw e b
  | inr (m, e) ↦
      rw e
        (touch-IsBounded n room mid (record m { last_hb = now; pub_addr = addr }) s (rw e refl) b)
]

remove_all-IsBounded :
    (n : ℕ) (mids : List Text) (s : Server)
    → IsBounded n s.rooms
    → IsBounded n (remove_all mids s).0.rooms
unfolding remove_all remove_member
remove_all-IsBounded n [] s b = b
remove_all-IsBounded n (mid ∷ mids) s b =
    remove_all-IsBounded n mids (remove_member mid s).0
      (entry-IsBounded n mid (get mid s.id_index) s b)

id-IsBounded :
    (n : ℕ) (id : Option Text) (s : Server)
    → IsBounded n s.rooms
    → IsBounded n (handle_bye id s).0.rooms
unfolding handle_bye remove_member
id-IsBounded n none s b = b
id-IsBounded n (some mid) s b = entry-IsBounded n mid (get mid s.id_index) s b

handle_hb-IsBounded :
    (n : ℕ) (id : Option Text) (addr : Addr) (now : ℕ) (s : Server)
    → IsBounded n s.rooms
    → IsBounded n (handle_hb id addr now s).rooms
unfolding handle_hb
handle_hb-IsBounded n none addr now s b = b
handle_hb-IsBounded n (some mid) addr now s b = hb-IsBounded n mid (get mid s.id_index) addr now s b

hello-IsBounded :
    (n : ℕ) (id : Option Text) (addr : Addr) (now : ℕ) (s : Server)
    → IsBounded n s.rooms
    → IsBounded n (handle_udp_hello id addr now s).rooms
unfolding handle_udp_hello
hello-IsBounded n none addr now s b = b
hello-IsBounded n (some mid) addr now s b =
    let t = record s { udp_mappings = put mid addr s.udp_mappings } in
    let later = touch_entry-IsBounded n mid (get mid s.id_index) now t b in
    elim (Bool-cases (nonempty mid)) [ inl e ↦ rw e later | inr e ↦ rw e b ]

handle-IsBounded :
    (k : MessageType) (sha256 : Text → Text) (c : Settings) (fresh : Text) (msg : Message)
    (addr : Addr) (now : ℕ) (s : Server)
    → IsBounded c.max_room_size s.rooms
    → IsBounded c.max_room_size (handle k sha256 c fresh msg addr now s).0.rooms
unfolding handle
handle-IsBounded join sha256 c fresh msg addr now s b =
    join-IsBounded sha256 c fresh msg addr now s b
handle-IsBounded hb sha256 c fresh msg addr now s b =
    handle_hb-IsBounded c.max_room_size msg.id addr now s b
handle-IsBounded bye sha256 c fresh msg addr now s b = id-IsBounded c.max_room_size msg.id s b
handle-IsBounded udp_hello sha256 c fresh msg addr now s b =
    hello-IsBounded c.max_room_size msg.id addr now s b
handle-IsBounded punch_req sha256 c fresh msg addr now s b = b
handle-IsBounded nat_probe sha256 c fresh msg addr now s b = b
handle-IsBounded time_req sha256 c fresh msg addr now s b = b
handle-IsBounded unknown sha256 c fresh msg addr now s b = b

registered-IsBounded :
    (n : ℕ) (mid : Text) (conn : ℕ) (addr : Addr) (now : ℕ) (s : Server)
    → IsBounded n s.rooms
    → IsBounded n (tcp_registered mid conn addr now s).0.rooms
unfolding tcp_registered
registered-IsBounded n mid conn addr now s b =
    let t = record s {
      tcp_mappings = put mid addr s.tcp_mappings;
      tcp_mapping_ts = put mid now s.tcp_mapping_ts;
      tcp_socks = put mid conn s.tcp_socks;
    } in
    let later = touch_entry-IsBounded n mid (get mid s.id_index) now t b in
    elim (Bool-cases (nonempty mid)) [ inl e ↦ rw e later | inr e ↦ rw e b ]

step-IsBounded :
    (sha256 : Text → Text) (c : Settings) (e : Event) (s : Server)
    → IsBounded c.max_room_size s.rooms
    → IsBounded c.max_room_size (step sha256 c e s).0.rooms
unfolding step dispatch tcp_closed cleanup
step-IsBounded sha256 c (datagram fresh msg addr now) s b =
    handle-IsBounded msg.kind sha256 c fresh msg addr now s b
step-IsBounded sha256 c (registers mid conn addr now) s b =
    registered-IsBounded c.max_room_size mid conn addr now s b
step-IsBounded sha256 c (disconnects mid conn now) s b = ground arith
step-IsBounded sha256 c (cleans now later) s b =
    remove_all-IsBounded c.max_room_size (stale c now s s.id_index) s b

-- Whatever happens to a server, one event after another, no room ever holds more members than the
-- limit, if none does at the start.
pub rooms-IsBounded :
    (sha256 : Text → Text) (c : Settings) (es : List Event) (s : Server)
    → IsBounded c.max_room_size s.rooms
    → IsBounded c.max_room_size (run sha256 c es s).rooms
unfolding run
rooms-IsBounded sha256 c [] s b = b
rooms-IsBounded sha256 c (e ∷ es) s b =
    rooms-IsBounded sha256 c es (step sha256 c e s).0 (step-IsBounded sha256 c e s b)
