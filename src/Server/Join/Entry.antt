-- ===== src/Server/Join/Entry.antt =====
-- An id that a joining client asks for.
use dpmp.Prelude.{
  ℕ, ◌≤◌, ◌<◌, ◌≡◌, ap, true, false, not, ◌&&◌, none, some, [], leb, Text, text_eq, text_eq_iff,
  text_key, nonempty, length, arith,
}
use dpmp.Dict.{get, has, put}
use dpmp.Dict.Laws.{get-put}
use dpmp.Server.Format.{Addr, strip}
use dpmp.Server.State.{Settings, Room, Server, Message, or_default, members_of, member_at}
use dpmp.Server.Join.{
  check_room, handle_join, enter_room, enter, choose_id, remove_duplicates, forget_mappings,
  new_member,
}

chosen_lem :
    (reuse : Text) (members : Room)
    → nonempty reuse ≡ true
    → length reuse ≤ 64
    → get reuse members ≡ none
    → choose_id [] reuse members ≡ some reuse
unfolding choose_id
chosen_lem reuse members n l h = ground (arith, n, h)

entered :
    (c : Settings) (fresh room other reuse : Text) (msg : Message) (addr : Addr) (now : ℕ)
    (s : Server)
    → or_default [] msg.did ≡ []
    → strip (or_default [] msg.reuse_id) ≡ reuse
    → nonempty reuse ≡ true
    → length reuse ≤ 64
    → get reuse (members_of room s) ≡ none
    → length (members_of room s) < c.max_room_size
    → text_eq room other ≡ false
    → (get reuse (enter_room c fresh room msg addr now (members_of room s) s).0.id_index
        ≡ some (room, addr))
      × (get other (enter_room c fresh room msg addr now (members_of room s) s).0.rooms
          ≡ get other s.rooms)
unfolding enter_room enter remove_duplicates forget_mappings
entered c fresh room other reuse msg addr now s d r n l h small o =
    let members = members_of room s in
    let e = chosen_lem reuse members n l h in
    let new = put reuse (new_member msg addr now) members in
    let full : (leb c.max_room_size (length members) && not (has reuse members)) ≡ false =
      ground arith in
    let i = get-put reuse reuse (room, addr) s.id_index in
    let q = get-put room other new s.rooms in
    rw (d, r, e, full) (ground (arith, i, text_eq_iff reuse reuse), ground (arith, q, o))

-- A client without a device id that may join a room which is there and not full, and asks for an id
-- that nobody has in that room, gets it, also when a member of another room has it: the table of ids
-- then leads to the newcomer, and the member of the other room stays in its room.
pub id_taken_over :
    (sha256 : Text → Text) (c : Settings) (fresh other reuse : Text) (msg : Message) (addr : Addr)
    (now : ℕ) (s : Server)
    → nonempty (strip (or_default [] msg.room)) ≡ true
    → check_room sha256 (strip (or_default [] msg.room)) (or_default [] msg.pwd) s ≡ (none, s)
    → or_default [] msg.did ≡ []
    → strip (or_default [] msg.reuse_id) ≡ reuse
    → nonempty reuse ≡ true
    → length reuse ≤ 64
    → get reuse (members_of (strip (or_default [] msg.room)) s) ≡ none
    → length (members_of (strip (or_default [] msg.room)) s) < c.max_room_size
    → text_eq (strip (or_default [] msg.room)) other ≡ false
    → (get reuse (handle_join sha256 c fresh msg addr now s).0.id_index
        ≡ some (strip (or_default [] msg.room), addr))
      × (member_at other reuse (handle_join sha256 c fresh msg addr now s).0
          ≡ member_at other reuse s)
unfolding handle_join
id_taken_over sha256 c fresh other reuse msg addr now s room checked d r n l h small o =
    let (i, q) =
      entered c fresh (strip (or_default [] msg.room)) other reuse msg addr now s d r n l h small
        o in
    rw (room, checked) (i, ap (λ ms. get reuse (or_default [] ms)) q)
