-- ===== src/Server/Join/Sizes.antt =====
-- The sizes of the rooms, over handle_join.
use dpmp.Prelude.{
  ℕ, ◌≤◌, ◌≡◌, refl, sym, subst, ◌∙◌, inl, inr, false, not, ◌&&◌, Option, none, some, List, [], ◌∷◌,
  if◌then◌else◌, leb, Text, text_key, nonempty, length, arith, Bool-cases,
}
use dpmp.Dict.{has, put, remove}
use dpmp.Dict.Laws.{length-put, length-remove}
use dpmp.Server.Format.{Addr, strip}
use dpmp.Server.State.{Settings, Member, Room, Server, Message, ErrorCode, or_default, members_of}
use dpmp.Server.Join.{
  check_room, remove_duplicates, forget_mappings, enter, enter_room, handle_join, duplicates,
  choose_id, new_member, settle, after_check,
}
use dpmp.Server.State.Sizes.{IsBounded, put-IsBounded, get-IsBounded}

duplicates_lem :
    (dups : List Text) (members : Room) (s : Server)
    → (length (remove_duplicates dups members s).0 ≤ length members)
      × ((remove_duplicates dups members s).1.rooms ≡ s.rooms)
unfolding remove_duplicates forget_mappings
duplicates_lem [] members s = (omega arith, refl)
duplicates_lem (m ∷ dups) members s =
    let t = (forget_mappings m (record s { id_index = remove m s.id_index })).0 in
    let (a, b) = duplicates_lem dups (remove m members) t in
    let l = length-remove m members in (omega (arith, a, l), b)

settle_lem :
    (chosen : Option Text) (fresh : Text) (s : Server) → (settle chosen fresh s).1.rooms ≡ s.rooms
unfolding forget_mappings
settle_lem none fresh s = refl
settle_lem (some my_id) fresh s = refl

put_full :
    (n : ℕ) (k : Text) (m : Member) (members : Room)
    → length members ≤ n
    → (leb n (length members) && not (has k members)) ≡ false
    → length (put k m members) ≤ n
put_full n k m members b h = let l = length-put k m members in ground (arith, l)

enter-IsBounded :
    (c : Settings) (fresh room : Text) (msg : Message) (addr : Addr) (now : ℕ) (s : Server)
    → IsBounded c.max_room_size s.rooms
    → IsBounded c.max_room_size (enter_room c fresh room msg addr now (members_of room s) s).0.rooms
unfolding enter_room enter
enter-IsBounded c fresh room msg addr now s b =
    let n = c.max_room_size in
    let members = members_of room s in
    let did = or_default [] msg.did in
    let chosen = choose_id did (strip (or_default [] msg.reuse_id)) members in
    let dups = if nonempty did then duplicates did chosen members else [] in
    let (members', s', closed) = remove_duplicates dups members s in
    let d = duplicates_lem dups members s in
    let (my_id, s'', closed') = settle chosen fresh s' in
    let e = settle_lem chosen fresh s' ∙ d.1 in
    let b' = subst (IsBounded n) (sym e) b in
    let g = get-IsBounded n room s.rooms b in
    elim (Bool-cases (leb n (length members') && not (has my_id members'))) [
      | inl f ↦ rw f (put-IsBounded n room members' s''.rooms (omega (arith, g, d.0)) b')
      | inr f ↦ rw f (
          put-IsBounded n room (put my_id (new_member msg addr now) members') s''.rooms
            (put_full n my_id (new_member msg addr now) members' (omega (arith, g, d.0)) f) b')
    ]

check-IsBounded :
    (n : ℕ) (sha256 : Text → Text) (room given : Text) (s : Server)
    → IsBounded n s.rooms
    → IsBounded n (check_room sha256 room given s).1.rooms
unfolding check_room
check-IsBounded n sha256 room given s b =
    let p = put-IsBounded n room [] s.rooms (omega arith) b in ground (arith, p)

after-IsBounded :
    (c : Settings) (fresh room : Text) (msg : Message) (addr : Addr) (now : ℕ)
    (r : Option ErrorCode × Server)
    → IsBounded c.max_room_size r.1.rooms
    → IsBounded c.max_room_size (after_check c fresh room msg addr now r).0.rooms
after-IsBounded c fresh room msg addr now (some code, s) b = b
after-IsBounded c fresh room msg addr now (none, s) b =
    enter-IsBounded c fresh room msg addr now s b

pub join-IsBounded :
    (sha256 : Text → Text) (c : Settings) (fresh : Text) (msg : Message) (addr : Addr) (now : ℕ)
    (s : Server)
    → IsBounded c.max_room_size s.rooms
    → IsBounded c.max_room_size (handle_join sha256 c fresh msg addr now s).0.rooms
unfolding handle_join
join-IsBounded sha256 c fresh msg addr now s b =
    let room = strip (or_default [] msg.room) in
    let checked = check_room sha256 room (or_default [] msg.pwd) s in
    elim (Bool-cases (not (nonempty room))) [
      | inl e ↦ rw e b
      | inr e ↦ rw e (
          after-IsBounded c fresh room msg addr now checked
            (check-IsBounded c.max_room_size sha256 room (or_default [] msg.pwd) s b))
    ]
