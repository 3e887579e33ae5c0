-- ===== src/Server/Join.antt =====
-- handle_join. Its two locked parts run without another handler in between.
pub mod Password
pub mod Entry
pub mod Rejoin
pub mod Sizes
use dpmp.Prelude.{
  ℕ, zero, suc, ◌+◌, ◌≤◌, Bool, true, false, not, ◌&&◌, ◌||◌, Option, none, some, List, [], ◌∷◌,
  ◌++◌, map, if◌then◌else◌, ltb, leb, Text, text_eq, text_key, nonempty, length, select, is_some,
}
use dpmp.Dict.{Dict, get, has, put, remove, keys}
use dpmp.Server.Format.{Addr, strip}
use dpmp.Server.State.{
  Settings, Member, Room, Server, Message, ErrorCode, no_room, room_open, need_password,
  bad_password, room_full, PeerInfo, Reply, error, joined, member_leave, member_join, Output, sends,
  closes, saves, hash_room_pwd, member_for_peer, or_default, members_of, set_room,
}

-- The first locked part, for a room that is there.
unfoldable pub password_error :
    (Text → Text) → Text → Text → Option (Option Text) → Option ErrorCode
unfolding hash_room_pwd
password_error sha256 room given none = if nonempty given then some room_open else none
password_error sha256 room given (some none) = if nonempty given then some room_open else none
password_error sha256 room given (some (some stored)) =
    if not (nonempty given)
    then some need_password
    else if text_eq (hash_room_pwd sha256 room given) stored
    then none
    else some bad_password

-- A room that is not there is made, with the hash of the password or open.
unfoldable pub check_room : (Text → Text) → Text → Text → Server → Option ErrorCode × Server
unfolding password_error
check_room sha256 room given s =
    if has room s.rooms then (password_error sha256 room given (get room s.room_pwd), s) else (
      none,
      record s {
        rooms = put room [] s.rooms;
        room_pwd =
            put room (if nonempty given then some (hash_room_pwd sha256 room given) else none)
              s.room_pwd;
      },
    )

-- The id asked for is taken if nobody has it in the room, or the same device has it.
abbrev reuse_of : Text → Text → Option Member → Option Text
reuse_of reuse did none = some reuse
reuse_of reuse did (some old) = if nonempty did && text_eq old.did did then some reuse else none

-- The first member of the same device.
unfoldable pub find_did : Text → Room → Option Text
find_did did [] = none
find_did did ((m, info) ∷ members) = if text_eq info.did did then some m else find_did did members

abbrev or_same_device : Text → Room → Option Text → Option Text
or_same_device did members (some my_id) = some my_id
or_same_device did members none = if nonempty did then find_did did members else none

unfoldable pub choose_id : Text → Text → Room → Option Text
unfolding find_did
choose_id did reuse members = or_same_device did members (
    if nonempty reuse && leb (length reuse) 64
    then reuse_of reuse did (get reuse members)
    else none)

abbrev is_other : Option Text → Text → Bool
is_other none m = true
is_other (some my_id) m = not (text_eq m my_id)

-- The other ids of the same device.
unfoldable pub duplicates : Text → Option Text → Room → List Text
duplicates did my_id [] = []
duplicates did my_id ((m, info) ∷ members) =
    let later = duplicates did my_id members in
    if text_eq info.did did && is_other my_id m then m ∷ later else later

abbrev close_of : Option ℕ → List Output
close_of none = []
close_of (some conn) = closes conn ∷ []

-- The mappings of an id are forgotten, and its connection is closed.
unfoldable pub forget_mappings : Text → Server → Server × List Output
forget_mappings mid s = (
  record s {
    tcp_socks = remove mid s.tcp_socks;
    tcp_mappings = remove mid s.tcp_mappings;
    udp_mappings = remove mid s.udp_mappings;
  },
  close_of (get mid s.tcp_socks),
)

unfoldable pub remove_duplicates : List Text → Room → Server → Room × Server × List Output
unfolding forget_mappings
remove_duplicates [] members s = (members, s, [])
remove_duplicates (m ∷ dups) members s =
    let (s', closed) = forget_mappings m (record s { id_index = remove m s.id_index }) in
    let (members', s'', more) = remove_duplicates dups (remove m members) s' in
    (members', s'', closed ++ more)

-- `[… for mid, m in members.items() if mid != my_id]`
unfoldable pub others : Text → Room → List (Text × Member)
others my_id [] = []
others my_id ((m, info) ∷ members) =
    let later = others my_id members in if text_eq m my_id then later else (m, info) ∷ later

abbrev describe : Server → List (Text × Member) → List PeerInfo
describe s [] = []
describe s ((m, info) ∷ ms) = member_for_peer s m info ∷ describe s ms

abbrev pub broadcast : Reply → List (Text × Member) → List Output
broadcast r [] = []
broadcast r ((m, info) ∷ ms) = sends info.pub_addr r ∷ broadcast r ms

abbrev leave_all : List Text → List (Text × Member) → List Output
leave_all [] targets = []
leave_all (d ∷ ds) targets = broadcast (member_leave d) targets ++ leave_all ds targets

abbrev is_open : Option (Option Text) → Bool
is_open none = true
is_open (some none) = true
is_open (some (some h)) = false

unfoldable pub new_member : Message → Addr → ℕ → Member
new_member msg addr now = record {
  name = or_default (b'u' ∷ b'n' ∷ b'k' ∷ b'n' ∷ b'o' ∷ b'w' ∷ b'n' ∷ []) msg.name;
  pub_addr = addr;
  lan = or_default [] msg.lan;
  tcp = or_default 0 msg.tcp;
  last_hb = now;
  did = or_default [] msg.did;
}

-- The end of the second part: the member is entered, and the room is told.
unfoldable pub enter :
    Text → Text → Member → Addr → List Text → Room → Server → Server × List Output
unfolding others
enter room my_id member addr removed members s =
    let members' = put my_id member members in
    let s' = record (set_room room members' s) { id_index = put my_id (room, addr) s.id_index } in
    let targets = others my_id members' in
    (
      s',
      sends addr (joined my_id (describe s' targets) (is_open (get room s.room_pwd)))
          ∷ (leave_all removed targets
              ++ (broadcast (member_join (member_for_peer s' my_id member)) targets ++ saves ∷ [])),
    )

abbrev pub settle : Option Text → Text → Server → Text × Server × List Output
settle none fresh s = (fresh, s, [])
settle (some my_id) fresh s = let (s', closed) = forget_mappings my_id s in (my_id, s', closed)

-- The second locked part, in the room as the first left it; `fresh` is the id from `gen_id`.
unfoldable pub enter_room :
    Settings → Text → Text → Message → Addr → ℕ → Room → Server → Server × List Output
unfolding choose_id duplicates remove_duplicates forget_mappings enter new_member strip
enter_room c fresh room msg addr now members s =
    let did = or_default [] msg.did in
    let chosen = choose_id did (strip (or_default [] msg.reuse_id)) members in
    let dups = if nonempty did then duplicates did chosen members else [] in
    let (members', s', closed) = remove_duplicates dups members s in
    let (my_id, s'', closed') = settle chosen fresh s' in
    if leb c.max_room_size (length members') && not (has my_id members')
    then (set_room room members' s'', closed ++ (closed' ++ sends addr (error room_full) ∷ []))
    else let (t, told) = enter room my_id (new_member msg addr now) addr dups members' s'' in
      (t, closed ++ (closed' ++ told))

abbrev pub after_check :
    Settings → Text → Text → Message → Addr → ℕ → Option ErrorCode × Server → Server × List Output
after_check c fresh room msg addr now (some code, s) = (s, sends addr (error code) ∷ [])
after_check c fresh room msg addr now (none, s) =
    enter_room c fresh room msg addr now (members_of room s) s

unfoldable pub handle_join :
    (Text → Text) → Settings → Text → Message → Addr → ℕ → Server → Server × List Output
unfolding check_room enter_room strip
handle_join sha256 c fresh msg addr now s =
    let room = strip (or_default [] msg.room) in
    if not (nonempty room)
    then (s, sends addr (error no_room) ∷ [])
    else after_check c fresh room msg addr now (check_room sha256 room (or_default [] msg.pwd) s)
