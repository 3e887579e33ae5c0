-- ===== src/Server/Join/Password.antt =====
-- The password of a room, at handle_join.
use dpmp.Prelude.{
  ◌≡◌, true, false, ◌&&◌, some, [], ◌∷◌, if◌then◌else◌, Text, text_eq, text_key, nonempty, arith, ℕ,
}
use dpmp.Dict.{get}
use dpmp.Dict.Laws.{has-get}
use dpmp.Server.Format.{Addr, strip}
use dpmp.Server.State.{
  Settings, Room, Server, Message, need_password, bad_password, sends, error, or_default,
  hash_room_pwd,
}
use dpmp.Server.Join.{password_error, check_room, handle_join}

rejected_of :
    (sha256 : Text → Text) (room given stored : Text)
    → (nonempty given && text_eq (hash_room_pwd sha256 room given) stored) ≡ false
    → password_error sha256 room given (some (some stored))
      ≡ some (if nonempty given then bad_password else need_password)
unfolding password_error
rejected_of sha256 room given stored h = ground arith

-- Whoever joins a room that is there and has a password, without that password, is told so and
-- nothing else happens: no table changes and no other message is sent.
pub join_without_password :
    (sha256 : Text → Text) (c : Settings) (fresh : Text) (msg : Message) (addr : Addr) (now : ℕ)
    (s : Server) (members : Room) (stored : Text)
    → nonempty (strip (or_default [] msg.room)) ≡ true
    → get (strip (or_default [] msg.room)) s.rooms ≡ some members
    → get (strip (or_default [] msg.room)) s.room_pwd ≡ some (some stored)
    → (nonempty (or_default [] msg.pwd)
        && text_eq
            (hash_room_pwd sha256 (strip (or_default [] msg.room)) (or_default [] msg.pwd))
            stored)
      ≡ false
    → handle_join sha256 c fresh msg addr now s ≡ (
      s,
      sends addr (error (if nonempty (or_default [] msg.pwd) then bad_password else need_password))
          ∷ [],
    )
unfolding handle_join check_room
join_without_password sha256 c fresh msg addr now s members stored n r p h =
    let room = strip (or_default [] msg.room) in
    let e = rejected_of sha256 room (or_default [] msg.pwd) stored h in
    ground (arith, has-get room s.rooms, e)
