-- ===== src/Client/Holes/Rejoin.antt =====
-- A client that comes back to its room, and what the server makes of it.
use dpmp.Prelude.{
  ℕ, ◌≤◌, ◌≡◌, [], ◌∷◌, ◌∙◌, refl, ap, true, none, some, Text, text_key, nonempty, length,
}
use dpmp.Dict.{get}
use dpmp.Dict.Laws.{Distinct}
use dpmp.Server.Format.{Addr, strip}
use dpmp.Server.State.{Settings, Member, Server, or_default, members_of, member_at}
use dpmp.Server.Join.{check_room, handle_join, new_member}
use dpmp.Server.Join.Rejoin.{IsOnly, rejoined}
use dpmp.Client.Holes.{Identity, if_nonempty, join_message}

given_back : (t : Text) → or_default [] (if_nonempty t) ≡ t
given_back [] = refl
given_back (c ∷ t) = refl

-- A client that comes back to its room with its device id and asks for the id it had gets that id: the
-- table of ids leads to its new address, the room has its new description under the id, and no other
-- member of the room is of its device. The server has to let it in, and to hold the id for that
-- device in the room, where no id stands twice; the texts have no white space around them, and the id
-- is no longer than 64 characters.
pub rejoin_keeps_id :
    (sha256 : Text → Text) (c : Settings) (fresh id : Text) (i : Identity) (addr : Addr) (now : ℕ)
    (s : Server) (old : Member)
    → strip i.room ≡ i.room
    → nonempty i.room ≡ true
    → check_room sha256 i.room i.password s ≡ (none, s)
    → nonempty i.device_id ≡ true
    → strip id ≡ id
    → nonempty id ≡ true
    → length id ≤ 64
    → Distinct (members_of i.room s)
    → member_at i.room id s ≡ some old
    → old.did ≡ i.device_id
    → (get id (handle_join sha256 c fresh (join_message i id) addr now s).0.id_index
        ≡ some (i.room, addr))
      × (member_at i.room id (handle_join sha256 c fresh (join_message i id) addr now s).0
          ≡ some (new_member (join_message i id) addr now))
      × IsOnly i.device_id id
          (members_of i.room (handle_join sha256 c fresh (join_message i id) addr now s).0)
unfolding handle_join join_message
rejoin_keeps_id sha256 c fresh id i addr now s old r nr checked nd t n l u h d =
    let p = given_back i.password in
    let q = given_back id in
    let done =
      rejoined c fresh i.room id (join_message i id) addr now s old nd (ap strip q ∙ t) n l u h d in
    rw (r, nr, p, checked) done
