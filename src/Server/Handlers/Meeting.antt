-- ===== src/Server/Handlers/Meeting.antt =====
-- Whom handle_punch_req sends to meet.
use dpmp.Prelude.{
  ℕ, ◌+◌, ◌≡◌, refl, sym, ap, ◌∙◌, Option, none, some, List, [], ◌∷◌, Text, text_eq, text_eq_iff,
  text_key, Bool-cases, inl, inr, ◌⊎◌,
}
use dpmp.Dict.{get}
use dpmp.Server.Format.{Addr}
use dpmp.Server.State.{
  Settings, Member, Room, Server, Output, sends, punch_go, member_for_peer, or_default,
}
use dpmp.Server.Handlers.{handle_punch_req, punch_rooms, punch_room, punch_pair}

-- The two are members of one room, in which their ids stand.
pub record AreTogether (me target : Text) (s : Server) (a b : Member) : Type 0 where
  pub room : Text
  pub my_addr : Addr
  pub its_addr : Addr
  pub members : Room
  pub mine : get me s.id_index ≡ some (room, my_addr)
  pub its : get target s.id_index ≡ some (room, its_addr)
  pub there : get room s.rooms ≡ some members
  pub me_there : get me members ≡ some a
  pub it_there : get target members ≡ some b

-- Each is sent the other's description, with the same time.
abbrev pub both_told : Text → Text → ℕ → Server → Member → Member → List Output
both_told me target at s a b =
    sends a.pub_addr (punch_go (member_for_peer s target b) at)
    ∷ sends b.pub_addr (punch_go (member_for_peer s me a) at)
    ∷ []

together_told :
    (c : Settings) (me target : Text) (now : ℕ) (s : Server) (a b : Member)
    → AreTogether me target s a b
    → handle_punch_req c (some me) (some target) now s
      ≡ some (both_told me target (now + c.punch_delay_ms) s a b)
unfolding handle_punch_req
together_told c me target now s a b h =
    let same = (text_eq_iff h.room h.room).1 refl in
    rw (h.mine, h.its, same, h.there, h.me_there, h.it_there) refl

-- Otherwise nothing is sent.
abbrev Together : Text → Text → Server → Type 0
Together me target s = (a : Member) × (b : Member) × AreTogether me target s a b

members_lem :
    (me target room : Text) (x y : Addr) (ms : Room) (at : ℕ) (s : Server) (a b : Option Member)
    → get me s.id_index ≡ some (room, x)
    → get target s.id_index ≡ some (room, y)
    → get room s.rooms ≡ some ms
    → get me ms ≡ a
    → get target ms ≡ b
    → (punch_pair s me target a b at ≡ []) ⊎ Together me target s
members_lem me target room x y ms at s none b i j k e f = inl refl
members_lem me target room x y ms at s (some a) none i j k e f = inl refl
members_lem me target room x y ms at s (some a) (some b) i j k e f = inr (
  a,
  b,
  record {
    room = room;
    my_addr = x;
    its_addr = y;
    members = ms;
    mine = i;
    its = j;
    there = k;
    me_there = e;
    it_there = f;
  },
)

room_lem :
    (me target room : Text) (x y : Addr) (at : ℕ) (s : Server) (o : Option Room)
    → get me s.id_index ≡ some (room, x)
    → get target s.id_index ≡ some (room, y)
    → get room s.rooms ≡ o
    → (or_default [] (punch_room s me target o at) ≡ []) ⊎ Together me target s
room_lem me target room x y at s none i j k = inl refl
room_lem me target room x y at s (some ms) i j k =
    members_lem me target room x y ms at s (get me ms) (get target ms) i j k refl refl

rooms_lem :
    (me target : Text) (at : ℕ) (s : Server) (x y : Option (Text × Addr))
    → get me s.id_index ≡ x
    → get target s.id_index ≡ y
    → (or_default [] (punch_rooms s me target x y at) ≡ []) ⊎ Together me target s
rooms_lem me target at s none y i j = inl refl
rooms_lem me target at s (some x) none i j = inl refl
rooms_lem me target at s (some (room_a, u)) (some (room_b, v)) i j =
    elim (Bool-cases (text_eq room_a room_b)) [
      | inl e ↦
          let same = ap (λ r. some (r, v)) (sym ((text_eq_iff room_a room_b).0 e)) in
          rw e (room_lem me target room_a u v at s (get room_a s.rooms) i (j ∙ same) refl)
      | inr e ↦ rw e (inl refl)
    ]

-- When one member asks for another of its room, each of the two is sent the other's description and the
-- same time, which is the server's time and the delay. When the two are not in one room, or one of them
-- is no member, nothing is sent.
pub punch_req_lem :
    (c : Settings) (me target : Text) (now : ℕ) (s : Server)
    → ((a b : Member)
        → AreTogether me target s a b
        → handle_punch_req c (some me) (some target) now s
          ≡ some (both_told me target (now + c.punch_delay_ms) s a b))
      × (((a b : Member) → ¬ AreTogether me target s a b)
          → or_default [] (handle_punch_req c (some me) (some target) now s) ≡ [])
unfolding handle_punch_req
punch_req_lem c me target now s = (
  λ a b h. together_told c me target now s a b h,
  λ apart.
      elim (rooms_lem me target (now + c.punch_delay_ms) s (get me s.id_index)
        (get target s.id_index) refl refl) [
          | inl nothing ↦ nothing
          | inr (a, b, h) ↦ absurd (apart a b h)
        ],
)
