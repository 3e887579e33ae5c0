-- ===== src/Server/Listening/Alive.antt =====
-- What a receive loop survives.
use dpmp.Dict.{Dict}
use dpmp.Prelude.{
  Bool, Option, none, some, ltb, leb, ◌&&◌, ◌||◌, ℕ, ◌≡◌, refl, sym, ap, ◌∙◌, true, false, inl, inr,
  Bool-cases, ◌⊎◌, List, [], ◌∷◌, ◌++◌, Text,
}
use dpmp.Server.Format.{Addr}
use dpmp.Server.State.{Settings, Room, Message, Server}
use dpmp.Server.Events.{Event, datagram, run}
use dpmp.Server.Listening.{
  Body, no_json, no_object, object, Received, broken, packet, raises, handled, seen_id,
  udp_recv_loop,
}

-- The datagrams that reach a handler, as events of the server.
abbrev pub event_of : Body → Addr → ℕ → Text → List Event → List Event
event_of no_json addr now fresh es = es
event_of no_object addr now fresh es = es
event_of (object msg odd_id odd_target) addr now fresh es =
    datagram fresh (record msg { id = seen_id odd_id msg.id }) addr now ∷ es

abbrev pub events_of : List Received → List Event
events_of [] = []
events_of (broken ∷ rs) = events_of rs
events_of (packet body addr now fresh ∷ rs) = event_of body addr now fresh (events_of rs)

-- A text without surrogates, which can be printed and hashed: the others have no encoding in UTF-8.
abbrev plain : Text → Bool
plain [] = true
plain (c ∷ cs) = (ltb c 55296 || leb 57344 c) && plain cs

abbrev plain_field : Option Text → Bool
plain_field none = true
plain_field (some t) = plain t

abbrev plain_message : Message → Bool
plain_message m =
    plain_field m.room
    && (plain_field m.pwd
        && (plain_field m.name
            && (plain_field m.did
                && (plain_field m.reuse_id && (plain_field m.id && plain_field m.target)))))

abbrev pub plain_body : Body → Bool
plain_body no_json = true
plain_body no_object = true
plain_body (object msg odd_id odd_target) = plain_message msg

abbrev pub all_plain : List Received → Bool
all_plain [] = true
all_plain (broken ∷ rs) = all_plain rs
all_plain (packet body addr now fresh ∷ rs) = plain fresh && (plain_body body && all_plain rs)

abbrev plain_members : Room → Bool
plain_members [] = true
plain_members ((mid, m) ∷ ms) = plain mid && (plain m.name && plain_members ms)

abbrev pub plain_rooms : Dict Text Room → Bool
plain_rooms [] = true
plain_rooms ((room, ms) ∷ rooms) = plain room && (plain_members ms && plain_rooms rooms)

module _ (sha256 : Text → Text) (c : Settings) where
  -- Where a loop has ended: some datagram, after those that it has served, has made a handler raise.
  pub record EndsAt (rs : List Received) (s s' : Server) : Type 0 where
    pub served : List Received
    pub rest : List Received
    pub body : Body
    pub addr : Addr
    pub now : ℕ
    pub fresh : Text
    pub split : rs ≡ served ++ packet body addr now fresh ∷ rest
    pub state : s' ≡ run sha256 c (events_of served) s
    pub fault : raises body s' ≡ true

  one_event :
      (body : Body) (addr : Addr) (now : ℕ) (fresh : Text) (es : List Event) (s : Server)
      → run sha256 c (event_of body addr now fresh es) s
        ≡ run sha256 c es (handled sha256 c body addr now fresh s).0
  unfolding run handled
  one_event no_json addr now fresh es s = refl
  one_event no_object addr now fresh es s = refl
  one_event (object msg odd_id odd_target) addr now fresh es s = refl

  no_true : false ≡ true → ⊥
  no_true h = cc

  survived :
      (rs : List Received) (s : Server)
      → (udp_recv_loop sha256 c rs s).2 ≡ true
      → (udp_recv_loop sha256 c rs s).0 ≡ run sha256 c (events_of rs) s
  unfolding udp_recv_loop run
  survived [] s h = refl
  survived (broken ∷ rs) s h = survived rs s h
  survived (packet body addr now fresh ∷ rs) s h =
      let s' = (handled sha256 c body addr now fresh s).0 in
      elim (Bool-cases (raises body s)) [
        | inl e ↦ absurd (no_true (rw e at h))
        | inr e ↦
            rw e (survived rs s' (rw e at h) ∙ sym (one_event body addr now fresh (events_of rs) s))
      ]

  -- One datagram that is served comes first.
  later_end :
      (r : Received) (rs : List Received) (s t s' : Server)
      → ((es : List Received) → run sha256 c (events_of (r ∷ es)) s ≡ run sha256 c (events_of es) t)
      → EndsAt rs t s'
      → EndsAt (r ∷ rs) s s'
  later_end r rs s t s' one h = record {
    served = r ∷ h.served;
    rest = h.rest;
    body = h.body;
    addr = h.addr;
    now = h.now;
    fresh = h.fresh;
    split = ap (◌∷◌ r) h.split;
    state = h.state ∙ sym (one h.served);
    fault = h.fault;
  }

  ended :
      (rs : List Received) (s : Server)
      → (udp_recv_loop sha256 c rs s).2 ≡ false
      → EndsAt rs s (udp_recv_loop sha256 c rs s).0
  unfolding udp_recv_loop run
  ended [] s h = absurd (no_true (sym h))
  ended (broken ∷ rs) s h = later_end broken rs s s _ (λ es. refl) (ended rs s h)
  ended (packet body addr now fresh ∷ rs) s h =
      let t = (handled sha256 c body addr now fresh s).0 in
      elim (Bool-cases (raises body s)) [
        | inl e ↦ rw e (record {
          served = [];
          rest = rs;
          body = body;
          addr = addr;
          now = now;
          fresh = fresh;
          split = refl;
          state = refl;
          fault = e;
        })
        | inr e ↦ rw e (
            later_end (packet body addr now fresh) rs s t _
              (λ es. one_event body addr now fresh (events_of es) s) (ended rs t (rw e at h)))
      ]

  stopped :
      (served rest : List Received) (body : Body) (addr : Addr) (now : ℕ) (fresh : Text)
      (s : Server)
      → (udp_recv_loop sha256 c served s).2 ≡ true
      → raises body (udp_recv_loop sha256 c served s).0 ≡ true
      → udp_recv_loop sha256 c (served ++ packet body addr now fresh ∷ rest) s
        ≡ ((udp_recv_loop sha256 c served s).0, (udp_recv_loop sha256 c served s).1, false)
  unfolding udp_recv_loop
  stopped [] rest body addr now fresh s h r = rw r refl
  stopped (broken ∷ rs) rest body addr now fresh s h r = stopped rs rest body addr now fresh s h r
  stopped (packet body' addr' now' fresh' ∷ rs) rest body addr now fresh s h r =
      let s' = (handled sha256 c body' addr' now' fresh' s).0 in
      elim (Bool-cases (raises body' s)) [
        | inl e ↦ absurd (no_true (rw e at h))
        | inr e ↦ rw (e, stopped rs rest body addr now fresh s' (rw e at h) (rw e at r)) refl
      ]

  -- For datagrams and rooms whose texts have no surrogates: while a receive loop runs, the server is
  -- where the datagrams with an object have brought it, and what is no JSON, or cannot be received,
  -- changes nothing. The loop ends exactly at a datagram that makes a handler raise, for which it is
  -- enough to be JSON that is no object: the server then stays where the datagrams before it have
  -- brought it, and nothing that comes later is served.
  pub recv_loop_lem :
      (served rest : List Received) (body : Body) (addr : Addr) (now : ℕ) (fresh : Text)
      (s : Server)
      → plain_rooms s.rooms ≡ true
      → all_plain served ≡ true
      → plain_body body ≡ true
      → ((udp_recv_loop sha256 c served s).2 ≡ true
          → (udp_recv_loop sha256 c served s).0 ≡ run sha256 c (events_of served) s)
        × ((udp_recv_loop sha256 c served s).2 ≡ false
            → EndsAt served s (udp_recv_loop sha256 c served s).0)
        × ((udp_recv_loop sha256 c served s).2 ≡ true
            → (body ≡ no_object) ⊎ (raises body (udp_recv_loop sha256 c served s).0 ≡ true)
            → udp_recv_loop sha256 c (served ++ packet body addr now fresh ∷ rest) s
              ≡ ((udp_recv_loop sha256 c served s).0, (udp_recv_loop sha256 c served s).1, false))
  recv_loop_lem served rest body addr now fresh s known plain_served plain_next = (
    survived served s,
    ended served s,
    λ on fault.
        stopped served rest body addr now fresh s on
          (elim fault [ inl e ↦ rw e (unfold raises in refl) | inr r ↦ r ]),
  )
