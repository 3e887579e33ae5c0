-- ===== src/Server/Persist/Restore.antt =====
-- A server that is started again from its file, against the one that was saved.
use dpmp.Prelude.{
  ℕ, ◌≡◌, refl, sym, ap, true, Option, none, some, [], ◌∷◌, if◌then◌else◌, Text, text_eq_iff,
  text_key, arith, ◌∙◌, is_some,
}
use dpmp.Dict.{Dict, get, has, put}
use dpmp.Dict.Laws.{get-put, has-get, Distinct, put-Distinct}
use dpmp.Server.State.{Member, Room, Server, empty_server, member_at, or_default}
use dpmp.Server.Persist.{
  SavedMember, save_member, load_member, copy_into, save_pwds, load_pwds, save_state, load_state,
  pwd_of,
}

-- `f a` if it is there
abbrev pub over {ℓ ℓ'} : {A : Type ℓ} {B : Type ℓ'} → (A → B) → Option A → Option B → Option B
over f none b = b
over f (some a) b = some (f a)

-- Each value is copied; a dictionary has each key once.
get-copy_into {ℓ ℓ'} :
    {V : Type ℓ} {W : Type ℓ'} (f : V → W) (k : Text) (d : Dict Text V) (out : Dict Text W)
    → Distinct d
    → get k (copy_into f d out) ≡ over f (get k d) (get k out)
unfolding copy_into get
get-copy_into f k [] out h = refl
get-copy_into f k ((j, v) ∷ d) out h =
    let rest = get-copy_into f k d (put j (f v) out) h.1 in
    let g = get-put j k (f v) out in ground (arith, rest, g, text_eq_iff j k)

copy_into-Distinct {ℓ ℓ'} :
    {V : Type ℓ} {W : Type ℓ'} (f : V → W) (d : Dict Text V) (out : Dict Text W)
    → Distinct out
    → Distinct (copy_into f d out)
unfolding copy_into
copy_into-Distinct f [] out h = h
copy_into-Distinct f ((j, v) ∷ d) out h =
    copy_into-Distinct f d (put j (f v) out) (put-Distinct j (f v) out h)

get-load_pwds :
    (saved : Dict Text (Option Text)) (k : Text) (d : Dict Text (Dict Text SavedMember))
    (out : Dict Text (Option Text))
    → get k (load_pwds saved d out) ≡ (if has k d then some (pwd_of (get k saved)) else get k out)
unfolding load_pwds has
get-load_pwds saved k [] out = refl
get-load_pwds saved k ((j, v) ∷ d) out =
    let rest = get-load_pwds saved k d (put j (pwd_of (get j saved)) out) in
    let g = get-put j k (pwd_of (get j saved)) out in ground (arith, rest, g, text_eq_iff j k)

get-save_pwds :
    (rooms : Dict Text Room) (k : Text) (d : Dict Text (Option Text))
    (out : Dict Text (Option Text))
    → Distinct d
    → has k rooms ≡ true
    → get k (save_pwds rooms d out) ≡ over (λ x. x) (get k d) (get k out)
unfolding save_pwds get
get-save_pwds rooms k [] out h r = refl
get-save_pwds rooms k ((j, v) ∷ d) out h r =
    let rest = get-save_pwds rooms k d (if has j rooms then put j v out else out) h.1 r in
    let g = get-put j k v out in ground (arith, rest, g, r, text_eq_iff j k)

-- The tables that a running server has: no key twice, in them and in the rooms.
pub record IsTidy (s : Server) : Type 0 where
  pub rooms : Distinct s.rooms
  pub members : (r : Text) (ms : Room) → get r s.rooms ≡ some ms → Distinct ms
  pub id_index : Distinct s.id_index
  pub room_pwd : Distinct s.room_pwd

abbrev pub restarted : ℕ → Option Member → Option Member
restarted now none = none
restarted now (some m) = some (record m { last_hb = now })

abbrev save_room : Room → Dict Text SavedMember
save_room ms = copy_into save_member ms []

abbrev load_room : ℕ → Dict Text SavedMember → Room
load_room now ms = copy_into (load_member now) ms []

over_twice :
    (now : ℕ) (o : Option Member)
    → over (load_member now) (over save_member o none) none ≡ restarted now o
unfolding save_member load_member
over_twice now none = refl
over_twice now (some m) = refl

room_restored :
    (now : ℕ) (mid : Text) (ms : Room)
    → Distinct ms
    → get mid (load_room now (save_room ms)) ≡ restarted now (get mid ms)
unfolding get
room_restored now mid ms h =
    get-copy_into (load_member now) mid (save_room ms) [] (copy_into-Distinct save_member ms [] tt)
    ∙ ap (λ o. over (load_member now) o none) (get-copy_into save_member mid ms [] h)
    ∙ over_twice now (get mid ms)

rooms_restored :
    (now : ℕ) (room : Text) (s : Server)
    → IsTidy s
    → get room (load_state now (save_state s) empty_server).rooms
      ≡ over (load_room now) (over save_room (get room s.rooms) none) none
unfolding save_state load_state get
rooms_restored now room s h =
    get-copy_into (load_room now) room (copy_into save_room s.rooms []) []
      (copy_into-Distinct save_room s.rooms [] tt)
    ∙ ap (λ o. over (load_room now) o none) (get-copy_into save_room room s.rooms [] h.rooms)

member_restored :
    (now : ℕ) (mid : Text) (o : Option Room)
    → ((ms : Room) → o ≡ some ms → Distinct ms)
    → get mid (or_default [] (over (load_room now) (over save_room o none) none))
      ≡ restarted now (get mid (or_default [] o))
unfolding get
member_restored now mid none h = refl
member_restored now mid (some ms) h = room_restored now mid ms (h ms refl)

over_id {ℓ} : {A : Type ℓ} (o : Option A) → over (λ x. x) (over (λ x. x) o none) none ≡ o
over_id none = refl
over_id (some a) = refl

pwd_of-over : (o : Option (Option Text)) → pwd_of (over (λ x. x) o none) ≡ pwd_of o
pwd_of-over none = refl
pwd_of-over (some a) = refl

is_some-over {ℓ ℓ'} :
    {A : Type ℓ} {B : Type ℓ'} (f : A → B) (o : Option A) → is_some (over f o none) ≡ is_some o
is_some-over f none = refl
is_some-over f (some a) = refl

pwd_restored :
    (now : ℕ) (room : Text) (s : Server)
    → IsTidy s
    → has room s.rooms ≡ true
    → get room (load_state now (save_state s) empty_server).room_pwd
      ≡ some (pwd_of (get room s.room_pwd))
unfolding save_state load_state get
pwd_restored now room s h there =
    let saved = copy_into save_room s.rooms [] in
    let pwds = save_pwds s.rooms s.room_pwd [] in
    let a = get-load_pwds pwds room saved [] in
    let b = get-copy_into save_room room s.rooms [] h.rooms in
    let c = get-save_pwds s.rooms room s.room_pwd [] h.room_pwd there in
    let t =
      has-get room saved
      ∙ ap is_some b
      ∙ is_some-over save_room (get room s.rooms)
      ∙ sym (has-get room s.rooms)
      ∙ there in
    a
    ∙ ap (λ x. if x then some (pwd_of (get room pwds)) else none) t
    ∙ ap (λ o. some (pwd_of o)) c
    ∙ ap (λ o. some o) (pwd_of-over (get room s.room_pwd))

-- A server started from the file that another has saved holds the same members in the same rooms, all
-- with the time of the start as their last sign of life, the same addresses under the ids, and for
-- each room the same password or none.
pub state_restored :
    (now : ℕ) (s : Server)
    → IsTidy s
    → (room mid : Text)
    → (member_at room mid (load_state now (save_state s) empty_server)
        ≡ restarted now (member_at room mid s))
      × (get mid (load_state now (save_state s) empty_server).id_index ≡ get mid s.id_index)
      × (has room s.rooms ≡ true
          → get room (load_state now (save_state s) empty_server).room_pwd
            ≡ some (pwd_of (get room s.room_pwd)))
unfolding load_state save_state get
state_restored now s h room mid = (
  ap (λ o. get mid (or_default [] o)) (rooms_restored now room s h)
      ∙ member_restored now mid (get room s.rooms) (h.members room),
  get-copy_into (λ x. x) mid (copy_into (λ x. x) s.id_index []) []
        (copy_into-Distinct (λ x. x) s.id_index [] tt)
      ∙ ap (λ o. over (λ x. x) o none) (get-copy_into (λ x. x) mid s.id_index [] h.id_index)
      ∙ over_id (get mid s.id_index),
  pwd_restored now room s h,
)
