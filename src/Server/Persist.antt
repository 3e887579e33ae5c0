-- ===== src/Server/Persist.antt =====
-- save_state and load_state: the data written as JSON and read back. A lock, the file and the JSON
-- text itself are outside: `load` gets the data that `json.load` gives, for a file that is there.
pub mod Restore
use dpmp.Prelude.{
  ℕ, Option, none, some, List, [], ◌∷◌, Bool, true, false, if◌then◌else◌, Text, text_eq, text_key,
}
use dpmp.Dict.{Dict, get, has, put}
use dpmp.Server.Format.{Addr}
use dpmp.Server.State.{Member, Room, Server}

pub record SavedMember : Type 0 where
  pub name : Text
  pub pub_addr : Addr
  pub lan : List Text
  pub tcp : ℕ
  pub did : Text

pub record Saved : Type 0 where
  pub rooms : Dict Text (Dict Text SavedMember)
  pub id_index : Dict Text (Text × Addr)
  pub room_pwd : Dict Text (Option Text)

unfoldable pub save_member : Member → SavedMember
save_member m = record {
  name = m.name;
  pub_addr = m.pub_addr;
  lan = m.lan;
  tcp = m.tcp;
  did = m.did;
}

unfoldable pub load_member : ℕ → SavedMember → Member
load_member now m = record {
  name = m.name;
  pub_addr = m.pub_addr;
  lan = m.lan;
  tcp = m.tcp;
  last_hb = now;
  did = m.did;
}

-- `for k, v in d.items(): out[k] = f(v)`
unfoldable pub copy_into {ℓ ℓ'} :
    {V : Type ℓ} {W : Type ℓ'} → (V → W) → Dict Text V → Dict Text W → Dict Text W
copy_into f [] out = out
copy_into f ((k, v) ∷ d) out = copy_into f d (put k (f v) out)

-- The passwords of the rooms that are there.
unfoldable pub save_pwds :
    Dict Text Room → Dict Text (Option Text) → Dict Text (Option Text) → Dict Text (Option Text)
save_pwds rooms [] out = out
save_pwds rooms ((r, hp) ∷ d) out = save_pwds rooms d (if has r rooms then put r hp out else out)

unfoldable pub save_state : Server → Saved
unfolding copy_into save_pwds save_member
save_state s = record {
  rooms = copy_into (λ members. copy_into save_member members []) s.rooms [];
  id_index = copy_into (λ entry. entry) s.id_index [];
  room_pwd = save_pwds s.rooms s.room_pwd [];
}

-- `saved_pwd.get(rname)`: a password that is missing counts as None
abbrev pub pwd_of : Option (Option Text) → Option Text
pwd_of none = none
pwd_of (some hp) = hp

unfoldable pub load_pwds :
    Dict Text (Option Text)
    → Dict Text (Dict Text SavedMember)
    → Dict Text (Option Text)
    → Dict Text (Option Text)
load_pwds saved [] out = out
load_pwds saved ((r, ms) ∷ d) out = load_pwds saved d (put r (pwd_of (get r saved)) out)

unfoldable pub load_state : ℕ → Saved → Server → Server
unfolding copy_into load_member load_pwds
load_state now data_ s = record s {
  rooms = copy_into (λ members. copy_into (load_member now) members []) data_.rooms s.rooms;
  room_pwd = load_pwds data_.room_pwd data_.rooms s.room_pwd;
  id_index = copy_into (λ entry. entry) data_.id_index s.id_index;
}
