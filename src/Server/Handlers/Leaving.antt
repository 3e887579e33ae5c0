-- ===== src/Server/Handlers/Leaving.antt =====
-- A member that leaves, by its own word or by the clean-up.
use dpmp.Prelude.{Option, none, some, [], ◌∷◌, Text, text_key}
use dpmp.Server.State.{Room, Server}

-- The room that is left, or none.
abbrev or_gone : Room → Option Room
or_gone [] = none
or_gone (x ∷ xs) = some (x ∷ xs)

abbrev pwd_if_left : Room → Option (Option Text) → Option (Option Text)
pwd_if_left [] hp = none
pwd_if_left (x ∷ xs) hp = hp
