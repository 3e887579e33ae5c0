-- ===== src/Server/Config/Precedence.antt =====
-- Which of the defaults, the file and the command line a setting comes from.
use dpmp.Prelude.{
  Bool, true, Option, none, some, [], ◌∷◌, if◌then◌else◌, Text, text_eq, text_key, ℤ,
}
use dpmp.Dict.{Dict, has}
use dpmp.Server.Config.{Value, Config, settings, apply_config, resolve, given}

-- A number after a value was applied to it.
abbrev pub overridden : Option Value → Option ℤ → Option ℤ
overridden none old = old
overridden (some v) old = v.as_int

abbrev pub or_before : Option Value → Option Value → Option Value
or_before none before = before
or_before (some v) before = some v

-- The value that the last option for a setting gives, under its name or an alias.
pub last_for : Text → Dict Text Text → Option Value
unfolding resolve
last_for k [] = none
last_for k ((j, v) ∷ kv) =
    or_before (last_for k kv) (if text_eq (resolve j) k then some (given v) else none)

abbrev apply_option : Text → Text → Config → Config × Bool
apply_option key v c = if has key settings then apply_config ((key, given v) ∷ []) c else (c, true)
