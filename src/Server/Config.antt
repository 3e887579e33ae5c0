-- ===== src/Server/Config.antt =====
-- load_config and _apply_config of server/信令服务器.py. The globals are two tables by their names, the
-- numbers and the texts. What int() and str() make of a value of the JSON file comes with the value.
pub mod Precedence
pub mod Tests
use dpmp.Prelude.{
  Bool, true, false, not, ◌&&◌, Option, none, some, List, [], ◌∷◌, if◌then◌else◌, Text, starts_with,
  text_eq, text_key, codes, has_char, eqb, drop, ℤ, pos,
}
use dpmp.Dict.{Dict, get, has, put}
use dpmp.Client.Address.{parse_int, split_first}

-- `as_int` is none where int() raises.
pub record Value : Type 0 where
  pub as_int : Option ℤ
  pub as_text : Text

pub record Config : Type 0 where
  pub numbers : Dict Text ℤ
  pub words : Dict Text Text

pub data Kind : Type 0 where
  number word : Kind

-- The keys of DEFAULTS, in the order of _apply_config.
abbrev pub settings : Dict Text Kind
settings =
    (codes "VER", number)
    ∷ (codes "LISTEN_IP", word)
    ∷ (codes "LISTEN_PORT", number)
    ∷ (codes "TCP_LISTEN_PORT", number)
    ∷ (codes "NAT_PROBE_PORT", number)
    ∷ (codes "MAX_ROOM_SIZE", number)
    ∷ (codes "HEARTBEAT_TIMEOUT", number)
    ∷ (codes "CLEAN_INTERVAL", number)
    ∷ (codes "PUNCH_DELAY_MS", number)
    ∷ (codes "MAX_PACKET", number)
    ∷ (codes "STATE_FILE", word)
    ∷ (codes "STATE_SAVE_INTERVAL", number)
    ∷ []

-- DEFAULTS
abbrev pub defaults : Config
defaults = record {
  numbers =
      (codes "VER", pos 2)
      ∷ (codes "LISTEN_PORT", pos 3336)
      ∷ (codes "TCP_LISTEN_PORT", pos 3337)
      ∷ (codes "NAT_PROBE_PORT", pos 3338)
      ∷ (codes "MAX_ROOM_SIZE", pos 16)
      ∷ (codes "HEARTBEAT_TIMEOUT", pos 30)
      ∷ (codes "CLEAN_INTERVAL", pos 5)
      ∷ (codes "PUNCH_DELAY_MS", pos 1000)
      ∷ (codes "MAX_PACKET", pos 65535)
      ∷ (codes "STATE_SAVE_INTERVAL", pos 5)
      ∷ [];
  words =
      (codes "LISTEN_IP", codes "0.0.0.0") ∷ (codes "STATE_FILE", codes "server_state.json") ∷ [];
}

abbrev pub set_number : Text → Option ℤ → Config → Config × Bool
set_number k none c = (c, false)
set_number k (some n) c = (record c { numbers = put k n c.numbers }, true)

-- One line of _apply_config: the global, and whether the conversion went through.
abbrev pub apply_one : Text → Kind → Option Value → Config → Config × Bool
apply_one k kind none c = (c, true)
apply_one k number (some v) c = set_number k v.as_int c
apply_one k word (some v) c = (record c { words = put k v.as_text c.words }, true)

-- What comes after a step that may raise.
abbrev pub and_then : Config × Bool → Config × Bool → Config × Bool
and_then (c, true) r = r
and_then (c, false) r = (c, false)

-- A conversion that raises ends _apply_config; what was set before stays.
unfoldable pub apply_lines : Dict Text Kind → Dict Text Value → Config → Config × Bool
apply_lines [] cfg c = (c, true)
apply_lines ((k, kind) ∷ ks) cfg c =
    let r = apply_one k kind (get k cfg) c in and_then r (apply_lines ks cfg r.0)

-- _apply_config
unfoldable pub apply_config : Dict Text Value → Config → Config × Bool
unfolding apply_lines
apply_config cfg c = apply_lines settings cfg c

abbrev dashes : Text
dashes = codes "--"

abbrev config_option : Text
config_option = codes "--config"

abbrev next_or : Text → List Text → Text
next_or path [] = path
next_or path (b ∷ rest) = b

abbrev has_next : List Text → Bool
has_next [] = false
has_next (b ∷ rest) = true

-- The first loop: the file that the last `--config` names.
unfoldable pub config_path : Text → List Text → Text
unfolding starts_with
config_path path [] = path
config_path path (a ∷ rest) =
    let path' =
      if text_eq a config_option && has_next rest
      then next_or path rest
      else if starts_with (codes "--config=") a
      then drop 9 a
      else path in
    config_path path' rest

-- What the second loop makes of the argument that comes next: it reads it, passes over it, or takes it
-- for the value of an option.
pub data Expecting : Type 0 where
  option : Expecting
  nothing : Expecting
  value_of : Text → Expecting

abbrev put_pair : Option (Text × Text) → Dict Text Text → Dict Text Text
put_pair none kv = kv
put_pair (some (k, v)) kv = put k v kv

-- The second loop; an option without an argument after it is dropped.
unfoldable pub options : Expecting → List Text → Dict Text Text → Dict Text Text
unfolding starts_with split_first
options e [] kv = kv
options nothing (a ∷ rest) kv = options option rest kv
options (value_of k) (a ∷ rest) kv = options option rest (put k a kv)
options option (a ∷ rest) kv =
    let e =
      if text_eq a config_option
      then nothing
      else if starts_with dashes a && not (has_char b'=' a)
      then value_of (drop 2 a)
      else option in
    let kv' =
      if not (text_eq a config_option) && (starts_with dashes a && has_char b'=' a)
      then put_pair (split_first b'=' (drop 2 a)) kv
      else kv in
    options e rest kv'

-- alias
abbrev pub aliases : Dict Text Text
aliases =
    (codes "ip", codes "LISTEN_IP")
    ∷ (codes "port", codes "LISTEN_PORT")
    ∷ (codes "tcp-port", codes "TCP_LISTEN_PORT")
    ∷ (codes "max-room", codes "MAX_ROOM_SIZE")
    ∷ (codes "heartbeat-timeout", codes "HEARTBEAT_TIMEOUT")
    ∷ (codes "clean-interval", codes "CLEAN_INTERVAL")
    ∷ (codes "punch-delay", codes "PUNCH_DELAY_MS")
    ∷ []

abbrev pub or_itself : Text → Option Text → Text
or_itself k none = k
or_itself k (some key) = key

unfoldable pub resolve : Text → Text
resolve k = or_itself k (get k aliases)

-- What the command line gives is a text.
abbrev pub given : Text → Value
given t = record { as_int = parse_int t; as_text = t }

-- The last loop: a key that is not known is passed over, a conversion that raises leaves load_config.
unfoldable pub apply_options : Dict Text Text → Config → Config × Bool
unfolding apply_config resolve
apply_options [] c = (c, true)
apply_options ((k, v) ∷ kv) c =
    let key = resolve k in
    let r = if has key settings then apply_config ((key, given v) ∷ []) c else (c, true) in
    and_then r (apply_options kv r.0)

-- What reading the file comes to: there is none, it cannot be read as a JSON object, or it holds one.
pub data File : Type 0 where
  missing : File
  unreadable : File
  holds : Dict Text Value → File

-- The exceptions of this part are caught.
abbrev pub from_file : File → Config → Config
from_file missing c = c
from_file unreadable c = c
from_file (holds cfg) c = (apply_config cfg c).0

-- load_config, given the default path, the files and the arguments
unfoldable pub load_config : Text → (Text → File) → List Text → Config → Config × Bool
unfolding config_path options apply_options
load_config default_path read argv c =
    apply_options (options option argv []) (from_file (read (config_path default_path argv)) c)
