-- ===== src/Server/Config/Tests.antt =====
-- The theorem on the configuration, at a file and a command line that both give the port, the latter by
-- two names.
use dpmp.Prelude.{◌≡◌, refl, some, [], ◌∷◌, List, Text, text_eq, text_key, codes, pos, has_char}
use dpmp.Dict.{Dict, get, has, put}
use dpmp.Client.Address.{parse_int}
use dpmp.Server.Config.{Value, defaults, File, holds, apply_config, load_config, resolve}

abbrev port_key : Text
port_key = codes "LISTEN_PORT"

abbrev in_file : Dict Text Value
in_file = (port_key, record { as_int = some (pos 4000); as_text = codes "4000" }) ∷ []

abbrev any_file : Text → File
any_file path = holds in_file

abbrev arguments : List Text
arguments =
    codes "--port"
    ∷ codes "5000"
    ∷ codes "--LISTEN_PORT"
    ∷ codes "6000"
    ∷ codes "--port"
    ∷ codes "7000"
    ∷ []

-- The last use of `--port` does not count.
second_name :
    get port_key (load_config (codes "config.json") any_file arguments defaults).0.numbers
    ≡ some (pos 6000)
unfolding get has text_eq apply_config load_config resolve has_char put parse_int
second_name = refl
