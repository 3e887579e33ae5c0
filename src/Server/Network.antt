-- ===== src/Server/Network.antt =====
-- The rest of server/信令服务器.py that is no handler: the machine's own addresses, the choice of the
-- socket that sends, the file of the state, and when it is saved. What the operating system, the
-- network and os.path say comes from outside.
use dpmp.Prelude.{
  ℕ, ◌-◌, Bool, true, false, not, ◌&&◌, Option, none, some, List, [], ◌∷◌, if◌then◌else◌, leb, Text,
  text_eq, text_lt, starts_with, has_char, nonempty, codes, length,
}
use dpmp.Server.Format.{Addr, strip}

-- A set of texts, which `sorted` brings in order.
unfoldable pub insert : Text → List Text → List Text
unfolding text_lt
insert ip [] = ip ∷ []
insert ip (x ∷ xs) =
    let later = insert ip xs in
    if text_eq x ip then x ∷ xs else if text_lt ip x then ip ∷ x ∷ xs else x ∷ later

-- The loop over the targets: the address of the first socket that connects.
unfoldable pub own_address : List (Option Text) → List Text
own_address [] = []
own_address (none ∷ targets) = own_address targets
own_address (some ip ∷ targets) = ip ∷ []

unfoldable pub with_hosts : List Text → List Text → List Text
unfolding insert starts_with
with_hosts [] ips = ips
with_hosts (ip ∷ infos) ips =
    let ips' = insert ip ips in
    with_hosts infos (if nonempty ip && not (starts_with (codes "127.") ip) then ips' else ips)

-- get_lan_ips
unfoldable pub get_lan_ips : List (Option Text) → List Text → List Text
unfolding own_address with_hosts
get_lan_ips targets infos = with_hosts infos (own_address targets)

abbrev is_public_answer : Text → Bool
is_public_answer ip = nonempty ip && leb (length ip) 45 && not (has_char b' ' ip)

-- get_public_ip, given what each source answers, none where the request fails
unfoldable pub get_public_ip : List (Option Text) → Option Text
unfolding strip
get_public_ip [] = none
get_public_ip (none ∷ sources) = get_public_ip sources
get_public_ip (some answer ∷ sources) =
    let later = get_public_ip sources in
    if is_public_answer (strip answer) then some (strip answer) else later

-- send_to: the socket by the address, of _udp4 and _udp6, if there is one
unfoldable pub send_to : Option ℕ → Option ℕ → Addr → Option ℕ
send_to udp4 udp6 (ip, port) = if has_char b':' ip then udp6 else udp4

-- _resolve_state_path
unfoldable pub resolve_state_path : (Text → Bool) → (Text → Text) → Text → Text
resolve_state_path is_absolute beside state_file =
    if is_absolute state_file then state_file else beside state_file

-- The end of a round of cleanup_loop: whether the state is saved, and when it last was.
unfoldable pub save_round : ℕ → ℕ → ℕ → Bool × ℕ
save_round interval now last_save =
    if leb interval (now - last_save) then (true, now) else (false, last_save)
