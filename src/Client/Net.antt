-- ===== src/Client/Net.antt =====
-- dpmp/util/net.py: addresses, subnets and ids of the machine. What the operating system says, and
-- whether ipaddress.IPv4Address reads a text, comes from outside.
use dpmp.Prelude.{
  ℕ, zero, suc, ◌+◌, ◌/◌, ◌%◌, ◌^◌, Bool, not, ◌&&◌, ◌||◌, Option, none, some, List, [], ◌∷◌, ◌++◌,
  if◌then◌else◌, ltb, eqb, Text, has_char, nonempty, starts_with, text_eq, codes, ℤ, pos, leb_ℤ,
  select,
}
use dpmp.Client.Address.{parse_int, split_first}

-- A set, as a list in the order of insertion.
unfoldable pub insert : Text → List Text → List Text
insert x [] = x ∷ []
insert x (y ∷ ys) = let rest = insert x ys in if text_eq y x then y ∷ ys else y ∷ rest

unfoldable pub as_set : List Text → List Text
unfolding insert
as_set [] = []
as_set (x ∷ xs) = insert x (as_set xs)

abbrev is_local : Bool → Text → Bool
is_local ipv6 addr =
    if ipv6
    then has_char b':' addr && not (starts_with (codes "::1") addr)
    else has_char b'.' addr && not (starts_with (codes "127.") addr)

abbrev or_own : Option Text → List Text → List Text
or_own own (ip ∷ ips) = ip ∷ ips
or_own none [] = []
or_own (some ip) [] = ip ∷ []

-- get_all_local_ips: `infos` is what getaddrinfo gives, `own` the address of a socket towards 8.8.8.8
unfoldable pub get_all_local_ips : Bool → List Text → Option Text → List Text
unfolding as_set starts_with
get_all_local_ips ipv6 infos own = or_own own (as_set (select (is_local ipv6) infos))

abbrev first_of : Option (Text × Text) → Text → Text
first_of none t = t
first_of (some (a, b)) t = a

abbrev second_of : Option (Text × Text) → Option Text
second_of none = none
second_of (some (a, b)) = some (first_of (split_first b'.' b) b)

abbrev read_second : Option Text → Option ℤ
read_second none = none
read_second (some t) = parse_int t

-- `int(ip_str.split(".")[1])`; none where it raises
abbrev pub second_number : Text → Option ℤ
second_number ip = read_second (second_of (split_first b'.' ip))

-- The branch for 172., whose condition may raise.
abbrev private_or : Text → Option ℤ → Option Text
private_or ip none = none
private_or ip (some n) =
    if leb_ℤ (pos 16) n && leb_ℤ n (pos 31)
    then some (ip ++ codes "/16")
    else some (ip ++ codes "/24")

-- get_subnet_for_ip
unfoldable pub get_subnet_for_ip : (Text → Bool) → Text → Option Text
unfolding split_first parse_int starts_with
get_subnet_for_ip is_ipv4 ip =
    if has_char b':' ip || not (is_ipv4 ip)
    then none
    else if starts_with (codes "169.254") ip
    then some (ip ++ codes "/16")
    else if starts_with (codes "10.") ip
    then some (ip ++ codes "/24")
    else if starts_with (codes "172.") ip
    then private_or ip (second_number ip)
    else some (ip ++ codes "/24")

abbrev with_subnet : Option Text → List Text → List Text
with_subnet none subnets = subnets
with_subnet (some cidr) subnets = insert cidr subnets

-- get_all_subnets, for the local addresses
unfoldable pub get_all_subnets : (Text → Bool) → List Text → List Text
unfolding get_subnet_for_ip insert
get_all_subnets is_ipv4 [] = []
get_all_subnets is_ipv4 (ip ∷ ips) =
    with_subnet (get_subnet_for_ip is_ipv4 ip) (get_all_subnets is_ipv4 ips)

abbrev broadcast_of : (Text → Option Text) → Option Text → Option Text
broadcast_of broadcast none = none
broadcast_of broadcast (some cidr) = broadcast cidr

unfoldable pub broadcasts : (Text → Bool) → (Text → Option Text) → List Text → List Text
unfolding get_subnet_for_ip insert
broadcasts is_ipv4 broadcast [] = []
broadcasts is_ipv4 broadcast (ip ∷ ips) =
    with_subnet (broadcast_of broadcast (get_subnet_for_ip is_ipv4 ip))
      (broadcasts is_ipv4 broadcast ips)

abbrev or_everybody : List Text → List Text
or_everybody [] = codes "255.255.255.255" ∷ []
or_everybody (a ∷ rest) = a ∷ rest

-- get_broadcast_addrs: `broadcast` is ipaddress.IPv4Network's broadcast address
unfoldable pub get_broadcast_addrs : (Text → Bool) → (Text → Option Text) → List Text → List Text
unfolding broadcasts
get_broadcast_addrs is_ipv4 broadcast ips = or_everybody (broadcasts is_ipv4 broadcast ips)

-- A digit of "%X"
abbrev hex_digit : ℕ → ℕ
hex_digit d = if ltb d 10 then 48 + d else 55 + d

-- The lowest `n` bytes of a number, two digits each, with colons between them.
unfoldable pub hex_bytes : ℕ → ℕ → Text
hex_bytes zero node = []
hex_bytes (suc zero) node = hex_digit (node / 16 % 16) ∷ hex_digit (node % 16) ∷ []
hex_bytes (suc (suc n)) node =
    hex_bytes (suc n) (node / 256)
    ++ (b':' ∷ hex_digit (node / 16 % 16) ∷ hex_digit (node % 16) ∷ [])

-- get_mac_address: `node` is uuid.getnode(), of 48 bits, whose multicast bit marks one made up
unfoldable pub get_mac_address : ℕ → Text
unfolding hex_bytes
get_mac_address node = if eqb (node / 2 ^ 40 % 2) 1 then [] else hex_bytes 6 node

abbrev pub stored_or : Text → Option Text → Text × Option Text
stored_or fresh none = (fresh, some fresh)
stored_or fresh (some did) = if nonempty did then (did, none) else (fresh, some fresh)

-- get_or_create_device_id: the id under "device_id" in the file, if it can be read; the id, and what is
-- written to the file
unfoldable pub get_or_create_device_id : Text → Option Text → Text × Option Text
get_or_create_device_id fresh stored = stored_or fresh stored
