-- ===== src/Server/Listening.antt =====
-- The loops and the start of server/信令服务器.py: what comes in from a socket, which sockets there are,
-- and the thread of the clean-up. What binds, and what `recvfrom` and `accept` give, is from outside.
pub mod Alive
pub mod Tests
use dpmp.Prelude.{
  ℕ, ◌+◌, Bool, true, false, not, ◌&&◌, ◌||◌, Option, none, some, List, [], ◌∷◌, ◌++◌,
  if◌then◌else◌, Text, text_eq, text_key, is_some, codes, length,
}
use dpmp.Dict.{Dict, get, has}
use dpmp.Server.Format.{Addr, decimal}
use dpmp.Server.State.{
  Settings, Member, Room, Server, MessageType, hb, punch_req, bye, udp_hello, Message, Output,
  saves,
}
use dpmp.Server.Handlers.{dispatch, cleanup}
use dpmp.Server.Network.{save_round}

-- The text of a datagram: no JSON, JSON that is no object, or an object. Its `id` or `target` may be a
-- list with elements, which Python does not take for a key; the fields are otherwise as in State.
pub data Body : Type 0 where
  no_json no_object : Body
  object : Message → Bool → Bool → Body

-- `recvfrom` raises or gives a datagram; with the time, and an id for who may join by it.
pub data Received : Type 0 where
  broken : Received
  packet : Body → Addr → ℕ → Text → Received

-- `rooms[room_a]` for two ids of one room
abbrev no_room : Server → Option (Text × Addr) → Option (Text × Addr) → Bool
no_room s none b = false
no_room s (some a) none = false
no_room s (some (room_a, x)) (some (room_b, y)) = text_eq room_a room_b && not (has room_a s.rooms)

abbrev entry_of : Option Text → Server → Option (Text × Addr)
entry_of none s = none
entry_of (some mid) s = get mid s.id_index

abbrev nonempty_dict {ℓ} : {V : Type ℓ} → Dict Text V → Bool
nonempty_dict [] = false
nonempty_dict (x ∷ xs) = true

-- Whether a handler raises, for texts without surrogates: the others can be neither printed nor hashed,
-- and raise in a handler that does so. `pop` on an empty dict does not look at its key.
abbrev handler_raises : MessageType → Message → Bool → Bool → Server → Bool
handler_raises hb msg odd_id odd_target s = odd_id
handler_raises udp_hello msg odd_id odd_target s = odd_id
handler_raises bye msg odd_id odd_target s = odd_id && nonempty_dict s.id_index
handler_raises punch_req msg odd_id odd_target s =
    odd_id || odd_target || no_room s (entry_of msg.id s) (entry_of msg.target s)
handler_raises _ msg odd_id odd_target s = false

unfoldable pub raises : Body → Server → Bool
raises no_json s = false
raises no_object s = true
raises (object msg odd_id odd_target) s = handler_raises msg.kind msg odd_id odd_target s

-- dispatch with its `json.loads`, where it does not raise. A list for an id is no key of any table.
abbrev seen_id : Bool → Option Text → Option Text
seen_id true id = none
seen_id false id = id

unfoldable pub handled :
    (Text → Text) → Settings → Body → Addr → ℕ → Text → Server → Server × List Output
handled sha256 c no_json addr now fresh s = (s, [])
handled sha256 c no_object addr now fresh s = (s, [])
handled sha256 c (object msg odd_id odd_target) addr now fresh s =
    dispatch sha256 c fresh (record msg { id = seen_id odd_id msg.id }) addr now s

-- _udp_recv_loop: the state, what it has sent, and whether it still runs
unfoldable pub udp_recv_loop :
    (Text → Text) → Settings → List Received → Server → Server × List Output × Bool
unfolding handled raises
udp_recv_loop sha256 c [] s = (s, [], true)
udp_recv_loop sha256 c (broken ∷ rs) s = udp_recv_loop sha256 c rs s
udp_recv_loop sha256 c (packet body addr now fresh ∷ rs) s =
    let (s', out) = handled sha256 c body addr now fresh s in
    let (s'', more, alive) = udp_recv_loop sha256 c rs s' in
    if raises body s then (s, [], false) else (s'', out ++ more, alive)

-- _tcp_accept_loop: each connection gets a thread of _handle_tcp_reg; an error is passed over.
unfoldable pub tcp_accept_loop : List (Option (ℕ × Addr)) → List (ℕ × Addr)
tcp_accept_loop [] = []
tcp_accept_loop (none ∷ accepts) = tcp_accept_loop accepts
tcp_accept_loop (some conn ∷ accepts) = conn ∷ tcp_accept_loop accepts

-- cleanup_loop, round by round: the two readings of `now_ms` and that of `time.time`.
unfoldable pub cleanup_loop : Settings → ℕ → List (ℕ × ℕ × ℕ) → ℕ → Server → Server × List Output
unfolding cleanup save_round
cleanup_loop c interval [] last_save s = (s, [])
cleanup_loop c interval ((now, later, time) ∷ rounds) last_save s =
    let (s', out) = cleanup c now later s in
    let (save, last_save') = save_round interval time last_save in
    let (s'', more) = cleanup_loop c interval rounds last_save' s' in
    (s'', out ++ ((if save then saves ∷ [] else []) ++ more))

-- A socket of main: it is not made, made but not bound, or bound.
pub data Socket : Type 0 where
  missing unbound bound : Socket

abbrev is_bound : Socket → Bool
is_bound bound = true
is_bound _ = false

abbrev is_made : Socket → Bool
is_made missing = false
is_made _ = true

pub record Sockets : Type 0 where
  pub udp4 : Socket
  pub udp6 : Socket
  pub probe4 : Socket
  pub probe6 : Socket
  pub tcp4 : Socket
  pub tcp6 : Socket

pub data Service : Type 0 where
  signal4 signal6 nat4 nat6 accept4 accept6 cleans banner : Service

abbrev if_so : Bool → Service → List Service → List Service
if_so true x xs = x ∷ xs
if_so false x xs = xs

-- tcp_listener_loop: the loops that it starts
unfoldable pub tcp_listener_loop : Sockets → List Service
tcp_listener_loop o = if_so (is_bound o.tcp4) accept4 (if_so (is_bound o.tcp6) accept6 [])

-- main: the threads, or none where it raises. A probe socket is served as soon as it is made.
unfoldable pub main : Sockets → Option (List Service)
unfolding tcp_listener_loop
main o =
    if is_bound o.udp4
    then some (
        tcp_listener_loop o
        ++ (cleans
            ∷ banner
            ∷ if_so (is_bound o.udp6) signal6
                (if_so (is_made o.probe4) nat4 (if_so (is_made o.probe6) nat6 (signal4 ∷ [])))))
    else none

-- _print_rooms_overview: the lines, of which none stands for a server without rooms
abbrev names_of : Room → List Text
names_of [] = []
names_of ((mid, m) ∷ ms) = (m.name ++ (b'(' ∷ mid ++ b')' ∷ [])) ∷ names_of ms

abbrev joined_by : Text → List Text → Text
joined_by sep [] = []
joined_by sep (t ∷ []) = t
joined_by sep (t ∷ u ∷ ts) = t ++ (sep ++ joined_by sep (u ∷ ts))

abbrev room_line : ℕ → Text → Room → Text
room_line limit room ms =
    codes "    └─ 房间 '"
    ++ (room
        ++ (codes "': "
            ++ (decimal (length ms)
                ++ (b'/' ∷ decimal limit)
                ++ (codes " 人 [" ++ (joined_by (codes ", ") (names_of ms) ++ codes "]")))))

abbrev lines_of : ℕ → Dict Text Room → List Text
lines_of limit [] = []
lines_of limit ((room, ms) ∷ rooms) = room_line limit room ms ∷ lines_of limit rooms

unfoldable pub rooms_overview : ℕ → Server → List Text
unfolding decimal
rooms_overview limit s = elim s.rooms [
  | [] ↦ codes "    └─ 当前无在线房间" ∷ []
  | room ∷ rooms ↦ lines_of limit (room ∷ rooms)
]
