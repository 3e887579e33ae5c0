-- ===== src/Application/Tests.antt =====
-- The theorem on Echo, between Alice and Bob over UDP, and a wrapped socket.
use dpmp.Prelude.{
  ◌+◌, ◌*◌, ◌≤◌, ◌≡◌, refl, true, false, none, some, List, [], ◌∷◌, text_eq, nonempty, length, All,
}
use dpmp.Dict.{get, has}
use dpmp.Client.Manager.State.{Manager}
use dpmp.Client.Manager.Sockets.{connected_to}
use dpmp.Client.Manager.Queries.{has_peer}
use dpmp.Client.Manager.Channels.{tcp_channel}
use dpmp.Codec.BigEndian.{Bytes}
use dpmp.Server.Format.{strip}
use dpmp.Client.Manager.Channels.{Choice, get_send_channel}
use dpmp.Client.Tests.{bob, of_alice, at_home}
use dpmp.Application.Echo.{Utf8}
use dpmp.Application.Echo.Forever.{IsUtf8, Side, HasChannel, talk, echoed, echo_never_ends}

-- UTF-8 of ASCII texts.
abbrev plain : Utf8
plain = record { encode = λ t. t; decode = λ b. b }

plain-IsUtf8 : IsUtf8 plain
plain-IsUtf8 = record { decode-encode = λ t. refl; ascii = λ t. refl; empty = refl }

abbrev any_channel : Choice
any_channel = record { excluded = λ c. false; open_sock = λ k. true }

-- Alice's manager, with Bob connected over TCP too.
abbrev with_bob : Manager
with_bob = record of_alice { connections = (bob, connected_to none 5 at_home true) ∷ [] }

abbrev two_turns : List Side
two_turns = (any_channel, bob, with_bob) ∷ (any_channel, bob, with_bob) ∷ []

two_turns-HasChannel : All HasChannel two_turns
unfolding get_send_channel get text_eq has_peer has
two_turns-HasChannel = ((tcp_channel 5, none, refl, refl), ((tcp_channel 5, none, refl, refl), tt))

echo_never_ends_example :
    (nonempty bob ≡ true
      → (last : Bytes) × (talk plain two_turns bob ≡ some last) × (nonempty last ≡ true))
    × (nonempty bob ≡ true
        → strip bob ≡ bob
        → 6 * length two_turns + length (plain.encode bob) ≤ 4096
        → talk plain two_turns (plain.encode bob)
          ≡ some (plain.encode (echoed (length two_turns) bob)))
echo_never_ends_example = echo_never_ends plain two_turns bob bob plain-IsUtf8 two_turns-HasChannel
