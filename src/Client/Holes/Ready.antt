-- ===== src/Client/Holes/Ready.antt =====
-- A UDP hole from the request to the channel: what the shared socket does with the datagrams of a
-- peer.
use dpmp.Prelude.{
  ℕ, ◌≡◌, refl, ap, ◌∙◌, true, false, none, some, List, [], ◌∷◌, Text, text_eq, text_eq_iff,
  text_key, pos, arith, is_some,
}
use dpmp.Dict.{Dict, get, has, put, remove}
use dpmp.Dict.Laws.{get-put, get-remove, has-get, Distinct, put-Distinct}
use dpmp.Server.Format.{fmt_host_port}
use dpmp.Server.State.{PeerInfo}
use dpmp.Client.Address.{parse_host_port}
use dpmp.Client.Address.RoundTrip.{IsHost, parse_host_port-fmt_host_port}
use dpmp.Client.Holes.{
  Link, hole_ready, handles, peer_key, start_udp_hole, on_udp_datagram, register_udp_rtp,
  unregister_udp_rtp, udp_hole_magic, ready_for, handled_by,
}

pub aimed :
    (peer : PeerInfo) (ip : Text) (port : ℕ) (s : Link)
    → s.hole_open ≡ true
    → peer.pub_udp ≡ fmt_host_port ip port
    → IsHost ip
    → (start_udp_hole peer s).0
      ≡ record s { hole_targets = put (peer_key (ip, pos port)) peer.id s.hole_targets }
unfolding start_udp_hole
aimed peer ip port s o e h =
    let read = ap parse_host_port e ∙ parse_host_port-fmt_host_port ip port h in rw (o, read) refl

magic_is_magic : text_eq udp_hole_magic udp_hole_magic ≡ true
unfolding text_eq
magic_is_magic = refl

pub magic_lem :
    (key : Text) (s : Link)
    → on_udp_datagram key udp_hole_magic s
      ≡ ready_for key (get key s.hole_targets) (has key s.handlers)
unfolding on_udp_datagram
magic_lem key s = rw magic_is_magic refl

packet_lem :
    (key : Text) (packet : List ℕ) (s : Link)
    → text_eq packet udp_hole_magic ≡ false
    → on_udp_datagram key packet s ≡ handled_by (get key s.handlers) packet
unfolding on_udp_datagram
packet_lem key packet s h = rw h refl

pub put_here {ℓ} :
    {V : Type ℓ} (key : Text) (v : V) (d : Dict Text V) → get key (put key v d) ≡ some v
put_here key v d = let g = get-put key key v d in ground (arith, g, text_eq_iff key key)

pub gone_here {ℓ} :
    {V : Type ℓ} (key : Text) (d : Dict Text V) → Distinct d → get key (remove key d) ≡ none
gone_here key d h = let g = get-remove key key d h in ground (arith, g, text_eq_iff key key)

-- A peer whose public UDP address the server has written down, and that has no channel yet: once it is
-- aimed at, a probe from that address makes its hole ready, and other packets from there are dropped.
-- When its channel is registered under the address, a probe does nothing and a packet goes to that
-- channel; and when that is undone, a probe makes the hole ready again.
pub hole_lem :
    (peer : PeerInfo) (ip : Text) (port chan : ℕ) (packet : List ℕ) (s : Link)
    → s.hole_open ≡ true
    → peer.pub_udp ≡ fmt_host_port ip port
    → IsHost ip
    → Distinct s.handlers
    → get (peer_key (ip, pos port)) s.handlers ≡ none
    → text_eq packet udp_hole_magic ≡ false
    → (on_udp_datagram (peer_key (ip, pos port)) udp_hole_magic (start_udp_hole peer s).0
        ≡ hole_ready peer.id (peer_key (ip, pos port)) ∷ [])
      × (on_udp_datagram (peer_key (ip, pos port)) packet (start_udp_hole peer s).0 ≡ [])
      × (on_udp_datagram
            (peer_key (ip, pos port))
            udp_hole_magic
            (register_udp_rtp (peer_key (ip, pos port)) chan (start_udp_hole peer s).0)
          ≡ [])
      × (on_udp_datagram
            (peer_key (ip, pos port))
            packet
            (register_udp_rtp (peer_key (ip, pos port)) chan (start_udp_hole peer s).0)
          ≡ handles chan packet ∷ [])
      × (on_udp_datagram (peer_key (ip, pos port)) udp_hole_magic (
            unregister_udp_rtp
              (peer_key (ip, pos port))
              (register_udp_rtp (peer_key (ip, pos port)) chan (start_udp_hole peer s).0))
          ≡ hole_ready peer.id (peer_key (ip, pos port)) ∷ [])
unfolding register_udp_rtp unregister_udp_rtp
hole_lem peer ip port chan packet s o e h d free data_ =
    let key = peer_key (ip, pos port) in
    let a = aimed peer ip port s o e h in
    let s1 = record s { hole_targets = put key peer.id s.hole_targets } in
    let hs = put key chan s.handlers in
    let s2 = record s1 { handlers = hs } in
    let s3 = record s1 { handlers = remove key hs } in
    let target = put_here key peer.id s.hole_targets in
    let here = put_here key chan s.handlers in
    let gone = gone_here key hs (put-Distinct key chan s.handlers d) in
    let empty = has-get key s.handlers ∙ ap is_some free in
    let full = has-get key hs ∙ ap is_some here in
    let empty' = has-get key (remove key hs) ∙ ap is_some gone in
    rw a (
      magic_lem key s1 ∙ rw (target, empty) refl,
      packet_lem key packet s1 data_ ∙ rw free refl,
      magic_lem key s2 ∙ rw (target, full) refl,
      packet_lem key packet s2 data_ ∙ rw here refl,
      magic_lem key s3 ∙ rw (target, empty') refl,
    )
