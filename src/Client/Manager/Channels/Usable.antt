-- ===== src/Client/Manager/Channels/Usable.antt =====
-- What get_send_channel gives.
use dpmp.Prelude.{ℕ, ◌≡◌, subst, true, Option, none, some, Text, text_key, Bool-cases, inl, inr}
use dpmp.Dict.{get}
use dpmp.Path.Keepalive.{Role, hot, warm_safe, warm_loose, Proto, tcp, udp, other}
use dpmp.Path.Scheduler.{PeerPath, Paths, get_by_role}
use dpmp.Client.Manager.State.{UdpConn, Manager, live_sock}
use dpmp.Client.Manager.Channels.{
  Channel, tcp_channel, udp_channel, Choice, is_usable, get_send_channel, or_else, with_role,
  tcp_of, udp_of, of_role, of_proto, of_path, if_usable,
}

-- A result, if there is one, is usable.
abbrev Sound : Choice → Option (Channel × Option Role) → Type 0
Sound w none = Unit
Sound w (some (c, r)) = is_usable w c ≡ true

if_usable-Sound :
    (w : Choice) (c : Channel) (r : Option Role) → Sound w (with_role r (if_usable w c))
if_usable-Sound w c r = elim (Bool-cases (is_usable w c)) [ inl e ↦ rw e e | inr e ↦ rw e tt ]

tcp-Sound : (w : Choice) (k : Option ℕ) (r : Option Role) → Sound w (with_role r (tcp_of w k))
tcp-Sound w none r = tt
tcp-Sound w (some k) r = if_usable-Sound w (tcp_channel k) r

udp-Sound : (w : Choice) (u : Option UdpConn) (r : Option Role) → Sound w (with_role r (udp_of w u))
udp-Sound w none r = tt
udp-Sound w (some u) r = if_usable-Sound w (udp_channel u) r

proto-Sound :
    (w : Choice) (k : Proto) (p : Text) (s : Manager) (r : Option Role)
    → Sound w (with_role r (of_proto w k p s))
proto-Sound w tcp p s r = tcp-Sound w (live_sock (get p s.connections)) r
proto-Sound w udp p s r = udp-Sound w (get p s.udp_conns) r
proto-Sound w other p s r = udp-Sound w (get p s.udp_conns) r

path-Sound :
    (w : Choice) (path : Option PeerPath) (p : Text) (s : Manager) (r : Option Role)
    → Sound w (with_role r (of_path w path p s))
path-Sound w none p s r = tt
path-Sound w (some path) p s r = proto-Sound w path.proto p s r

role-Sound :
    (w : Choice) (role : Role) (paths : Option Paths) (p : Text) (s : Manager)
    → Sound w (of_role w role paths p s)
role-Sound w role none p s = tt
role-Sound w role (some paths) p s = path-Sound w (get_by_role role paths) p s (some role)

or-Sound :
    (w : Choice) (a b : Option (Channel × Option Role))
    → Sound w a
    → Sound w b
    → Sound w (or_else a b)
or-Sound w none b h k = k
or-Sound w (some a) b h k = h

send_channel-Sound : (w : Choice) (p : Text) (s : Manager) → Sound w (get_send_channel w p s)
unfolding get_send_channel
send_channel-Sound w p s =
    let paths = get p s.path_schedulers in
    let k = live_sock (get p s.connections) in
    let u = get p s.udp_conns in
    or-Sound w (of_role w hot paths p s) _ (role-Sound w hot paths p s) (
      or-Sound w (of_role w warm_safe paths p s) _ (role-Sound w warm_safe paths p s) (
        or-Sound w (of_role w warm_loose paths p s) _ (role-Sound w warm_loose paths p s)
          (or-Sound w (with_role none (tcp_of w k)) _ (tcp-Sound w k none) (udp-Sound w u none))))

-- The channel that get_send_channel gives is one that the caller does not exclude, and is open.
pub send_channel_usable :
    (w : Choice) (p : Text) (s : Manager) (c : Channel) (r : Option Role)
    → get_send_channel w p s ≡ some (c, r)
    → is_usable w c ≡ true
send_channel_usable w p s c r e = subst (Sound w) e (send_channel-Sound w p s)
