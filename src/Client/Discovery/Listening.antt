-- ===== src/Client/Discovery/Listening.antt =====
-- The threads that discovery.py starts, and the loops of its listeners.
pub mod Alive
use dpmp.Prelude.{
  ℕ, Bool, true, false, ◌||◌, Option, none, some, List, [], ◌∷◌, ◌++◌, if◌then◌else◌, Text,
}
use dpmp.Dict.{Dict}
use dpmp.Client.Discovery.{Node, Announcement, on_datagram, on_scan}
use dpmp.Client.Discovery.Sending.{Own, Datagram}
use dpmp.Client.Discovery.Exchange.{answers}

-- _start_broadcasters: the addresses, each with whether a socket could be bound to it, and whether there
-- is one for all; the address that each thread is started with
unfoldable pub start_broadcasters : List (Text × Bool) → Bool → List (Option Text)
start_broadcasters [] global = if global then none ∷ [] else []
start_broadcasters ((ip, made) ∷ ips) global =
    let rest = start_broadcasters ips global in if made then some ip ∷ rest else rest

pub data Listener : Type 0 where
  lan4 lan6 scanner : Listener

-- _udp_listener: without a socket for IPv4 it raises, before it tries one for IPv6.
unfoldable pub udp_listener : Bool → Bool → List Listener
udp_listener false v6 = []
udp_listener true false = lan4 ∷ []
udp_listener true true = lan4 ∷ lan6 ∷ []

-- start: by which sockets can be had, the listeners that come to run, and the broadcasters
unfoldable pub start :
    Bool → Bool → Bool → List (Text × Bool) → Bool → List Listener × List (Option Text)
unfolding udp_listener start_broadcasters
start v4 v6 scan ips global =
    let lan = udp_listener v4 v6 in
    (if scan then lan ++ scanner ∷ [] else lan, start_broadcasters ips global)

-- What `recvfrom` comes to: a timeout, an OSError, what is no message, or a message, with whether
-- `sendto` works at that time.
pub data Received : Type 0 where
  silence fault garbage : Received
  got : Text → Announcement → ℕ → Bool → Received

-- A turn of a loop: the nodes, what is sent, and whether no OSError was raised.
abbrev pub Turn : Type 0
Turn = Text → Announcement → ℕ → Bool → Dict Text Node → Dict Text Node × List Datagram × Bool

abbrev pub unanswered : List Datagram → Bool
unanswered [] = true
unanswered (d ∷ ds) = false

-- In listen_sock the node is taken up before the answer is sent.
unfoldable pub udp_turn : Own → List Text → Turn
unfolding on_datagram answers
udp_turn o ips ip msg now up nodes =
    let (nodes', acts) = on_datagram o.device_id ips ip msg now nodes in
    let out = answers o acts in
    if up || unanswered out then (nodes', out, true) else (nodes', [], false)

-- In _scan_listener it is taken up after.
unfoldable pub scan_turn : Own → List Text → Turn
unfolding on_scan answers
scan_turn o ips ip msg now up nodes =
    let (nodes', acts) = on_scan o.device_id ips ip msg now nodes in
    let out = answers o acts in
    if up || unanswered out then (nodes', out, true) else (nodes, [], false)

-- The loop, as long as discovery runs. The last part says whether it is still in its loop.
unfoldable pub listen :
    Turn → List Received → Dict Text Node → Dict Text Node × List Datagram × Bool
listen turn [] nodes = (nodes, [], true)
listen turn (silence ∷ rs) nodes = listen turn rs nodes
listen turn (garbage ∷ rs) nodes = listen turn rs nodes
listen turn (fault ∷ rs) nodes = (nodes, [], false)
listen turn (got ip msg now up ∷ rs) nodes =
    let (nodes', out, ok) = turn ip msg now up nodes in
    let (nodes'', more, alive) = listen turn rs nodes' in
    if ok then (nodes'', out ++ more, alive) else (nodes', out, false)
