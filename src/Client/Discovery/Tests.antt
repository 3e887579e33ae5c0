-- ===== src/Client/Discovery/Tests.antt =====
-- Two devices of one network, one of which probes the other.
use dpmp.Prelude.{ℕ, ◌≤◌, ◌≡◌, refl, some, [], ◌∷◌, Text, text_eq, length}
use dpmp.Prelude.{true, false, List, none}
use dpmp.Client.Discovery.{Announcement, is_member}
use dpmp.Client.Discovery.Listening.{Received, silence, garbage, got, udp_turn, scan_turn}
use dpmp.Client.Discovery.Listening.Alive.{Outcome, by_udp, by_scan, listeners_lem}
use dpmp.Client.Discovery.Sending.{Own}
use dpmp.Client.Discovery.Exchange.{Station, bounces}
use dpmp.Client.Discovery.Exchange.Found.{Strangers, Knows, AreBoth, probe_of, scan_never_ends}

abbrev own_of : Text → Own
own_of id = record {
  hostname = id;
  device_id = id;
  mac = [];
  udp_port = 9998;
  scan_port = 9997;
  broadcast_addrs = [];
  discover_interval_ms = 20000;
}

abbrev at : Text → Text → Station
at ip id = record { own = own_of id; ip = ip; ips = ip ∷ []; nodes = [] }

abbrev left : Station
left = at (b'1' ∷ []) (b'l' ∷ [])

abbrev right : Station
right = at (b'2' ∷ []) (b'r' ∷ [])

left-right : Strangers left right
unfolding text_eq is_member
left-right = record { ids = refl; foreign_a = refl; foreign_b = refl; ports = refl }

scan_never_ends_example :
    (x : Station) × (y : Station) × (bounces (5 ∷ 6 ∷ 7 ∷ []) (some (left, right, probe_of left))
      ≡ some (x, y, probe_of x))
    × AreBoth x y left right
    × (2 ≤ length {A = ℕ} (5 ∷ 6 ∷ 7 ∷ []) → Knows x y × Knows y x)
scan_never_ends_example = scan_never_ends left right (5 ∷ 6 ∷ 7 ∷ []) left-right

abbrev hello : Announcement
hello = record {
  hostname = some (b'n' ∷ []);
  device_id = some (b'n' ∷ []);
  mac = none;
  bye = false;
  heartbeat = false;
  reply = false;
}

-- The second answer cannot be sent.
abbrev interrupted : List Received
interrupted =
    got (b'3' ∷ []) hello 10 true
    ∷ silence
    ∷ garbage
    ∷ got (b'4' ∷ []) hello 20 false
    ∷ got (b'3' ∷ []) hello 30 true
    ∷ []

listeners_lem_example :
    Outcome (by_udp left.own left.ips) (udp_turn left.own left.ips) interrupted []
    × Outcome (by_scan left.own left.ips) (scan_turn left.own left.ips) interrupted []
listeners_lem_example = listeners_lem left.own left.ips interrupted []
