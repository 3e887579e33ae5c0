-- ===== src/Client/Discovery/Exchange/Found.antt =====
-- Two devices after the probe of one of them.
use dpmp.Prelude.{
  ℕ, ◌≤◌, ◌≡◌, refl, sym, ◌∙◌, ap, false, ◌||◌, Option, none, some, List, [], ◌∷◌, length,
  if◌then◌else◌, eqb_iff, Text, text_eq, text_eq_iff, text_key, codes, nonempty, arith, inl, inr,
  ◌⊎◌,
}
use dpmp.Dict.{Dict, get}
use dpmp.Dict.Laws.{get-put}
use dpmp.Client.Discovery.{
  Node, Announcement, scan, refreshed, drop_device, is_own, is_member, on_scan, upsert_node,
  or_text,
}
use dpmp.Client.Discovery.Sending.{Sent, build_msg, scan_reply}
use dpmp.Client.Discovery.Exchange.{received, Station, listen_scan, bounce, bounces}

abbrev pub loopbacks : List Text
loopbacks = codes "127.0.0.1" ∷ codes "::1" ∷ []

-- Two devices with their own ids and addresses, and the same scan port.
pub record Strangers (a b : Station) : Type 0 where
  pub ids : text_eq a.own.device_id b.own.device_id ≡ false
  pub foreign_a : is_member a.ip b.ips || is_member a.ip loopbacks ≡ false
  pub foreign_b : is_member b.ip a.ips || is_member b.ip loopbacks ≡ false
  pub ports : a.own.scan_port ≡ b.own.scan_port

-- The node at the other's address has the other's id.
abbrev pub Knows : Station → Station → Type 0
Knows a b = (n : Node) × (get b.ip a.nodes ≡ some n) × (n.device_id ≡ some b.own.device_id)

-- One device at two moments, and two of them in some order.
abbrev pub Is : Station → Station → Type 0
Is x a = (x.own ≡ a.own) × (x.ip ≡ a.ip)

abbrev pub AreBoth : Station → Station → Station → Station → Type 0
AreBoth x y a b = (Is x a × Is y b) ⊎ (Is x b × Is y a)

-- The probe that add_manual_node and scan_subnet send.
abbrev pub probe_of : Station → Sent
probe_of a = build_msg a.own (scan_reply ∷ [])

text_eq_sym : (x y : Text) → text_eq x y ≡ false → text_eq y x ≡ false
text_eq_sym x y h = ground (arith, text_eq_iff x y, text_eq_iff y x)

or_text_own : (t : Text) → or_text [] (some t) ≡ t
or_text_own [] = refl
or_text_own (c ∷ t) = refl

refreshed_id :
    (o : Option Node) (hostname did mac : Text) (now : ℕ)
    → (refreshed o hostname did mac now scan).device_id ≡ some did
refreshed_id none hostname did mac now = refl
refreshed_id (some n) hostname did mac now = refl

found :
    (ip : Text) (msg : Announcement) (did : Text) (now : ℕ) (nodes : Dict Text Node)
    → msg.device_id ≡ some did
    → (n : Node) × (get ip (upsert_node ip msg scan now nodes).0 ≡ some n)
      × (n.device_id ≡ some did)
unfolding upsert_node
found ip msg did now nodes e =
    let d = or_text [] msg.device_id in
    let kept = if nonempty d then drop_device ip d nodes else nodes in
    let n = refreshed (get ip kept) (or_text ip msg.hostname) d (or_text [] msg.mac) now scan in
    (
      n,
      get-put ip ip n kept ∙ ground (arith, text_eq_iff ip ip),
      refreshed_id (get ip kept) _ d _ now ∙ ap some (ap (or_text []) e ∙ or_text_own did),
    )

-- Neither the device's own message nor one of its own address.
not_own :
    (a b : Station)
    → Strangers a b
    → is_own b.own.device_id (received (probe_of a))
        || is_member a.ip b.ips
        || is_member a.ip loopbacks
      ≡ false
unfolding received build_msg
not_own a b h = ground (arith, h.ids, h.foreign_a)

-- One delivery: the receiver then has the sender among its nodes, and its answer is on the way.
bounce_lem :
    (a b : Station) (now : ℕ)
    → Strangers a b
    → (b' : Station) × (bounce a b (probe_of a) now ≡ some (b', a, probe_of b'))
      × Strangers b' a
      × Is b' b
      × Knows b' a
      × (Knows a b → Knows a b')
unfolding bounce listen_scan on_scan
bounce_lem a b now h =
    let msg = received (probe_of a) in
    let nodes' = (upsert_node a.ip msg scan now b.nodes).0 in
    (
      record b { nodes = nodes' },
      rw (not_own a b h)
          (ground (arith, text_eq_iff a.ip a.ip, eqb_iff b.own.scan_port a.own.scan_port, h.ports)),
      record {
        ids = text_eq_sym a.own.device_id b.own.device_id h.ids;
        foreign_a = h.foreign_b;
        foreign_b = h.foreign_a;
        ports = sym h.ports;
      },
      (refl, refl),
      found a.ip msg a.own.device_id now b.nodes (unfold received in refl),
      λ k. k,
    )

still : (x y a b b' : Station) → Is b' b → AreBoth x y b' a → AreBoth x y a b
still x y a b b' e (inl (h, k)) = inr ((h.0 ∙ e.0, h.1 ∙ e.1), k)
still x y a b b' e (inr (h, k)) = inl (h, (k.0 ∙ e.0, k.1 ∙ e.1))

-- Any number of them: once each has sent, they know each other.
flying :
    (a b : Station) (nows : List ℕ)
    → Strangers a b
    → (x : Station) × (y : Station) × (bounces nows (some (a, b, probe_of a))
        ≡ some (x, y, probe_of x))
      × AreBoth x y a b
      × (Knows a b → Knows b a ⊎ (1 ≤ length nows) → Knows x y × Knows y x)
unfolding bounces
flying a b [] h = (
  a,
  b,
  refl,
  inl ((refl, refl), (refl, refl)),
  λ k r. (k, elim r [ inl k' ↦ k' | inr few ↦ absurd (omega arith) ]),
)
flying a b (now ∷ nows) h =
    let (b', sent, strangers, same, knows, keeps) = bounce_lem a b now h in
    let (x, y, later, who, both) = flying b' a nows strangers in
    (x, y, rw sent later, still x y a b b' same who, λ k r. both knows (inl (keeps k)))

-- Let one of two devices send the other a probe to its scan port. However many deliveries follow, a
-- scan reply of one of them is on its way to the other's scan port; and after two, each has the other among its
-- nodes, with its device id. The devices have different ids and the same scan port, and
-- neither takes the other's address for its own or for a loopback's.
pub scan_never_ends :
    (a b : Station) (nows : List ℕ)
    → Strangers a b
    → (x : Station) × (y : Station) × (bounces nows (some (a, b, probe_of a))
        ≡ some (x, y, probe_of x))
      × AreBoth x y a b
      × (2 ≤ length nows → Knows x y × Knows y x)
unfolding bounces
scan_never_ends a b [] h =
    (a, b, refl, inl ((refl, refl), (refl, refl)), λ few. absurd (omega arith))
scan_never_ends a b (now ∷ nows) h =
    let (b', sent, strangers, same, knows, keeps) = bounce_lem a b now h in
    let (x, y, later, who, both) = flying b' a nows strangers in
    (x, y, rw sent later, still x y a b b' same who, λ enough. both knows (inr (omega arith)))
