-- ===== src/Client/Manager/Sockets/Inbound.antt =====
-- Which incoming connections are recognised as a member's.
use dpmp.Prelude.{
  ℕ, ◌≡◌, refl, sym, ap, ◌∙◌, true, false, Option, none, some, [], ◌∷◌, ◌++◌, if◌then◌else◌, Text,
  text_key, text_eq, text_eq_iff, arith, has_char, nonempty, All, Bool-cases, inl, inr, not, ◌⊎◌,
  append_assoc, is_some, ◌&&◌,
}
use mathlib.Core.Option.{some-injective}
use dpmp.Dict.{Dict, get, values}
use dpmp.Server.Format.{Addr, decimal, fmt_host_port, fmt_addr}
use dpmp.Server.State.{PeerInfo}
use dpmp.Client.Address.{split_last}
use dpmp.Client.Address.Numeral.{decimal_no_colon}
use dpmp.Client.Address.Split.{split_last_lem}
use dpmp.Client.Address.RoundTrip.{IsHost}
use dpmp.Client.Manager.Sockets.{match_exact, match_ip, host_of, or_by_ip, find_inbound}

-- The member's public TCP address is empty or as the server writes one.
abbrev pub IsWritten : PeerInfo → Type 0
IsWritten m = (m.pub_tcp ≡ []) ⊎ ((a : Addr) × (m.pub_tcp ≡ fmt_addr a))

-- A text with a colon is not one without.
colon_differs :
    (a ip : Text) → has_char b':' a ≡ false → has_char b':' ip ≡ true → text_eq a ip ≡ false
colon_differs a ip n h = elim (Bool-cases (text_eq a ip)) [
  | inl e ↦ let same = ap (has_char b':') ((text_eq_iff a ip).0 e) in ground (arith, same)
  | inr e ↦ e
]

bracket_differs :
    (s ip : Text) → has_char b':' ip ≡ true → IsHost ip → text_eq (b'[' ∷ s) ip ≡ false
unfolding text_eq has_char
bracket_differs s [] h host = ground arith
bracket_differs s (c ∷ ip) h host = let no = host.1 in ground (arith, no)

bracket_differs' :
    (s ip t : Text) → has_char b':' ip ≡ true → IsHost ip → text_eq (b'[' ∷ s) (ip ++ t) ≡ false
unfolding text_eq has_char
bracket_differs' s [] t h host = ground arith
bracket_differs' s (c ∷ ip) t h host = let no = host.1 in ground (arith, no)

bracketed_whole :
    (a d : Text) → b'[' ∷ (a ++ b']' ∷ b':' ∷ d) ≡ (b'[' ∷ (a ++ b']' ∷ [])) ++ b':' ∷ d
bracketed_whole a d = simp append_assoc

-- The part of a written address before its last colon.
host_written :
    (a : Text) (port : ℕ)
    → host_of (fmt_host_port a port) (split_last b':' (fmt_host_port a port))
      ≡ (if has_char b':' a then b'[' ∷ (a ++ b']' ∷ []) else a)
unfolding fmt_host_port
host_written a port = elim (Bool-cases (has_char b':' a)) [
  | inl e ↦ rw e (
      ap (λ t. host_of t (split_last b':' t)) (bracketed_whole a (decimal port))
      ∙ ap (host_of ((b'[' ∷ (a ++ b']' ∷ [])) ++ b':' ∷ decimal port))
          (split_last_lem b':' (b'[' ∷ (a ++ b']' ∷ [])) (decimal port) (decimal_no_colon port)))
  | inr e ↦ rw e (
      ap (host_of (a ++ b':' ∷ decimal port))
        (split_last_lem b':' a (decimal port) (decimal_no_colon port)))
]

ip_differs :
    (ip : Text) (a : Addr)
    → has_char b':' ip ≡ true
    → IsHost ip
    → text_eq (host_of (fmt_addr a) (split_last b':' (fmt_addr a))) ip ≡ false
unfolding fmt_addr
ip_differs ip (a, port) h host = rw host_written (elim (Bool-cases (has_char b':' a)) [
  | inl e ↦ rw e (bracket_differs (a ++ b']' ∷ []) ip h host)
  | inr e ↦ rw e (colon_differs a ip e h)
])

joined_differ :
    (ip : Text) (port : ℕ) (a : Text) (port' : ℕ)
    → has_char b':' ip ≡ true
    → has_char b':' a ≡ false
    → text_eq (a ++ b':' ∷ decimal port') (ip ++ b':' ∷ decimal port) ≡ false
joined_differ ip port a port' h n =
    elim (Bool-cases (text_eq (a ++ b':' ∷ decimal port') (ip ++ b':' ∷ decimal port))) [
      | inl e ↦
          let same =
            ap (split_last b':')
              ((text_eq_iff (a ++ b':' ∷ decimal port') (ip ++ b':' ∷ decimal port)).0 e) in
          let parts =
            sym (split_last_lem b':' a (decimal port') (decimal_no_colon port'))
            ∙ same
            ∙ split_last_lem b':' ip (decimal port) (decimal_no_colon port) in
          let hosts =
            ap (λ r. has_char b':' (r.0))
              (some-injective (a, decimal port') (ip, decimal port) parts) in
          ground (arith, hosts)
      | inr e ↦ e
    ]

key_differs :
    (ip : Text) (port : ℕ) (a : Addr)
    → has_char b':' ip ≡ true
    → IsHost ip
    → text_eq (fmt_addr a) (ip ++ (b':' ∷ decimal port)) ≡ false
unfolding fmt_addr fmt_host_port
key_differs ip port (a, port') h host = elim (Bool-cases (has_char b':' a)) [
  | inl e ↦
      rw e (bracket_differs' (a ++ (b']' ∷ b':' ∷ decimal port')) ip (b':' ∷ decimal port) h host)
  | inr e ↦ rw e (joined_differ ip port a port' h e)
]

-- What is asked of a member before it is taken for the sender.
not_exact :
    (ip : Text) (port : ℕ) (m : PeerInfo)
    → IsWritten m
    → has_char b':' ip ≡ true
    → IsHost ip
    → (nonempty m.pub_tcp && text_eq m.pub_tcp (ip ++ (b':' ∷ decimal port))) ≡ false
not_exact ip port m (inl e) h host = rw e refl
not_exact ip port m (inr (a, e)) h host =
    let no = key_differs ip port a h host in rw e (ground (arith, no))

not_ip :
    (ip : Text) (m : PeerInfo)
    → IsWritten m
    → has_char b':' ip ≡ true
    → IsHost ip
    → (nonempty m.pub_tcp && text_eq (host_of m.pub_tcp (split_last b':' m.pub_tcp)) ip) ≡ false
not_ip ip m (inl e) h host = rw e refl
not_ip ip m (inr (a, e)) h host = let no = ip_differs ip a h host in rw e (ground (arith, no))

none_exact :
    (ip : Text) (port : ℕ) (ms : Dict Text PeerInfo)
    → All IsWritten (values ms)
    → has_char b':' ip ≡ true
    → IsHost ip
    → match_exact (ip ++ (b':' ∷ decimal port)) ms ≡ none
unfolding match_exact
none_exact ip port [] w h host = refl
none_exact ip port ((p, m) ∷ ms) w h host =
    rw (not_exact ip port m w.0 h host) (none_exact ip port ms w.1 h host)

none_ip :
    (ip : Text) (ms : Dict Text PeerInfo)
    → All IsWritten (values ms)
    → has_char b':' ip ≡ true
    → IsHost ip
    → match_ip ip ms ≡ none
unfolding match_ip
none_ip ip [] w h host = refl
none_ip ip ((p, m) ∷ ms) w h host = rw (not_ip ip m w.0 h host) (none_ip ip ms w.1 h host)

some_exact :
    (key : Text) (p : Text) (m : PeerInfo) (ms : Dict Text PeerInfo)
    → nonempty key ≡ true
    → get p ms ≡ some m
    → m.pub_tcp ≡ key
    → is_some (match_exact key ms) ≡ true
unfolding match_exact get
some_exact key p m [] n h e = ground arith
some_exact key p m ((q, m') ∷ ms) n h e =
    let later = some_exact key p m ms n in ground (arith, later, text_eq_iff m'.pub_tcp key)

kept_found :
    (ip : Text) (ms : Dict Text PeerInfo) (o : Option (Text × PeerInfo))
    → is_some o ≡ true
    → is_some (or_by_ip ip ms o) ≡ true
kept_found ip ms none h = ground arith
kept_found ip ms (some x) h = refl

key_nonempty : (ip t : Text) → nonempty (ip ++ b':' ∷ t) ≡ true
key_nonempty [] t = refl
key_nonempty (c ∷ ip) t = refl

-- A connection that comes from the very address that stands at a member as its public TCP address is
-- taken for a member's exactly if there is no colon in the IP, which is to say not over IPv6. Each
-- member's address has to be empty or as the server writes one.
pub inbound_lem :
    (ip : Text) (port : ℕ) (p : Text) (m : PeerInfo) (ms : Dict Text PeerInfo)
    → get p ms ≡ some m
    → m.pub_tcp ≡ fmt_addr (ip, port)
    → IsHost ip
    → All IsWritten (values ms)
    → is_some (find_inbound (ip, port) ms) ≡ not (has_char b':' ip)
unfolding find_inbound fmt_addr fmt_host_port
inbound_lem ip port p m ms h e host w = elim (Bool-cases (has_char b':' ip)) [
  | inl v6 ↦ rw v6 (rw (none_exact ip port ms w v6 host) (ground (arith, none_ip ip ms w v6 host)))
  | inr v4 ↦
      let key = ip ++ b':' ∷ decimal port in
      let e' : m.pub_tcp ≡ key = e ∙ rw v4 refl in
      rw v4 (
        kept_found ip ms (match_exact key ms)
          (some_exact key p m ms (key_nonempty ip (decimal port)) h e'))
]
