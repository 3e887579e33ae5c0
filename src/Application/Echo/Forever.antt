-- ===== src/Application/Echo/Forever.antt =====
-- Two of the programs of Echo that talk to each other.
use mathlib.Core.List.{reverse, reverse-append, reverse-reverse}
use dpmp.Prelude.{
  ℕ, zero, suc, ◌+◌, ◌*◌, ◌≤◌, ◌≡◌, refl, sym, ap, ◌∙◌, inl, inr, ◌⊎◌, Bool-cases, true, false,
  Option, none, some, List, [], ◌∷◌, ◌++◌, Text, nonempty, codes, take, take_all, length, arith,
  All,
}
use dpmp.Codec.BigEndian.{Bytes}
use dpmp.Server.Format.{is_space, lstrip, strip}
use dpmp.Path.Keepalive.{Role}
use dpmp.Client.Manager.State.{Manager}
use dpmp.Client.Manager.Channels.{Channel, Choice, get_send_channel}
use dpmp.Client.Manager.Queries.{has_peer}
use dpmp.Application.Echo.{Utf8, answer, recv_turn, recv_loop}

-- What the theorem uses of UTF-8.
pub record IsUtf8 (u : Utf8) : Type 0 where
  pub decode-encode : (t : Text) → u.decode (u.encode t) ≡ t
  pub ascii : (t : Text) → u.encode (codes "echo: " ++ t) ≡ codes "echo: " ++ u.encode t
  pub empty : u.decode [] ≡ []

-- A program that receives: how it chooses its channel, its peer, and its manager.
abbrev pub Side : Type 0
Side = Choice × Text × Manager

-- The condition of recv_loop holds, and there is a channel.
abbrev pub HasChannel : Side → Type 0
HasChannel (w, p, s) =
    (ch : Channel) × (role : Option Role) × (get_send_channel w p s ≡ some (ch, role))
    × (has_peer p s ≡ true)

abbrev first_sent : List (Channel × Bytes) → Option Bytes
first_sent [] = none
first_sent ((ch, bytes) ∷ sent) = some bytes

-- Each program in turn gets what the one before it has sent, in its recv_loop; none if that was nothing.
abbrev onward : (Bytes → Option Bytes) → Option Bytes → Option Bytes
onward f none = none
onward f (some bytes) = f bytes

unfoldable pub talk : Utf8 → List Side → Bytes → Option Bytes
talk u [] bytes = some bytes
talk u ((w, p, s) ∷ sides) bytes =
    onward (talk u sides) (first_sent (recv_loop u w p ((s, some bytes) ∷ [])))

abbrev pub echoed : ℕ → Text → Text
echoed zero t = t
echoed (suc n) t = echoed n (codes "echo: " ++ t)

answers_first :
    (u : Utf8) (w : Choice) (p : Text) (s : Manager) (b : ℕ) (bytes : Bytes)
    → HasChannel (w, p, s)
    → first_sent (recv_loop u w p ((s, some (b ∷ bytes)) ∷ []))
      ≡ some (answer u (take 4096 (b ∷ bytes)))
unfolding recv_loop recv_turn
answers_first u w p s b bytes (ch, role, e, here) = rw (here, e) refl

answer_speaks : (u : Utf8) (bytes : Bytes) → IsUtf8 u → nonempty (answer u bytes) ≡ true
unfolding answer
answer_speaks u bytes laws = rw (laws.ascii (strip (u.decode bytes))) refl

-- Whatever is sent first, there is an answer to it, and one to that.
never_silent :
    (u : Utf8) (sides : List Side) (bytes : Bytes)
    → IsUtf8 u
    → All HasChannel sides
    → nonempty bytes ≡ true
    → (last : Bytes) × (talk u sides bytes ≡ some last) × (nonempty last ≡ true)
unfolding talk
never_silent u [] bytes laws h e = (bytes, refl, e)
never_silent u (side ∷ sides) [] laws h e = cc
never_silent u ((w, p, s) ∷ sides) (b ∷ bytes) laws h e =
    let sent = answer u (take 4096 (b ∷ bytes)) in
    let speaks = answer_speaks u (take 4096 (b ∷ bytes)) laws in
    let (last, goes, more) = never_silent u sides sent laws h.1 speaks in
    (last, rw (answers_first u w p s b bytes h.0) goes, more)

-- White space at the ends.
lstrip_first :
    (s : Text)
    → (lstrip s ≡ []) ⊎ ((c : ℕ) × (r : Text) × (lstrip s ≡ c ∷ r) × (is_space c ≡ false))
unfolding lstrip
lstrip_first [] = inl refl
lstrip_first (c ∷ s) = elim (Bool-cases (is_space c)) [
  | inl e ↦ rw e (lstrip_first s)
  | inr e ↦ inr (c, s, rw e refl, e)
]

lstrip_none : (c : ℕ) (r : Text) → is_space c ≡ false → lstrip (c ∷ r) ≡ c ∷ r
unfolding lstrip
lstrip_none c r e = rw e refl

lstrip_kept : (s x : Text) → nonempty s ≡ true → lstrip s ≡ s → lstrip (s ++ x) ≡ s ++ x
lstrip_kept [] x more e = cc
lstrip_kept (c ∷ s) x more e = elim (lstrip_first (c ∷ s)) [
  | inl gone ↦ cc
  | inr (c', r, at, solid) ↦ let same : c ≡ c' = cc in lstrip_none c (s ++ x) (rw same solid)
]

lstrip_twice : (s : Text) → lstrip (lstrip s) ≡ lstrip s
lstrip_twice s = elim (lstrip_first s) [
  | inl gone ↦ rw gone (unfold lstrip in refl)
  | inr (c, r, at, solid) ↦ rw at (lstrip_none c r solid)
]

trimmed_end : (t : Text) → strip t ≡ t → lstrip (reverse t) ≡ reverse t
unfolding strip
trimmed_end t e =
    let y = reverse (lstrip t) in
    let back : lstrip y ≡ reverse t = sym (reverse-reverse (lstrip y)) ∙ ap reverse e in
    rw (← back) (lstrip_twice y)

empty_of : (t : Text) → nonempty t ≡ false → t ≡ []
empty_of [] h = refl
empty_of (c ∷ t) h = cc

not_more : (t : Text) → t ≡ [] → nonempty t ≡ true → ⊥
not_more [] e h = cc
not_more (c ∷ t) e h = cc

reverse_more : (t : Text) → nonempty t ≡ true → nonempty (reverse t) ≡ true
reverse_more t h = elim (Bool-cases (nonempty (reverse t))) [
  | inl e ↦ e
  | inr e ↦
      let gone : t ≡ [] = sym (reverse-reverse t) ∙ ap reverse (empty_of (reverse t) e) in
      absurd (not_more t gone h)
]

strip-echo :
    (t : Text) → nonempty t ≡ true → strip t ≡ t → strip (codes "echo: " ++ t) ≡ codes "echo: " ++ t
strip-echo t more e =
    let front : lstrip (codes "echo: " ++ t) ≡ codes "echo: " ++ t =
      lstrip_none _ _ (unfold is_space in refl) in
    let back =
      lstrip_kept (reverse t) (reverse (codes "echo: ")) (reverse_more t more) (trimmed_end t e) in
    unfold strip in
    rw front (
      rw (reverse-append (codes "echo: ") t) (
        rw back (rw (← reverse-append (codes "echo: ") t) (reverse-reverse (codes "echo: " ++ t)))))

encode_more : (u : Utf8) (t : Text) → IsUtf8 u → nonempty t ≡ true → nonempty (u.encode t) ≡ true
encode_more u t laws more = elim (Bool-cases (nonempty (u.encode t))) [
  | inl e ↦ e
  | inr e ↦
      let gone : t ≡ [] =
        sym (laws.decode-encode t) ∙ ap u.decode (empty_of (u.encode t) e) ∙ laws.empty in
      absurd (not_more t gone more)
]

-- A message that fits one `recv` is answered as a whole.
answers_whole :
    (u : Utf8) (w : Choice) (p : Text) (s : Manager) (bytes : Bytes)
    → HasChannel (w, p, s)
    → nonempty bytes ≡ true
    → length bytes ≤ 4096
    → first_sent (recv_loop u w p ((s, some bytes) ∷ [])) ≡ some (answer u bytes)
answers_whole u w p s [] has more fits = cc
answers_whole u w p s (b ∷ bytes) has more fits =
    answers_first u w p s b bytes has ∙ ap (λ x. some (answer u x)) (take_all 4096 (b ∷ bytes) fits)

answer-encode :
    (u : Utf8) (t : Text)
    → IsUtf8 u
    → strip t ≡ t
    → answer u (u.encode t) ≡ u.encode (codes "echo: " ++ t)
unfolding answer
answer-encode u t laws e =
    ap (λ x. u.encode (codes "echo: " ++ strip x)) (laws.decode-encode t)
    ∙ ap (λ x. u.encode (codes "echo: " ++ x)) e

grows :
    (u : Utf8) (t : Text)
    → IsUtf8 u
    → length (u.encode (codes "echo: " ++ t)) ≡ length (u.encode t) + 6
grows u t laws = ap length (laws.ascii t) ∙ omega arith

exactly :
    (u : Utf8) (sides : List Side) (t : Text)
    → IsUtf8 u
    → All HasChannel sides
    → nonempty t ≡ true
    → strip t ≡ t
    → 6 * length sides + length (u.encode t) ≤ 4096
    → talk u sides (u.encode t) ≡ some (u.encode (echoed (length sides) t))
unfolding talk
exactly u [] t laws h more e fits = refl
exactly u ((w, p, s) ∷ sides) t laws h more e fits =
    let said = codes "echo: " ++ t in
    let answered =
      answers_whole u w p s (u.encode t) h.0 (encode_more u t laws more) (omega arith)
      ∙ ap some (answer-encode u t laws e) in
    rw answered
      (exactly u sides said laws h.1 refl (strip-echo t more e) (omega (arith, grows u t laws)))

-- Let programs of Echo that have their peer and a channel to it get in turn, in their recv_loop, what
-- the one before has sent. Whatever is sent first, if it is not empty, is answered, and so is each
-- answer: they never fall silent. A text that is not empty, with no white space at its ends, comes back
-- with one more "echo: " before it for each of them, as long as a message fits one `recv` of 4096
-- bytes.
pub echo_never_ends :
    (u : Utf8) (sides : List Side) (bytes : Bytes) (t : Text)
    → IsUtf8 u
    → All HasChannel sides
    → (nonempty bytes ≡ true
        → (last : Bytes) × (talk u sides bytes ≡ some last) × (nonempty last ≡ true))
      × (nonempty t ≡ true
          → strip t ≡ t
          → 6 * length sides + length (u.encode t) ≤ 4096
          → talk u sides (u.encode t) ≡ some (u.encode (echoed (length sides) t)))
echo_never_ends u sides bytes t laws h = (
  λ more. never_silent u sides bytes laws h more,
  λ more e fits. exactly u sides t laws h more e fits,
)
