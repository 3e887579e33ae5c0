-- ===== src/Rtp/Packet/Delivery.antt =====
-- A whole stream: the chunks of `sendall` as packets, in any order, some lost and some copied, fed to
-- `on_packet` of a fresh socket.
use dpmp.Prelude.{
  ℕ, zero, suc, ◌≤◌, ◌<◌, ◌≡◌, refl, sym, ap, subst, ◌∙◌, ◌⊎◌, inl, inr, Bool, true, false, Option,
  List, [], ◌∷◌, ◌++◌, append-nil, append_assoc, leb, length, take, drop, take-append-drop,
  nonempty, not, ◌&&◌, nat_eq, arith, Bool-cases, Option-cases,
}
use dpmp.Dict.{Dict, get, has}
use dpmp.Codec.BigEndian.{Bytes}
use dpmp.Rtp.State.{Config, Receiving, Rtp, init}
use dpmp.Rtp.Sending.{chunks}
use dpmp.Rtp.Sending.Chunks.{concat, chunks_lem}
use dpmp.Rtp.Receiving.{recv, Outcome, got}
use dpmp.Rtp.Receiving.Stream.{
  upto, IsFaithful, IsSettled, IsReceived, accept-IsFaithful, accept-IsSettled, accept-IsReceived,
  accept-IsReceived_self, received_all,
}
use dpmp.Rtp.Packet.Copies.{IsCopy, stream_of, on_packet-copy}
use dpmp.Rtp.Packet.{on_packet}

-- What happens to the receiving socket: a datagram arrives, or the application reads.
pub data Event : Type 0 where
  arrives : ℕ → Bytes → Event
  reads : ℕ → Option ℕ → ℕ → Event

abbrev bytes_of : Outcome → Bytes
bytes_of (got b) = b
bytes_of _ = []

-- The bytes that the reads have returned so far, and the socket.
abbrev after : (Bytes → Bool) → Event → Bytes × Rtp → Bytes × Rtp
after up (arrives now bytes) (taken, s) = (taken, (on_packet up now bytes s).0)
after up (reads now deadline n) (taken, s) =
    let (outcome, s') = recv now deadline n s in (taken ++ bytes_of outcome, s')

unfoldable pub feed : (Bytes → Bool) → List Event → Bytes × Rtp → Bytes × Rtp
feed up [] r = r
feed up (e ∷ es) r = feed up es (after up e r)

-- Every datagram is a copy of one of the packets; the packet `k` is among them.
abbrev pub AllCopies : List Bytes → List Event → Type 0
AllCopies pieces [] = Unit
AllCopies pieces (arrives now bytes ∷ es) = ((k : ℕ) × IsCopy pieces k bytes) × AllCopies pieces es
AllCopies pieces (reads now deadline n ∷ es) = AllCopies pieces es

abbrev pub Arrives : List Bytes → ℕ → List Event → Type 0
Arrives pieces k [] = ⊥
Arrives pieces k (arrives now bytes ∷ es) = IsCopy pieces k bytes ⊎ Arrives pieces k es
Arrives pieces k (reads now deadline n ∷ es) = Arrives pieces k es

record IsGood (pieces : List Bytes) (taken : Bytes) (s : Rtp) : Type 0 where
  is_open : s.closed ≡ false
  faithful : IsFaithful (stream_of pieces) taken s.receiving
  settled : IsSettled s.receiving

arrives-IsGood :
    (up : Bytes → Bool) (now k : ℕ) (bytes : Bytes) (pieces : List Bytes) (taken : Bytes) (s : Rtp)
    → IsCopy pieces k bytes
    → IsGood pieces taken s
    → IsGood pieces taken (on_packet up now bytes s).0
arrives-IsGood up now k bytes pieces taken s copy g =
    let (same, open_) = on_packet-copy up now k pieces bytes s copy g.is_open in
    record {
      is_open = open_;
      faithful =
          subst (IsFaithful (stream_of pieces) taken) (sym same)
            (accept-IsFaithful (stream_of pieces) taken k s.receiving g.faithful);
      settled =
          subst IsSettled (sym same)
            (accept-IsSettled k (stream_of pieces k) s.receiving g.faithful.distinct g.settled);
    }

reads-IsGood :
    (up : Bytes → Bool) (now : ℕ) (deadline : Option ℕ) (n : ℕ) (pieces : List Bytes)
    (taken : Bytes) (s : Rtp)
    → IsGood pieces taken s
    → IsGood pieces (taken ++ bytes_of (recv now deadline n s).0) (recv now deadline n s).1
unfolding recv
reads-IsGood up now deadline n pieces taken s g =
    elim (Bool-cases (not (nonempty s.receiving.recv_buf) && not s.peer_closed)) [
      | inl e ↦ elim (Option-cases deadline) [
        | inl d ↦ rw (e, d, append-nil) g
        | inr (w, d) ↦ elim (Bool-cases (leb w now)) [
          | inl l ↦ rw (e, d, l, append-nil) g
          | inr l ↦ rw (e, d, l, append-nil) g
        ]
      ]
      | inr e ↦
          rw (e, recv)
            (record {
              is_open = g.is_open;
              faithful = record {
                ordered =
                    append_assoc taken (take n s.receiving.recv_buf) (drop n s.receiving.recv_buf)
                    ∙ ap (◌++◌ taken) (take-append-drop n s.receiving.recv_buf)
                    ∙ g.faithful.ordered;
                genuine = g.faithful.genuine;
                distinct = g.faithful.distinct;
              };
              settled = g.settled;
            })
    ]

IsGood-after :
    (up : Bytes → Bool) (pieces : List Bytes) (es : List Event) (r : Bytes × Rtp)
    → AllCopies pieces es
    → IsGood pieces r.0 r.1
    → IsGood pieces (feed up es r).0 (feed up es r).1
unfolding feed
IsGood-after up pieces [] r c g = g
IsGood-after up pieces (arrives now bytes ∷ es) (taken, s) ((k, copy), c) g =
    IsGood-after up pieces es _ c (arrives-IsGood up now k bytes pieces taken s copy g)
IsGood-after up pieces (reads now d n ∷ es) (taken, s) c g =
    IsGood-after up pieces es _ c (reads-IsGood up now d n pieces taken s g)

abbrev waiting_part : Receiving → ℕ × Dict ℕ Bytes
waiting_part r = (r.recv_next, r.out_of_order)

recv-keeps :
    (now : ℕ) (deadline : Option ℕ) (n : ℕ) (s : Rtp)
    → waiting_part (recv now deadline n s).1.receiving ≡ waiting_part s.receiving
unfolding recv
recv-keeps now deadline n s = ground arith

arrived_after :
    (up : Bytes → Bool) (pieces : List Bytes) (k : ℕ) (es : List Event) (r : Bytes × Rtp)
    → AllCopies pieces es
    → IsGood pieces r.0 r.1
    → Arrives pieces k es ⊎ IsReceived k r.1.receiving
    → IsReceived k (feed up es r).1.receiving
unfolding feed
arrived_after up pieces k [] r c g (inl a) = absurd a
arrived_after up pieces k [] r c g (inr a) = a
arrived_after up pieces k (arrives now bytes ∷ es) (taken, s) ((j, copy), c) g a =
    let g' = arrives-IsGood up now j bytes pieces taken s copy g in
    arrived_after up pieces k es _ c g' (elim a [
      | inl now_or_later ↦ elim now_or_later [
        | inl this ↦ inr (
            subst (IsReceived k) (sym (on_packet-copy up now k pieces bytes s this g.is_open).0)
              (accept-IsReceived_self k (stream_of pieces k) s.receiving g.faithful.distinct))
        | inr later ↦ inl later
      ]
      | inr before ↦ inr (
          subst (IsReceived k) (sym (on_packet-copy up now j pieces bytes s copy g.is_open).0)
            (accept-IsReceived j k (stream_of pieces j) s.receiving g.faithful.distinct before))
    ])
arrived_after up pieces k (reads now d n ∷ es) (taken, s) c g a =
    arrived_after up pieces k es _ c (reads-IsGood up now d n pieces taken s g) (elim a [
      | inl later ↦ inl later
      | inr before ↦
          inr (subst (λ w. (k < w.0) ⊎ (has k w.1 ≡ true)) (sym (recv-keeps now d n s)) before)
    ])

upto-cons : (f : ℕ → Bytes) (n : ℕ) → upto f (suc n) ≡ f 0 ++ upto (λ k. f (suc k)) n
unfolding upto
upto-cons f zero = sym (append-nil (f 0))
upto-cons f (suc n) =
    ap (λ b. b ++ f (suc n)) (upto-cons f n)
    ∙ append_assoc (f 0) (upto (λ k. f (suc k)) n) (f (suc n))

upto-nil : (n : ℕ) → upto (stream_of []) n ≡ []
unfolding upto
upto-nil zero = refl
upto-nil (suc n) = rw append-nil (upto-nil n)

-- The stream of the pieces is a prefix of their join, and all of it from the last piece on.
upto-pieces :
    (pieces : List Bytes) (n : ℕ)
    → (rest : Bytes) × (upto (stream_of pieces) n ++ rest ≡ concat pieces)
      × (length pieces ≤ n → rest ≡ [])
upto-pieces [] n = ([], rw append-nil (upto-nil n), λ h. refl)
upto-pieces (p ∷ ps) zero = (concat (p ∷ ps), unfold upto in refl, λ h. absurd (omega arith))
upto-pieces (p ∷ ps) (suc n) =
    let (rest, e, z) = upto-pieces ps n in
    (
      rest,
      rw (upto-cons (stream_of (p ∷ ps)) n)
          (append_assoc p (upto (stream_of ps) n) rest ∙ ap (◌++◌ p) e),
      λ h. z (omega arith),
    )

init-IsGood : (c : Config) (start : ℕ) (pieces : List Bytes) → IsGood pieces [] (init c start)
unfolding init upto get
init-IsGood c start pieces = record {
  is_open = refl;
  faithful = record { ordered = refl; genuine = λ k p h. cc; distinct = tt };
  settled = refl;
}

-- What the application has read or can read after the events, on a fresh socket.
unfoldable pub delivered : (Bytes → Bool) → Config → ℕ → List Event → Bytes
unfolding feed init
delivered up c start events =
    let (taken, s) = feed up events ([], init c start) in taken ++ s.receiving.recv_buf

-- Data is cut into the pieces of `sendall`, and the datagrams that reach a fresh socket are copies of
-- their DATA packets: in any order, any of them missing, any of them again, with reads in between.
-- Then what is delivered is a prefix of the data, and it is the data where every packet arrived at
-- least once.
pub stream_delivered :
    (up : Bytes → Bool) (c : Config) (start size : ℕ) (bytes : Bytes) (events : List Event)
    → 0 < size
    → AllCopies (chunks (length bytes) size bytes) events
    → ((rest : Bytes) × (delivered up c start events ++ rest ≡ bytes))
      × (((k : ℕ)
            → k < length (chunks (length bytes) size bytes)
            → Arrives (chunks (length bytes) size bytes) k events)
          → delivered up c start events ≡ bytes)
unfolding delivered
stream_delivered up c start size bytes events positive copies =
    let pieces = chunks (length bytes) size bytes in
    let joined : concat pieces ≡ bytes =
      (chunks_lem (length bytes) size bytes positive (omega arith)).0 in
    let g0 = init-IsGood c start pieces in
    let g = IsGood-after up pieces events ([], init c start) copies g0 in
    let r = (feed up events ([], init c start)).1.receiving in
    let (rest, e, z) = upto-pieces pieces r.recv_next in
    let prefix = ap (λ b. b ++ rest) g.faithful.ordered ∙ e ∙ joined in
    (
      (rest, prefix),
      λ all.
          let here : length pieces ≤ r.recv_next = received_all (length pieces) r g.settled (λ k h.
            arrived_after up pieces k events ([], init c start) copies g0 (inl (all k h))) in
          sym (append-nil _) ∙ ap (◌++◌ _) (sym (z here)) ∙ prefix,
    )
