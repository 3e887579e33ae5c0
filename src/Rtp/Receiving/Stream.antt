-- ===== src/Rtp/Receiving/Stream.antt =====
-- The reassembly against the stream that was sent: what was delivered and what waits, after packets in
-- any order, some lost and some copied.
use native.Mathlib.Numerals.{add-one}
use dpmp.Prelude.{
  ℕ, zero, suc, ◌+◌, ◌≤◌, ◌<◌, ◌≡◌, refl, ap, ◌⊎◌, inl, inr, true, none, some, [], ◌∷◌, ◌++◌,
  append_assoc, ltb, leb, eqb, eqb_iff, length, nat_eq, arith, Option-cases, Bool-cases,
}
use dpmp.Dict.{Dict, get, has, put, remove}
use dpmp.Dict.Laws.{
  Distinct, get-put, get-remove, has-get, put-Distinct, remove-Distinct, length-remove_hit,
}
use dpmp.Codec.BigEndian.{Bytes}
use dpmp.Rtp.State.{Receiving}
use dpmp.Rtp.Receiving.{drain, accept}

-- The first `n` payloads of a stream, joined.
unfoldable pub upto : (ℕ → Bytes) → ℕ → Bytes
upto stream zero = []
upto stream (suc n) = upto stream n ++ stream n

-- `taken` is what the reads have taken out so far.
pub record IsFaithful (stream : ℕ → Bytes) (taken : Bytes) (r : Receiving) : Type 0 where
  pub ordered : taken ++ r.recv_buf ≡ upto stream r.recv_next
  pub genuine : (k : ℕ) (p : Bytes) → get k r.out_of_order ≡ some p → p ≡ stream k
  pub distinct : Distinct r.out_of_order

-- Nothing that could be delivered is left waiting.
abbrev pub IsSettled : Receiving → Type 0
IsSettled r = get r.recv_next r.out_of_order ≡ none

-- The payload has been delivered, or is kept for later.
abbrev pub IsReceived : ℕ → Receiving → Type 0
IsReceived k r = (k < r.recv_next) ⊎ (has k r.out_of_order ≡ true)

-- The next payload goes to the end of what is delivered.
abbrev append_next : Bytes → Dict ℕ Bytes → Receiving → Receiving
append_next payload waiting r = record {
  recv_buf = r.recv_buf ++ payload;
  out_of_order = waiting;
  recv_next = r.recv_next + 1;
}

-- The three branches of `accept`.
accept_cases {ℓ} :
    (P : Receiving → Type ℓ) (seq : ℕ) (payload : Bytes) (r : Receiving)
    → (seq ≡ r.recv_next → P (drain (length r.out_of_order) (append_next payload r.out_of_order r)))
    → (r.recv_next < seq → P (record r { out_of_order = put seq payload r.out_of_order }))
    → (seq < r.recv_next → P r)
    → P (accept seq payload r)
unfolding accept
accept_cases P seq payload r next later old = elim (Bool-cases (eqb seq r.recv_next)) [
  | inl e ↦ rw e (next ((eqb_iff seq r.recv_next).0 e))
  | inr e ↦ rw e (elim (Bool-cases (ltb r.recv_next seq)) [
    | inl l ↦ rw l (later (ground arith))
    | inr l ↦ rw l (old (ground arith))
  ])
]

module _ (stream : ℕ → Bytes) (taken : Bytes) where
  ordered-next :
      (buf payload : Bytes) (n : ℕ)
      → taken ++ buf ≡ upto stream n
      → payload ≡ stream n
      → taken ++ (buf ++ payload) ≡ upto stream (n + 1)
  unfolding upto
  ordered-next buf payload n h e = rw (add-one, e, ← append_assoc taken buf (stream n), h)

  drain-IsFaithful :
      (f : ℕ) (r : Receiving) → IsFaithful stream taken r → IsFaithful stream taken (drain f r)
  unfolding drain
  drain-IsFaithful zero r h = h
  drain-IsFaithful (suc f) r h = elim (Option-cases (get r.recv_next r.out_of_order)) [
    | inl e ↦ rw (e, drain) h
    | inr (p, e) ↦
        rw (e, drain)
          (drain-IsFaithful f (append_next p (remove r.recv_next r.out_of_order) r) (record {
            ordered = ordered-next r.recv_buf p r.recv_next h.ordered (h.genuine r.recv_next p e);
            genuine = λ k q.
                ground (arith, get-remove r.recv_next k r.out_of_order h.distinct, h.genuine k q);
            distinct = remove-Distinct r.recv_next r.out_of_order h.distinct;
          }))
  ]

  pub accept-IsFaithful :
      (seq : ℕ) (r : Receiving)
      → IsFaithful stream taken r
      → IsFaithful stream taken (accept seq (stream seq) r)
  accept-IsFaithful seq r h =
      accept_cases (IsFaithful stream taken) seq (stream seq) r
        (λ e.
          drain-IsFaithful (length r.out_of_order) (append_next (stream seq) r.out_of_order r)
            (record {
              ordered = ordered-next r.recv_buf (stream seq) r.recv_next h.ordered (ap stream e);
              genuine = h.genuine;
              distinct = h.distinct;
            }))
        (λ l. record {
          ordered = h.ordered;
          genuine = λ k q. ground (arith, get-put seq k (stream seq) r.out_of_order, h.genuine k q);
          distinct = put-Distinct seq (stream seq) r.out_of_order h.distinct;
        })
        (λ o. h)

pub get_of_empty : (k : ℕ) (d : Dict ℕ Bytes) → length d ≤ 0 → get k d ≡ none
unfolding get
get_of_empty k [] h = refl
get_of_empty k (x ∷ d) h = absurd (omega arith)

drain-IsSettled :
    (f : ℕ) (r : Receiving)
    → Distinct r.out_of_order
    → length r.out_of_order ≤ f
    → IsSettled (drain f r)
unfolding drain
drain-IsSettled zero r d h = get_of_empty r.recv_next r.out_of_order h
drain-IsSettled (suc f) r d h = elim (Option-cases (get r.recv_next r.out_of_order)) [
  | inl e ↦ rw (e, drain) e
  | inr (p, e) ↦
      rw (e, drain)
        (drain-IsSettled f (append_next p (remove r.recv_next r.out_of_order) r)
          (remove-Distinct r.recv_next r.out_of_order d)
          (omega (arith, length-remove_hit r.recv_next p r.out_of_order e)))
]

pub accept-IsSettled :
    (seq : ℕ) (payload : Bytes) (r : Receiving)
    → Distinct r.out_of_order
    → IsSettled r
    → IsSettled (accept seq payload r)
accept-IsSettled seq payload r d h =
    accept_cases IsSettled seq payload r
      (λ e.
        drain-IsSettled (length r.out_of_order) (append_next payload r.out_of_order r) d
          (omega arith))
      (λ l. ground (arith, get-put seq r.recv_next payload r.out_of_order)) (λ o. h)

received-remove :
    (k n : ℕ) (d : Dict ℕ Bytes)
    → Distinct d
    → (k < n) ⊎ (has k d ≡ true)
    → (k < n + 1) ⊎ (has k (remove n d) ≡ true)
received-remove k n d distinct h =
    ground (arith, has-get k d, has-get k (remove n d), get-remove n k d distinct)

drain-IsReceived :
    (f k : ℕ) (r : Receiving) → Distinct r.out_of_order → IsReceived k r → IsReceived k (drain f r)
unfolding drain
drain-IsReceived zero k r d h = h
drain-IsReceived (suc f) k r d h = elim (Option-cases (get r.recv_next r.out_of_order)) [
  | inl e ↦ rw (e, drain) h
  | inr (p, e) ↦
      rw (e, drain)
        (drain-IsReceived f k (append_next p (remove r.recv_next r.out_of_order) r)
          (remove-Distinct r.recv_next r.out_of_order d)
          (received-remove k r.recv_next r.out_of_order d h))
]

pub accept-IsReceived :
    (seq k : ℕ) (payload : Bytes) (r : Receiving)
    → Distinct r.out_of_order
    → IsReceived k r
    → IsReceived k (accept seq payload r)
accept-IsReceived seq k payload r d h =
    accept_cases (IsReceived k) seq payload r
      (λ e.
        drain-IsReceived (length r.out_of_order) k (append_next payload r.out_of_order r) d
          (ground arith))
      (λ l. ground (
        arith,
        has-get k r.out_of_order,
        has-get k (put seq payload r.out_of_order),
        get-put seq k payload r.out_of_order,
      ))
      (λ o. h)

pub accept-IsReceived_self :
    (seq : ℕ) (payload : Bytes) (r : Receiving)
    → Distinct r.out_of_order
    → IsReceived seq (accept seq payload r)
accept-IsReceived_self seq payload r d =
    accept_cases (IsReceived seq) seq payload r
      (λ e.
        drain-IsReceived (length r.out_of_order) seq (append_next payload r.out_of_order r) d
          (inl (omega arith)))
      (λ l. ground (
        arith,
        has-get seq (put seq payload r.out_of_order),
        get-put seq seq payload r.out_of_order,
      ))
      (λ o. inl o)

-- Where nothing deliverable waits and the first `n` packets were received, they are delivered.
pub received_all :
    (n : ℕ) (r : Receiving) → IsSettled r → ((k : ℕ) → k < n → IsReceived k r) → n ≤ r.recv_next
received_all n r h all = elim (Bool-cases (leb n r.recv_next)) [
  | inl e ↦ ground arith
  | inr e ↦ ground (arith, all r.recv_next (ground arith), has-get r.recv_next r.out_of_order)
]
