-- ===== src/Client/Setup/Registered.antt =====
-- What the client sends to register a mapping, as the server reads it.
use dpmp.Prelude.{
  ℕ, ◌+◌, ◌-◌, ◌<◌, ◌≡◌, refl, sym, ap, subst, inl, inr, none, some, Option, List, [], ◌∷◌, ◌++◌,
  true, ltb, length, Bool-cases, take, length-append, take-append_of, drop-append_of, Text,
  nonempty, take-append, arith, append_assoc, length-take, ◌∙◌,
}
use dpmp.Codec.BigEndian.{Bytes, packed, pack_total, unpack-packed, length-packed}
use dpmp.Server.State.{or_default}
use dpmp.Server.Handlers.Registration.{read_registration, recv_exact, whole_or_empty, named}
use dpmp.Server.Handlers.Registration.Exactly.{IsSolid, joined, exactly_lem, take-append_past}
use dpmp.Client.Setup.{registration, framed}

abbrev head_of : ℕ → Bytes
head_of n = packed (2 ∷ []) (n ∷ [])

head_length : (n : ℕ) → n < 65536 → length (head_of n) ≡ 2
head_length n h = length-packed (2 ∷ []) (n ∷ []) (omega arith, tt)

-- The bytes that are sent for an id, none where it cannot be sent.
abbrev pub sent_for : (Text → Option Bytes) → Text → Bytes
sent_for encode mid = or_default [] (registration encode mid)

module _ (encode : Text → Option Bytes) (decode : Bytes → Option Text) where
  registration_eq :
      (mid : Text) (b : Bytes)
      → encode mid ≡ some b
      → length b < 65536
      → registration encode mid ≡ some (head_of (length b) ++ b)
  unfolding registration framed
  registration_eq mid b e h = rw (e, pack_total (2 ∷ []) (length b ∷ []) (omega arith, tt)) refl

  -- Any connection that begins with the length of an id.
  read_after :
      (n : ℕ) (stream : Bytes) (conn : List Bytes)
      → n < 65536
      → IsSolid conn
      → joined conn ≡ head_of n ++ stream
      → (conn' : List Bytes) × IsSolid conn'
        × (joined conn' ≡ stream)
        × (read_registration decode conn ≡ named (decode (whole_or_empty (recv_exact n conn'))))
  unfolding read_registration
  read_after n stream conn h solid e =
      let two = head_length n h in
      let (conn', given, solid', rest) =
        (exactly_lem 2 conn solid).0
          (omega (arith, ap length e, length-append (head_of n) stream, two)) in
      let head : take 2 (joined conn) ≡ head_of n = rw e (take-append_of (head_of n) stream two) in
      (
        conn',
        solid',
        rest ∙ rw e (drop-append_of (head_of n) stream two),
        rw (given, head, unpack-packed (2 ∷ []) (n ∷ []) (omega arith, tt)) refl,
      )

  read_whole :
      (mid : Text) (b rest : Bytes) (conn : List Bytes)
      → nonempty mid ≡ true
      → decode b ≡ some mid
      → length b < 65536
      → IsSolid conn
      → joined conn ≡ (head_of (length b) ++ b) ++ rest
      → read_registration decode conn ≡ some mid
  read_whole mid b rest conn some_id d h solid e =
      let (conn', solid', stream, reads) =
        read_after (length b) (b ++ rest) conn h solid
          (e ∙ append_assoc (head_of (length b)) b rest) in
      let (left, given, solid'', more) =
        (exactly_lem (length b) conn' solid').0
          (omega (arith, ap length stream, length-append b rest)) in
      reads ∙ rw (given, stream, take-append b rest, d, some_id) refl

  read_cut :
      (b : Bytes) (k : ℕ) (conn : List Bytes)
      → decode [] ≡ some []
      → length b < 65536
      → IsSolid conn
      → joined conn ≡ take k (head_of (length b) ++ b)
      → k < length b + 2
      → read_registration decode conn ≡ none
  unfolding read_registration
  read_cut b k conn d h solid e short =
      let two = head_length (length b) h in
      let size = ap length e ∙ length-take k (head_of (length b) ++ b) in
      elim (Bool-cases (ltb k 2)) [
        | inl few ↦ rw ((exactly_lem 2 conn solid).1 (ground (arith, size))) refl
        | inr more ↦
            let n = k - 2 in
            let split : length (head_of (length b)) + n ≡ k = ground arith in
            let cut : take k (head_of (length b) ++ b) ≡ head_of (length b) ++ take n b =
              subst (λ j. take j (head_of (length b) ++ b) ≡ head_of (length b) ++ take n b) split
                (take-append_past n (head_of (length b)) b) in
            let (conn', solid', stream, reads) =
              read_after (length b) (take n b) conn h solid (e ∙ cut) in
            reads
            ∙ rw
                (
                  (exactly_lem (length b) conn' solid').1
                      (ground (arith, ap length stream, length-take n b)),
                  d,
                )
                refl
      ]

  -- An id that is not empty and that `encode` gives fewer than 2 ^ 16 bytes, from which `decode` gives
  -- it back, can be sent. It is what the server reads from a connection that delivers the bytes sent
  -- and then anything else, however it cuts them; from one that ends within them the server reads no
  -- id. `decode` takes no bytes for the empty text.
  pub registration_roundtrip :
      (mid : Text) (b rest : Bytes) (k : ℕ) (conn ends : List Bytes)
      → nonempty mid ≡ true
      → encode mid ≡ some b
      → decode b ≡ some mid
      → decode [] ≡ some []
      → length b < 65536
      → IsSolid conn
      → joined conn ≡ sent_for encode mid ++ rest
      → IsSolid ends
      → joined ends ≡ take k (sent_for encode mid)
      → k < length (sent_for encode mid)
      → (registration encode mid ≡ some (sent_for encode mid))
        × (read_registration decode conn ≡ some mid)
        × (read_registration decode ends ≡ none)
  registration_roundtrip mid b rest k conn ends some_id e d d0 h solid all solid' cut short =
      let eq = registration_eq mid b e h in
      let sent : sent_for encode mid ≡ head_of (length b) ++ b = ap (or_default []) eq in
      let size : k < length b + 2 =
        omega
          (arith, ap length sent, length-append (head_of (length b)) b, head_length (length b) h) in
      (
        eq ∙ ap some (sym sent),
        read_whole mid b rest conn some_id d h solid (all ∙ ap (λ x. x ++ rest) sent),
        read_cut b k ends d0 h solid' (cut ∙ ap (take k) sent) size,
      )
