-- ===== src/Rtp/Transfer/Sends.antt =====
-- What the first socket sends are copies of the packets of the data.
use dpmp.Prelude.{
  ℕ, zero, suc, ◌+◌, ◌≡◌, refl, sym, ◌⊎◌, inl, inr, Bool, Option, none, some, List, [], ◌∷◌, ◌++◌,
  length, drop, get_elem?, nat_eq, arith, All, All-append, All-if, ◌-◌, Bool-cases, ltb,
}
use dpmp.Dict.{Dict}
use dpmp.Dict.Laws.{All-put}
use dpmp.Codec.BigEndian.{Bytes}
use dpmp.Codec.{pack_header, pack_packet, type_code, rtp_data}
use dpmp.Rtp.State.{Config, Sending, Rtp, Effect}
use dpmp.Rtp.Sending.{
  Task, enqueue, enqueued, enqueue_step, sendall_on, blocked, not_below, on_ack, overdue, restamp,
  on_timeout, send_each, rtx_round,
}
use dpmp.Rtp.Packet.Copies.{IsCopy}
use dpmp.Rtp.Packet.Keeps.{packet_keeps, send_each_keeps}
use dpmp.Rtp.Transfer.{retransmits, gets, packets_of, Sender, sender_step}

drop-elem :
    (n : ℕ) (xs : List Bytes) (c : Bytes) (rest : List Bytes)
    → drop n xs ≡ c ∷ rest
    → (get_elem? xs n ≡ some c) × (drop (n + 1) xs ≡ rest)
drop-elem zero [] c rest h = cc
drop-elem zero (x ∷ xs) c rest h = ground arith
drop-elem (suc n) [] c rest h = cc
drop-elem (suc n) (x ∷ xs) c rest h =
    let (elem, later) = drop-elem n xs c rest h in
    let onward : suc n + 1 ≡ suc (n + 1) = omega arith in (elem, rw onward later)

cons_nil : {c : Bytes} {rest : List Bytes} → c ∷ rest ≡ [] → ⊥
cons_nil h = cc

pack_packet-pack_header :
    (t seq ack : ℕ) (payload header : Bytes)
    → pack_header t seq ack (length payload) 0 ≡ some header
    → pack_packet t seq ack payload ≡ some (header ++ payload)
unfolding pack_packet
pack_packet-pack_header t seq ack payload header e = rw (e, pack_packet) refl

module _ (pieces : List Bytes) where
  abbrev pub AnyCopy : Bytes → Type 0
  AnyCopy p = (k : ℕ) × IsCopy pieces k p

  abbrev CopyAt : ℕ × (Bytes × ℕ) → Type 0
  CopyAt (k, (p, ts)) = IsCopy pieces k p

  -- The queue holds copies, and `n` numbers have been given.
  abbrev Queued : ℕ → Config → Sending → Type 0
  Queued n c q = (q.send_seq ≡ n) × All CopyAt q.send_queue

  not_below-Copies :
      (ack : ℕ) (q : Dict ℕ (Bytes × ℕ)) → All CopyAt q → All CopyAt (not_below ack q)
  unfolding not_below
  not_below-Copies ack [] h = tt
  not_below-Copies ack ((k, e) ∷ q) h = elim (Bool-cases (ltb k ack)) [
    | inl b ↦ rw b (not_below-Copies ack q h.1)
    | inr b ↦ rw b (h.0, not_below-Copies ack q h.1)
  ]

  restamp-Copies :
      (rto now : ℕ) (q : Dict ℕ (Bytes × ℕ)) → All CopyAt q → All CopyAt (restamp rto now q)
  unfolding restamp
  restamp-Copies rto now [] h = tt
  restamp-Copies rto now ((k, (p, ts)) ∷ q) h = (h.0, restamp-Copies rto now q h.1)

  overdue-Copies :
      (rto now : ℕ) (q : Dict ℕ (Bytes × ℕ)) → All CopyAt q → All AnyCopy (overdue rto now q)
  unfolding overdue
  overdue-Copies rto now [] h = tt
  overdue-Copies rto now ((k, (p, ts)) ∷ q) h =
      All-if AnyCopy (ltb rto (now - ts)) p (overdue rto now q) (λ e. (k, h.0))
        (overdue-Copies rto now q h.1)

  acks-Queued :
      (n : ℕ) (c : Config) (ack : ℕ) (q : Sending) → Queued n c q → Queued n c (on_ack c ack q)
  unfolding on_ack
  acks-Queued n c ack q h = (h.0, not_below-Copies ack q.send_queue h.1)

  -- What goes out is a copy if what is to be sent is one.
  send_each-Copies :
      (up : Bytes → Bool) (now : ℕ) (ps : List Bytes) (s : Rtp)
      → All AnyCopy ps
      → All AnyCopy (packets_of (send_each up now ps s).1)
  unfolding send_each
  send_each-Copies up now [] s h = tt
  send_each-Copies up now (p ∷ ps) s h = elim (Bool-cases (up p)) [
    | inl e ↦ rw e (h.0, send_each-Copies up now ps (record s { last_send_time = now }) h.1)
    | inr e ↦ rw e (send_each-Copies up now ps s h.1)
  ]

  abbrev PendingIs : Option Bytes → Type 0
  PendingIs none = Unit
  PendingIs (some p) = AnyCopy p

  -- The chunks that are left are those from the next number on, unless `sendall` has failed.
  pub record IsSending (s : Sender) : Type 0 where
    pub place : (s.task.rest ≡ drop s.sock.sending.send_seq pieces) ⊎ (s.task.rest ≡ [])
    pub queued : All CopyAt s.sock.sending.send_queue
    pub pending : PendingIs s.task.pending
    pub wired : All AnyCopy s.wire

  moved :
      (n : ℕ) (task : Task) (sock : Rtp) (wire : List Bytes)
      → (task.rest ≡ drop n pieces) ⊎ (task.rest ≡ [])
      → PendingIs task.pending
      → Queued n sock.cfg sock.sending
      → All AnyCopy wire
      → IsSending (record { sock = sock; task = task; wire = wire })
  moved n task sock wire place pending q wired = record {
    place = elim place [ inl e ↦ inl (rw q.0 e) | inr e ↦ inr e ];
    queued = q.1;
    pending = pending;
    wired = wired;
  }

  pub rtx-IsSending :
      (up : Bytes → Bool) (now : ℕ) (s : Sender)
      → IsSending s
      → IsSending (sender_step up (retransmits now) s)
  unfolding sender_step rtx_round on_timeout
  rtx-IsSending up now s h =
      let q = s.sock.sending in
      let n = q.send_seq in
      let ps = overdue s.sock.cfg.rto_ms now q.send_queue in
      let sock = record s.sock { sending = on_timeout s.sock.cfg now q } in
      moved n s.task _ _ h.place h.pending
        (send_each_keeps (Queued n) (acks-Queued n) up now ps sock
          (refl, restamp-Copies s.sock.cfg.rto_ms now q.send_queue h.queued))
        (All-append AnyCopy s.wire _ h.wired (
          send_each-Copies up now ps sock
            (overdue-Copies s.sock.cfg.rto_ms now q.send_queue h.queued)))

  pub gets-IsSending :
      (up : Bytes → Bool) (now : ℕ) (bytes : Bytes) (s : Sender)
      → IsSending s
      → IsSending (sender_step up (gets now bytes) s)
  unfolding sender_step
  gets-IsSending up now bytes s h =
      let n = s.sock.sending.send_seq in
      moved n s.task _ s.wire h.place h.pending
        (packet_keeps (Queued n) (acks-Queued n) up now bytes s.sock (refl, h.queued)) h.wired

  abbrev AfterPush : List Bytes → Rtp × Task × List Effect → Type 0
  AfterPush wire r = IsSending (record { sock = r.0; task = r.1; wire = wire ++ packets_of r.2 })

  -- The next chunk gets its number.
  enqueued-IsSending :
      (now : ℕ) (chunk : Bytes) (rest : List Bytes) (sock : Rtp) (wire : List Bytes)
      (header : Option Bytes)
      → pack_header
          (type_code rtp_data)
          sock.sending.send_seq
          sock.receiving.recv_next
          (length chunk)
          0
        ≡ header
      → (chunk ∷ rest ≡ drop sock.sending.send_seq pieces) ⊎ (chunk ∷ rest ≡ [])
      → All CopyAt sock.sending.send_queue
      → All AnyCopy wire
      → AfterPush wire (enqueue_step (enqueued now chunk sock header) rest)
  enqueued-IsSending now chunk rest sock wire none e place queue wired = record {
    place = inr refl;
    queued = queue;
    pending = tt;
    wired = All-append AnyCopy wire [] wired tt;
  }
  enqueued-IsSending now chunk rest sock wire (some header) e (inr gone) queue wired =
      absurd (cons_nil gone)
  enqueued-IsSending now chunk rest sock wire (some header) e (inl place) queue wired =
      let n = sock.sending.send_seq in
      let (elem, later) = drop-elem n pieces chunk rest (sym place) in
      let copy : IsCopy pieces n (header ++ chunk) = record {
        ack = sock.receiving.recv_next;
        piece = chunk;
        is_piece = elem;
        is_packed =
            pack_packet-pack_header (type_code rtp_data) n sock.receiving.recv_next chunk header e;
      } in
      record {
        place = inl (sym later);
        queued = All-put CopyAt n (header ++ chunk, now) sock.sending.send_queue copy queue;
        pending = (n, copy);
        wired = All-append AnyCopy wire [] wired tt;
      }

  pub push-IsSending :
      (up : Bytes → Bool) (now : ℕ) (sock : Rtp) (pending : Option Bytes) (rest : List Bytes)
      (wire : List Bytes)
      → IsSending
          (record { sock = sock; task = record { pending = pending; rest = rest }; wire = wire })
      → AfterPush wire (sendall_on up now sock pending rest)
  unfolding enqueue
  push-IsSending up now sock none [] wire h = record {
    place = inr refl;
    queued = h.queued;
    pending = tt;
    wired = All-append AnyCopy wire [] h.wired tt;
  }
  push-IsSending up now sock none (chunk ∷ rest) wire h =
      enqueued-IsSending now chunk rest sock wire _ refl h.place h.queued h.wired
  push-IsSending up now sock (some p) rest wire h = elim (Bool-cases (blocked sock)) [
    | inl e ↦ rw e (record {
      place = h.place;
      queued = h.queued;
      pending = h.pending;
      wired = All-append AnyCopy wire [] h.wired tt;
    })
    | inr e ↦ elim (Bool-cases (up p)) [
      | inl on ↦
          rw (e, on)
            (record {
              place = h.place;
              queued = h.queued;
              pending = tt;
              wired = All-append AnyCopy wire (p ∷ []) h.wired (h.pending, tt);
            })
      | inr off ↦
          rw (e, off)
            (record {
              place = inr refl;
              queued = h.queued;
              pending = tt;
              wired = All-append AnyCopy wire [] h.wired tt;
            })
    ]
  ]
