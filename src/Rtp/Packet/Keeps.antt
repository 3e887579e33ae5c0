-- ===== src/Rtp/Packet/Keeps.antt =====
-- What the packets that arrive, and packets that are sent, leave of a socket.
use dpmp.Prelude.{
  ℕ, Bool, some, List, [], ◌∷◌, ltb, eqb, pos, leb_ℤ, ◌||◌, length, arith, Option-cases, Bool-cases,
  inl, inr,
}
use dpmp.Codec.BigEndian.{Bytes}
use dpmp.Codec.{
  rtp_header_size, Header, unpack_header, unpack_sync_req, unpack_sync_ack, unpack_sync_commit_v2,
  unpack_sync_commit_v1,
}
use dpmp.Rtp.State.{Config, Sending, Receiving, try_send_keeps, Rtp, try_send}
use dpmp.Rtp.Sending.{on_ack, send_each}
use dpmp.Rtp.Control.{on_sync_req, on_sync_ack, on_sync_commit, commit_v2}
use dpmp.Rtp.Packet.{on_data, dispatch, payload_of, on_packet}

-- A property of the configuration, the sending half, the receiving half and the closing flag.
module _ {ℓ} (P : Config → Sending → Receiving → Bool → Type ℓ) where
  abbrev HoldsOf : Rtp → Type ℓ
  HoldsOf s = P s.cfg s.sending s.receiving s.closed

  sync_req_keeps :
      (up : Bytes → Bool) (now : ℕ) (p : Bytes) (s : Rtp)
      → HoldsOf s
      → HoldsOf (on_sync_req up now p s).0
  unfolding on_sync_req
  sync_req_keeps up now p s h = elim (Option-cases (unpack_sync_req p)) [
    | inl e ↦ rw (e, on_sync_req) h
    | inr (x, e) ↦ rw (e, on_sync_req) (try_send_keeps HoldsOf up now _ _ h h)
  ]

  sync_ack_keeps : (now : ℕ) (p : Bytes) (s : Rtp) → HoldsOf s → HoldsOf (on_sync_ack now p s)
  unfolding on_sync_ack
  sync_ack_keeps now p s h = elim (Option-cases (unpack_sync_ack p)) [
    | inl e ↦ rw (e, on_sync_ack) h
    | inr (x, e) ↦ rw (e, on_sync_ack) h
  ]

  commit_v2_keeps : (t id : ℕ) (s : Rtp) → HoldsOf s → HoldsOf (commit_v2 t id s).0
  unfolding commit_v2
  commit_v2_keeps t id s h = elim (Bool-cases (leb_ℤ (pos id) s.sync.last_commit_id)) [
    | inl e ↦ rw (e, commit_v2) h
    | inr e ↦ rw (e, commit_v2) h
  ]

  commit_keeps : (now : ℕ) (p : Bytes) (s : Rtp) → HoldsOf s → HoldsOf (on_sync_commit now p s).0
  unfolding on_sync_commit
  commit_keeps now p s h = elim (Bool-cases (eqb (length p) 16)) [
    | inl l ↦ elim (Option-cases (unpack_sync_commit_v2 p)) [
      | inl e ↦ rw (l, e, on_sync_commit) h
      | inr ((t, id), e) ↦ rw (l, e, on_sync_commit) (commit_v2_keeps t id s h)
    ]
    | inr l ↦ elim (Option-cases (unpack_sync_commit_v1 p)) [
      | inl e ↦ rw (l, e, on_sync_commit) h
      | inr (d, e) ↦ rw (l, e, on_sync_commit) h
    ]
  ]

  -- Only DATA and ACK touch either half.
  dispatch_keeps :
      (up : Bytes → Bool) (now : ℕ) (h : Header) (p : Bytes) (s : Rtp)
      → HoldsOf s
      → HoldsOf (on_data up now h.seq h.ack p s).0
      → HoldsOf (record s { sending = on_ack s.cfg h.ack s.sending })
      → HoldsOf (dispatch up now h p s).0
  unfolding dispatch
  dispatch_keeps up now h p s kept data_case ack_case = ground (
    arith,
    sync_req_keeps up now p s kept,
    sync_ack_keeps now p s kept,
    commit_keeps now p s kept,
  )

-- A property of the configuration and the sending half that acknowledgements keep.
module _ {ℓ} (Q : Config → Sending → Type ℓ)
    (acks : (c : Config) (ack : ℕ) (s : Sending) → Q c s → Q c (on_ack c ack s)) where
  abbrev SendingHas : Rtp → Type ℓ
  SendingHas s = Q s.cfg s.sending

  on_data_keeps :
      (up : Bytes → Bool) (now seq ack : ℕ) (p : Bytes) (s : Rtp)
      → SendingHas s
      → SendingHas (on_data up now seq ack p s).0
  unfolding on_data
  on_data_keeps up now seq ack p s h =
      let h' = acks s.cfg ack s.sending h in
      try_send_keeps SendingHas up now _ (record s { sending = on_ack s.cfg ack s.sending }) h' h'

  pub packet_keeps :
      (up : Bytes → Bool) (now : ℕ) (bytes : Bytes) (s : Rtp)
      → SendingHas s
      → SendingHas (on_packet up now bytes s).0
  unfolding on_packet
  packet_keeps up now bytes s h =
      elim (Bool-cases (ltb (length bytes) rtp_header_size || s.closed)) [
        | inl e ↦ rw (e, on_packet) h
        | inr e ↦ elim (Option-cases (unpack_header bytes)) [
          | inl n ↦ rw (e, n, on_packet) h
          | inr (x, n) ↦
              rw (e, n, on_packet)
                (dispatch_keeps (λ c s r b. Q c s) up now x (payload_of x bytes)
                  (record s { last_recv_time = now }) h
                  (on_data_keeps up now x.seq x.ack (payload_of x bytes)
                    (record s { last_recv_time = now }) h)
                  (acks s.cfg x.ack s.sending h))
        ]
      ]

  pub send_each_keeps :
      (up : Bytes → Bool) (now : ℕ) (ps : List Bytes) (s : Rtp)
      → SendingHas s
      → SendingHas (send_each up now ps s).0
  unfolding send_each
  send_each_keeps up now [] s h = h
  send_each_keeps up now (p ∷ ps) s h =
      send_each_keeps up now ps (try_send up now (some p) s).0
        (try_send_keeps SendingHas up now (some p) s h h)
