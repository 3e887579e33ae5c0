-- ===== src/Rtp/Packet/Meeting.antt =====
-- The commit of the clock synchronisation, from `_send_commit` to the peer's `on_packet`.
use dpmp.Prelude.{
  ℕ, zero, suc, ◌+◌, ◌^◌, ◌≤◌, ◌<◌, ◌≡◌, refl, ap, Bool, true, false, some, List, [], ◌∷◌, ◌++◌,
  length, ℤ, pos, ◌+ℤ◌, ◌-ℤ◌, ◌≤ℤ◌, leb, arith, take_all,
}
use dpmp.Codec.BigEndian.{Bytes, packed, pack_total, length-packed}
use dpmp.Codec.{pack_packet, pack_sync_commit_v2, type_code, rtp_sync_commit, rtp_proto_ver}
use dpmp.Codec.RoundTrip.{packet_roundtrip, packet_read, commit_v2_read}
use dpmp.Rtp.State.{Rtp, Effect, sent, sync_ready}
use dpmp.Rtp.Control.{send_commit, send_copies, control_packet, committed, or_zero}
use dpmp.Rtp.Control.Commit.{answered}
use dpmp.Rtp.Packet.{dispatch, on_packet}
use dpmp.Rtp.Packet.Copies.{on_packet-readable}

abbrev pub copies : ℕ → Bytes → List Effect
copies zero bytes = []
copies (suc n) bytes = sent bytes ∷ copies n bytes

abbrev ended : Rtp × List Effect × Bool → List Effect × Bool
ended (s, effects, ok) = (effects, ok)

send_copies_lem :
    (up : Bytes → Bool) (now n : ℕ) (bytes : Bytes) (s : Rtp)
    → up bytes ≡ true
    → ((send_copies up now n (some bytes) s).1 ≡ copies n bytes)
      × ((send_copies up now n (some bytes) s).2 ≡ true)
unfolding send_copies
send_copies_lem up now zero bytes s u = (refl, refl)
send_copies_lem up now (suc n) bytes s u =
    let (same, ok) = send_copies_lem up now n bytes (record s { last_send_time = now }) u in
    rw (u, same, ok) (refl, refl)

committed_lem :
    (t : ℤ) (x : Rtp × List Effect × Bool) (es : List Effect)
    → x.1 ≡ es
    → x.2 ≡ true
    → (committed t x).1 ≡ es ++ sync_ready t ∷ []
committed_lem t (s, effects, true) es e ok = ap (λ q. q ++ sync_ready t ∷ []) e
committed_lem t (s, effects, false) es e ok = absurd cc

on_packet-commit :
    (up : Bytes → Bool) (now a z id : ℕ) (payload bytes : Bytes) (r : Rtp)
    → pack_sync_commit_v2 (pos z) (pos id) ≡ some payload
    → pack_packet (type_code rtp_sync_commit) 0 a payload ≡ some bytes
    → r.closed ≡ false
    → (pos id ≤ℤ r.sync.last_commit_id → ⊥)
    → ((on_packet up now bytes r).1 ≡ sync_ready (pos z -ℤ or_zero r.sync.sync_offset) ∷ [])
      × ((on_packet up now bytes r).0.sync.last_commit_id ≡ pos id)
unfolding dispatch
on_packet-commit up now a z id payload bytes r h p open_ fresh =
    let (t, n, z_is, id_is, size, read) = commit_v2_read (pos z) (pos id) payload h in
    let (header, body) = packet_read (type_code rtp_sync_commit) 0 a payload bytes p in
    rw
      (
        on_packet-readable up now bytes r _ header open_,
        body,
        take_all (length payload) payload (omega arith),
        z_is,
      )
      (answered now payload (record r { last_recv_time = now }) t n (pos id) size read id_is fresh)

commit_packed :
    (z id : ℕ)
    → z < 2 ^ 64
    → id < 2 ^ 64
    → (payload : Bytes) × (pack_sync_commit_v2 (pos z) (pos id) ≡ some payload)
      × (length payload ≡ 16)
unfolding pack_sync_commit_v2
commit_packed z id hz hid = (
  packed (8 ∷ 8 ∷ []) (z ∷ id ∷ []),
  pack_total (8 ∷ 8 ∷ []) (z ∷ id ∷ []) (omega arith, (omega arith, tt)),
  length-packed (8 ∷ 8 ∷ []) (z ∷ id ∷ []) (omega arith, (omega arith, tt)),
)

send_commit_lem :
    (up : Bytes → Bool) (t_send : ℕ) (rtt offset : ℤ) (z : ℕ) (payload bytes : Bytes) (s : Rtp)
    → up bytes ≡ true
    → rtp_proto_ver ≤ s.sync.peer_ver
    → pos (t_send + s.cfg.sync_commit_delay_ms) +ℤ offset ≡ pos z
    → pack_sync_commit_v2 (pos z) (pos (s.sync.commit_seq + 1)) ≡ some payload
    → pack_packet (type_code rtp_sync_commit) 0 s.receiving.recv_next payload ≡ some bytes
    → (send_commit up t_send (rtt, offset) s).1
      ≡ copies s.cfg.sync_commit_resend bytes
        ++ sync_ready (pos (t_send + s.cfg.sync_commit_delay_ms)) ∷ []
unfolding send_commit control_packet
send_commit_lem up t_send rtt offset z payload bytes s u v e h p =
    let new : leb rtp_proto_ver s.sync.peer_ver ≡ true = ground arith in
    let copied =
      send_copies_lem up t_send s.cfg.sync_commit_resend bytes
        (record s {
          sync = record s.sync {
            sync_offset = some offset;
            sync_rtt = some rtt;
            commit_seq = s.sync.commit_seq + 1;
          };
        })
        u in
    rw (new, e, h, p)
      (committed_lem (pos (t_send + s.cfg.sync_commit_delay_ms)) _ _ copied.0 copied.1)

-- For a peer of version 2, with every send going through and the numbers fitting their fields: the
-- initiator sends as many copies of one packet as the configuration says and is to act at the time
-- agreed on, `t_send` and the delay. A peer that is open and has seen no commit of this number or a later
-- one, and gets the packet, is to act at that time plus the initiator's offset, less the offset that
-- it has measured itself, which counts as 0 where it has none; it then has the number.
pub commit_meeting :
    (up : Bytes → Bool) (t_send now : ℕ) (rtt offset : ℤ) (z : ℕ) (s r : Rtp)
    → ((bytes : Bytes) → up bytes ≡ true)
    → rtp_proto_ver ≤ s.sync.peer_ver
    → pos (t_send + s.cfg.sync_commit_delay_ms) +ℤ offset ≡ pos z
    → z < 2 ^ 64
    → s.sync.commit_seq + 1 < 2 ^ 64
    → s.receiving.recv_next < 2 ^ 32
    → r.closed ≡ false
    → (pos (s.sync.commit_seq + 1) ≤ℤ r.sync.last_commit_id → ⊥)
    → let t_go = pos (t_send + s.cfg.sync_commit_delay_ms) in
      (bytes : Bytes) × ((send_commit up t_send (rtt, offset) s).1
        ≡ copies s.cfg.sync_commit_resend bytes ++ sync_ready t_go ∷ [])
      × ((on_packet up now bytes r).1
          ≡ sync_ready (t_go +ℤ offset -ℤ or_zero r.sync.sync_offset) ∷ [])
      × ((on_packet up now bytes r).0.sync.last_commit_id ≡ pos (s.sync.commit_seq + 1))
commit_meeting up t_send now rtt offset z s r u v e hz hid ha open_ fresh =
    let (payload, packs, size) = commit_packed z (s.sync.commit_seq + 1) hz hid in
    let (bytes, whole, header, body) =
      packet_roundtrip (type_code rtp_sync_commit) 0 s.receiving.recv_next payload (record {
        type_range = omega arith;
        seq_range = omega arith;
        ack_range = ha;
        length_range = omega (arith, size);
      }) in
    let (acts, has_number) =
      on_packet-commit up now s.receiving.recv_next z (s.sync.commit_seq + 1) payload bytes r packs
        whole open_ fresh in
    (
      bytes,
      send_commit_lem up t_send rtt offset z payload bytes s (u bytes) v e packs whole,
      rw e acts,
      has_number,
    )
