-- ===== src/Rtp/Control.antt =====
-- Clock synchronisation, the punch messages, keep-alive and closing. The handlers of packets take the
-- payload as bytes; `none` from the codec is the `struct.error` that they catch.
pub mod Clock
pub mod Commit
use dpmp.Prelude.{
  ℕ, zero, suc, ◌+◌, ◌-◌, Bool, true, false, not, ◌&&◌, ◌||◌, nat_eq, Option, none, some, List, [],
  ◌∷◌, ◌++◌, if◌then◌else◌, ltb, leb, eqb, length, ℤ, pos, ◌+ℤ◌, ◌-ℤ◌, leb_ℤ, half_ℤ,
}
use dpmp.Dict.{Dict, get, has, put, remove}
use dpmp.Codec.BigEndian.{Bytes}
use dpmp.Codec.{
  PacketType, type_code, rtp_sync_req, rtp_sync_ack, rtp_sync_commit, rtp_punch_round,
  rtp_tcp_ready, rtp_punch_fail, rtp_fin, rtp_keepalive, rtp_proto_ver, pack_header, pack_packet,
  pack_sync_req, unpack_sync_req, pack_sync_ack, unpack_sync_ack, pack_sync_commit_v2,
  unpack_sync_commit_v2, pack_sync_commit_v1, unpack_sync_commit_v1, pack_punch_round,
  unpack_punch_round,
}
use dpmp.Rtp.State.{Config, Sync, Rtp, Effect, sent, sync_ready, punch_round, peer_dead, try_send}

-- A packet without a sequence number; `none` if its payload or its header could not be packed.
unfoldable pub control_packet : PacketType → Rtp → Option Bytes → Option Bytes
control_packet t s none = none
control_packet t s (some payload) = pack_packet (type_code t) 0 s.receiving.recv_next payload

unfoldable pub send_punch_round : (Bytes → Bool) → ℕ → ℤ → ℤ → Rtp → Rtp × List Effect × Bool
unfolding control_packet
send_punch_round up now round_no t_go_r s =
    try_send up now (control_packet rtp_punch_round s (pack_punch_round round_no t_go_r)) s

unfoldable pub send_tcp_ready : (Bytes → Bool) → ℕ → Rtp → Rtp × List Effect × Bool
unfolding control_packet
send_tcp_ready up now s = try_send up now (control_packet rtp_tcp_ready s (some [])) s

unfoldable pub send_punch_fail : (Bytes → Bool) → ℕ → Rtp → Rtp × List Effect × Bool
unfolding control_packet
send_punch_fail up now s = try_send up now (control_packet rtp_punch_fail s (some [])) s

abbrev seen_version : ℕ → Sync → Sync
seen_version v y = record y { peer_ver = if ltb y.peer_ver v then v else y.peer_ver }

abbrev effects_of : Rtp × List Effect × Bool → Rtp × List Effect
effects_of (s, effects, ok) = (s, effects)

-- _on_sync_req, with t2 = t3 = now
unfoldable pub on_sync_req : (Bytes → Bool) → ℕ → Bytes → Rtp → Rtp × List Effect
unfolding control_packet
on_sync_req up now payload s = elim (unpack_sync_req payload) [
  | none ↦ (s, [])
  | some (t1, v) ↦
      let s' = record s { sync = seen_version v s.sync } in
      effects_of (
        try_send up now
          (control_packet rtp_sync_ack s'
            (pack_sync_ack (pos t1) (pos now) (pos now) (pos rtp_proto_ver)))
          s')
]

-- (t4 - t1) - (t3 - t2)
unfoldable pub sync_rtt_of : ℕ → ℕ → ℕ → ℕ → ℤ
sync_rtt_of t1 t2 t3 t4 = (pos t4 -ℤ pos t1) -ℤ (pos t3 -ℤ pos t2)

-- ((t2 - t1) + (t3 - t4)) // 2
unfoldable pub sync_offset_of : ℕ → ℕ → ℕ → ℕ → ℤ
sync_offset_of t1 t2 t3 t4 = half_ℤ ((pos t2 -ℤ pos t1) +ℤ (pos t3 -ℤ pos t4))

-- _on_sync_ack at t4 = now: a reply is kept only for a sample that is waited for, whose event is set.
unfoldable pub on_sync_ack : ℕ → Bytes → Rtp → Rtp
unfolding sync_rtt_of sync_offset_of
on_sync_ack now payload s = elim (unpack_sync_ack payload) [
  | none ↦ s
  | some (t1, t2, t3, v) ↦
      let y = seen_version v s.sync in
      record s {
        sync =
            if has t1 y.sync_pending
            then record y {
              sync_replies =
                  put t1 (sync_rtt_of t1 t2 t3 now, sync_offset_of t1 t2 t3 now, now)
                    y.sync_replies;
              sync_pending = put t1 true y.sync_pending;
            }
            else y;
      }
]

-- `self._sync_offset or 0`
abbrev pub or_zero : Option ℤ → ℤ
or_zero none = pos 0
or_zero (some z) = z

-- The v2 branch of _on_sync_commit: a commit id that is not above the last one is a duplicate.
unfoldable pub commit_v2 : ℕ → ℕ → Rtp → Rtp × List Effect
commit_v2 t_go_r commit_id s =
    let y = s.sync in
    if leb_ℤ (pos commit_id) y.last_commit_id then (s, []) else (
      record s { sync = record y { last_commit_id = pos commit_id } },
      sync_ready (pos t_go_r -ℤ or_zero y.sync_offset) ∷ [],
    )

unfoldable pub on_sync_commit : ℕ → Bytes → Rtp → Rtp × List Effect
unfolding commit_v2
on_sync_commit now payload s =
    if eqb (length payload) 16
    then (elim (unpack_sync_commit_v2 payload) [
      | none ↦ (s, [])
      | some (t_go_r, commit_id) ↦ commit_v2 t_go_r commit_id s
    ])
    else (elim (unpack_sync_commit_v1 payload) [
      | none ↦ (s, [])
      | some delta_ms ↦ (s, sync_ready (pos (now + delta_ms)) ∷ [])
    ])

unfoldable pub on_punch_round_pkt : Bytes → List Effect
on_punch_round_pkt payload = elim (unpack_punch_round payload) [
  | none ↦ []
  | some (round_no, t_go_r) ↦ punch_round round_no t_go_r ∷ []
]

-- start_sync, first part: `none` if a sampling is running.
unfoldable pub sync_begin : Rtp → Option Rtp
sync_begin s =
    let y = s.sync in
    if y.sync_in_progress
    then none
    else some (record s {
      sync = record y {
        sync_in_progress = true;
        sync_samples = [];
        sync_pending = [];
        sync_replies = [];
      };
    })

-- A sample's request at the time t1; the last part is false where the `break` is taken.
unfoldable pub sync_request : (Bytes → Bool) → ℕ → Rtp → Rtp × List Effect × Bool
unfolding control_packet
sync_request up t1 s =
    let y = s.sync in
    let s' = record s { sync = record y { sync_pending = put t1 false y.sync_pending } } in
    try_send up t1 (control_packet rtp_sync_req s' (pack_sync_req (pos t1) (pos rtp_proto_ver))) s'

-- The end of a sample: `ok` is what the wait for its event returned.
unfoldable pub sync_collect : ℕ → Bool → Rtp → Rtp
sync_collect t1 ok s =
    let y = s.sync in
    record s {
      sync = record y {
        sync_replies = remove t1 y.sync_replies;
        sync_pending = remove t1 y.sync_pending;
        sync_samples = elim (get t1 y.sync_replies) [
          | none ↦ y.sync_samples
          | some (rtt, offset, t4) ↦
              if ok then y.sync_samples ++ (rtt, offset) ∷ [] else y.sync_samples
        ];
      };
    }

-- `min(samples, key=lambda s: s[0])`: the first of those with the least round trip
unfoldable pub best_sample : ℤ × ℤ → List (ℤ × ℤ) → ℤ × ℤ
best_sample best [] = best
best_sample best (x ∷ xs) = best_sample (if leb_ℤ best.0 x.0 then best else x) xs

-- The copies of the commit; the first failure ends them.
unfoldable pub send_copies : (Bytes → Bool) → ℕ → ℕ → Option Bytes → Rtp → Rtp × List Effect × Bool
send_copies up now zero packet s = (s, [], true)
send_copies up now (suc n) packet s =
    let (s', effects, ok) = try_send up now packet s in
    let (s'', more, ok') = send_copies up now n packet s' in
    if ok then (s'', effects ++ more, ok') else (s', effects, false)

abbrev pub committed : ℤ → Rtp × List Effect × Bool → Rtp × List Effect
committed t_go (s, effects, true) = (s, effects ++ sync_ready t_go ∷ [])
committed t_go (s, effects, false) = (s, effects)

-- The commit: T_go is sent on the responder's clock to a peer of version 2, as a delay to an older one.
unfoldable pub send_commit : (Bytes → Bool) → ℕ → ℤ × ℤ → Rtp → Rtp × List Effect
unfolding send_copies control_packet
send_commit up t_send (rtt, offset) s =
    let y = s.sync in
    let id = y.commit_seq + 1 in
    let t_go = t_send + s.cfg.sync_commit_delay_ms in
    let s' = record s {
      sync = record y { sync_offset = some offset; sync_rtt = some rtt; commit_seq = id };
    } in
    committed (pos t_go) (
      if leb rtp_proto_ver y.peer_ver
      then send_copies up t_send s.cfg.sync_commit_resend
          (control_packet rtp_sync_commit s' (pack_sync_commit_v2 (pos t_go +ℤ offset) (pos id))) s'
      else try_send up t_send
          (control_packet rtp_sync_commit s' (pack_sync_commit_v1 (pos s.cfg.sync_commit_delay_ms)))
          s')

abbrev sync_ended : Rtp × List Effect → Rtp × List Effect
sync_ended (s, effects) =
    let y = s.sync in (record s { sync = record y { sync_in_progress = false } }, effects)

-- start_sync, last part: with no sample nothing is committed. `finally` clears the flag.
unfoldable pub sync_finish : (Bytes → Bool) → ℕ → Rtp → Rtp × List Effect
unfolding send_commit best_sample
sync_finish up t_send s = elim s.sync.sync_samples [
  | [] ↦ sync_ended (s, [])
  | x ∷ xs ↦ sync_ended (send_commit up t_send (best_sample x xs) s)
]

unfoldable pub is_dead : ℕ → Rtp → Bool
is_dead now s =
    s.closed || s.peer_dead_fired || ltb s.cfg.peer_dead_timeout (now - s.last_recv_time)

-- The body of _keepalive_loop after its sleep.
unfoldable pub keepalive_round : (Bytes → Bool) → ℕ → Rtp → Rtp × List Effect
keepalive_round up now s =
    let (s', effects, ok) =
      if leb s.cfg.keepalive_interval (now - s.last_send_time)
      then try_send up now (pack_header (type_code rtp_keepalive) 0 s.receiving.recv_next 0 0) s
      else (s, [], true) in
    if not s'.peer_dead_fired && ltb s'.cfg.peer_dead_timeout (now - s'.last_recv_time)
    then (record s' { peer_dead_fired = true }, effects ++ peer_dead ∷ [])
    else (s', effects)

-- `close` sends FIN once; it does not move the time of the last sending.
unfoldable pub close : (Bytes → Bool) → Rtp → Rtp × List Effect
unfolding control_packet
close up s =
    if s.closed
    then (s, [])
    else let s' = record s { closed = true } in
      (s', (try_send up s.last_send_time (control_packet rtp_fin s' (some [])) s').1)
