-- ===== src/Rtp/Receiving.antt =====
-- The receiving half: the reassembly of `_on_data`, and the reads.
pub mod Exact
pub mod Loop
pub mod Stream
use dpmp.Prelude.{
  ℤ, ℕ, zero, suc, ◌+◌, ◌-◌, min, Bool, true, false, not, ◌&&◌, nat_eq, Option, none, some, List,
  [], ◌∷◌, ◌++◌, if◌then◌else◌, ltb, leb, eqb, length, take, drop, nonempty,
}
use dpmp.Dict.{Dict, get, put, remove}
use dpmp.Codec.BigEndian.{Bytes}
use dpmp.Rtp.State.{Receiving, Rtp}

-- `while self._recv_next in self._out_of_order`. Each round takes an entry away, so as many rounds as
-- there are entries are enough.
unfoldable pub drain : ℕ → Receiving → Receiving
drain zero r = r
drain (suc fuel) r = elim (get r.recv_next r.out_of_order) [
  | none ↦ r
  | some payload ↦ drain fuel (record r {
    recv_buf = r.recv_buf ++ payload;
    out_of_order = remove r.recv_next r.out_of_order;
    recv_next = r.recv_next + 1;
  })
]

-- The end of _on_data: the next payload is appended, with those that were waiting for it; a later one
-- is kept; an earlier one is dropped.
unfoldable pub accept : ℕ → Bytes → Receiving → Receiving
unfolding drain
accept seq payload r =
    if eqb seq r.recv_next
    then drain (length r.out_of_order)
        (record r { recv_buf = r.recv_buf ++ payload; recv_next = r.recv_next + 1 })
    else if ltb r.recv_next seq
    then record r { out_of_order = put seq payload r.out_of_order }
    else r

pub data Outcome : Type 0 where
  waits timed_out connection_error : Outcome
  got : Bytes → Outcome

-- `recv` when it is (re)started or woken at `now`: it waits while nothing is there and the peer is
-- not closed, up to its deadline; otherwise it takes at most `n` bytes.
unfoldable pub recv : ℕ → Option ℕ → ℕ → Rtp → Outcome × Rtp
recv now deadline n s =
    if not (nonempty s.receiving.recv_buf) && not s.peer_closed
    then (elim deadline [ none ↦ waits | some d ↦ if leb d now then timed_out else waits ], s)
    else let r = s.receiving in
      (got (take n r.recv_buf), record s { receiving = record r { recv_buf = drop n r.recv_buf } })

abbrev written : Outcome → Bytes → Outcome × Bytes
written (got bytes) buffer = (got bytes, bytes ++ drop (length bytes) buffer)
written waits buffer = (waits, buffer)
written timed_out buffer = (timed_out, buffer)
written connection_error buffer = (connection_error, buffer)

-- recv_into: what was read, the buffer afterwards, and the socket
unfoldable pub recv_into : ℕ → Option ℕ → Bytes → ℕ → Rtp → (Outcome × Bytes) × Rtp
unfolding recv
recv_into now deadline buffer nbytes s =
    let n = if ltb 0 nbytes then nbytes else length buffer in
    let (outcome, s') = recv now deadline n s in (written outcome buffer, s')

-- settimeout
unfoldable pub settimeout : Option ℕ → Rtp → Rtp
settimeout t s = record s { timeout = t }

-- get_sync_offset, get_sync_rtt and get_peer_ver
abbrev pub get_sync_offset : Rtp → Option ℤ
get_sync_offset s = s.sync.sync_offset

abbrev pub get_sync_rtt : Rtp → Option ℤ
get_sync_rtt s = s.sync.sync_rtt

abbrev pub get_peer_ver : Rtp → ℕ
get_peer_ver s = s.sync.peer_ver
