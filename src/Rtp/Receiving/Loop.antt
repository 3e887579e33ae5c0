-- ===== src/Rtp/Receiving/Loop.antt =====
-- The loop of _on_data that takes up the packets that wait.
use dpmp.Prelude.{
  ℕ, zero, suc, ◌+◌, ◌≤◌, ◌≡◌, inl, inr, none, some, ◌++◌, length, Option-cases, arith, nat_eq,
}
use dpmp.Dict.{get, remove}
use dpmp.Dict.Laws.{length-remove_hit}
use dpmp.Codec.BigEndian.{Bytes}
use dpmp.Rtp.State.{Receiving}
use dpmp.Rtp.Receiving.{drain}
use dpmp.Rtp.Receiving.Stream.{get_of_empty}

-- The body of the loop, for the packet that comes next.
abbrev pub body : Bytes → Receiving → Receiving
body payload r = record r {
  recv_buf = r.recv_buf ++ payload;
  out_of_order = remove r.recv_next r.out_of_order;
  recv_next = r.recv_next + 1;
}

-- `while self._recv_next in self._out_of_order: …` started in the first state ends in the second.
pub data Ends : Receiving → Receiving → Type 0 where
  stops : {r : Receiving} → get r.recv_next r.out_of_order ≡ none → Ends r r
  goes_on :
      {r r' : Receiving} {payload : Bytes}
      → get r.recv_next r.out_of_order ≡ some payload
      → Ends (body payload r) r'
      → Ends r r'

Ends-within : (f : ℕ) (r : Receiving) → length r.out_of_order ≤ f → Ends r (drain f r)
unfolding drain
Ends-within zero r h = stops (get_of_empty r.recv_next r.out_of_order h)
Ends-within (suc f) r h = elim (Option-cases (get r.recv_next r.out_of_order)) [
  | inl e ↦ rw (e, drain) (stops e)
  | inr (p, e) ↦
      let fewer = length-remove_hit r.recv_next p r.out_of_order e in
      rw (e, drain) (goes_on e (Ends-within f (body p r) (omega (arith, fewer, h))))
]

-- The loop that takes up the waiting packets comes to an end, whatever waits, and `drain` with as many
-- rounds as there are packets waiting gives the state in which it ends.
pub drain-Ends : (r : Receiving) → Ends r (drain (length r.out_of_order) r)
drain-Ends r = Ends-within (length r.out_of_order) r (omega arith)
