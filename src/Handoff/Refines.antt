-- ===== src/Handoff/Refines.antt =====
-- With any queue of FreeRTOS the callback and the task do what they do with a list.
use mathlib.Core.Option.{map as map_option}
use zynq_lwip_frtos.Base.{
  ◌≡◌, refl, ap, ◌∙◌, inl, inr, Bool, Option, none, some, List, [], ◌∷◌, length, ltb, ltb→lt,
  ltb→le, Bool-cases, Option-cases, ◌>>=◌,
}
use zynq_lwip_frtos.Command.Dispatch.{States, parse_msg}
use zynq_lwip_frtos.Handoff.{
  Buffer, Inbox, Event, arrives, parses, hand_over, recv_callback, parse_entry, tcp_parse_round,
  happen, happen_all,
}
use zynq_lwip_frtos.Handoff.Queue.{Fifo, list_send, list_receive, listed}

map-bind {ℓ κ} :
    {A : Type ℓ} {B : Type κ} (g : A → B) (m : Option A) (k : A → Option A) (k' : B → Option B)
    → ((a : A) → map_option g (k a) ≡ k' (g a))
    → map_option g (m >>= k) ≡ (map_option g m >>= k')
map-bind g none k k' h = refl
map-bind g (some a) k k' h = h a

module _ {Q : Type 0} (f : Fifo (Option Buffer) Q) where
  -- The queue seen as the list of its entries.
  abbrev pub abstract : Inbox Q → Inbox (List (Option Buffer))
  abstract s = record {
    queue = f.contents s.queue;
    woken = s.woken;
    calls = s.calls;
    station = s.station;
  }

  abbrev spec : Fifo (Option Buffer) (List (Option Buffer))
  spec = listed f.capacity

  send-list :
      (q : Q) (a : Option Buffer)
      → ((f.send q a).0 ≡ (list_send f.capacity (f.contents q) a).0)
        × (f.contents (f.send q a).1 ≡ (list_send f.capacity (f.contents q) a).1)
  send-list q a = elim (Bool-cases (ltb (length (f.contents q)) f.capacity)) [
    | inl e ↦ rw e (f.send_room q a (ltb→lt _ _ e))
    | inr e ↦ rw e (f.send_full q a (ltb→le _ _ e))
  ]

  receive-list :
      (q : Q) (xs : List (Option Buffer))
      → f.contents q ≡ xs
      → ((f.receive q).0 ≡ (list_receive xs).0) × (f.contents (f.receive q).1 ≡ (list_receive xs).1)
  receive-list q [] h = f.receive_empty q h
  receive-list q (a ∷ rest) h = f.receive_first q a rest h

  hand_over-abstract :
      (p : Buffer) (wakes : Bool) (s : Inbox Q)
      → abstract (hand_over f p wakes s) ≡ hand_over spec p wakes (abstract s)
  unfolding hand_over
  hand_over-abstract p wakes s = let (sent, left) = send-list s.queue (some p) in simp (sent, left)

  recv_callback-abstract :
      (p : Option Buffer) (wakes : Bool) (s : Inbox Q)
      → abstract (recv_callback f p wakes s).1 ≡ (recv_callback spec p wakes (abstract s)).1
  unfolding recv_callback
  recv_callback-abstract none wakes s = refl
  recv_callback-abstract (some p) wakes s = hand_over-abstract p wakes s

  parse_entry-abstract :
      (r : States) (entry : Option (Option Buffer)) (q : Q) (s : Inbox Q)
      → map_option abstract (parse_entry f r entry q s)
        ≡ parse_entry spec r entry (f.contents q) (abstract s)
  unfolding parse_entry
  parse_entry-abstract r none q s = refl
  parse_entry-abstract r (some none) q s = refl
  parse_entry-abstract r (some (some p)) q s =
      elim (Option-cases (parse_msg r (record s.station { payload = p.payload }))) [
        | inl e ↦ simp e
        | inr (st, e) ↦ simp e
      ]

  tcp_parse_round-abstract :
      (r : States) (s : Inbox Q)
      → map_option abstract (tcp_parse_round f r s) ≡ tcp_parse_round spec r (abstract s)
  unfolding tcp_parse_round
  tcp_parse_round-abstract r s =
      let (entry, left) = receive-list s.queue (f.contents s.queue) refl in
      parse_entry-abstract r (f.receive s.queue).0 (f.receive s.queue).1 s ∙ simp (entry, left)

  happen-abstract :
      (e : Event) (s : Inbox Q) → map_option abstract (happen f e s) ≡ happen spec e (abstract s)
  unfolding happen
  happen-abstract (arrives p wakes) s = ap (λ t. some t) (recv_callback-abstract p wakes s)
  happen-abstract (parses r) s = tcp_parse_round-abstract r s

  -- Whatever the order in which buffers arrive and the task runs, a queue that is bounded and first in,
  -- first out does what a list of the same capacity does: the same entries are left, in the same order,
  -- the same calls are made, and the state of `parse_msg` is the same, or both runs leave the
  -- behaviour of C.
  pub happen_all-abstract :
      (es : List Event) (s : Inbox Q)
      → map_option abstract (happen_all f es s) ≡ happen_all spec es (abstract s)
  unfolding happen_all
  happen_all-abstract [] s = refl
  happen_all-abstract (e ∷ es) s =
      map-bind abstract (happen f e s) _ _ (λ t. happen_all-abstract es t)
      ∙ ap (λ o. o >>= λ t. happen_all spec es t) (happen-abstract e s)
