-- ===== src/Pipeline/Held.antt =====
-- Which task has which packet, between any two calls.
use zynq_lwip_frtos.Base.{
  ℕ, ◌+◌, ◌<◌, ◌≡◌, subst, inl, inr, Bool, true, false, Option, none, some, some_inj, List, [], ◌∷◌,
  ◌++◌, arith, leb, ◌==◌, ==→eq, Bool-cases, occurs, >>=-eq-some, if◌then◌else◌,
}
use zynq_lwip_frtos.Udp.Merge.{Packet, merge}
use zynq_lwip_frtos.Udp.Task.{Pbuf, pbuf_free, Parser, count}
use zynq_lwip_frtos.Pipeline.Packet.{freed, kept_by, kept_by-first}
use zynq_lwip_frtos.Pipeline.Schedule.{
  Place, waiting, first_question, sending, refused, answering, second_question, sending_only,
  freeing, merge_into, take_packet,
}

-- The packet of `udp_parse_task` in front of its next call, unless it was passed on. In front of
-- the second question it was passed on if the task of the gain control is not suspended.
abbrev pub at_hand : Place → Bool → List ℕ
at_hand waiting suspended = []
at_hand (first_question b) suspended = b.address ∷ []
at_hand (sending b) suspended = b.address ∷ []
at_hand (refused b) suspended = b.address ∷ []
at_hand (answering b taken) suspended = []
at_hand (second_question b) suspended = if suspended then b.address ∷ [] else []
at_hand (sending_only b) suspended = b.address ∷ []
at_hand (freeing b) suspended = b.address ∷ []

-- A packet that is passed on is so because the task was not suspended; once the queue took it, it
-- is in the queue.
abbrev pub Passing : Place → Bool → List ℕ → Type 0
Passing (sending b) suspended queue = suspended ≡ false
Passing (refused b) suspended queue = suspended ≡ false
Passing (answering b false) suspended queue = suspended ≡ false
Passing (answering b true) suspended queue = (suspended ≡ false) × (0 < occurs b.address queue)
Passing _ suspended queue = Unit

abbrev pub handled : Option Pbuf → List ℕ
handled none = []
handled (some b) = b.address ∷ []

-- One packet that `udp_parse_task` takes, with an empty list of calls before: what the task has and
-- where it is.
pub record Takes (p : Pbuf) (s : Parser) (r : Parser × Place) : Type 0 where
  pub counter : 0 < r.0.counter_of_packets
  pub passing : (suspended : Bool) (queue : List ℕ) → Passing r.1 suspended queue
  pub owned :
      (a : ℕ) (suspended : Bool)
      → occurs a (kept_by s.counter_of_packets s.old_pbuf) + occurs a (p.address ∷ [])
        ≡ occurs a (freed r.0.calls)
          + occurs a (kept_by r.0.counter_of_packets r.0.old_pbuf)
          + occurs a (at_hand r.1 suspended)

module _ (p old : Pbuf) (s : Parser) (none_made : s.calls ≡ []) (pos : 0 < s.counter_of_packets)
    (later : (s.counter_of_packets == 1) ≡ false) (is_old : s.old_pbuf ≡ some old) where
  tenth-Takes :
      (packet : Packet)
      → (let kept = record old { packet = packet } in
          Takes p s (
            count (record {
              old_pbuf = some kept;
              counter_of_packets = 0;
              calls = s.calls ++ pbuf_free p.address ∷ [];
            }),
            first_question kept,
          ))
  tenth-Takes packet = record {
    counter = omega arith;
    passing = λ suspended queue. tt;
    owned = λ a suspended. rw (none_made, is_old, later) omega arith;
  }

  merged-Takes :
      (packet : Packet)
      → leb 10 s.counter_of_packets ≡ false
      → Takes p s (
        count (record s {
          old_pbuf = some (record old { packet = packet });
          calls = s.calls ++ pbuf_free p.address ∷ [];
        }),
        waiting,
      )
  merged-Takes packet more = record {
    counter = ground (arith, more);
    passing = λ suspended queue. tt;
    owned = λ a suspended. rw (none_made, is_old, later) ground (arith, more, pos, later);
  }

  merge_into-Takes : (r : Parser × Place) → merge_into p old s ≡ some r → Takes p s (count r.0, r.1)
  unfolding merge_into
  merge_into-Takes r e =
      let (merged, e0, e1) = >>=-eq-some (merge p.packet old.packet) _ e in
      elim (Bool-cases (leb 10 s.counter_of_packets)) [
        | inl tenth ↦
            subst (λ x. Takes p s (count x.0, x.1)) (some_inj (rw tenth at e1)) (tenth-Takes merged)
        | inr more ↦
            subst (λ x. Takes p s (count x.0, x.1)) (some_inj (rw more at e1))
              (merged-Takes merged more)
      ]

first-Takes :
    (p : Pbuf) (s : Parser)
    → s.calls ≡ []
    → (s.counter_of_packets == 1) ≡ true
    → Takes p s (count (record s { old_pbuf = some p }), waiting)
first-Takes p s none_made one = record {
  counter = ground (arith, one);
  passing = λ suspended queue. tt;
  owned = λ a suspended.
      rw (kept_by-first s.old_pbuf s.counter_of_packets one, none_made)
        (let two : s.counter_of_packets ≡ 1 = ==→eq _ _ one in rw two (omega arith));
}

pub take_packet-Takes :
    (p : Pbuf) (s : Parser) (r : Parser × Place)
    → s.calls ≡ []
    → 0 < s.counter_of_packets
    → take_packet p s ≡ some r
    → Takes p s r
unfolding take_packet
take_packet-Takes p s r none_made pos e = elim (Bool-cases (s.counter_of_packets == 1)) [
  | inl one ↦ subst (Takes p s) (some_inj (rw one at e)) (first-Takes p s none_made one)
  | inr later ↦
      let (old, e0, e1) = >>=-eq-some s.old_pbuf _ (rw later at e) in
      let (t, e2, e3) = >>=-eq-some (merge_into p old s) _ e1 in
      subst (Takes p s) (some_inj e3) (merge_into-Takes p old s none_made pos later e0 t e2)
]
