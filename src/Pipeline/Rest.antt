-- ===== src/Pipeline/Rest.antt =====
-- Where nothing more arrives, the tasks come to rest: each of their steps lowers a measure.
use zynq_lwip_frtos.Base.{
  ℕ, suc, ◌+◌, ◌*◌, ◌≤◌, ◌<◌, ◌≡◌, refl, subst, ap, inl, inr, Bool, true, false, Option, none, some,
  some_inj, List, [], ◌∷◌, arith, length, length-append, if◌then◌else◌, >>=-eq-some,
}
use zynq_lwip_frtos.Handoff.Queue.{Fifo}
use zynq_lwip_frtos.Udp.Task.{Pbuf}
use zynq_lwip_frtos.Gain.Control.{auto_gain_control}
use zynq_lwip_frtos.Pipeline.Alive.{send_lem}
use zynq_lwip_frtos.Pipeline.Schedule.{
  Place, waiting, first_question, sending, refused, answering, second_question, sending_only,
  freeing, System, take_packet, take_entry, next_call, handle, takes, gain_takes, gain_handles,
  step, is_waiting,
}

-- The steps that a merged packet has before it, with those of the gain control.
abbrev pub weight : Place → ℕ
weight waiting = 0
weight (first_question b) = 10
weight (sending b) = 9
weight (refused b) = 5
weight (answering b taken) = 4
weight (second_question b) = 3
weight (sending_only b) = 2
weight (freeing b) = 1

weight_le : (place : Place) → weight place ≤ 10
weight_le waiting = omega arith
weight_le (first_question b) = omega arith
weight_le (sending b) = omega arith
weight_le (refused b) = omega arith
weight_le (answering b taken) = omega arith
weight_le (second_question b) = omega arith
weight_le (sending_only b) = omega arith
weight_le (freeing b) = omega arith

weight_if :
    (c : Bool) (p q : Place) (n : ℕ) → weight p ≤ n → weight q ≤ n → weight (if c then p else q) ≤ n
weight_if true p q n h k = h
weight_if false p q n h k = k

abbrev pub one_if : Option Pbuf → ℕ
one_if none = 0
one_if (some b) = 1

one_if-le : (o : Option Pbuf) → one_if o ≤ 1
one_if-le none = omega arith
one_if-le (some b) = omega arith

module _ {Q : Type 0} (f : Fifo Pbuf Q) where
  abbrev pub measure : System Q → ℕ
  measure s =
      20 * length (f.contents s.inbox)
      + weight s.place
      + 2 * length (f.contents s.queue)
      + one_if s.handling

  -- A step of a task.
  pub record Continues (s s' : System Q) : Type 0 where
    pub lower : measure s' < measure s
    pub suspended_same : s'.suspended ≡ s.suspended

  length-send :
      (q : Q) (b : Pbuf) → length (f.contents (f.send q b).1) ≤ suc (length (f.contents q))
  length-send q b = elim (send_lem f q b) [
    | inl (sent, e) ↦ rw e omega (arith, length-append (f.contents q) (b ∷ []))
    | inr (sent, e) ↦ rw e omega arith
  ]

  pub next_call-Continues :
      (place : Place) (s : System Q)
      → s.place ≡ place
      → is_waiting place ≡ false
      → Continues s (next_call f place s)
  unfolding next_call
  next_call-Continues waiting s at w = absurd (cc)
  next_call-Continues (first_question b) s at w = record {
    lower = omega (
      arith,
      ap weight at,
      weight_if s.suspended (second_question b) (sending b) 9 (omega arith) (omega arith),
    );
    suspended_same = refl;
  }
  next_call-Continues (sending b) s at w = record {
    lower = omega (
      arith,
      ap weight at,
      weight_if (f.send s.queue b).0 (answering b true) (refused b) 5 (omega arith) (omega arith),
      length-send s.queue b,
    );
    suspended_same = refl;
  }
  next_call-Continues (refused b) s at w = record {
    lower = omega (arith, ap weight at);
    suspended_same = refl;
  }
  next_call-Continues (answering b taken) s at w = record {
    lower = omega (arith, ap weight at);
    suspended_same = refl;
  }
  next_call-Continues (second_question b) s at w = record {
    lower = omega (
      arith,
      ap weight at,
      weight_if s.suspended (sending_only b) waiting 2 (omega arith) (omega arith),
    );
    suspended_same = refl;
  }
  next_call-Continues (sending_only b) s at w = record {
    lower = omega (arith, ap weight at);
    suspended_same = refl;
  }
  next_call-Continues (freeing b) s at w = record {
    lower = omega (arith, ap weight at);
    suspended_same = refl;
  }

  pub takes-Continues :
      (p : Pbuf) (bs : List Pbuf) (s s' : System Q)
      → f.contents s.inbox ≡ p ∷ bs
      → step f takes s ≡ some s'
      → Continues s s'
  unfolding step take_entry
  takes-Continues p bs s s' has e =
      let (answer, left) = f.receive_first s.inbox p bs has in
      let (r, e0, e1) =
        >>=-eq-some (take_packet p (record s.parser { calls = [] })) _ (rw answer at e) in
      subst (Continues s) (some_inj e1) record {
        lower = omega (arith, ap length left, ap length has, weight_le r.1);
        suspended_same = refl;
      }

  pub gain_takes-Continues :
      (p : Pbuf) (bs : List Pbuf) (s s' : System Q)
      → f.contents s.queue ≡ p ∷ bs
      → step f gain_takes s ≡ some s'
      → Continues s s'
  unfolding step
  gain_takes-Continues p bs s s' has e =
      let (answer, left) = f.receive_first s.queue p bs has in
      subst (Continues s) (some_inj e) record {
        lower = omega (arith, ap length left, ap length has, one_if-le (f.receive s.queue).0);
        suspended_same = refl;
      }

  pub gain_handles-Continues :
      (p : Pbuf) (s s' : System Q)
      → s.handling ≡ some p
      → step f gain_handles s ≡ some s'
      → Continues s s'
  unfolding step handle
  gain_handles-Continues p s s' has e =
      let (gain, e0, e1) = >>=-eq-some (auto_gain_control p.packet.chain s.gain) _ (rw has at e) in
      subst (Continues s) (some_inj e1)
        record { lower = omega (arith, ap one_if has); suspended_same = refl }
