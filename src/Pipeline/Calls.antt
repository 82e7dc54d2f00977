-- ===== src/Pipeline/Calls.antt =====
-- The calls of `udp_parse_task` at the tenth packet, one at a time.
use zynq_lwip_frtos.Base.{
  ℕ, ◌+◌, ◌≡◌, refl, sym, subst, ap, inl, inr, Bool, true, false, List, [], ◌∷◌, ◌++◌, arith,
  append-nil, Bool-cases, occurs, occurs-append, if◌then◌else◌,
}
use zynq_lwip_frtos.Handoff.Queue.{Fifo}
use zynq_lwip_frtos.Udp.Task.{Pbuf, Call}
use zynq_lwip_frtos.Pipeline.Packet.{addresses, freed, freed-append, addresses-append}
use zynq_lwip_frtos.Pipeline.Held.{at_hand, Passing}
use zynq_lwip_frtos.Pipeline.Alive.{Held, send_lem}
use zynq_lwip_frtos.Pipeline.Schedule.{
  Place, waiting, first_question, sending, refused, answering, second_question, sending_only,
  freeing, System, next_call,
}

module _ {Q : Type 0} (f : Fifo Pbuf Q) (us : List ℕ) where
  -- A step that leaves the parser, the inbox and the packet of the gain control as they are, and frees `gone`.
  moved-Held :
      (s : System Q) (place place' : Place) (queue : Q) (calls : List Call) (gone : List ℕ)
      → s.place ≡ place
      → Held f us s
      → freed calls ≡ freed s.calls ++ gone
      → Passing place' s.suspended (addresses (f.contents queue))
      → ((a : ℕ)
          → occurs a (at_hand place s.suspended) + occurs a (addresses (f.contents s.queue))
            ≡ occurs a gone
              + occurs a (at_hand place' s.suspended)
              + occurs a (addresses (f.contents queue)))
      → Held f us (record s { place = place'; queue = queue; calls = calls })
  moved-Held s place place' queue calls gone at h frees passing moved = record {
    counter = h.counter;
    passing = passing;
    owned = λ a. rw frees omega (
      arith,
      h.owned a,
      moved a,
      ap (λ x. occurs a (at_hand x s.suspended)) at,
      occurs-append a (freed s.calls) gone,
    );
  }

  -- What holds in front of a call.
  passing_at :
      (s : System Q) (place : Place)
      → s.place ≡ place
      → Held f us s
      → Passing place s.suspended (addresses (f.contents s.queue))
  passing_at s place at h =
      subst (λ x. Passing x s.suspended (addresses (f.contents s.queue))) at h.passing

  not_suspended :
      (s : System Q) (b : Pbuf) (taken : Bool)
      → s.place ≡ answering b taken
      → Held f us s
      → s.suspended ≡ false
  not_suspended s b true at h = (passing_at s (answering b true) at h).0
  not_suspended s b false at h = passing_at s (answering b false) at h

  -- A question does nothing but lead to a place.
  asked-Held :
      (s : System Q) (place then_place else_place : Place)
      → s.place ≡ place
      → Held f us s
      → (s.suspended ≡ true
          → Passing then_place true (addresses (f.contents s.queue))
            × (at_hand place true ≡ at_hand then_place true))
      → (s.suspended ≡ false
          → Passing else_place false (addresses (f.contents s.queue))
            × (at_hand place false ≡ at_hand else_place false))
      → Held f us (record s { place = if s.suspended then then_place else else_place })
  asked-Held s place then_place else_place at h k k' = elim (Bool-cases s.suspended) [
    | inl e ↦
        let (passing, same) = k e in
        subst (λ c. Held f us (record s { place = if c then then_place else else_place })) (sym e)
          (moved-Held s place then_place s.queue s.calls [] at h (sym (append-nil (freed s.calls)))
            (rw e passing) λ a. rw (e, same) omega arith)
    | inr e ↦
        let (passing, same) = k' e in
        subst (λ c. Held f us (record s { place = if c then then_place else else_place })) (sym e)
          (moved-Held s place else_place s.queue s.calls [] at h (sym (append-nil (freed s.calls)))
            (rw e passing) λ a. rw (e, same) omega arith)
  ]

  sent-Held :
      (s : System Q) (b : Pbuf)
      → s.place ≡ sending b
      → Held f us s
      → Held f us (next_call f (sending b) s)
  unfolding next_call
  sent-Held s b at h =
      let quiet : s.suspended ≡ false = passing_at s (sending b) at h in
      elim (send_lem f s.queue b) [
        | inl (sent, e) ↦ rw sent (
            moved-Held s (sending b) (answering b true) (f.send s.queue b).1 _ [] at h
              (freed-append s.calls _)
              (
                quiet,
                rw (e, addresses-append (f.contents s.queue) (b ∷ [])) ground
                    (
                      arith,
                      occurs-append b.address (addresses (f.contents s.queue)) (b.address ∷ []),
                    ),
              )
              λ a.
                rw (e, addresses-append (f.contents s.queue) (b ∷ [])) omega
                  (arith, occurs-append a (addresses (f.contents s.queue)) (b.address ∷ [])))
        | inr (sent, e) ↦ rw sent (
            moved-Held s (sending b) (refused b) (f.send s.queue b).1 _ [] at h
              (freed-append s.calls _) quiet λ a. rw e omega arith)
      ]

  pub next_call-Held :
      (s : System Q) (place : Place)
      → s.place ≡ place
      → Held f us s
      → Held f us (next_call f place s)
  unfolding next_call
  next_call-Held s waiting at h = h
  next_call-Held s (first_question b) at h =
      asked-Held s (first_question b) (second_question b) (sending b) at h (λ e. (tt, refl))
        (λ e. (refl, refl))
  next_call-Held s (sending b) at h = sent-Held s b at h
  next_call-Held s (refused b) at h =
      moved-Held s (refused b) (answering b false) s.queue _ (b.address ∷ []) at h
        (freed-append s.calls _) (passing_at s (refused b) at h) λ a. omega arith
  next_call-Held s (answering b taken) at h =
      moved-Held s (answering b taken) (second_question b) s.queue _ [] at h
        (freed-append s.calls _) tt λ a. rw (not_suspended s b taken at h) omega arith
  next_call-Held s (second_question b) at h =
      asked-Held s (second_question b) (sending_only b) waiting at h (λ e. (tt, refl))
        (λ e. (tt, refl))
  next_call-Held s (sending_only b) at h =
      moved-Held s (sending_only b) (freeing b) s.queue _ [] at h (freed-append s.calls _) tt
        λ a. omega arith
  next_call-Held s (freeing b) at h =
      moved-Held s (freeing b) waiting s.queue _ (b.address ∷ []) at h (freed-append s.calls _) tt
        λ a. omega arith
