-- ===== src/Pipeline/InUse.antt =====
-- Which packets a next step may use.
use zynq_lwip_frtos.Base.{
  ℕ, ◌⊎◌, refl, ◌==◌, ◌≤◌, ◌≡◌, inl, inr, Bool-cases, ==→eq, ◌+◌, ◌<◌, Bool, true, false, List, [],
  ◌∷◌, ◌++◌, arith, occurs, occurs-append,
}
use zynq_lwip_frtos.Handoff.Queue.{Fifo}
use zynq_lwip_frtos.Udp.Task.{Pbuf}
use zynq_lwip_frtos.Pipeline.Packet.{addresses, freed, kept_by}
use zynq_lwip_frtos.Pipeline.Held.{at_hand, Passing, handled}
use zynq_lwip_frtos.Pipeline.Reached.{Reach, reached-Held}
use zynq_lwip_frtos.Pipeline.Schedule.{
  Place, waiting, first_question, sending, refused, answering, second_question, sending_only,
  freeing, System,
}

-- The packet that the next call of `udp_parse_task` is about.
abbrev pub used_at : Place → List ℕ
used_at waiting = []
used_at (first_question b) = b.address ∷ []
used_at (sending b) = b.address ∷ []
used_at (refused b) = b.address ∷ []
used_at (answering b taken) = b.address ∷ []
used_at (second_question b) = []
used_at (sending_only b) = b.address ∷ []
used_at (freeing b) = b.address ∷ []

occurs_five :
    (a : ℕ) (us vs xs ys zs : List ℕ)
    → occurs a (us ++ vs ++ xs ++ ys ++ zs)
      ≡ occurs a us + occurs a vs + occurs a xs + occurs a ys + occurs a zs
occurs_five a us vs xs ys zs = omega (
  arith,
  occurs-append a us vs,
  occurs-append a (us ++ vs) xs,
  occurs-append a (us ++ vs ++ xs) ys,
  occurs-append a (us ++ vs ++ xs ++ ys) zs,
)

module _ {Q : Type 0} (f : Fifo Pbuf Q) where
  -- The packets that a next step may read, write or send.
  abbrev pub in_use : System Q → List ℕ
  in_use s =
      addresses (f.contents s.inbox)
      ++ kept_by s.parser.counter_of_packets s.parser.old_pbuf
      ++ used_at s.place
      ++ addresses (f.contents s.queue)
      ++ handled s.handling

  -- The next call sends the packet that a full queue refused (line 121, from line 119).
  abbrev pub SendsRefused : Place → ℕ → Type 0
  SendsRefused place a = (b : Pbuf) × (place ≡ answering b false) × (a ≡ b.address)

  used_at-le :
      (place : Place) (suspended : Bool) (queue : List ℕ) (a : ℕ)
      → Passing place suspended queue
      → (occurs a (used_at place) ≤ occurs a (at_hand place suspended) + occurs a queue)
        ⊎ SendsRefused place a
  used_at-le waiting suspended queue a p = inl (omega arith)
  used_at-le (first_question b) suspended queue a p = inl (omega arith)
  used_at-le (sending b) suspended queue a p = inl (omega arith)
  used_at-le (refused b) suspended queue a p = inl (omega arith)
  used_at-le (answering b true) suspended queue a p = inl (elim (Bool-cases (a == b.address)) [
    | inl e ↦ let same : a ≡ b.address = ==→eq a b.address e in rw same ground (arith, p.1)
    | inr e ↦ rw e omega arith
  ])
  used_at-le (answering b false) suspended queue a p = elim (Bool-cases (a == b.address)) [
    | inl e ↦ inr (b, refl, ==→eq a b.address e)
    | inr e ↦ inl (rw e omega arith)
  ]
  used_at-le (second_question b) suspended queue a p = inl (omega arith)
  used_at-le (sending_only b) suspended queue a p = inl (omega arith)
  used_at-le (freeing b) suspended queue a p = inl (omega arith)

  -- In every state that the tasks reach from empty queues, in any order of arrivals, of the steps of
  -- the two tasks and of commands that suspend or resume the task of the gain control, where that task
  -- runs only while `udp_parse_task` waits and no command comes between the two questions of the tenth
  -- packet: each packet that the next step of a task may read, write or send has been freed fewer
  -- times than it arrived, or it is the packet that a full queue refused and `udp_parse_task` is about
  -- to send it all the same.
  pub Reach-Alive :
      {us : List ℕ} {s : System Q}
      → Reach f us s
      → (a : ℕ) → 0 < occurs a (in_use s)
      → (occurs a (freed s.calls) < occurs a us) ⊎ SendsRefused s.place a
  Reach-Alive {us} {s} r a h =
      let held = reached-Held f r in
      elim (used_at-le s.place s.suspended (addresses (f.contents s.queue)) a held.passing) [
        | inl used ↦ inl (
            omega (
              arith,
              held.owned a,
              used,
              occurs_five a (addresses (f.contents s.inbox))
                  (kept_by s.parser.counter_of_packets s.parser.old_pbuf) (used_at s.place)
                  (addresses (f.contents s.queue)) (handled s.handling),
              h,
            ))
        | inr sends ↦ inr sends
      ]
