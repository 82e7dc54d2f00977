-- ===== src/Pipeline/Drained.antt =====
-- The tasks come to rest, with every packet freed but the one that is kept.
use zynq_lwip_frtos.Base.{
  ℕ, zero, suc, ◌+◌, ◌<◌, ◌≡◌, refl, subst, ap, ◌∙◌, inl, inr, Bool, true, false, Option, none,
  some, some_inj, List, [], ◌∷◌, ◌++◌, arith, append-nil, Bool-cases, Option-cases, occurs,
}
use zynq_lwip_frtos.Handoff.Queue.{Fifo}
use zynq_lwip_frtos.Udp.Task.{Pbuf}
use zynq_lwip_frtos.Gain.Invariant.{Gives, gives}
use zynq_lwip_frtos.Pipeline.Packet.{freed, kept_by}
use zynq_lwip_frtos.Pipeline.Format.{Format}
use zynq_lwip_frtos.Pipeline.Sound.{SoundSystem}
use zynq_lwip_frtos.Pipeline.Defined.{ArrivesSound, step-SoundSystem}
use zynq_lwip_frtos.Pipeline.Reached.{Reach, later, arrival, waiting_place, Reach-Held}
use zynq_lwip_frtos.Pipeline.Rest.{
  measure, Continues, next_call-Continues, takes-Continues, gain_takes-Continues,
  gain_handles-Continues,
}
use zynq_lwip_frtos.Pipeline.Schedule.{
  waiting, System, Event, arrives, commands, takes, calls_next, gain_takes, gain_handles, step,
  allowed, is_calm, is_waiting,
}

Gives-some : {A : Type 0} {P : A → Type 0} (m : Option A) → Gives P m → (a : A) × (m ≡ some a) × P a
Gives-some m (gives p) = (_, refl, p)

abbrev pub is_work : Event → Bool
is_work (arrives p) = false
is_work (commands suspends) = false
is_work _ = true

work-quiet :
    {Q : Type 0} (e : Event) (s : System Q)
    → is_work e ≡ true
    → (arrival e ≡ []) × (is_calm e s ≡ true)
work-quiet (arrives p) s w = absurd (cc)
work-quiet takes s w = (refl, refl)
work-quiet calls_next s w = (refl, refl)
work-quiet gain_takes s w = (refl, refl)
work-quiet gain_handles s w = (refl, refl)
work-quiet (commands suspends) s w = absurd (cc)

module _ (c : Format) {Q : Type 0} (f : Fifo Pbuf Q) where
  -- Nothing waits in the queues, and both tasks wait for them.
  pub record AtRest (s : System Q) : Type 0 where
    pub place : s.place ≡ waiting
    pub inbox : f.contents s.inbox ≡ []
    pub queue : f.contents s.queue ≡ []
    pub handling : s.handling ≡ none

  -- The steps of the two tasks, without arrivals and commands.
  pub data Works : System Q → System Q → Type 0 where
    stays : {s : System Q} → Works s s
    works :
        {s s' s'' : System Q} (e : Event)
        → is_work e ≡ true
        → allowed e s ≡ true
        → step f e s ≡ some s'
        → Works s' s''
        → Works s s''

  abbrev Rested : System Q → Type 0
  Rested s = (s' : System Q) × Works s s' × AtRest s'

  -- One step, and then on.
  module _ (s : System Q) (v : SoundSystem c f s) (awake : s.suspended ≡ false)
      (again : (s' : System Q)
        → measure f s' < measure f s
        → SoundSystem c f s'
        → s'.suspended ≡ false
        → Rested s') where
    step_on :
        (e : Event)
        → is_work e ≡ true
        → ArrivesSound c e
        → allowed e s ≡ true
        → ((s' : System Q) → step f e s ≡ some s' → Continues f s s')
        → Rested s
    step_on e work sound a k =
        let (s', e', v') = Gives-some (step f e s) (step-SoundSystem c f e s sound v) in
        let on = k s' e' in
        let (s'', path, rest) = again s' on.lower v' (on.suspended_same ∙ awake) in
        (s'', works e work a e' path, rest)

    by_queue :
        (bs : List Pbuf)
        → f.contents s.queue ≡ bs
        → s.place ≡ waiting
        → f.contents s.inbox ≡ []
        → s.handling ≡ none
        → Rested s
    by_queue [] q w i h = (s, stays, record { place = w; inbox = i; queue = q; handling = h })
    by_queue (b ∷ bs) q w i h =
        step_on gain_takes refl tt (rw (w, awake, h) refl)
          λ s' e. gain_takes-Continues f b bs s s' q e

    by_inbox : (bs : List Pbuf) → f.contents s.inbox ≡ bs → s.place ≡ waiting → Rested s
    by_inbox [] i w = elim (Option-cases s.handling) [
      | inl h ↦ by_queue (f.contents s.queue) refl w i h
      | inr (b, h) ↦
          step_on gain_handles refl tt (rw (w, awake) refl)
            λ s' e. gain_handles-Continues f b s s' h e
    ]
    by_inbox (b ∷ bs) i w =
        step_on takes refl tt (rw w refl) λ s' e. takes-Continues f b bs s s' i e

    one_step : Rested s
    unfolding step
    one_step = elim (Bool-cases (is_waiting s.place)) [
      | inr busy ↦
          step_on calls_next refl tt (rw busy refl)
            λ s' e. subst (Continues f s) (some_inj e) (next_call-Continues f s.place s refl busy)
      | inl idle ↦ by_inbox (f.contents s.inbox) refl (waiting_place s.place idle)
    ]

  comes_to_rest :
      (n : ℕ) (s : System Q) → measure f s < n → SoundSystem c f s → s.suspended ≡ false → Rested s
  comes_to_rest zero s m v awake = absurd (omega (arith, m))
  comes_to_rest (suc n) s m v awake =
      one_step s v awake λ s' lower. comes_to_rest n s' (omega (arith, m, lower))

  Works-Reach : {us : List ℕ} {s s' : System Q} → Reach f us s → Works s s' → Reach f us s'
  Works-Reach r stays = r
  Works-Reach {us} r (works {s' = t} e work a e' path) =
      let (quiet, calm) = work-quiet e _ work in
      Works-Reach
        (subst (λ vs. Reach f vs t) (ap (λ x. us ++ x) quiet ∙ append-nil us) (later e r a calm e'))
        path

  kept_only :
      (us : List ℕ) (s : System Q)
      → Reach f us s
      → AtRest s
      → (a : ℕ)
      → occurs a us
        ≡ occurs a (freed s.calls)
          + occurs a (kept_by s.parser.counter_of_packets s.parser.old_pbuf)
  kept_only us s r rest a =
      rw (rest.place, rest.inbox, rest.queue, rest.handling) at (Reach-Held f r a) ∙ omega arith

  -- From every state that the tasks reach from empty queues without a command between the two
  -- questions of a tenth packet, if the packets there are as lwIP hands them over, in buffers of
  -- its pool, and of one format, the state of the gain control is well formed and its task is not
  -- suspended, steps of the two tasks that the scheduler allows lead, without a further arrival
  -- or command, to a state in which both tasks wait and the queues are empty. There every packet
  -- that arrived was freed, but for the one that `udp_parse_task` keeps for a group that is not
  -- complete.
  pub Reach-AtRest :
      {us : List ℕ} {s : System Q}
      → Reach f us s
      → SoundSystem c f s
      → s.suspended ≡ false
      → (s' : System Q) × Works s s'
        × AtRest s'
        × ((a : ℕ)
            → occurs a us
              ≡ occurs a (freed s'.calls)
                + occurs a (kept_by s'.parser.counter_of_packets s'.parser.old_pbuf))
  Reach-AtRest {us} {s} r v awake =
      let (s', path, rest) = comes_to_rest (suc (measure f s)) s (omega arith) v awake in
      (s', path, rest, kept_only us s' (Works-Reach r path) rest)
