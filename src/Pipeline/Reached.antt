-- ===== src/Pipeline/Reached.antt =====
-- The states that the tasks reach in any order of their steps that the scheduler allows.
use zynq_lwip_frtos.Base.{
  ℕ, ◌+◌, ◌≡◌, refl, subst, ap, Bool, true, false, not, ◌&&◌, Option, none, some, some_inj, List,
  [], ◌∷◌, ◌++◌, arith, append-nil, occurs, occurs-append, >>=-eq-some,
}
use zynq_lwip_frtos.Handoff.Queue.{Fifo}
use zynq_lwip_frtos.Udp.Task.{Pbuf, pbuf_free, initial}
use zynq_lwip_frtos.Gain.Control.{auto_gain_control}
use zynq_lwip_frtos.Pipeline.Packet.{addresses, freed, kept_by, freed-append}
use zynq_lwip_frtos.Pipeline.Held.{at_hand, Passing, handled}
use zynq_lwip_frtos.Pipeline.Alive.{Held, receive-addresses, arrive-Held, take_entry-Held}
use zynq_lwip_frtos.Pipeline.Calls.{next_call-Held}
use zynq_lwip_frtos.Pipeline.Schedule.{
  Place, waiting, first_question, sending, refused, answering, second_question, sending_only,
  freeing, System, handle, Event, arrives, takes, calls_next, gain_takes, gain_handles, commands,
  step, allowed, is_calm, is_between, is_waiting, is_idle,
}

abbrev pub arrival : Event → List ℕ
arrival (arrives p) = p.address ∷ []
arrival _ = []

and_true : (b c : Bool) → (b && c) ≡ true → (b ≡ true) × (c ≡ true)
and_true true c e = (refl, e)
and_true false c e = absurd (cc)

denied : (b : Bool) → not b ≡ true → b ≡ false
denied true e = absurd (cc)
denied false e = refl

pub waiting_place : (place : Place) → is_waiting place ≡ true → place ≡ waiting
waiting_place waiting e = refl
waiting_place (first_question b) e = absurd (cc)
waiting_place (sending b) e = absurd (cc)
waiting_place (refused b) e = absurd (cc)
waiting_place (answering b taken) e = absurd (cc)
waiting_place (second_question b) e = absurd (cc)
waiting_place (sending_only b) e = absurd (cc)
waiting_place (freeing b) e = absurd (cc)

idle : (o : Option Pbuf) → is_idle o ≡ true → o ≡ none
idle none e = refl
idle (some b) e = absurd (cc)

-- Except between the two questions, it does not matter to `udp_parse_task` whether the other task is suspended.
settled :
    (place : Place) (c d : Bool) (queue : List ℕ)
    → is_between place ≡ false
    → Passing place d queue × (at_hand place c ≡ at_hand place d)
settled waiting c d queue e = (tt, refl)
settled (first_question b) c d queue e = (tt, refl)
settled (sending b) c d queue e = absurd (cc)
settled (refused b) c d queue e = absurd (cc)
settled (answering b taken) c d queue e = absurd (cc)
settled (second_question b) c d queue e = absurd (cc)
settled (sending_only b) c d queue e = (tt, refl)
settled (freeing b) c d queue e = (tt, refl)

module _ {Q : Type 0} (f : Fifo Pbuf Q) where
  gain_takes-Held :
      (us : List ℕ) (s : System Q)
      → s.place ≡ waiting
      → s.handling ≡ none
      → Held f us s
      → Held f us (record s { handling = (f.receive s.queue).0; queue = (f.receive s.queue).1 })
  gain_takes-Held us s at idle h = record {
    counter = h.counter;
    passing = rw at tt;
    owned = λ a.
        omega
          (arith, h.owned a, receive-addresses f s.queue a, ap (λ o. occurs a (handled o)) idle);
  }

  handle-Held :
      (us : List ℕ) (o : Option Pbuf) (s s' : System Q)
      → s.handling ≡ o
      → Held f us s
      → handle f o s ≡ some s'
      → Held f us s'
  unfolding handle
  handle-Held us none s s' at h e = subst (Held f us) (some_inj e) h
  handle-Held us (some b) s s' at h e =
      let (gain, e0, e1) = >>=-eq-some (auto_gain_control b.packet.chain s.gain) _ e in
      subst (Held f us) (some_inj e1) record {
        counter = h.counter;
        passing = h.passing;
        owned = λ a. rw (freed-append s.calls (pbuf_free b.address ∷ [])) omega (
          arith,
          h.owned a,
          ap (λ o. occurs a (handled o)) at,
          occurs-append a (freed s.calls) (b.address ∷ []),
        );
      }

  commands-Held :
      (us : List ℕ) (suspends : Bool) (s : System Q)
      → is_between s.place ≡ false
      → Held f us s
      → Held f us (record s { suspended = suspends })
  commands-Held us suspends s calm h =
      let (passing, same) =
        settled s.place s.suspended suspends (addresses (f.contents s.queue)) calm in
      record {
        counter = h.counter;
        passing = passing;
        owned = λ a. omega (arith, h.owned a, ap (occurs a) same);
      }

  step-Held :
      (us : List ℕ) (e : Event) (s s' : System Q)
      → allowed e s ≡ true
      → is_calm e s ≡ true
      → Held f us s
      → step f e s ≡ some s'
      → Held f (us ++ arrival e) s'
  unfolding step
  step-Held us (arrives p) s s' a calm h e =
      subst (Held f (us ++ p.address ∷ [])) (some_inj e) (arrive-Held f us p s h)
  step-Held us takes s s' a calm h e =
      rw (append-nil us) (take_entry-Held f us s s' (waiting_place s.place a) h e)
  step-Held us calls_next s s' a calm h e =
      rw (append-nil us) (subst (Held f us) (some_inj e) (next_call-Held f us s s.place refl h))
  step-Held us gain_takes s s' a calm h e =
      let (both, idle_task) =
        and_true (is_waiting s.place && not s.suspended) (is_idle s.handling) a in
      let (at, awake) = and_true (is_waiting s.place) (not s.suspended) both in
      rw (append-nil us) (
        subst (Held f us) (some_inj e)
          (gain_takes-Held us s (waiting_place s.place at) (idle s.handling idle_task) h))
  step-Held us gain_handles s s' a calm h e =
      rw (append-nil us) (handle-Held us s.handling s s' refl h e)
  step-Held us (commands suspends) s s' a calm h e = rw (append-nil us) (
      subst (Held f us) (some_inj e)
        (commands-Held us suspends s (denied (is_between s.place) calm) h))

  -- Nothing has arrived yet.
  pub record Begins (s : System Q) : Type 0 where
    pub parser : s.parser ≡ initial
    pub place : s.place ≡ waiting
    pub inbox : f.contents s.inbox ≡ []
    pub queue : f.contents s.queue ≡ []
    pub handling : s.handling ≡ none
    pub calls : s.calls ≡ []

  pub data Reach : List ℕ → System Q → Type 0 where
    start : {s : System Q} → Begins s → Reach [] s
    later :
        {us : List ℕ} {s s' : System Q} (e : Event)
        → Reach us s
        → allowed e s ≡ true
        → is_calm e s ≡ true
        → step f e s ≡ some s'
        → Reach (us ++ arrival e) s'

  Begins-Held : (s : System Q) → Begins s → Held f [] s
  Begins-Held s b = record {
    counter = rw b.parser (omega arith);
    passing = rw b.place tt;
    owned = λ a. rw (b.parser, b.place, b.inbox, b.queue, b.handling, b.calls) (omega arith);
  }

  pub reached-Held : {us : List ℕ} {s : System Q} → Reach us s → Held f us s
  reached-Held (start {s} b) = Begins-Held s b
  reached-Held (later {us} {s} {s'} e r a calm h) = step-Held us e s s' a calm (reached-Held r) h

  -- In every state that the tasks reach from empty queues, in any order of arrivals, of the steps of
  -- the two tasks and of commands that suspend or resume the task of the gain control, where that task
  -- runs only while `udp_parse_task` waits and no command comes between the two questions of the tenth
  -- packet: every packet that arrived was freed, waits in one of the queues, or is kept by
  -- `udp_parse_task`, with it at its next call, or with the task of the gain control, as often as it
  -- arrived. None is lost, and none is freed twice.
  pub Reach-Held :
      {us : List ℕ} {s : System Q}
      → Reach us s
      → (a : ℕ)
      → occurs a us
        ≡ occurs a (freed s.calls)
          + occurs a (addresses (f.contents s.inbox))
          + occurs a (kept_by s.parser.counter_of_packets s.parser.old_pbuf)
          + occurs a (at_hand s.place s.suspended)
          + occurs a (addresses (f.contents s.queue))
          + occurs a (handled s.handling)
  Reach-Held r a = (reached-Held r).owned a
