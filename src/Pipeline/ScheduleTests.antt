-- ===== src/Pipeline/ScheduleTests.antt =====
-- Ten packets, the first calls for the merged one, and a command.
use zynq_lwip_frtos.Base.{
  ℕ, ◌⊎◌, ◌+◌, ◌<◌, ◌≡◌, refl, subst, inl, inr, Bool, true, false, ◌&&◌, Option, none, some,
  some_inj, List, [], ◌∷◌, ◌++◌, arith, append-nil, append_assoc, occurs, replicate, if◌then◌else◌,
  Bool-cases, >>=-eq-some, ◌>>=◌,
}
use zynq_lwip_frtos.Handoff.Queue.{Fifo, listed}
use zynq_lwip_frtos.Udp.Merge.{
  store, copy_pair, compare_low, is_greater, merge_pair, merge_words, limit, rest_len, rounds,
  merge_chain, merge,
}
use zynq_lwip_frtos.Udp.Task.{Pbuf, initial}
use zynq_lwip_frtos.Gain.State.{initial as gain_start}
use zynq_lwip_frtos.Pipeline.Packet.{addresses, freed, kept_by}
use zynq_lwip_frtos.Pipeline.Held.{at_hand, handled}
use zynq_lwip_frtos.Pipeline.Schedule.{
  waiting, System, merge_into, take_packet, arrive, take_entry, next_call, Event, arrives, takes,
  calls_next, commands, step, allowed, is_calm,
}
use zynq_lwip_frtos.Pipeline.Reached.{arrival, Begins, Reach, start, later, Reach-Held}
use zynq_lwip_frtos.Pipeline.InUse.{in_use, SendsRefused, Reach-Alive}

abbrev pbuf : ℕ → Pbuf
pbuf address = record {
  address = address;
  packet = record { tot_len = 2; chain = (replicate 32 0 ++ 0 ∷ address ∷ []) ∷ [] };
}

abbrev two_hundred : Fifo Pbuf (List Pbuf)
two_hundred = listed 200

abbrev begin : System (List Pbuf)
begin = record {
  inbox = [];
  parser = initial;
  place = waiting;
  queue = [];
  suspended = false;
  handling = none;
  gain = gain_start [];
  calls = [];
}

-- A run of steps that the scheduler allows.
unfoldable checked_run : List Event → System (List Pbuf) → Option (System (List Pbuf))
checked_run [] s = some s
checked_run (e ∷ es) s =
    if allowed e s && is_calm e s then (do s' ← step two_hundred e s; checked_run es s') else none

abbrev arrivals : List Event → List ℕ
arrivals [] = []
arrivals (e ∷ es) = arrival e ++ arrivals es

both_true : (b c : Bool) → (b && c) ≡ true → (b ≡ true) × (c ≡ true)
both_true true c e = (refl, e)
both_true false c e = absurd (cc)

checked_run-Reach :
    (us : List ℕ) (es : List Event) (s s' : System (List Pbuf))
    → Reach two_hundred us s
    → checked_run es s ≡ some s'
    → Reach two_hundred (us ++ arrivals es) s'
unfolding checked_run
checked_run-Reach us [] s s' r e = rw (append-nil us) (subst (Reach two_hundred us) (some_inj e) r)
checked_run-Reach us (v ∷ es) s s' r e = elim (Bool-cases (allowed v s && is_calm v s)) [
  | inl b ↦
      let (a, c) = both_true (allowed v s) (is_calm v s) b in
      let (t, e0, e1) = >>=-eq-some (step two_hundred v s) _ (rw b at e) in
      subst (λ vs. Reach two_hundred vs s') (append_assoc us (arrival v) (arrivals es))
        (checked_run-Reach (us ++ arrival v) es t s' (later v r a c e0) e1)
  | inr b ↦ absurd (let impossible = rw b at e in cc)
]

begin-Begins : Begins two_hundred begin
begin-Begins = record {
  parser = refl;
  place = refl;
  inbox = refl;
  queue = refl;
  handling = refl;
  calls = refl;
}

-- Ten packets arrive and are merged.
abbrev received : ℕ → List Event → List Event
received n es = arrives (pbuf n) ∷ takes ∷ es

abbrev events : List Event
events =
    commands false
    ∷ received 1 (
        received 2 (
          received 3 (
            received 4 (
              received 5 (
                received 6 (
                  received 7
                    (received 8 (received 9 (received 10 (calls_next ∷ calls_next ∷ []))))))))))

abbrev result : Option (System (List Pbuf)) → System (List Pbuf)
result none = begin
result (some s) = s

abbrev reached : System (List Pbuf)
reached = result (checked_run events begin)

events_test : checked_run events begin ≡ some reached
unfolding checked_run step arrive take_entry take_packet merge_into next_call merge merge_chain
    merge_words merge_pair is_greater compare_low copy_pair store limit rest_len rounds
events_test = refl

reached-Reach : Reach two_hundred (arrivals events) reached
reached-Reach = checked_run-Reach [] events begin reached (start begin-Begins) events_test

Reach-Held_example :
    occurs 1 (arrivals events)
    ≡ occurs 1 (freed reached.calls)
      + occurs 1 (addresses reached.inbox)
      + occurs 1 (kept_by reached.parser.counter_of_packets reached.parser.old_pbuf)
      + occurs 1 (at_hand reached.place reached.suspended)
      + occurs 1 (addresses reached.queue)
      + occurs 1 (handled reached.handling)
Reach-Held_example = Reach-Held two_hundred reached-Reach 1

used_test : in_use two_hundred reached ≡ 1 ∷ 1 ∷ []
unfolding checked_run step arrive take_entry take_packet merge_into next_call merge merge_chain
    merge_words merge_pair is_greater compare_low copy_pair store limit rest_len rounds
used_test = refl

Reach-Alive_example :
    (occurs 1 (freed reached.calls) < occurs 1 (arrivals events))
    ⊎ SendsRefused two_hundred reached.place 1
Reach-Alive_example = Reach-Alive two_hundred reached-Reach 1 (rw used_test (omega arith))
