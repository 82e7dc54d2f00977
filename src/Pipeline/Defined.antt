-- ===== src/Pipeline/Defined.antt =====
-- No step of the tasks leaves the behaviour of C on packets of one format.
use zynq_lwip_frtos.Base.{Bool, true, false, Option, none, some, List, [], ◌∷◌, if◌then◌else◌}
use zynq_lwip_frtos.Handoff.Queue.{Fifo}
use zynq_lwip_frtos.Udp.Task.{Pbuf, Call}
use zynq_lwip_frtos.Gain.Invariant.{Gives, gives, bind-Gives}
use zynq_lwip_frtos.Gain.Task.{handle_packet-IsValid}
use zynq_lwip_frtos.Pipeline.Format.{Format, Sound, Sound-Admissible}
use zynq_lwip_frtos.Pipeline.Sound.{
  AllSound, IfSome, AtPlace, SoundSystem, take_packet-TookSound, sent-AllSound, received-AllSound,
}
use zynq_lwip_frtos.Pipeline.Schedule.{
  Place, waiting, first_question, sending, refused, answering, second_question, sending_only,
  freeing, System, arrive, take_entry, next_call, handle, Event, arrives, takes, calls_next,
  gain_takes, gain_handles, commands, step,
}

-- The packets that arrive are of the format.
abbrev pub ArrivesSound : Format → Event → Type 0
ArrivesSound c (arrives p) = Sound c p
ArrivesSound c _ = Unit

unfoldable pub AllArriveSound : Format → List Event → Type 0
AllArriveSound c [] = Unit
AllArriveSound c (e ∷ es) = ArrivesSound c e × AllArriveSound c es

module _ (c : Format) {Q : Type 0} (f : Fifo Pbuf Q) where
  arrive-SoundSystem :
      (p : Pbuf) (s : System Q) → Sound c p → SoundSystem c f s → SoundSystem c f (arrive f p s)
  unfolding arrive
  arrive-SoundSystem p s v h = record {
    inbox = sent-AllSound c f s.inbox p h.inbox v;
    kept = h.kept;
    place = h.place;
    queue = h.queue;
    handling = h.handling;
    gain = h.gain;
  }

  take_entry-SoundSystem :
      (entry : Option Pbuf) (inbox : Q) (s : System Q)
      → IfSome c entry
      → AllSound c (f.contents inbox)
      → SoundSystem c f s
      → Gives (SoundSystem c f) (take_entry f entry inbox s)
  unfolding take_entry
  take_entry-SoundSystem none inbox s v w h = gives record {
    inbox = w;
    kept = h.kept;
    place = h.place;
    queue = h.queue;
    handling = h.handling;
    gain = h.gain;
  }
  take_entry-SoundSystem (some p) inbox s v w h =
      bind-Gives _ (take_packet-TookSound c p (record s.parser { calls = [] }) v h.kept)
        λ r (kept, place). gives record {
          inbox = w;
          kept = kept;
          place = place;
          queue = h.queue;
          handling = h.handling;
          gain = h.gain;
        }

  -- A call that leads to another place.
  moved-SoundSystem :
      (s : System Q) (place : Place) (queue : Q) (calls : List Call)
      → SoundSystem c f s
      → AtPlace c place
      → AllSound c (f.contents queue)
      → SoundSystem c f (record s { place = place; queue = queue; calls = calls })
  moved-SoundSystem s place queue calls h v w = record {
    inbox = h.inbox;
    kept = h.kept;
    place = v;
    queue = w;
    handling = h.handling;
    gain = h.gain;
  }

  one_of : (b : Bool) (p q : Place) → AtPlace c p → AtPlace c q → AtPlace c (if b then p else q)
  one_of true p q v w = v
  one_of false p q v w = w

  next_call-SoundSystem :
      (place : Place) (s : System Q)
      → AtPlace c place
      → SoundSystem c f s
      → SoundSystem c f (next_call f place s)
  unfolding next_call
  next_call-SoundSystem waiting s v h = h
  next_call-SoundSystem (first_question b) s v h =
      moved-SoundSystem s _ s.queue _ h (one_of s.suspended (second_question b) (sending b) v v)
        h.queue
  next_call-SoundSystem (sending b) s v h =
      moved-SoundSystem s _ (f.send s.queue b).1 _ h
        (one_of (f.send s.queue b).0 (answering b true) (refused b) v v)
        (sent-AllSound c f s.queue b h.queue v)
  next_call-SoundSystem (refused b) s v h =
      moved-SoundSystem s (answering b false) s.queue _ h v h.queue
  next_call-SoundSystem (answering b taken) s v h =
      moved-SoundSystem s (second_question b) s.queue _ h v h.queue
  next_call-SoundSystem (second_question b) s v h =
      moved-SoundSystem s _ s.queue _ h (one_of s.suspended (sending_only b) waiting v tt) h.queue
  next_call-SoundSystem (sending_only b) s v h =
      moved-SoundSystem s (freeing b) s.queue _ h v h.queue
  next_call-SoundSystem (freeing b) s v h = moved-SoundSystem s waiting s.queue _ h tt h.queue

  handle-SoundSystem :
      (o : Option Pbuf) (s : System Q)
      → IfSome c o
      → SoundSystem c f s
      → Gives (SoundSystem c f) (handle f o s)
  unfolding handle
  handle-SoundSystem none s v h = gives h
  handle-SoundSystem (some b) s v h =
      bind-Gives _ (handle_packet-IsValid b.packet.chain s.gain (Sound-Admissible c b v) h.gain)
        λ gain valid. gives record {
          inbox = h.inbox;
          kept = h.kept;
          place = h.place;
          queue = h.queue;
          handling = tt;
          gain = valid;
        }

  pub step-SoundSystem :
      (e : Event) (s : System Q)
      → ArrivesSound c e
      → SoundSystem c f s
      → Gives (SoundSystem c f) (step f e s)
  unfolding step
  step-SoundSystem (arrives p) s v h = gives (arrive-SoundSystem p s v h)
  step-SoundSystem takes s v h =
      let (w, rest) = received-AllSound c f s.inbox h.inbox in
      take_entry-SoundSystem (f.receive s.inbox).0 (f.receive s.inbox).1 s w rest h
  step-SoundSystem calls_next s v h = gives (next_call-SoundSystem s.place s h.place h)
  step-SoundSystem gain_takes s v h =
      let (w, rest) = received-AllSound c f s.queue h.queue in
      gives record {
        inbox = h.inbox;
        kept = h.kept;
        place = h.place;
        queue = rest;
        handling = w;
        gain = h.gain;
      }
  step-SoundSystem gain_handles s v h = handle-SoundSystem s.handling s h.handling h
  step-SoundSystem (commands suspends) s v h = gives record {
    inbox = h.inbox;
    kept = h.kept;
    place = h.place;
    queue = h.queue;
    handling = h.handling;
    gain = h.gain;
  }
