-- ===== src/Pipeline/Schedule.antt =====
-- src/main.c, lines 46-134: the tasks of the packets and of the gain control with every call of the tenth
-- packet as a step of its own, so that commands and the other task may come between. The queues of
-- FreeRTOS are an argument.
use zynq_lwip_frtos.Base.{
  Bool, true, false, not, ◌&&◌, Option, none, some, List, [], ◌∷◌, ◌++◌, leb, ◌==◌, if◌then◌else◌,
  ◌>>=◌,
}
use zynq_lwip_frtos.Handoff.Queue.{Fifo}
use zynq_lwip_frtos.Udp.Merge.{merge}
use zynq_lwip_frtos.Udp.Task.{
  Pbuf, Call, pbuf_free, queue_send, udp_send, Parser, nominal_counter_value, count,
}
use zynq_lwip_frtos.Gain.State.{Gain}
use zynq_lwip_frtos.Gain.Control.{auto_gain_control}

-- Where `udp_parse_task` is: at its queue (line 77), or with the merged packet in front of the
-- calls of the lines 115, 117, 119, 121, 123, 125 and 126. In line 121 it came from line 117 or
-- 119: the queue took the packet or not.
pub data Place : Type 0 where
  waiting : Place
  first_question sending refused : Pbuf → Place
  answering : Pbuf → (taken : Bool) → Place
  second_question sending_only freeing : Pbuf → Place

abbrev pub is_waiting : Place → Bool
is_waiting waiting = true
is_waiting _ = false

-- `handling` is the packet that `udp_auto_gain_control_task` has taken and not yet freed, `calls`
-- are those of all tasks in their order.
pub record System (Q : Type 0) : Type 0 where
  pub inbox : Q
  pub parser : Parser
  pub place : Place
  pub queue : Q
  pub suspended : Bool
  pub handling : Option Pbuf
  pub gain : Gain
  pub calls : List Call

-- Lines 84-114 and 128: a packet is merged into the one that is kept, which the tenth packet completes.
unfoldable pub merge_into : Pbuf → Pbuf → Parser → Option (Parser × Place)
merge_into p old s = do
  merged ← merge p.packet old.packet
  let kept = record old { packet = merged }
  let calls = s.calls ++ pbuf_free p.address ∷ []
  if leb nominal_counter_value s.counter_of_packets
      then some (
        record { old_pbuf = some kept; counter_of_packets = 0; calls = calls },
        first_question kept,
      )
      else some (record s { old_pbuf = some kept; calls = calls }, waiting)

-- Lines 79-114, 128 and 131.
unfoldable pub take_packet : Pbuf → Parser → Option (Parser × Place)
take_packet p s =
    if s.counter_of_packets == 1
    then some (count (record s { old_pbuf = some p }), waiting)
    else do old ← s.old_pbuf; (s', place) ← merge_into p old s; some (count s', place)

module _ {Q : Type 0} (f : Fifo Pbuf Q) where
  -- src/iwip.c, lines 116-122.
  unfoldable pub arrive : Pbuf → System Q → System Q
  arrive p s =
      let (sent, inbox) = f.send s.inbox p in
      record s { inbox = inbox; calls = s.calls ++ (if sent then [] else pbuf_free p.address ∷ []) }

  -- A packet for `udp_parse_task`, or none.
  unfoldable pub take_entry : Option Pbuf → Q → System Q → Option (System Q)
  take_entry none inbox s = some (record s { inbox = inbox })
  take_entry (some p) inbox s = do
    (parser, place) ← take_packet p (record s.parser { calls = [] })
    some (record s {
      inbox = inbox;
      parser = parser;
      place = place;
      calls = s.calls ++ parser.calls;
    })

  -- Lines 115-127: the next call of `udp_parse_task`.
  unfoldable pub next_call : Place → System Q → System Q
  next_call waiting s = s
  next_call (first_question b) s = record s {
    place = if s.suspended then second_question b else sending b;
  }
  next_call (sending b) s =
      let (sent, queue) = f.send s.queue b in
      record s {
        place = if sent then answering b true else refused b;
        queue = queue;
        calls = s.calls ++ queue_send b.address b.packet sent ∷ [];
      }
  next_call (refused b) s = record s {
    place = answering b false;
    calls = s.calls ++ pbuf_free b.address ∷ [];
  }
  next_call (answering b taken) s = record s {
    place = second_question b;
    calls = s.calls ++ udp_send b.address b.packet ∷ [];
  }
  next_call (second_question b) s = record s {
    place = if s.suspended then sending_only b else waiting;
  }
  next_call (sending_only b) s = record s {
    place = freeing b;
    calls = s.calls ++ udp_send b.address b.packet ∷ [];
  }
  next_call (freeing b) s = record s {
    place = waiting;
    calls = s.calls ++ pbuf_free b.address ∷ [];
  }

  -- Lines 56-57: the packet that the task of the gain control has taken.
  unfoldable pub handle : Option Pbuf → System Q → Option (System Q)
  handle none s = some s
  handle (some b) s = do
    gain ← auto_gain_control b.packet.chain s.gain
    some (record s { handling = none; gain = gain; calls = s.calls ++ pbuf_free b.address ∷ [] })

-- A packet arrives, `udp_parse_task` takes one or makes its next call, the task of the gain control
-- takes one or handles and frees it, and a command suspends that task or resumes it (src/iwip.c,
-- lines 305-308 and 313-322).
pub data Event : Type 0 where
  arrives : Pbuf → Event
  takes calls_next gain_takes gain_handles : Event
  commands : (suspends : Bool) → Event

module _ {Q : Type 0} (f : Fifo Pbuf Q) where
  unfoldable pub step : Event → System Q → Option (System Q)
  step (arrives p) s = some (arrive f p s)
  step takes s = let (entry, inbox) = f.receive s.inbox in take_entry f entry inbox s
  step calls_next s = some (next_call f s.place s)
  step gain_takes s =
      let (entry, queue) = f.receive s.queue in some (record s { handling = entry; queue = queue })
  step gain_handles s = handle f s.handling s
  step (commands suspends) s = some (record s { suspended = suspends })

  unfoldable pub run : List Event → System Q → Option (System Q)
  run [] s = some s
  run (e ∷ es) s = do s' ← step e s; run es s'

abbrev pub is_idle : Option Pbuf → Bool
is_idle none = true
is_idle (some b) = false

-- What the scheduler allows: the priority of `udp_parse_task` is above that of the gain control
-- (src/main.h, lines 50-51), which only runs while that task waits.
abbrev pub allowed : {Q : Type 0} → Event → System Q → Bool
allowed (arrives p) s = true
allowed takes s = is_waiting s.place
allowed calls_next s = not (is_waiting s.place)
allowed gain_takes s = is_waiting s.place && not s.suspended && is_idle s.handling
allowed gain_handles s = is_waiting s.place && not s.suspended
allowed (commands suspends) s = true

-- Between the two questions about the state of the task.
abbrev pub is_between : Place → Bool
is_between (sending b) = true
is_between (refused b) = true
is_between (answering b taken) = true
is_between (second_question b) = true
is_between _ = false

-- A command does not come between the two questions.
abbrev pub is_calm : {Q : Type 0} → Event → System Q → Bool
is_calm (commands suspends) s = not (is_between s.place)
is_calm _ s = true
