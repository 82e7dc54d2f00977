-- ===== src/Pipeline.antt =====
-- src/main.c, lines 46-134: the tasks of the packets and of the gain control with the queue between
-- them. The queue holds 200 packets; here the tasks run in any order, a packet at a time, and in
-- `Schedule` a call at a time.
pub mod Packet
pub mod Schedule
pub mod Ownership
pub mod Held
pub mod Alive
pub mod Calls
pub mod Reached
pub mod InUse
pub mod Format
pub mod Sound
pub mod Defined
pub mod Rest
pub mod Drained
mod Tests
mod ScheduleTests
mod DefinedTests
use zynq_lwip_frtos.Base.{ℕ, Option, some, List, [], ◌∷◌, ◌++◌, true, length, ltb, ◌>>=◌}
use zynq_lwip_frtos.Udp.Task.{TaskState, Pbuf, Call, pbuf_free, queue_send, Parser, receive}
use zynq_lwip_frtos.Gain.State.{Gain}
use zynq_lwip_frtos.Gain.Control.{auto_gain_control}

-- The length that xQueueCreate gets in src/main.c, line 36.
abbrev pub queue_length : ℕ
queue_length = 200

-- `calls` are those of both tasks, in their order; the parser's own list is emptied at each packet.
pub record Pipeline : Type 0 where
  pub parser : Parser
  pub queue : List Pbuf
  pub gain : Gain
  pub calls : List Call

-- What the queue took.
abbrev pub sends : List Call → List Pbuf
sends [] = []
sends (queue_send a packet true ∷ cs) = record { address = a; packet = packet } ∷ sends cs
sends (_ ∷ cs) = sends cs

-- A packet for `udp_parse_task`, with the two states of the other task that it is told.
unfoldable pub udp_step : Pbuf → (first second : TaskState) → Pipeline → Option Pipeline
udp_step p first second s = do
  parser ←
      receive p
        (record { first = first; queued = ltb (length s.queue) queue_length; second = second })
        (record s.parser { calls = [] })
  some (record s {
    parser = parser;
    queue = s.queue ++ sends parser.calls;
    calls = s.calls ++ parser.calls;
  })

-- A round of `udp_auto_gain_control_task`; with an empty queue it waits.
unfoldable pub gain_entry : List Pbuf → Pipeline → Option Pipeline
gain_entry [] s = some s
gain_entry (b ∷ queue) s = do
  gain ← auto_gain_control b.packet.chain s.gain
  some (record s { queue = queue; gain = gain; calls = s.calls ++ pbuf_free b.address ∷ [] })

unfoldable pub gain_step : Pipeline → Option Pipeline
gain_step s = gain_entry s.queue s

pub data Event : Type 0 where
  packet : Pbuf → (first second : TaskState) → Event
  gain_round : Event

unfoldable pub step : Event → Pipeline → Option Pipeline
step (packet p first second) s = udp_step p first second s
step gain_round s = gain_step s

unfoldable pub steps : List Event → Pipeline → Option Pipeline
steps [] s = some s
steps (e ∷ es) s = do s' ← step e s; steps es s'
