-- ===== src/Udp/Task.antt =====
-- src/main.c, lines 62-134: `udp_parse_task`. The calls of lwIP and FreeRTOS are recorded in their
-- order; what they answer is an argument.
use zynq_lwip_frtos.Base.{
  ℕ, ◌+◌, Bool, true, false, Option, none, some, List, [], ◌∷◌, ◌++◌, leb, ◌==◌, if◌then◌else◌,
  wrap8, ◌>>=◌,
}
use zynq_lwip_frtos.Udp.Merge.{Packet, merge}

-- eTaskGetState, of the task of the gain control.
pub data TaskState : Type 0 where
  running ready blocked suspended deleted invalid : TaskState

abbrev pub is_suspended : TaskState → Bool
is_suspended suspended = true
is_suspended _ = false

-- A buffer chain that the task holds: the address tells packets apart.
pub record Pbuf : Type 0 where
  pub address : ℕ
  pub packet : Packet

pub data Call : Type 0 where
  pbuf_free : ℕ → Call
  queue_send : ℕ → Packet → Bool → Call
  udp_send : ℕ → Packet → Call

-- What the task is told while it handles one packet: the state of the gain control task in lines 115
-- and 123, and whether the queue took the packet.
pub record Answers : Type 0 where
  pub first : TaskState
  pub queued : Bool
  pub second : TaskState

pub record Parser : Type 0 where
  pub old_pbuf : Option Pbuf
  pub counter_of_packets : ℕ
  pub calls : List Call

abbrev pub nominal_counter_value : ℕ
nominal_counter_value = 10

abbrev pub initial : Parser
initial = record { old_pbuf = none; counter_of_packets = 1; calls = [] }

-- Lines 115-122.
abbrev pub pass_on : Pbuf → Answers → List Call
pass_on b r =
    if is_suspended r.first
    then []
    else queue_send b.address b.packet r.queued
      ∷ (if r.queued
          then udp_send b.address b.packet ∷ []
          else pbuf_free b.address ∷ udp_send b.address b.packet ∷ [])

-- Lines 123-127.
abbrev pub send_only : Pbuf → Answers → List Call
send_only b r =
    if is_suspended r.second then udp_send b.address b.packet ∷ pbuf_free b.address ∷ [] else []

-- Lines 84-130, with the packet that is kept.
unfoldable pub merge_packet : Pbuf → Pbuf → Answers → Parser → Option Parser
merge_packet p old r s = do
  merged ← merge p.packet old.packet
  let kept = record old { packet = merged }
  let calls = s.calls ++ pbuf_free p.address ∷ []
  if leb nominal_counter_value s.counter_of_packets
      then some (record {
        old_pbuf = some kept;
        counter_of_packets = 0;
        calls = calls ++ (pass_on kept r ++ send_only kept r);
      })
      else some (record {
        old_pbuf = some kept;
        counter_of_packets = s.counter_of_packets;
        calls = calls;
      })

-- Line 131.
abbrev pub count : Parser → Parser
count s = record s { counter_of_packets = wrap8 (s.counter_of_packets + 1) }

-- Lines 77-131: one packet from the queue.
unfoldable pub receive : Pbuf → Answers → Parser → Option Parser
receive p r s =
    if s.counter_of_packets == 1
    then some (count (record s { old_pbuf = some p }))
    else do old ← s.old_pbuf; s' ← merge_packet p old r s; some (count s')

-- The task over a sequence of packets.
unfoldable pub receive_all : List (Pbuf × Answers) → Parser → Option Parser
receive_all [] s = some s
receive_all ((p, r) ∷ rest) s = do s' ← receive p r s; receive_all rest s'
