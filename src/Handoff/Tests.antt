-- ===== src/Handoff/Tests.antt =====
-- Runs of the callback and the task at concrete inputs.
use zynq_lwip_frtos.Base.{
  ◌≡◌, ◌<◌, ◌≤◌, refl, Bool, true, false, Option, none, some, List, [], ◌∷◌, ◌++◌, arith, length,
}
use mathlib.Core.Option.{map as map_option}
use zynq_lwip_frtos.Udp.Task.{running}
use zynq_lwip_frtos.Command.Dispatch
use zynq_lwip_frtos.Command.Meaning.{meaning}
use zynq_lwip_frtos.Command.Dispatch.{
  States, parse_msg, short_message, dispatch, control, note, remember, get_tetrada, last_of,
}
use zynq_lwip_frtos.Handoff.{
  Buffer, Call, queue_send, pbuf_free, yield_from_isr, parse_msg_call, Inbox, Event, arrives,
  parses, hand_over, recv_callback, parse_entry, tcp_parse_round, tcp_parse_rounds, happen,
  happen_all,
}
use zynq_lwip_frtos.Handoff.Queue.{Fifo, listed}
use zynq_lwip_frtos.Handoff.Refines.{abstract}
use zynq_lwip_frtos.Handoff.Ownership.{Accounted, arrived, happen_all-Accounted}
use zynq_lwip_frtos.Handoff.Drain.{
  no_message, message, Drained, command_after, tcp_parse_rounds-Drained,
}

-- Another queue than the list: one place, empty or not.
abbrev slot_send : Option (Option Buffer) → Option Buffer → Bool × Option (Option Buffer)
slot_send none a = (true, some a)
slot_send (some b) a = (false, some b)

abbrev slot_receive : Option (Option Buffer) → Option (Option Buffer) × Option (Option Buffer)
slot_receive none = (none, none)
slot_receive (some b) = (some b, none)

abbrev slot_contents : Option (Option Buffer) → List (Option Buffer)
slot_contents none = []
slot_contents (some b) = b ∷ []

slot-room :
    (q : Option (Option Buffer)) (a : Option Buffer)
    → length (slot_contents q) < 1
    → ((slot_send q a).0 ≡ true) × (slot_contents (slot_send q a).1 ≡ slot_contents q ++ a ∷ [])
slot-room none a h = (refl, refl)
slot-room (some b) a h = absurd (omega arith)

abbrev stop_msg : Buffer
stop_msg = record { address = 1; payload = 0xC0 ∷ [] }

abbrev start_msg : Buffer
start_msg = record { address = 2; payload = 0 ∷ 0xC1 ∷ [] }

abbrev two : Fifo (Option Buffer) (List (Option Buffer))
two = listed 2

abbrev idle : Inbox (List (Option Buffer))
idle = record {
  queue = [];
  woken = false;
  calls = [];
  station = record { last_recv_cmd = some 0; payload = []; events = [] };
}

abbrev states : States
states = record { first = running; second = running }

-- The third buffer finds the queue full and is freed.
abbrev story : List Event
story =
    arrives (some stop_msg) false
    ∷ arrives none false
    ∷ arrives (some start_msg) true
    ∷ arrives (some (record { address = 3; payload = [] })) false
    ∷ parses states
    ∷ []

abbrev told : List Call
told =
    queue_send 1 true
    ∷ yield_from_isr false
    ∷ queue_send 2 true
    ∷ yield_from_isr true
    ∷ queue_send 3 false
    ∷ pbuf_free 3
    ∷ yield_from_isr true
    ∷ parse_msg_call 1
    ∷ pbuf_free 1
    ∷ []

story_test : map_option (λ t. t.calls) (happen_all two story idle) ≡ some told
unfolding happen_all happen recv_callback hand_over tcp_parse_round parse_entry parse_msg
    short_message dispatch control note remember get_tetrada last_of
story_test = refl

slot-full :
    (q : Option (Option Buffer)) (a : Option Buffer)
    → 1 ≤ length (slot_contents q)
    → ((slot_send q a).0 ≡ false) × (slot_contents (slot_send q a).1 ≡ slot_contents q)
slot-full none a h = absurd (omega arith)
slot-full (some b) a h = (refl, refl)

slot-empty :
    (q : Option (Option Buffer))
    → slot_contents q ≡ []
    → ((slot_receive q).0 ≡ none) × (slot_contents (slot_receive q).1 ≡ [])
slot-empty none h = (refl, refl)
slot-empty (some b) h = cc

slot-first :
    (q : Option (Option Buffer)) (a : Option Buffer) (rest : List (Option Buffer))
    → slot_contents q ≡ a ∷ rest
    → ((slot_receive q).0 ≡ some a) × (slot_contents (slot_receive q).1 ≡ rest)
slot-first none a rest h = cc
slot-first (some b) a rest h = (cc, cc)

abbrev slot : Fifo (Option Buffer) (Option (Option Buffer))
slot = record {
  send = slot_send;
  receive = slot_receive;
  contents = slot_contents;
  capacity = 1;
  send_room = slot-room;
  send_full = slot-full;
  receive_empty = slot-empty;
  receive_first = slot-first;
}

abbrev vacant : Inbox (Option (Option Buffer))
vacant = record { queue = none; woken = false; calls = []; station = idle.station }

abbrev final : Inbox (List (Option Buffer))
final = record {
  queue = some start_msg ∷ [];
  woken = true;
  calls = told;
  station = record {
    last_recv_cmd = some 0xC0;
    payload = 0xC0 ∷ [];
    events = Dispatch.xil_printf Dispatch.stop ∷ [];
  };
}

happen_all-Accounted_example : Accounted (arrived story) (abstract two final)
unfolding happen_all happen recv_callback hand_over tcp_parse_round parse_entry parse_msg
    short_message dispatch control note remember get_tetrada last_of
happen_all-Accounted_example = happen_all-Accounted two story idle final refl refl refl

abbrev waiting : Inbox (List (Option Buffer))
waiting = record idle { queue = some stop_msg ∷ some start_msg ∷ [] }

tcp_parse_rounds-Drained_example :
    (t : Inbox (List (Option Buffer))) × (tcp_parse_rounds two (states ∷ states ∷ []) waiting
      ≡ some t)
    × Drained two waiting t
        (stop_msg ∷ start_msg ∷ [])
        (command_after 0 (stop_msg ∷ start_msg ∷ []) (0xC0 ∷ 0xC1 ∷ []))
unfolding last_of
tcp_parse_rounds-Drained_example =
    tcp_parse_rounds-Drained two (stop_msg ∷ start_msg ∷ []) (0xC0 ∷ 0xC1 ∷ [])
      (states ∷ states ∷ []) 0 waiting
      (message stop_msg 0xC0 states (record { last_byte = refl; small = omega arith })
        (message start_msg 0xC1 states (record { last_byte = refl; small = omega arith })
          no_message))
      refl refl

command_after_test : command_after 0 (stop_msg ∷ start_msg ∷ []) (0xC0 ∷ 0xC1 ∷ []) ≡ 0xC1
unfolding meaning
command_after_test = refl
