-- ===== src/Command/Tests.antt =====
-- Commands at concrete bytes.
use zynq_lwip_frtos.Base.{ℕ, ◌≡◌, refl, some, List, [], ◌∷◌, arith}
use zynq_lwip_frtos.Pl.{numbered, mesg_size, byte}
use zynq_lwip_frtos.Udp.Task.{TaskState, ready, suspended}
use zynq_lwip_frtos.Command.Dispatch.{
  Station, States, tcp_write, task_resume, to_pl, last_of, ctrl_ampl, parse_msg,
}
use zynq_lwip_frtos.Command.Meaning.{Remembers, meaning, amplitude_events, ctrl_ampl-events}
use zynq_lwip_frtos.Command.Message.{parse_msg-expected}

abbrev station : List ℕ → Station
station payload = record { last_recv_cmd = some 0; payload = payload; events = [] }

abbrev states : TaskState → States
states state = record { first = state; second = state }

-- Automatic gain, while the task is suspended.
ctrl_ampl-events_example :
    ctrl_ampl (states suspended) (station (0xFF ∷ 0xC3 ∷ []))
    ≡ some (record {
      last_recv_cmd = some 0xC3;
      payload = 0x7F ∷ 0xC3 ∷ [];
      events =
          tcp_write (0xFF ∷ 0xC3 ∷ [])
          ∷ task_resume
          ∷ to_pl (mesg_size 2 ∷ byte 0 0x7F ∷ byte 1 0xC3 ∷ [])
          ∷ [];
    })
unfolding amplitude_events numbered
ctrl_ampl-events_example =
    ctrl_ampl-events (states suspended) (station (0xFF ∷ 0xC3 ∷ [])) 0xFF 0 refl refl

reset_faults-last : last_of (0x01 ∷ 0xC9 ∷ []) 2 ≡ some 0xC9
unfolding last_of
reset_faults-last = refl

-- The message 01C9, "reset faults", is taken for telemetry.
parse_msg-expected_example : Remembers 0xC9 (parse_msg (states ready) (station (0x01 ∷ 0xC9 ∷ [])))
unfolding meaning
parse_msg-expected_example =
    parse_msg-expected (states ready) (station (0x01 ∷ 0xC9 ∷ [])) 0xC9 0 reset_faults-last
      (omega arith) refl
