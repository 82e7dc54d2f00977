-- ===== src/Startup.antt =====
-- src/main.c, lines 12-45, src/cpu1_init.c and src/diag.c: the start of the program, the task that
-- sets up the network and starts the others, and the hooks for what FreeRTOS reports.
pub mod Order
mod Tests
use zynq_lwip_frtos.Base.{ℕ, Bool, Option, none, some, List, [], ◌∷◌}
use zynq_lwip_frtos.Base.Calls.{Run, stopped, ◌>>=◌, ◌>>◌, call, lift}
use zynq_lwip_frtos.Platform
use zynq_lwip_frtos.Platform.{Board, init_platform}
use zynq_lwip_frtos.Network
use zynq_lwip_frtos.Network.{UdpAnswers, network_setup, udp_connection}
use zynq_lwip_frtos.Timer.Setup as Setup
use zynq_lwip_frtos.Timer.Setup.{Constants, Answers, initialise_timers}

abbrev pub cpu1_start_addr : ℕ
cpu1_start_addr = 0xFFFF_FFF0

abbrev pub cpu1_start_mem : ℕ
cpu1_start_mem = 0x1000_0000

abbrev pub thread_stacksize : ℕ
thread_stacksize = 1024

abbrev pub delay_1_second : ℕ
delay_1_second = 1000

abbrev pub major_software_version : ℕ
major_software_version = 0

abbrev pub minor_software_version : ℕ
minor_software_version = 2

-- Priorities, over tskIDLE_PRIORITY.
abbrev pub auto_gain_control_task_prio : ℕ
auto_gain_control_task_prio = 1

abbrev pub udp_task_prio : ℕ
udp_task_prio = 2

abbrev pub tcp_parse_prio : ℕ
tcp_parse_prio = 3

pub data Task : Type 0 where
  network_init_task x1emacif_input udp_parse_task udp_auto_gain_control_task tcp_parse_task : Task

-- The queues of pbufs, and the message buffer.
pub data Queue : Type 0 where
  pbuf_queue_udp pbuf_queue_auto_gain_control pbuf_queue_tcp : Queue

pub data Call : Type 0 where
  out32 : (address value : ℕ) → Call
  dmb sev start_scheduler tcp_connection_cl task_delete : Call
  platform_call : Platform.Call → Call
  network_call : Network.Call → Call
  timer_call : Setup.Call → Call
  print_start : Call
  print_version : (major minor : ℕ) → Call
  -- With what FreeRTOS answers: whether it is made.
  task_create : Task → (stack priority : ℕ) → (made : Bool) → Call
  delay : ℕ → Call
  queue_create : Queue → ℕ → (made : Bool) → Call
  message_buffer_create : ℕ → (made : Bool) → Call
  print_heap : (free least : ℕ) → Call
  print_overflow : List ℕ → Call

unfoldable pub start_cpu1 : Run Call (Unit {0})
start_cpu1 = do call (out32 cpu1_start_addr cpu1_start_mem); call dmb; call sev

-- The scheduler takes over; should it return, line 21 loops for good.
unfoldable pub main : Board → (made : Bool) → Run Call (Unit {0})
main b made = do
  start_cpu1
  lift platform_call (init_platform b)
  call print_start
  call (print_version major_software_version minor_software_version)
  call (task_create network_init_task thread_stacksize 3 made)
  call start_scheduler
  stopped []

-- What the libraries answer to `network_init_task`, and which tasks and queues FreeRTOS makes: the
-- code does not look at the answers of `xTaskCreate`, `xQueueCreate` and `xMessageBufferCreate`.
pub record InitAnswers : Type 0 where
  pub added : Bool
  pub udp : UdpAnswers
  pub constants : Constants
  pub timer_0 : Answers
  pub timer_1 : Answers
  pub timer_2 : Answers
  pub tasks : Task → Bool
  pub queues : Queue → Bool
  pub message_buffer : Bool

-- Lines 25-45. The task deletes itself at the end, so that its loop has one round. The connection over
-- TCP is one call here.
unfoldable pub network_init : InitAnswers → Run Call (Unit {0})
network_init r = do
  call (delay delay_1_second)
  lift network_call (network_setup r.added)
  call (task_create x1emacif_input thread_stacksize 0 (r.tasks x1emacif_input))
  sender ← lift network_call (udp_connection r.udp)
  call tcp_connection_cl
  call (queue_create pbuf_queue_udp 200 (r.queues pbuf_queue_udp))
  call (task_create udp_parse_task 10000 udp_task_prio (r.tasks udp_parse_task))
  call (queue_create pbuf_queue_auto_gain_control 200 (r.queues pbuf_queue_auto_gain_control))
  call (
      task_create udp_auto_gain_control_task 10000 auto_gain_control_task_prio
        (r.tasks udp_auto_gain_control_task))
  call (message_buffer_create 1024 r.message_buffer)
  call (queue_create pbuf_queue_tcp 200 (r.queues pbuf_queue_tcp))
  call (task_create tcp_parse_task thread_stacksize tcp_parse_prio (r.tasks tcp_parse_task))
  lift timer_call (initialise_timers r.constants r.timer_0 r.timer_1 r.timer_2)
  call task_delete
  stopped []

-- src/diag.c, lines 22-30: the heap is exhausted.
unfoldable pub malloc_failed_hook : (free least : ℕ) → Run Call (Unit {0})
malloc_failed_hook free least = do call (print_heap free least); stopped []

-- The name of the task, "?" without one.
abbrev pub shown_name : Option (List ℕ) → List ℕ
shown_name none = 0x3F ∷ []
shown_name (some name) = name

unfoldable pub stack_overflow_hook : Option (List ℕ) → Run Call (Unit {0})
stack_overflow_hook name = do call (print_overflow (shown_name name)); stopped []
