-- ===== src/Startup/Tests.antt =====
-- Answers that let the set-up go through.
use zynq_lwip_frtos.Base.{◌≡◌, refl, Bool, true, false, some, []}
use zynq_lwip_frtos.Base.Calls.{calls}
use zynq_lwip_frtos.Timer.Setup.{Constants, Answers}
use zynq_lwip_frtos.Startup.{InitAnswers, Queue, pbuf_queue_tcp, network_init}
use zynq_lwip_frtos.Startup.Order.{
  no_queues, task_ready, callback_ready, holds, network_init-task_ready,
  network_init-callback_ready,
}

abbrev constants : Constants
constants = record {
  ttc_0_interrupt = 42;
  ttc_1_interrupt = 43;
  ttc_2_interrupt = 44;
  interval_mode = 2;
  wave_disable = 32;
  max_api_call_interrupt_priority = 18;
  priority_shift = 3;
}

abbrev timer : Answers
timer = record {
  config = some tt;
  first_initialised = true;
  second_initialised = true;
  interval = 100;
  prescaler = 0;
  connected = true;
}

abbrev answers : InitAnswers
answers = record {
  added = true;
  udp = record { conn = true; answer = true; allocated = true; buffer = some [] };
  constants = constants;
  timer_0 = timer;
  timer_1 = timer;
  timer_2 = timer;
  tasks = λ _. true;
  queues = λ _. true;
  message_buffer = true;
}

-- There is no memory for the last queue.
abbrev queues_made : Queue → Bool
queues_made pbuf_queue_tcp = false
queues_made _ = true

abbrev exhausted : InitAnswers
exhausted = record answers { tasks = λ _. true; queues = queues_made; message_buffer = true }

network_init-task_ready_example : holds task_ready no_queues (calls (network_init answers)) ≡ true
network_init-task_ready_example = network_init-task_ready answers λ _. refl

network_init-callback_ready_example :
    holds callback_ready no_queues (calls (network_init answers)) ≡ false
network_init-callback_ready_example = network_init-callback_ready answers [] refl refl
