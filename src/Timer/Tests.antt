-- ===== src/Timer/Tests.antt =====
-- The timer over concrete rounds.
use zynq_lwip_frtos.Base.Calls.{done, stopped}
use zynq_lwip_frtos.Platform.{par_test_set_gpio, write_pin}
use zynq_lwip_frtos.Timer.Interrupt.{
  interrupt, get_interrupt_status, clear_interrupt_status, platform_call,
}
use zynq_lwip_frtos.Base.{◌≡◌, refl, some, true, false, [], ◌∷◌}
use zynq_lwip_frtos.Timer.Setup.{Constants, Answers, initialise_timers}
use zynq_lwip_frtos.Timer.Started.{Willing, Leaves, initialise_timers-Leaves}
use zynq_lwip_frtos.Timer.{
  initial, timer_2, Flags, timer_handler, input_round, interrupted_round, input_rounds, run,
  run-fast_and_slow, timer_handler-lost,
}

run-fast_and_slow_example : run (0 ∷ 4 ∷ 2 ∷ []) initial ≡ record {
  flag_for_led = true;
  tcp_fast_tmr_flag = false;
  tcp_slow_tmr_flag = false;
  fast_runs = 3;
  slow_runs = 2;
}
run-fast_and_slow_example = run-fast_and_slow (0 ∷ 4 ∷ 2 ∷ [])

abbrev flagged : Flags
flagged = record initial { tcp_fast_tmr_flag = true }

timer_handler-lost_example :
    ((input_rounds 5 (interrupted_round flagged)).fast_runs ≡ 1)
    × ((input_rounds 6 (timer_handler timer_2 (input_round flagged))).fast_runs ≡ 2)
timer_handler-lost_example = timer_handler-lost 5 flagged refl

abbrev constants : Constants
constants = record {
  ttc_0_interrupt = 42;
  ttc_1_interrupt = 43;
  ttc_2_interrupt = 44;
  interval_mode = 2;
  wave_disable = 32;
  max_api_call_interrupt_priority = 18;
  priority_shift = 3;
}

abbrev at_once : Answers
at_once = record {
  config = some tt;
  first_initialised = true;
  second_initialised = false;
  interval = 100;
  prescaler = 0;
  connected = true;
}

at_once-Willing : Willing at_once
at_once-Willing = record { config = refl; initialised = refl; connected = refl }

-- The third timer is initialised at the second attempt.
abbrev at_last : Answers
at_last = record at_once { first_initialised = false; second_initialised = true }

at_last-Willing : Willing at_last
at_last-Willing = record { config = refl; initialised = refl; connected = refl }

initialise_timers-Leaves_example :
    Leaves (0 ∷ 2 ∷ []) (42 ∷ 44 ∷ []) (initialise_timers constants at_once at_once at_last)
initialise_timers-Leaves_example =
    initialise_timers-Leaves constants at_once at_once at_last at_once-Willing at_once-Willing
      at_last-Willing

-- The LED is switched on at the first interrupt of the third timer.
interrupt_test :
    interrupt timer_2 true initial
    ≡ done
        (get_interrupt_status ∷ clear_interrupt_status ∷ platform_call (write_pin 7 1) ∷ [])
        (timer_handler timer_2 initial)
unfolding interrupt par_test_set_gpio timer_handler
interrupt_test = refl

-- Another interrupt of the third timer stops the program.
interrupt_assert_test :
    interrupt timer_2 false initial ≡ stopped (get_interrupt_status ∷ clear_interrupt_status ∷ [])
unfolding interrupt
interrupt_assert_test = refl
