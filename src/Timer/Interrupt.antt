-- ===== src/Timer/Interrupt.antt =====
-- src/ttc_timer.c, lines 133-162: the whole interrupt handler, with the calls of the drivers. Whether the
-- interrupt is that of the interval is an argument.
use zynq_lwip_frtos.Base.{Bool, if◌then◌else◌}
use zynq_lwip_frtos.Base.Calls.{Run, ◌>>◌, pure, call, assert, lift}
use zynq_lwip_frtos.Platform
use zynq_lwip_frtos.Platform.{led_middle, par_test_set_gpio}
use zynq_lwip_frtos.Timer.{Flags, Device, timer_2, timer_handler}

pub data Call : Type 0 where
  get_interrupt_status clear_interrupt_status : Call
  platform_call : Platform.Call → Call

-- Line 155.
abbrev pub show_flag : Device → Flags → Run Call (Unit {0})
show_flag timer_2 s =
    lift platform_call (par_test_set_gpio led_middle (if s.flag_for_led then 1 else 0))
show_flag _ s = pure tt

unfoldable pub interrupt : Device → Bool → Flags → Run Call Flags
interrupt device interval s = do
  call get_interrupt_status
  call clear_interrupt_status
  assert interval
  show_flag device (timer_handler device s)
  pure (timer_handler device s)
