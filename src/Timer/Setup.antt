-- ===== src/Timer/Setup.antt =====
-- src/ttc_timer.c, lines 18-125, and src/ttc_timer.h: the set-up of the three timers. What the
-- drivers answer is an argument.
use zynq_lwip_frtos.Base.{
  ℕ, suc, ◌+◌, ◌-◌, ◌*◌, ◌^◌, Bool, not, Option, List, [], ◌∷◌, get_elem?, ◌==◌, if◌then◌else◌,
}
use zynq_lwip_frtos.Base.Calls.{Run, ◌>>=◌, ◌>>◌, pure, call, assert, assert_some, deref}

abbrev pub timers_used : ℕ
timers_used = 3

abbrev pub timer_0_frequency : ℕ
timer_0_frequency = 5000

abbrev pub timer_1_frequency : ℕ
timer_1_frequency = 5000

abbrev pub timer_2_frequency : ℕ
timer_2_frequency = 4

abbrev pub ttc_timer_channel_1 : ℕ
ttc_timer_channel_1 = 0

abbrev pub ttc_timer_channel_2 : ℕ
ttc_timer_channel_2 = 1

abbrev pub ttc_timer_channel_3 : ℕ
ttc_timer_channel_3 = 2

-- `TmrCntrSetup`. The interval and the prescaler are filled in by the driver.
pub record TmrCntrSetup : Type 0 where
  pub output_hz : ℕ
  pub interval : ℕ
  pub prescaler : ℕ
  pub options : ℕ

-- The calls of the drivers; a timer is named by its index.
pub data Call : Type 0 where
  lookup_config cfg_initialize stop start : ℕ → Call
  set_options calc_interval_from_freq set_interval set_prescaler : ℕ → ℕ → Call
  set_priority_trigger : (interrupt priority trigger : ℕ) → Call
  connect : (interrupt timer : ℕ) → Call
  enable : ℕ → Call
  enable_interrupts reset_counter_value get_counter_value : ℕ → Call

-- What the program takes from the headers of the drivers and of FreeRTOS.
pub record Constants : Type 0 where
  pub ttc_0_interrupt : ℕ
  pub ttc_1_interrupt : ℕ
  pub ttc_2_interrupt : ℕ
  pub interval_mode : ℕ
  pub wave_disable : ℕ
  pub max_api_call_interrupt_priority : ℕ
  pub priority_shift : ℕ

-- What the drivers answer for one timer: whether it has a configuration, whether the first and the
-- second initialisation succeed, the interval and the prescaler for its frequency, and whether the
-- handler is connected.
pub record Answers : Type 0 where
  pub config : Option (Unit {0})
  pub first_initialised : Bool
  pub second_initialised : Bool
  pub interval : ℕ
  pub prescaler : ℕ
  pub connected : Bool

abbrev pub interrupt_ids : Constants → List ℕ
interrupt_ids k = k.ttc_0_interrupt ∷ k.ttc_1_interrupt ∷ k.ttc_2_interrupt ∷ []

-- The options are bits, so `|` of two is `+`.
abbrev pub timer_settings : Constants → List TmrCntrSetup
timer_settings k =
    record {
      output_hz = timer_0_frequency;
      interval = 0;
      prescaler = 0;
      options = k.interval_mode + k.wave_disable;
    }
    ∷ record {
      output_hz = timer_1_frequency;
      interval = 0;
      prescaler = 0;
      options = k.interval_mode + k.wave_disable;
    }
    ∷ record {
      output_hz = timer_2_frequency;
      interval = 0;
      prescaler = 0;
      options = k.interval_mode + k.wave_disable;
    }
    ∷ []

abbrev pub interrupt_priorities : Constants → List ℕ
interrupt_priorities k =
    (k.max_api_call_interrupt_priority + 1)
    ∷ k.max_api_call_interrupt_priority
    ∷ (k.max_api_call_interrupt_priority - 1)
    ∷ []

abbrev pub rising_edge : ℕ
rising_edge = 3

-- Lines 73-79.
unfoldable pub initialise_timer : ℕ → Answers → Run Call (Unit {0})
initialise_timer timer a = do
  call (cfg_initialize timer)
  if a.first_initialised
      then pure tt
      else (do call (stop timer); call (cfg_initialize timer); assert a.second_initialised)

-- Lines 89-98.
unfoldable pub start_interrupts : Constants → ℕ → Answers → Run Call (Unit {0})
start_interrupts k timer a = do
  interrupt ← deref (get_elem? (interrupt_ids k) timer)
  priority ← deref (get_elem? (interrupt_priorities k) timer)
  call (set_priority_trigger interrupt (priority * 2 ^ k.priority_shift) rising_edge)
  call (connect interrupt timer)
  assert a.connected
  call (enable interrupt)
  call (enable_interrupts timer)
  call (start timer)

-- Lines 67-99: the body of the loop, which returns the settings with what the driver filled in.
unfoldable pub set_up_timer : Constants → ℕ → Answers → Run Call TmrCntrSetup
set_up_timer k timer a = do
  call (lookup_config timer)
  config ← assert_some a.config
  settings ← deref (get_elem? (timer_settings k) timer)
  initialise_timer timer a
  call (set_options timer settings.options)
  call (calc_interval_from_freq timer settings.output_hz)
  call (set_interval timer a.interval)
  call (set_prescaler timer a.prescaler)
  (if not (timer == 1) then start_interrupts k timer a else pure tt)
  pure (record settings { interval = a.interval; prescaler = a.prescaler })

-- The loop of line 65 from a timer on.
unfoldable pub set_up_timers : Constants → ℕ → List Answers → Run Call (Unit {0})
set_up_timers k timer [] = pure tt
set_up_timers k timer (a ∷ rest) = do
  settings ← set_up_timer k timer a
  set_up_timers k (suc timer) rest

unfoldable pub initialise_timers : Constants → (a0 a1 a2 : Answers) → Run Call (Unit {0})
unfolding set_up_timers
initialise_timers k a0 a1 a2 = set_up_timers k 0 (a0 ∷ a1 ∷ a2 ∷ [])

-- `&(xTimerInstances[timer_ch_id])`: there are three.
abbrev pub instances : List ℕ
instances = ttc_timer_channel_1 ∷ ttc_timer_channel_2 ∷ ttc_timer_channel_3 ∷ []

-- Lines 104-117.
unfoldable pub start_stop_ttc_timer : ℕ → ℕ → Run Call (Unit {0})
start_stop_ttc_timer timer_ch_id flag_start_stop = do
  timer ← deref (get_elem? instances timer_ch_id)
  if flag_start_stop == 0
      then call (stop timer)
      else (do call (reset_counter_value timer); call (start timer))

-- Lines 120-125: the call whose answer is returned.
unfoldable pub get_ttc_counter_value : ℕ → Run Call (Unit {0})
get_ttc_counter_value timer_ch_id = do
  timer ← deref (get_elem? instances timer_ch_id)
  call (get_counter_value timer)
