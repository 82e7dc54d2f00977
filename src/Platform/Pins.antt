-- ===== src/Platform/Pins.antt =====
-- Which pins are outputs when the platform is set up.
use zynq_lwip_frtos.Base.{
  ℕ, ◌+◌, ◌≡◌, Bool, true, false, not, ◌&&◌, ◌||◌, some, List, [], ◌∷◌, ◌++◌, eq→==, arith, ◌==◌,
}
use zynq_lwip_frtos.Base.Calls.{done, calls}
use zynq_lwip_frtos.Platform.{
  Call, disable_interrupts, lookup_gic, lookup_gpio, cfg_gpio, cfg_gic, install_vector_table,
  set_direction_pin, set_output_enable_pin, write_pin, GicConfig, Board, init_platform,
  par_test_set_gpio,
}

-- A pin is an output once its direction is set and its output is enabled.
abbrev pub directs : ℕ → Call → Bool
directs pin (set_direction_pin p v) = p == pin && v == 1
directs pin _ = false

abbrev pub enables : ℕ → Call → Bool
enables pin (set_output_enable_pin p v) = p == pin && v == 1
enables pin _ = false

abbrev pub any : (Call → Bool) → List Call → Bool
any f [] = false
any f (c ∷ cs) = f c || any f cs

unfoldable pub is_output : ℕ → List Call → Bool
is_output pin cs = any (directs pin) cs && any (enables pin) cs

-- Whether every pin that is written is an output by then.
abbrev pub writes_outputs : List Call → List Call → Bool
writes_outputs before [] = true
writes_outputs before (write_pin p v ∷ cs) = is_output p before && writes_outputs before cs
writes_outputs before (_ ∷ cs) = writes_outputs before cs

-- What the set-up needs of the board.
pub record IsReady (b : Board) : Type 0 where
  pub config : GicConfig
  pub gic : b.gic ≡ some config
  pub cpu : config.cpu_base_address ≡ b.controller_base_address + b.cpu_interface_offset
  pub dist : config.dist_base_address ≡ b.controller_base_address
  pub gic_initialised : b.gic_initialised ≡ true
  pub gpio : b.gpio ≡ some tt
  pub gpio_initialised : b.gpio_initialised ≡ true

abbrev output_low_calls : ℕ → List Call
output_low_calls pin = set_direction_pin pin 1 ∷ set_output_enable_pin pin 1 ∷ write_pin pin 0 ∷ []

abbrev output_led_calls : ℕ → List Call
output_led_calls pin = set_direction_pin pin 1 ∷ set_output_enable_pin pin 1 ∷ []

-- The calls of the set-up.
abbrev pub set_up : ℕ → List Call
set_up address =
    disable_interrupts ∷ lookup_gic ∷ cfg_gic address ∷ lookup_gpio ∷ cfg_gpio ∷ output_low_calls 56
    ++ output_low_calls 57
    ++ output_low_calls 58
    ++ output_led_calls 8
    ++ output_led_calls 7
    ++ output_led_calls 6
    ++ install_vector_table ∷ []

init_platform-set_up :
    (b : Board) (r : IsReady b) → init_platform b ≡ done (set_up r.config.cpu_base_address) tt
unfolding init_platform
init_platform-set_up b r =
    simp (r.gic, eq→== _ _ r.cpu, eq→== _ _ r.dist, r.gic_initialised, r.gpio, r.gpio_initialised)

-- On a board whose drivers answer as the set-up asserts, it returns, and afterwards every pin that
-- `vParTestSetGPIO` writes is an output, except those of the arguments 0 and 1, the pins 54 and 55.
pub par_test_set_gpio-writes_outputs :
    (b : Board) (pin value : ℕ)
    → IsReady b
    → (cs : List Call) × (init_platform b ≡ done cs tt)
      × (writes_outputs cs (calls (par_test_set_gpio pin value)) ≡ not (pin == 0 || pin == 1))
unfolding par_test_set_gpio is_output
par_test_set_gpio-writes_outputs b pin value r =
    (set_up r.config.cpu_base_address, init_platform-set_up b r, ground arith)
