-- ===== src/Platform.antt =====
-- src/platform.c and src/platform.h: the set-up of the interrupt controller and of the pins. What
-- the drivers answer is an argument.
mod Tests
pub mod Pins
use zynq_lwip_frtos.Base.{ℕ, ◌+◌, Bool, Option, ◌==◌, if◌then◌else◌}
use zynq_lwip_frtos.Base.Calls.{Run, ◌>>=◌, ◌>>◌, pure, call, assert, assert_some, deref}

abbrev pub gpio_54_output : ℕ
gpio_54_output = 54

abbrev pub gpio_55_output : ℕ
gpio_55_output = 55

abbrev pub gpio_56_output : ℕ
gpio_56_output = 56

abbrev pub gpio_57_output : ℕ
gpio_57_output = 57

abbrev pub gpio_58_output : ℕ
gpio_58_output = 58

abbrev pub led_left : ℕ
led_left = 8

abbrev pub led_middle : ℕ
led_middle = 7

abbrev pub led_right : ℕ
led_right = 6

abbrev pub direction_output : ℕ
direction_output = 1

abbrev pub output_enabled : ℕ
output_enabled = 1

pub data Call : Type 0 where
  disable_interrupts lookup_gic lookup_gpio cfg_gpio : Call
  cfg_gic : ℕ → Call
  set_direction_pin set_output_enable_pin write_pin : ℕ → ℕ → Call
  install_vector_table : Call

-- `XScuGic_Config`, the two addresses that the code reads.
pub record GicConfig : Type 0 where
  pub cpu_base_address : ℕ
  pub dist_base_address : ℕ

-- The two addresses of FreeRTOSConfig.h, and the answers of the drivers: the configurations that
-- are found, and whether the initialisations succeed.
pub record Board : Type 0 where
  pub controller_base_address : ℕ
  pub cpu_interface_offset : ℕ
  pub gic : Option GicConfig
  pub gic_initialised : Bool
  pub gpio : Option (Unit {0})
  pub gpio_initialised : Bool

-- Lines 70-72, and the same for the other pins that are set low.
abbrev pub output_low : ℕ → Run Call (Unit {0})
output_low pin = do
  call (set_direction_pin pin direction_output)
  call (set_output_enable_pin pin output_enabled)
  call (write_pin pin 0)

-- Lines 79-80, and the same for the other lights.
abbrev pub output_led : ℕ → Run Call (Unit {0})
output_led pin = do call (set_direction_pin pin 1); call (set_output_enable_pin pin 1)

unfoldable pub par_test_initialise : Board → Run Call (Unit {0})
par_test_initialise b = do
  call lookup_gpio
  config ← deref b.gpio
  call cfg_gpio
  assert b.gpio_initialised
  output_low gpio_56_output
  output_low gpio_57_output
  output_low gpio_58_output
  output_led led_left
  output_led led_middle
  output_led led_right

unfoldable pub setup_hardware : Board → Run Call (Unit {0})
unfolding par_test_initialise
setup_hardware b = do
  call disable_interrupts
  call lookup_gic
  config ← assert_some b.gic
  assert (config.cpu_base_address == (b.controller_base_address + b.cpu_interface_offset))
  assert (config.dist_base_address == b.controller_base_address)
  call (cfg_gic config.cpu_base_address)
  assert b.gic_initialised
  par_test_initialise b
  call install_vector_table

unfoldable pub init_platform : Board → Run Call (Unit {0})
unfolding setup_hardware
init_platform b = setup_hardware b

-- The switch of line 92.
unfoldable pub par_test_set_gpio : ℕ → ℕ → Run Call (Unit {0})
par_test_set_gpio pin value =
    if pin == 0
    then call (write_pin gpio_54_output value)
    else if pin == 4
    then call (write_pin gpio_58_output value)
    else if pin == 1
    then call (write_pin gpio_55_output value)
    else if pin == 2
    then call (write_pin gpio_56_output value)
    else if pin == 3
    then call (write_pin gpio_57_output value)
    else if pin == led_left
    then call (write_pin led_left value)
    else if pin == led_middle
    then call (write_pin led_middle value)
    else if pin == led_right
    then call (write_pin led_right value)
    else pure tt
