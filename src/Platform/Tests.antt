-- ===== src/Platform/Tests.antt =====
-- A board that is ready.
use zynq_lwip_frtos.Base.{◌≡◌, refl, true, false, some, List}
use zynq_lwip_frtos.Base.Calls.{done, calls}
use zynq_lwip_frtos.Platform.{Call, GicConfig, Board, init_platform, par_test_set_gpio}
use zynq_lwip_frtos.Platform.Pins.{IsReady, writes_outputs, par_test_set_gpio-writes_outputs}

abbrev config : GicConfig
config = record { cpu_base_address = 0xF8F0_0100; dist_base_address = 0xF8F0_0000 }

abbrev board : Board
board = record {
  controller_base_address = 0xF8F0_0000;
  cpu_interface_offset = 0x100;
  gic = some config;
  gic_initialised = true;
  gpio = some tt;
  gpio_initialised = true;
}

board-IsReady : IsReady board
board-IsReady = record {
  config = config;
  gic = refl;
  cpu = refl;
  dist = refl;
  gic_initialised = refl;
  gpio = refl;
  gpio_initialised = refl;
}

par_test_set_gpio-writes_outputs_example :
    (cs : List Call) × (init_platform board ≡ done cs tt)
    × (writes_outputs cs (calls (par_test_set_gpio 1 1)) ≡ false)
par_test_set_gpio-writes_outputs_example = par_test_set_gpio-writes_outputs board 1 1 board-IsReady
