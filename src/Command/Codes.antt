-- ===== src/Command/Codes.antt =====
-- src/cmd.h: the codes of the commands, as it defines them.
use zynq_lwip_frtos.Base.{ℕ, List, [], ◌∷◌}

abbrev pub cmd_stop : ℕ
cmd_stop = 0xC0

abbrev pub cmd_start : ℕ
cmd_start = 0xC1

abbrev pub cmd_worktype_set : ℕ
cmd_worktype_set = 0xC2

abbrev pub cmd_ctrl_ampl : ℕ
cmd_ctrl_ampl = 0xC3

abbrev pub cmd_ctrl_ampl_auto_value : ℕ
cmd_ctrl_ampl_auto_value = 0xFF

abbrev pub cmd_ctrl_ampl_max_value : ℕ
cmd_ctrl_ampl_max_value = 0x7F

abbrev pub cmd_ctrl_ampl_min_value : ℕ
cmd_ctrl_ampl_min_value = 0x00

abbrev pub cmd_sea_filter : ℕ
cmd_sea_filter = 0xC4

abbrev pub cmd_prec_filter : ℕ
cmd_prec_filter = 0xC5

abbrev pub cmd_velocity : ℕ
cmd_velocity = 0xC6

abbrev pub cmd_blank_sec : ℕ
cmd_blank_sec = 0xC7

abbrev pub cmd_freq_chge : ℕ
cmd_freq_chge = 0xC8

abbrev pub cmd_telemetry_reqs : ℕ
cmd_telemetry_reqs = 0x00C9

abbrev pub cmd_reset_faults : ℕ
cmd_reset_faults = 0x01C9

abbrev pub cmd_worktype_reqs : ℕ
cmd_worktype_reqs = 0x00F

abbrev pub cmd_tob_point : ℕ
cmd_tob_point = 0xD

abbrev pub cmd_tob_value_reqs : ℕ
cmd_tob_value_reqs = 0xE

abbrev pub cmd_pull : List ℕ
cmd_pull =
    cmd_stop ∷ cmd_start ∷ cmd_worktype_set ∷ cmd_ctrl_ampl ∷ cmd_sea_filter ∷ cmd_prec_filter
    ∷ cmd_velocity ∷ cmd_blank_sec ∷ cmd_freq_chge ∷ cmd_telemetry_reqs ∷ cmd_reset_faults
    ∷ cmd_worktype_reqs ∷ cmd_tob_point ∷ cmd_tob_value_reqs ∷ []
