-- ===== src/Gain/Control.antt =====
-- src/auto_gain_control.c, lines 53-136 and 162-181: the handler of one packet.
use zynq_lwip_frtos.Base.{
  ℕ, ◌+◌, ◌-◌, ◌*◌, ◌/◌, ◌%◌, false, Option, none, some, List, [], ◌∷◌, get_elem?, ◌==◌,
  if◌then◌else◌, wrap16, ◌>>=◌,
}
use zynq_lwip_frtos.Gain.State.{Gain, row, angular_step, nominal_number_of_lines_per_revolution}
use zynq_lwip_frtos.Gain.Zone.{cleaning_auto_gain_control_array, update_gain_value}
use zynq_lwip_frtos.Gain.Samples.{segment_loop, average_line}
use zynq_lwip_frtos.Gain.Revolution.{average_revolution}

-- The direction that the zone has left for good: six before the current one.
unfoldable pub boundary_line : ℕ → ℕ
boundary_line line_index =
    (line_index + nominal_number_of_lines_per_revolution - (row.weakening_zone + 1))
    % nominal_number_of_lines_per_revolution

unfoldable pub next_line : ℕ → ℕ
next_line line_index = (line_index + 1) % nominal_number_of_lines_per_revolution

-- The payloads of the chain stand for `p`; the arguments are in the order of the source.
unfoldable pub filling_auto_gain_control_array : List (List ℕ) → ℕ → ℕ → Gain → Option Gain
filling_auto_gain_control_array p size_of_samples line_index s = do
  s1 ← segment_loop p 74 size_of_samples line_index s
  s2 ← average_line size_of_samples line_index s1
  s3 ← (if line_index == 98 then average_revolution s2 else some s2)
  s4 ←
      cleaning_auto_gain_control_array (boundary_line line_index)
        (record s3 { flag_first_disckret = false })
  update_gain_value (next_line line_index) s4

-- A 16-bit word of the header, the high byte first.
unfoldable pub word_at : List ℕ → ℕ → Option ℕ
word_at payload i = do
  high ← get_elem? payload i
  low ← get_elem? payload (i + 1)
  some (high * 0x100 + low)

-- A 24-bit word of the header.
unfoldable pub triple_at : List ℕ → ℕ → Option ℕ
triple_at payload i = do
  high ← get_elem? payload i
  middle ← get_elem? payload (i + 1)
  low ← get_elem? payload (i + 2)
  some (high * 0x10000 + middle * 0x100 + low)

-- Lines 170-176, the branch of the constant `r == 3`: what it computes is replaced below.
unfoldable pub read_mode_48 : List ℕ → Option (ℕ × ℕ)
read_mode_48 payload = do
  azimuth ← word_at payload 40
  samples ← triple_at payload 56
  some (azimuth / angular_step, wrap16 (samples * 2))

unfoldable pub auto_gain_control : List (List ℕ) → Gain → Option Gain
auto_gain_control [] s = none
auto_gain_control (payload ∷ rest) s = do
  replaced ← read_mode_48 payload
  azimuth ← word_at payload 54
  samples ← triple_at payload 70
  filling_auto_gain_control_array (payload ∷ rest) (wrap16 samples)
      (wrap16 (azimuth / angular_step)) s
