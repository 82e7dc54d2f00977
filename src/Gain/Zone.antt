-- ===== src/Gain/Zone.antt =====
-- src/auto_gain_control.c, lines 83-107 and 138-159: weakening the directions round a saturated one,
-- clearing the direction that the zone has left, and the gain of the next direction.
use zynq_lwip_frtos.Base.{
  ℕ, zero, suc, ◌+◌, ◌-◌, ◌*◌, ◌%◌, true, false, Option, some, List, [], ◌∷◌, ◌++◌, get_elem?, ltb,
  leb, ◌==◌, if◌then◌else◌, wrap8, ◌>>=◌,
}
use zynq_lwip_frtos.Pl.{send_to_pl}
use zynq_lwip_frtos.Gain.State.{
  AutoGainControl, Gain, row, minimal_gain_value, nominal_number_of_lines_per_revolution, update_at,
}

-- Lines 93-100. In C the difference is an int: it is at most the minimum if the gain is at most the
-- minimum and 10.
unfoldable pub lower_gain : ℕ → ℕ
lower_gain gain = if leb gain (minimal_gain_value + 10) then minimal_gain_value else gain - 10

-- Lines 88-103: one direction of the zone.
unfoldable pub weaken : AutoGainControl → AutoGainControl
weaken x =
    if x.flag_cgange
    then x
    else let counter = wrap8 (x.counter_repetition + 1) in
      record {
        counter_repetition = counter;
        flag_cgange = true;
        curent_gain =
            if ltb row.number_of_permissible_revolutions counter
            then lower_gain x.curent_gain
            else x.curent_gain;
      }

-- `real_weakening_line_index`: the offset runs from -5 to 5, here from 0 to 10.
unfoldable pub zone_index : ℕ → ℕ → ℕ
zone_index line_index offset =
    (line_index + nominal_number_of_lines_per_revolution - row.weakening_zone + offset)
    % nominal_number_of_lines_per_revolution

-- The loop of line 85 from an offset on, `n` rounds.
unfoldable pub weaken_from : ℕ → ℕ → ℕ → List AutoGainControl → Option (List AutoGainControl)
weaken_from line_index offset zero lines = some lines
weaken_from line_index offset (suc n) lines = do
  lines' ← update_at lines (zone_index line_index offset) weaken
  weaken_from line_index (suc offset) n lines'

abbrev pub weaken_zone : ℕ → Gain → Option Gain
weaken_zone line_index s = do
  lines ← weaken_from line_index 0 (2 * row.weakening_zone + 1) s.lines
  some (record s { lines = lines })

-- One direction as `cleaning_auto_gain_control_array` leaves it.
unfoldable pub clean : AutoGainControl → AutoGainControl
clean x =
    if x.flag_cgange
    then record x { flag_cgange = false }
    else record { counter_repetition = 0; flag_cgange = false; curent_gain = 127 }

unfoldable pub cleaning_auto_gain_control_array : ℕ → Gain → Option Gain
cleaning_auto_gain_control_array boundary_line_index s = do
  lines ← update_at s.lines boundary_line_index clean
  some (record s { lines = lines })

-- Lines 155-157.
unfoldable pub send_gain : ℕ → Gain → Option Gain
send_gain gain s = do
  printed ← send_to_pl (gain ∷ 0xC3 ∷ []) 2
  some (record s { old_gain_value = gain; console = s.console ++ printed })

unfoldable pub update_gain_value : ℕ → Gain → Option Gain
update_gain_value next_line_index s = do
  x ← get_elem? s.lines next_line_index
  if x.curent_gain == s.old_gain_value then some s else send_gain x.curent_gain s
