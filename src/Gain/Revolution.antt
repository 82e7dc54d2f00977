-- ===== src/Gain/Revolution.antt =====
-- src/auto_gain_control.c, lines 114-132: the averages of a revolution, taken at direction 98.
use zynq_lwip_frtos.Base.{
  ℕ, zero, suc, ◌+◌, ◌/◌, Option, some, List, [], ◌∷◌, get_elem?, ◌==◌, if◌then◌else◌, wrap32,
  wrap8, ◌>>=◌,
}
use zynq_lwip_frtos.Gain.State.{Gain, update_at}

-- The loop of line 116 from a direction on, `n` rounds.
unfoldable pub sum_lines : List ℕ → ℕ → ℕ → ℕ → Option ℕ
sum_lines ruler i zero sum = some sum
sum_lines ruler i (suc n) sum = do
  v ← get_elem? ruler i
  sum_lines ruler (suc i) n (wrap32 (sum + v))

-- Lines 126-131: the average over three revolutions; the two later ones move down.
unfoldable pub average_three : Gain → Option Gain
average_three s = do
  a0 ← get_elem? s.average_value_per_revolution 0
  a1 ← get_elem? s.average_value_per_revolution 1
  a2 ← get_elem? s.average_value_per_revolution 2
  some (record s {
    average_value_over_three_revolutions = wrap32 (a0 + a1 + a2) / 3;
    average_value_per_revolution = a1 ∷ a2 ∷ a2 ∷ [];
  })

unfoldable pub average_revolution : Gain → Option Gain
average_revolution s = do
  start ← get_elem? s.average_value_per_revolution s.counter_to_3
  sum ← sum_lines s.average_values_of_the_ruler 0 99 start
  averages ← update_at s.average_value_per_revolution s.counter_to_3 (λ _. sum / 98)
  let s' = record s { average_value_per_revolution = averages }
  let counted = record s' { counter_to_3 = wrap8 (s'.counter_to_3 + 1) }
  if s.counter_to_3 == 2 then average_three s' else some counted
