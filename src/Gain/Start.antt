-- ===== src/Gain/Start.antt =====
-- The array that the task of the gain control starts with (src/main.c, line 50).
use zynq_lwip_frtos.Base.{
  ℕ, zero, suc, ◌≡◌, refl, ap, true, some, List, arith, length, length-replicate,
}
use zynq_lwip_frtos.Gain.State.{
  AutoGainControl, Gain, fresh, fill, create_auto_gain_control_array, initial,
}
use zynq_lwip_frtos.Gain.Cycle.{InRange}
use zynq_lwip_frtos.Gain.Arrays.{All}
use zynq_lwip_frtos.Gain.Invariant.{IsValid}

length-fill : (n : ℕ) → length (fill n) ≡ n
unfolding fill
length-fill zero = refl
length-fill (suc n) = ap suc (length-fill n)

fresh-InRange : InRange fresh
fresh-InRange = record { lowest = omega arith; highest = omega arith; counter = omega arith }

fill-InRange : (n : ℕ) → All InRange (fill n)
unfolding fill
fill-InRange zero = tt
fill-InRange (suc n) = (fresh-InRange, fill-InRange n)

-- The state at the start.
abbrev pub start : Gain
start = initial (fill 1200)

pub start-IsValid : IsValid start
start-IsValid = record {
  lines = length-fill 1200;
  ruler = length-replicate {A = ℕ} 1200 0;
  revolutions = refl;
  counter = omega arith;
  ranges = fill-InRange 1200;
  sent_lowest = omega arith;
  sent_highest = omega arith;
}

-- The array of the task, if it is allocated, makes the state at the start well formed.
pub create_auto_gain_control_array-IsValid :
    (lines : List AutoGainControl) × (create_auto_gain_control_array true 1200 ≡ some (some lines))
    × IsValid (initial lines)
unfolding create_auto_gain_control_array
create_auto_gain_control_array-IsValid = (fill 1200, refl, start-IsValid)
