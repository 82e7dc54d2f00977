-- ===== src/Gain/Cycle.antt =====
-- One direction over the revolutions of the antenna.
use zynq_lwip_frtos.Base.{
  ℕ, zero, suc, ◌%◌, ◌+◌, ◌-◌, ◌*◌, ◌≤◌, ◌<◌, ◌≡◌, refl, max, false, arith, ltb, if◌then◌else◌,
}
use zynq_lwip_frtos.Gain.State.{AutoGainControl, fresh}
use zynq_lwip_frtos.Gain.Zone.{lower_gain, weaken, clean}

-- The gain is an admissible one, and the counter is a byte.
pub record InRange (x : AutoGainControl) : Type 0 where
  pub lowest : 100 ≤ x.curent_gain
  pub highest : x.curent_gain ≤ 127
  pub counter : x.counter_repetition < 256

pub weaken-InRange : (x : AutoGainControl) → InRange x → InRange (weaken x)
unfolding weaken lower_gain
weaken-InRange x v = ground arith

pub clean-InRange : (x : AutoGainControl) → InRange x → InRange (clean x)
unfolding clean
clean-InRange x v = ground arith

-- A direction that is weakened twice before it is cleaned is weakened once.
pub weaken_idem : (x : AutoGainControl) → weaken (weaken x) ≡ weaken x
unfolding weaken
weaken_idem x = ground arith

-- A revolution in which the direction is saturated: its flag is set, and cleared behind the zone.
abbrev pub saturated_turn : AutoGainControl → AutoGainControl
saturated_turn x = clean (weaken x)

abbrev pub turns : ℕ → AutoGainControl → AutoGainControl
turns zero x = x
turns (suc n) x = saturated_turn (turns n x)

-- The gain after n saturated revolutions.
abbrev pub gain_after : ℕ → ℕ
gain_after n = max 100 (127 - 10 * (n - 3))

-- A counter that has wrapped round lowers nothing any more, and nothing is left to lower.
next_gain :
    (n : ℕ)
    → (if ltb 3 (suc n % 256) then lower_gain (gain_after n) else gain_after n) ≡ gain_after (suc n)
unfolding lower_gain
next_gain n = ground arith

saturated_turn-step :
    (n gain : ℕ)
    → saturated_turn
        (record { counter_repetition = n % 256; flag_cgange = false; curent_gain = gain })
      ≡ record {
        counter_repetition = suc n % 256;
        flag_cgange = false;
        curent_gain = if ltb 3 (suc n % 256) then lower_gain gain else gain;
      }
unfolding weaken clean
saturated_turn-step n gain =
    let counted : (n % 256 + 1) % 256 ≡ suc n % 256 = omega arith in rw counted

-- After n saturated revolutions in a row the counter, a byte, holds n modulo 256, and the gain is 127 less 10
-- for each revolution beyond the third, never below 100.
pub turns-gain :
    (n : ℕ)
    → turns n fresh ≡ record {
      counter_repetition = n % 256;
      flag_cgange = false;
      curent_gain = max 100 (127 - 10 * (n - 3));
    }
turns-gain zero = refl
turns-gain (suc n) = rw (turns-gain n, saturated_turn-step n (gain_after n), next_gain n)

-- One revolution without saturation restores full gain and forgets the count.
pub clean_restores : (x : AutoGainControl) → x.flag_cgange ≡ false → clean x ≡ fresh
unfolding clean
clean_restores x h = ground arith
