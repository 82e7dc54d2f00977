-- ===== src/Gain/Invariant.antt =====
-- Well-formedness of the state of the gain control, and the handlers that return.
use zynq_lwip_frtos.Base.{
  ◌≤◌, ◌≡◌, refl, Bool, true, false, Option, some, length, if◌then◌else◌, ◌>>=◌,
}
use zynq_lwip_frtos.Gain.State.{Gain}
use zynq_lwip_frtos.Gain.Cycle.{InRange}
use zynq_lwip_frtos.Gain.Arrays.{All}

-- The arrays have their sizes, the index of the revolution is one of the three, and every gain, also
-- the one that was last sent, is between 100 and 127.
pub record IsValid (s : Gain) : Type 0 where
  pub lines : length s.lines ≡ 1200
  pub ruler : length s.average_values_of_the_ruler ≡ 1200
  pub revolutions : length s.average_value_per_revolution ≡ 3
  pub counter : s.counter_to_3 ≤ 2
  pub ranges : All InRange s.lines
  pub sent_lowest : 100 ≤ s.old_gain_value
  pub sent_highest : s.old_gain_value ≤ 127

-- The step returns, with a property of what it returns.
pub data Gives {A : Type 0} (P : A → Type 0) : Option A → Type 0 where
  gives : {a : A} → P a → Gives P (some a)

pub bind-Gives :
    {A B : Type 0} {P : A → Type 0} {Q : B → Type 0} {m : Option A} (f : A → Option B)
    → Gives P m
    → ((a : A) → P a → Gives Q (f a))
    → Gives Q (m >>= f)
bind-Gives f (gives p) k = k _ p

pub if-Gives :
    {A : Type 0} {P : A → Type 0} (b : Bool) (x y : Option A)
    → (b ≡ true → Gives P x)
    → (b ≡ false → Gives P y)
    → Gives P (if b then x else y)
if-Gives true x y hx hy = hx refl
if-Gives false x y hx hy = hy refl
