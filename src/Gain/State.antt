-- ===== src/Gain/State.antt =====
-- src/auto_gain_control.h, src/auto_gain_control.c, lines 7-52: the records, the constants and the
-- variables of the file.
use zynq_lwip_frtos.Base.{
  ℕ, zero, suc, Bool, true, false, Option, none, some, List, [], ◌∷◌, replicate, set, get_elem?,
  ◌>>=◌,
}
use zynq_lwip_frtos.Pl.{Print}

abbrev pub angular_step : ℕ
angular_step = 0x36

abbrev pub nominal_number_of_lines_per_revolution : ℕ
nominal_number_of_lines_per_revolution = 1200

abbrev pub minimal_gain_value : ℕ
minimal_gain_value = 100

pub record AutoGainControl : Type 0 where
  pub counter_repetition : ℕ
  pub flag_cgange : Bool
  pub curent_gain : ℕ

pub record AutoGainControlConstants : Type 0 where
  pub max_permissible_value : ℕ
  pub weakening_zone : ℕ
  pub number_of_permissible_revolutions : ℕ

abbrev constants : ℕ → ℕ → AutoGainControlConstants
constants zone revolutions = record {
  max_permissible_value = 0xEC54;
  weakening_zone = zone;
  number_of_permissible_revolutions = revolutions;
}

-- The table of the file, by the range in use; the code reads its first row only.
abbrev pub autogain_control_constants : List AutoGainControlConstants
autogain_control_constants =
    constants 5 3
    ∷ constants 5 3
    ∷ constants 4 3
    ∷ constants 4 3
    ∷ constants 4 3
    ∷ constants 4 3
    ∷ constants 3 3
    ∷ constants 3 3
    ∷ constants 3 3
    ∷ constants 3 3
    ∷ constants 3 3
    ∷ constants 3 3
    ∷ constants 2 2
    ∷ constants 2 2
    ∷ constants 2 2
    ∷ constants 2 2
    ∷ constants 2 2
    ∷ constants 2 2
    ∷ constants 1 1
    ∷ constants 1 1
    ∷ []

-- `autogain_control_constants[0]`.
abbrev pub row : AutoGainControlConstants
row = elim autogain_control_constants [ [] ↦ constants 0 0 | c ∷ cs ↦ c ]

-- The array of directions and the static variables. `console` is what was sent to the
-- programmable logic, oldest first.
pub record Gain : Type 0 where
  pub lines : List AutoGainControl
  pub old_gain_value : ℕ
  pub flag_first_disckret : Bool
  pub average_values_of_the_ruler : List ℕ
  pub average_value_per_revolution : List ℕ
  pub average_value_over_three_revolutions : ℕ
  pub counter_to_3 : ℕ
  pub discrete_value : ℕ
  pub console : List Print

-- An element as `create_auto_gain_control_array` fills it in.
abbrev pub fresh : AutoGainControl
fresh = record { counter_repetition = 0; flag_cgange = false; curent_gain = 127 }

unfoldable pub fill : ℕ → List AutoGainControl
fill zero = []
fill (suc n) = fresh ∷ fill n

-- `allocated` says whether malloc succeeds. The array is filled before the pointer is tested, so a
-- failed allocation is written through (`none`) unless no element is asked for.
unfoldable pub create_auto_gain_control_array : Bool → ℕ → Option (Option (List AutoGainControl))
unfolding fill
create_auto_gain_control_array true n = some (some (fill n))
create_auto_gain_control_array false zero = some none
create_auto_gain_control_array false (suc n) = none

-- The variables of the file at the start, with the array of the task.
abbrev pub initial : List AutoGainControl → Gain
initial lines = record {
  lines = lines;
  old_gain_value = 127;
  flag_first_disckret = true;
  average_values_of_the_ruler = replicate 1200 0;
  average_value_per_revolution = 0 ∷ 0 ∷ 0 ∷ [];
  average_value_over_three_revolutions = 0;
  counter_to_3 = 0;
  discrete_value = 0;
  console = [];
}

-- `a[i] = f(a[i])`; outside the array it is undefined.
unfoldable pub update_at {ℓ} : {A : Type ℓ} → List A → ℕ → (A → A) → Option (List A)
update_at xs i f = do x ← get_elem? xs i; some (set xs i (f x))
