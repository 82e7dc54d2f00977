-- ===== src/Base/Calls.antt =====
-- Code that is a sequence of calls of the libraries: the calls are recorded in their order, and it
-- returns, stops for good (a failed configASSERT, a deleted task) or leaves the behaviour of C.
use mathlib.Core.Bool.{Bool, true, false}
use mathlib.Core.Option.{Option, none, some}
use mathlib.Core.List.{List, [], ◌∷◌, ◌++◌}

pub data Run {ℓ κ} (C : Type ℓ) (A : Type κ) : Type (ℓ ⊔ κ) where
  done : List C → A → Run C A
  stopped : List C → Run C A
  fault : List C → Run C A

-- The calls so far go before those that follow.
abbrev pub prepend {ℓ κ} : {C : Type ℓ} {A : Type κ} → List C → Run C A → Run C A
prepend cs (done ds a) = done (cs ++ ds) a
prepend cs (stopped ds) = stopped (cs ++ ds)
prepend cs (fault ds) = fault (cs ++ ds)

infixl 5 ◌>>=◌ ◌>>◌
abbrev pub ◌>>=◌ {ℓ κ μ} :
    {C : Type ℓ} {A : Type κ} {B : Type μ} → Run C A → (A → Run C B) → Run C B
done cs a >>= f = prepend cs (f a)
stopped cs >>= f = stopped cs
fault cs >>= f = fault cs

abbrev pub ◌>>◌ {ℓ μ} : {C : Type ℓ} {B : Type μ} → Run C (Unit {0}) → Run C B → Run C B
m >> k = m >>= λ _. k

abbrev pub pure {ℓ κ} : {C : Type ℓ} {A : Type κ} → A → Run C A
pure a = done [] a

abbrev pub call {ℓ} : {C : Type ℓ} → C → Run C (Unit {0})
call c = done (c ∷ []) tt

-- configASSERT.
abbrev pub assert {ℓ} : {C : Type ℓ} → Bool → Run C (Unit {0})
assert true = done [] tt
assert false = stopped []

-- A pointer that is used without a test.
abbrev pub deref {ℓ κ} : {C : Type ℓ} {A : Type κ} → Option A → Run C A
deref none = fault []
deref (some a) = done [] a

-- A pointer under configASSERT.
abbrev pub assert_some {ℓ κ} : {C : Type ℓ} {A : Type κ} → Option A → Run C A
assert_some none = stopped []
assert_some (some a) = done [] a

-- The calls that were made.
abbrev pub calls {ℓ κ} : {C : Type ℓ} {A : Type κ} → Run C A → List C
calls (done cs a) = cs
calls (stopped cs) = cs
calls (fault cs) = cs

-- The same calls under another name.
abbrev pub map_calls {ℓ κ} : {C : Type ℓ} {D : Type κ} → (C → D) → List C → List D
map_calls f [] = []
map_calls f (c ∷ cs) = f c ∷ map_calls f cs

abbrev pub lift {ℓ κ μ} : {C : Type ℓ} {D : Type κ} {A : Type μ} → (C → D) → Run C A → Run D A
lift f (done cs a) = done (map_calls f cs) a
lift f (stopped cs) = stopped (map_calls f cs)
lift f (fault cs) = fault (map_calls f cs)

-- How it ends.
pub data Ending : Type 0 where
  returns stops crashes : Ending

abbrev pub ending {ℓ κ} : {C : Type ℓ} {A : Type κ} → Run C A → Ending
ending (done cs a) = returns
ending (stopped cs) = stops
ending (fault cs) = crashes
