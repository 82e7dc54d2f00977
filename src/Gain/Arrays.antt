-- ===== src/Gain/Arrays.antt =====
-- Arrays under `update_at`.
use zynq_lwip_frtos.Base.{
  ℕ, zero, suc, ◌≤◌, ◌<◌, ◌≡◌, refl, none, some, List, [], ◌∷◌, arith, some_inj, subst, sym, ap,
  length, get_elem?, set, get_elem?-lt, ◌==◌, if◌then◌else◌,
}
use mathlib.Core.Option
use zynq_lwip_frtos.Gain.State.{update_at}

module _ {ℓ} {A : Type ℓ} where
  abbrev pub All {κ} : (A → Type κ) → List A → Type κ
  All P [] = Unit
  All P (x ∷ xs) = P x × All P xs

  pub All-get {κ} :
      (P : A → Type κ) (xs : List A) (i : ℕ) (x : A) → All P xs → get_elem? xs i ≡ some x → P x
  All-get P [] i x h e = absurd (cc)
  All-get P (y ∷ ys) zero x h e = subst P (some_inj e) h.0
  All-get P (y ∷ ys) (suc i) x h e = All-get P ys i x h.1 e

  pub All-set {κ} :
      (P : A → Type κ) (xs : List A) (i : ℕ) (v : A) → All P xs → P v → All P (set xs i v)
  All-set P [] i v h p = h
  All-set P (y ∷ ys) zero v h p = (p, h.1)
  All-set P (y ∷ ys) (suc i) v h p = (h.0, All-set P ys i v h.1 p)

  pub get_elem?-out : (xs : List A) (i : ℕ) → length xs ≤ i → get_elem? xs i ≡ none
  get_elem?-out [] i h = refl
  get_elem?-out (x ∷ xs) zero h = absurd (omega arith)
  get_elem?-out (x ∷ xs) (suc i) h = get_elem?-out xs i (omega arith)

  pub update_at-lt :
      (xs : List A) (i : ℕ) (f : A → A)
      → i < length xs
      → (x : A) × (get_elem? xs i ≡ some x) × (update_at xs i f ≡ some (set xs i (f x)))
  unfolding update_at
  update_at-lt xs i f h = let (x, e) = get_elem?-lt xs i h in (x, e, rw e)

  pub update_at_out : (xs : List A) (i : ℕ) (f : A → A) → length xs ≤ i → update_at xs i f ≡ none
  unfolding update_at
  update_at_out [] i f h = refl
  update_at_out (x ∷ xs) zero f h = absurd (omega arith)
  update_at_out (x ∷ xs) (suc i) f h = rw (get_elem?-out xs i (omega arith))

  -- What stands where after a write.
  pub get_elem?-set :
      (xs : List A) (i j : ℕ) (f : A → A) (x : A)
      → get_elem? xs i ≡ some x
      → get_elem? (set xs i (f x)) j
        ≡ (if i == j then Option.map f (get_elem? xs j) else get_elem? xs j)
  get_elem?-set [] i j f x e = cc
  get_elem?-set (y ∷ ys) zero zero f x e = ap (λ z. some (f z)) (sym (some_inj e))
  get_elem?-set (y ∷ ys) zero (suc j) f x e = ground arith
  get_elem?-set (y ∷ ys) (suc i) zero f x e = ground arith
  get_elem?-set (y ∷ ys) (suc i) (suc j) f x e = ground (arith, get_elem?-set ys i j f x e)
