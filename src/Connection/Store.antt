-- ===== src/Connection/Store.antt =====
-- Stores in which a freed entry stays: what is live, and what a pointer stands for.
use zynq_lwip_frtos.Base.{
  ℕ, zero, suc, ◌≡◌, refl, ap, Option, none, some, List, [], ◌∷◌, ◌++◌, length, set,
}
use zynq_lwip_frtos.Connection.{load}

module _ {ℓ} {A : Type ℓ} where
  -- The entries that are not freed.
  abbrev pub live : List (Option A) → ℕ
  live [] = 0
  live (none ∷ xs) = live xs
  live (some a ∷ xs) = suc (live xs)

  pub live-append : (xs : List (Option A)) (a : A) → live (xs ++ some a ∷ []) ≡ suc (live xs)
  live-append [] a = refl
  live-append (none ∷ xs) a = live-append xs a
  live-append (some b ∷ xs) a = ap suc (live-append xs a)

  pub load-append_last :
      (xs : List (Option A)) (a : A) → load (xs ++ some a ∷ []) (length xs) ≡ some a
  unfolding load
  load-append_last [] a = refl
  load-append_last (x ∷ xs) a = load-append_last xs a

  pub load-set-none : (xs : List (Option A)) (i : ℕ) → load (set xs i none) i ≡ none
  unfolding load
  load-set-none [] i = refl
  load-set-none (x ∷ xs) zero = refl
  load-set-none (x ∷ xs) (suc i) = load-set-none xs i

  pub load-set-some :
      (xs : List (Option A)) (i : ℕ) {a : A} (b : A)
      → load xs i ≡ some a
      → load (set xs i (some b)) i ≡ some b
  unfolding load
  load-set-some [] i b h = cc
  load-set-some (x ∷ xs) zero b h = refl
  load-set-some (x ∷ xs) (suc i) b h = load-set-some xs i b h

  pub live-set-none :
      (xs : List (Option A)) (i : ℕ) {a : A}
      → load xs i ≡ some a
      → suc (live (set xs i none)) ≡ live xs
  unfolding load
  live-set-none [] i h = absurd (cc)
  live-set-none (none ∷ xs) zero h = absurd (cc)
  live-set-none (some b ∷ xs) zero h = refl
  live-set-none (none ∷ xs) (suc i) h = live-set-none xs i h
  live-set-none (some b ∷ xs) (suc i) h = ap suc (live-set-none xs i h)

  pub live-set-some :
      (xs : List (Option A)) (i : ℕ) {a : A} (b : A)
      → load xs i ≡ some a
      → live (set xs i (some b)) ≡ live xs
  unfolding load
  live-set-some [] i b h = refl
  live-set-some (none ∷ xs) zero b h = absurd (cc)
  live-set-some (some c ∷ xs) zero b h = refl
  live-set-some (none ∷ xs) (suc i) b h = live-set-some xs i b h
  live-set-some (some c ∷ xs) (suc i) b h = ap suc (live-set-some xs i b h)
