-- ===== src/Compose/Larger.antt =====
-- The loops of src/iwip.c, lines 78-84 and 99-105, which keep the larger of two values.
use zynq_lwip_frtos.Base.{
  ℕ, zero, suc, ◌≤◌, ◌<◌, ◌≡◌, refl, ap, max, Option, none, some, List, [], ◌∷◌, arith, length,
  get_or, ltb, if◌then◌else◌, ◌>>=◌,
}

-- `n` rounds of `if (src[i] > dir[i]) dir[i] = src[i]` from the start of both arrays.
abbrev pub keep_in : ℕ → List ℕ → List ℕ → Option (List ℕ)
keep_in zero src dir = some dir
keep_in (suc n) (x ∷ src) (y ∷ dir) = do
  rest ← keep_in n src dir
  some ((if ltb y x then x else y) ∷ rest)
keep_in (suc n) [] dir = none
keep_in (suc n) (x ∷ src) [] = none

-- The same where the first pointer may be NULL: it is used only if there is a round.
abbrev pub keep_larger : ℕ → Option (List ℕ) → List ℕ → Option (List ℕ)
keep_larger zero src dir = some dir
keep_larger (suc n) none dir = none
keep_larger (suc n) (some src) dir = keep_in (suc n) src dir

-- The first `n` entries of `ys` are the larger ones of `src` and `dir`, the others those of `dir`.
pub record KeepsLarger (n : ℕ) (src dir ys : List ℕ) : Type 0 where
  pub length_same : length ys ≡ length dir
  pub larger : (i : ℕ) → i < n → get_or ys i 0 ≡ max (get_or dir i 0) (get_or src i 0)
  pub behind : (i : ℕ) → n ≤ i → get_or ys i 0 ≡ get_or dir i 0

module _ (x y : ℕ) (src dir ys : List ℕ) (n : ℕ) (r : KeepsLarger n src dir ys) where
  abbrev kept : List ℕ
  kept = (if ltb y x then x else y) ∷ ys

  larger-suc :
      (i : ℕ) → i < suc n → get_or kept i 0 ≡ max (get_or (y ∷ dir) i 0) (get_or (x ∷ src) i 0)
  larger-suc zero h = ground arith
  larger-suc (suc i) h = r.larger i (omega arith)

  behind-suc : (i : ℕ) → suc n ≤ i → get_or kept i 0 ≡ get_or (y ∷ dir) i 0
  behind-suc zero h = elim h [ ]
  behind-suc (suc i) h = r.behind i (omega arith)

  KeepsLarger-suc : KeepsLarger (suc n) (x ∷ src) (y ∷ dir) kept
  KeepsLarger-suc = record {
    length_same = ap suc r.length_same;
    larger = larger-suc;
    behind = behind-suc;
  }

-- Where both arrays have `n` entries the loop ends, with the larger entries.
pub keep_in-KeepsLarger :
    (n : ℕ) (src dir : List ℕ)
    → n ≤ length src
    → n ≤ length dir
    → (ys : List ℕ) × (keep_in n src dir ≡ some ys) × KeepsLarger n src dir ys
keep_in-KeepsLarger zero src dir h k =
    (dir, refl, record { length_same = refl; larger = λ i l. elim l [ ]; behind = λ i l. refl })
keep_in-KeepsLarger (suc n) [] dir h k = elim h [ ]
keep_in-KeepsLarger (suc n) (x ∷ src) [] h k = elim k [ ]
keep_in-KeepsLarger (suc n) (x ∷ src) (y ∷ dir) h k =
    let (ys, e, r) = keep_in-KeepsLarger n src dir (omega arith) (omega arith) in
    (kept x y src dir ys n r, rw e refl, KeepsLarger-suc x y src dir ys n r)

pub keep_larger-keep_in :
    (n : ℕ) (src dir : List ℕ) → keep_larger n (some src) dir ≡ keep_in n src dir
keep_larger-keep_in zero src dir = refl
keep_larger-keep_in (suc n) src dir = refl
