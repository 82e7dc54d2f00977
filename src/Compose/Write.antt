-- ===== src/Compose/Write.antt =====
-- `memcpy`, as src/iwip.c, lines 62-64, uses it: an access outside an array is undefined.
use zynq_lwip_frtos.Base.{
  ℕ, zero, suc, ◌≤◌, ◌≡◌, refl, ap, Option, none, some, List, [], ◌∷◌, ◌++◌, arith, length, take,
  drop, ◌>>=◌,
}

-- The first `n` bytes of `from` over the first ones of `dst`.
abbrev pub overwrite : List ℕ → List ℕ → ℕ → Option (List ℕ)
overwrite dst from zero = some dst
overwrite (d ∷ dst) (b ∷ from) (suc n) = do dst' ← overwrite dst from n; some (b ∷ dst')
overwrite (d ∷ dst) [] (suc n) = none
overwrite [] from (suc n) = none

-- memcpy(dst + at, from, n).
abbrev pub memcpy : List ℕ → ℕ → List ℕ → ℕ → Option (List ℕ)
memcpy dst zero from n = overwrite dst from n
memcpy [] (suc at) from n = none
memcpy (d ∷ dst) (suc at) from n = do dst' ← memcpy dst at from n; some (d ∷ dst')

pub overwrite-some :
    (dst from : List ℕ) (n : ℕ)
    → n ≤ length dst
    → n ≤ length from
    → overwrite dst from n ≡ some (take n from ++ drop n dst)
overwrite-some dst from zero h k = refl
overwrite-some [] from (suc n) h k = elim h [ ]
overwrite-some (d ∷ dst) [] (suc n) h k = elim k [ ]
overwrite-some (d ∷ dst) (b ∷ from) (suc n) h k =
    ap (λ r. r >>= λ x. some (b ∷ x)) (overwrite-some dst from n (omega arith) (omega arith))

pub memcpy-append :
    (pre dst from : List ℕ) (n : ℕ)
    → n ≤ length dst
    → n ≤ length from
    → memcpy (pre ++ dst) (length pre) from n ≡ some (pre ++ (take n from ++ drop n dst))
memcpy-append [] dst from n h k = overwrite-some dst from n h k
memcpy-append (d ∷ pre) dst from n h k =
    ap (λ r. r >>= λ x. some (d ∷ x)) (memcpy-append pre dst from n h k)
