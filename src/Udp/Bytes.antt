-- ===== src/Udp/Bytes.antt =====
-- Merging writes bytes of the new packet only.
use zynq_lwip_frtos.Base.{
  ℕ, zero, suc, ◌+◌, ◌<◌, ◌≡◌, subst, inl, inr, some, some_inj, List, [], ◌∷◌, get_elem?, set,
  Bool-cases, >>=-eq-some,
}
use zynq_lwip_frtos.Udp.Merge.{store, copy_pair, is_greater, merge_pair, merge_words}
use zynq_lwip_frtos.Udp.MaxWords.{Bytes}

Bytes-tail : (x : ℕ) (xs : List ℕ) → Bytes (x ∷ xs) → Bytes xs
Bytes-tail x xs h i = h (suc i)

Bytes-set : (xs : List ℕ) (i v : ℕ) → v < 256 → Bytes xs → Bytes (set xs i v)
Bytes-set [] i v hv h j = h j
Bytes-set (x ∷ xs) zero v hv h zero = hv
Bytes-set (x ∷ xs) zero v hv h (suc j) = h (suc j)
Bytes-set (x ∷ xs) (suc i) v hv h zero = h zero
Bytes-set (x ∷ xs) (suc i) v hv h (suc j) = Bytes-set xs i v hv (Bytes-tail x xs h) j

get_elem?-lt_256 : (xs : List ℕ) (i : ℕ) {a : ℕ} → Bytes xs → get_elem? xs i ≡ some a → a < 256
get_elem?-lt_256 [] i h e = cc
get_elem?-lt_256 (x ∷ xs) zero h e = subst (λ b. b < 256) (some_inj e) (h zero)
get_elem?-lt_256 (x ∷ xs) (suc i) h e = get_elem?-lt_256 xs i (Bytes-tail x xs h) e

store-Bytes :
    (xs : List ℕ) (i v : ℕ) {ys : List ℕ} → v < 256 → Bytes xs → store xs i v ≡ some ys → Bytes ys
unfolding store
store-Bytes xs i v hv h e =
    let (old, e', e'') = >>=-eq-some (get_elem? xs i) _ e in
    subst Bytes (some_inj e'') (Bytes-set xs i v hv h)

copy_pair-Bytes :
    (q ref : List ℕ) (i : ℕ) {ys : List ℕ}
    → Bytes q
    → Bytes ref
    → copy_pair q ref i ≡ some ys
    → Bytes ys
unfolding copy_pair
copy_pair-Bytes q ref i hq hr e =
    let (high, e0, e1) = >>=-eq-some (get_elem? q i) _ e in
    let (ref', e2, e3) = >>=-eq-some (store ref i high) _ e1 in
    let (low, e4, e5) = >>=-eq-some (get_elem? q (i + 1)) _ e3 in
    store-Bytes ref' (i + 1) low (get_elem?-lt_256 q (i + 1) hq e4)
      (store-Bytes ref i high (get_elem?-lt_256 q i hq e0) hr e2) e5

merge_pair-Bytes :
    (q ref : List ℕ) (i : ℕ) {ys : List ℕ}
    → Bytes q
    → Bytes ref
    → merge_pair q ref i ≡ some ys
    → Bytes ys
unfolding merge_pair
merge_pair-Bytes q ref i hq hr e =
    let (greater, e0, e1) = >>=-eq-some (is_greater q ref i) _ e in
    elim (Bool-cases greater) [
      | inl h ↦ copy_pair-Bytes q ref i hq hr (rw h at e1)
      | inr h ↦ subst Bytes (some_inj (rw h at e1)) hr
    ]

pub merge_words-Bytes :
    (q ref : List ℕ) (i n : ℕ) {ys : List ℕ}
    → Bytes q
    → Bytes ref
    → merge_words q ref i n ≡ some ys
    → Bytes ys
unfolding merge_words
merge_words-Bytes q ref i zero hq hr e = subst Bytes (some_inj e) hr
merge_words-Bytes q ref i (suc n) hq hr e =
    let (ref', e0, e1) = >>=-eq-some (merge_pair q ref i) _ e in
    merge_words-Bytes q ref' (suc (suc i)) n hq (merge_pair-Bytes q ref i hq hr e0) e1
