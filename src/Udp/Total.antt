-- ===== src/Udp/Total.antt =====
-- Merging leaves no buffer where each holds the bytes that the loop of line 102 visits.
use zynq_lwip_frtos.Base.{
  ℕ, zero, suc, ◌+◌, ◌*◌, ◌≤◌, ◌<◌, ◌≡◌, refl, ◌∙◌, inl, inr, Bool, true, false, some, List, [],
  ◌∷◌, arith, length, length-set, get_elem?-get_or, set, ltb, Bool-cases, ◌==◌, if◌then◌else◌,
}
use native.Mathlib.Numerals.{add-one}
use zynq_lwip_frtos.Udp.Merge.{
  Packet, is_greater, merge_pair, merge_words, limit, rest_len, rounds, merge_chain, merge,
}
use zynq_lwip_frtos.Udp.MaxWords.{byte, copied, copy_pair-copied}

module _ (q ref : List ℕ) (i : ℕ) (hq : suc i < length q) (hr : suc i < length ref) where
  pub is_greater-some : (b : Bool) × (is_greater q ref i ≡ some b)
  unfolding is_greater
  is_greater-some =
      let q0 = get_elem?-get_or q i 0 (omega arith) in
      let q1 = get_elem?-get_or q (suc i) 0 hq in
      let r0 = get_elem?-get_or ref i 0 (omega arith) in
      let r1 = get_elem?-get_or ref (suc i) 0 hr in
      (
        if ltb (byte ref i) (byte q i)
            then true
            else if byte q i == byte ref i
            then ltb (byte ref (suc i)) (byte q (suc i))
            else false,
        ground (arith, q0, q1, r0, r1, add-one i),
      )

  merge_pair-some : (ys : List ℕ) × (merge_pair q ref i ≡ some ys) × (length ys ≡ length ref)
  unfolding merge_pair
  merge_pair-some =
      let (greater, e) : (b : Bool) × (is_greater q ref i ≡ some b) = is_greater-some in
      elim (Bool-cases greater) [
        | inl larger ↦ (
          copied q ref i hq hr,
          rw e (rw larger (copy_pair-copied q ref i hq hr)),
          length-set (set ref i (byte q i)) (suc i) _ ∙ length-set ref i _,
        )
        | inr other ↦ (ref, rw e (rw other), refl)
      ]

merge_words-some :
    (q ref : List ℕ) (i n : ℕ)
    → i + n * 2 ≤ length q
    → i + n * 2 ≤ length ref
    → (ys : List ℕ) × (merge_words q ref i n ≡ some ys) × (length ys ≡ length ref)
unfolding merge_words
merge_words-some q ref i zero hq hr = (ref, refl, refl)
merge_words-some q ref i (suc n) hq hr =
    let (ref', e, l) = merge_pair-some q ref i (omega arith) (omega arith) in
    let (ys, e', l') = merge_words-some q ref' (suc (suc i)) n (omega arith) (omega (arith, l)) in
    (ys, rw e e', l' ∙ l)

-- The lengths of the buffers of a chain.
unfoldable pub sizes : List (List ℕ) → List ℕ
sizes [] = []
sizes (q ∷ qs) = length q ∷ sizes qs

-- Each buffer of a chain of these lengths holds the bytes that the loop visits in it.
unfoldable pub Covers : List ℕ → ℕ → ℕ → Type 0
Covers [] kursor total_len = Unit
Covers (l ∷ ls) kursor total_len =
    (kursor + rounds (limit total_len) * 2 ≤ l) × Covers ls 0 (rest_len total_len)

pub merge_chain-some :
    (qs refs : List (List ℕ)) (kursor total_len : ℕ)
    → sizes qs ≡ sizes refs
    → Covers (sizes qs) kursor total_len
    → (ys : List (List ℕ)) × (merge_chain qs refs kursor total_len ≡ some ys)
      × (sizes ys ≡ sizes refs)
unfolding merge_chain sizes Covers
merge_chain-some [] refs k t h c = (refs, refl, refl)
merge_chain-some (q ∷ qs) [] k t h c = cc
merge_chain-some (q ∷ qs) (ref ∷ refs) k t h (c, cs) =
    let same : length q ≡ length ref = cc in
    let rest : sizes qs ≡ sizes refs = cc in
    let (ref', e, l) = merge_words-some q ref k (rounds (limit t)) c (omega arith) in
    let (ys, e', l') = merge_chain-some qs refs 0 (rest_len t) rest cs in
    (ref' ∷ ys, rw e (rw e'), cc)

-- Packets of these lengths can be merged.
pub merge-some :
    (p old : Packet)
    → sizes p.chain ≡ sizes old.chain
    → Covers (sizes p.chain) 32 p.tot_len
    → (merged : Packet) × (merge p old ≡ some merged) × (sizes merged.chain ≡ sizes old.chain)
unfolding merge
merge-some p old h c =
    let (ys, e, l) = merge_chain-some p.chain old.chain 32 p.tot_len h c in
    (record old { chain = ys }, rw e, l)
