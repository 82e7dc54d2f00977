-- ===== src/Udp/Pairs.antt =====
-- Merging never mixes the two bytes of a word: each word of the result is one of the two packets'.
use zynq_lwip_frtos.Base.{
  ℕ, zero, suc, ◌+◌, ◌*◌, ◌≤◌, ◌<◌, ◌≡◌, ◌≢◌, ◌⊎◌, refl, ◌∙◌, inl, inr, Bool, some, List, [], ◌∷◌,
  arith, length, length-set, get_or-set_self, get_or-set_ne, set, Bool-cases,
}
use native.Mathlib.Nat.{add-zero}
use zynq_lwip_frtos.Udp.Merge.{
  Packet, is_greater, merge_pair, merge_words, merge_chain, merge, limit, rest_len, rounds,
}
use zynq_lwip_frtos.Udp.MaxWords.{byte, copied, copy_pair-copied}
use zynq_lwip_frtos.Udp.Total.{is_greater-some, sizes, Covers, merge_chain-some}

-- The two bytes at an index are those of `ref`, or those of `q`.
abbrev pub Either : (q ref ys : List ℕ) → ℕ → Type 0
Either q ref ys i =
    ((byte ys i ≡ byte ref i) × (byte ys (suc i) ≡ byte ref (suc i)))
    ⊎ ((byte ys i ≡ byte q i) × (byte ys (suc i) ≡ byte q (suc i)))

record OnePair (q ref ys : List ℕ) (i : ℕ) : Type 0 where
  length_same : length ys ≡ length ref
  either : Either q ref ys i
  elsewhere : (j : ℕ) → j ≢ i → j ≢ suc i → byte ys j ≡ byte ref j

merge_pair-OnePair :
    (q ref : List ℕ) (i : ℕ)
    → suc i < length q
    → suc i < length ref
    → (ys : List ℕ) × (merge_pair q ref i ≡ some ys) × OnePair q ref ys i
unfolding merge_pair
merge_pair-OnePair q ref i hq hr =
    let (greater, e) : (b : Bool) × (is_greater q ref i ≡ some b) = is_greater-some q ref i hq hr in
    elim (Bool-cases greater) [
      | inl larger ↦ (
        copied q ref i hq hr,
        rw e (rw larger (copy_pair-copied q ref i hq hr)),
        record {
          length_same = length-set (set ref i (byte q i)) (suc i) _ ∙ length-set ref i _;
          either = inr (
            ground (
              arith,
              get_or-set_ne (set ref i (byte q i)) (suc i) i (byte q (suc i)) 0,
              get_or-set_self ref i (byte q i) 0,
            ),
            ground (
              arith,
              get_or-set_self (set ref i (byte q i)) (suc i) (byte q (suc i)) 0,
              length-set ref i (byte q i),
            ),
          );
          elsewhere = λ j n n'.
              get_or-set_ne (set ref i (byte q i)) (suc i) j _ 0 (ground arith)
              ∙ get_or-set_ne ref i j _ 0 (ground arith);
        },
      )
      | inr other ↦ (
        ref,
        rw e (rw other),
        record { length_same = refl; either = inl (refl, refl); elsewhere = λ j n n'. refl },
      )
    ]

-- The words from `i` on.
pub record Pairs (q ref ys : List ℕ) (i : ℕ) : Type 0 where
  pub length_same : length ys ≡ length ref
  pub either : (k : ℕ) → Either q ref ys (i + k * 2)
  pub before : (j : ℕ) → j < i → byte ys j ≡ byte ref j

module _ (q ref ref' ys : List ℕ) (i : ℕ) (one : OnePair q ref ref' i)
    (more : Pairs q ref' ys (suc (suc i))) where
  Either-suc : (k : ℕ) → Either q ref ys (i + k * 2)
  Either-suc zero = rw (add-zero i) (
      let b0 : byte ys i ≡ byte ref' i = more.before i (omega arith) in
      let b1 : byte ys (suc i) ≡ byte ref' (suc i) = more.before (suc i) (omega arith) in
      rw (b0, b1) one.either)
  Either-suc (suc k) =
      let e : i + suc k * 2 ≡ suc (suc i) + k * 2 = omega arith in
      let r0 : byte ref' (suc (suc i) + k * 2) ≡ byte ref (suc (suc i) + k * 2) =
        one.elsewhere _ (omega arith) (omega arith) in
      let r1 : byte ref' (suc (suc (suc i) + k * 2)) ≡ byte ref (suc (suc (suc i) + k * 2)) =
        one.elsewhere _ (omega arith) (omega arith) in
      rw e (rw (r0, r1) at (more.either k))

  Pairs-suc : Pairs q ref ys i
  Pairs-suc = record {
    length_same = more.length_same ∙ one.length_same;
    either = Either-suc;
    before = λ j h. more.before j (omega arith) ∙ one.elsewhere j (omega arith) (omega arith);
  }

merge_words-Pairs :
    (q ref : List ℕ) (i n : ℕ)
    → i + n * 2 ≤ length q
    → i + n * 2 ≤ length ref
    → (ys : List ℕ) × (merge_words q ref i n ≡ some ys) × Pairs q ref ys i
unfolding merge_words
merge_words-Pairs q ref i zero hq hr =
    (ref, refl, record { length_same = refl; either = λ k. inl (refl, refl); before = λ j h. refl })
merge_words-Pairs q ref i (suc n) hq hr =
    let (ref', e, one) = merge_pair-OnePair q ref i (omega arith) (omega arith) in
    let (ys, e', more) =
      merge_words-Pairs q ref' (suc (suc i)) n (omega arith) (omega (arith, one.length_same)) in
    (ys, rw e e', Pairs-suc q ref ref' ys i one more)

-- The first buffer of a chain.
abbrev pub first : List (List ℕ) → List ℕ
first [] = []
first (payload ∷ rest) = payload

merge_chain-Pairs :
    (qs refs : List (List ℕ)) (total_len : ℕ)
    → sizes qs ≡ sizes refs
    → Covers (sizes qs) 32 total_len
    → (ys : List (List ℕ)) × (merge_chain qs refs 32 total_len ≡ some ys)
      × (sizes ys ≡ sizes refs)
      × ((k : ℕ) → Either (first qs) (first refs) (first ys) (32 + k * 2))
unfolding merge_chain sizes Covers
merge_chain-Pairs [] refs t h c = (refs, refl, refl, λ k. inl (refl, refl))
merge_chain-Pairs (q ∷ qs) [] t h c = cc
merge_chain-Pairs (q ∷ qs) (ref ∷ refs) t h (c, cs) =
    let same : length q ≡ length ref = cc in
    let rest : sizes qs ≡ sizes refs = cc in
    let (ref', e, pairs) =
      merge_words-Pairs q ref 32 (rounds (limit t)) c (omega (arith, same, c)) in
    let (ys, e', l') = merge_chain-some qs refs 0 (rest_len t) rest cs in
    let l = pairs.length_same in (ref' ∷ ys, rw e (rw e'), cc, pairs.either)

-- Packets of one shape can be merged, and every word of the first buffer of the result, behind the
-- header of 32 bytes, is one of theirs.
pub merge-Pairs :
    (p old : Packet)
    → sizes p.chain ≡ sizes old.chain
    → Covers (sizes p.chain) 32 p.tot_len
    → (merged : Packet) × (merge p old ≡ some merged)
      × (sizes merged.chain ≡ sizes old.chain)
      × (merged.tot_len ≡ old.tot_len)
      × ((k : ℕ) → Either (first p.chain) (first old.chain) (first merged.chain) (32 + k * 2))
unfolding merge
merge-Pairs p old h c =
    let (ys, e, shape, either) = merge_chain-Pairs p.chain old.chain p.tot_len h c in
    (record old { chain = ys }, rw e, shape, refl, either)
