-- ===== src/Udp/Group.antt =====
-- A group of packets: the one that is kept holds, sample by sample, the largest value of all.
use zynq_lwip_frtos.Base.{
  ℕ, zero, suc, ◌+◌, ◌*◌, ◌<◌, ◌≡◌, refl, max, some, List, [], ◌∷◌, arith, length, get_or,
}
use zynq_lwip_frtos.Udp.Merge.{limit, rest_len, rounds, merge_chain}
use zynq_lwip_frtos.Udp.MaxWords.{word, Bytes, MergedWords, merge_words-MergedWords}
use zynq_lwip_frtos.Udp.Bytes.{merge_words-Bytes}
use zynq_lwip_frtos.Udp.Total.{sizes, Covers}

abbrev pub AllBytes : List (List ℕ) → Type 0
AllBytes [] = Unit
AllBytes (q ∷ qs) = Bytes q × AllBytes qs

-- The word at a byte of a buffer of a chain.
abbrev pub sample : List (List ℕ) → ℕ → ℕ → ℕ
sample chain b i = word (get_or chain b []) i

-- Where the loop starts in a buffer, and how many words it visits there.
abbrev pub start : ℕ → ℕ → ℕ
start kursor zero = kursor
start kursor (suc b) = 0

abbrev pub visited : ℕ → ℕ → ℕ
visited total_len zero = rounds (limit total_len)
visited total_len (suc b) = visited (rest_len total_len) b

-- The chain `ys` holds the larger words of the other two wherever the loops go.
pub record ChainMax (kursor total_len : ℕ) (qs refs ys : List (List ℕ)) : Type 0 where
  pub larger :
      (b k : ℕ)
      → b < length qs
      → k < visited total_len b
      → sample ys b (start kursor b + k * 2)
        ≡ max (sample qs b (start kursor b + k * 2)) (sample refs b (start kursor b + k * 2))
  pub shape : sizes ys ≡ sizes refs
  pub bytes : AllBytes ys

module _ (kursor total_len : ℕ) (q ref y : List ℕ) (qs refs ys : List (List ℕ))
    (one : MergedWords q ref y kursor (rounds (limit total_len)))
    (more : ChainMax 0 (rest_len total_len) qs refs ys) where
  larger-suc :
      (b k : ℕ)
      → b < suc (length qs)
      → k < visited total_len b
      → sample (y ∷ ys) b (start kursor b + k * 2)
        ≡ max
            (sample (q ∷ qs) b (start kursor b + k * 2))
            (sample (ref ∷ refs) b (start kursor b + k * 2))
  larger-suc zero k h h' = one.larger k h'
  larger-suc (suc zero) k h h' = more.larger zero k (omega arith) h'
  larger-suc (suc (suc b)) k h h' = more.larger (suc b) k (omega arith) h'

  ChainMax-suc : Bytes y → ChainMax kursor total_len (q ∷ qs) (ref ∷ refs) (y ∷ ys)
  unfolding sizes
  ChainMax-suc hb = record {
    larger = larger-suc;
    shape = rw (one.length_same, more.shape) refl;
    bytes = (hb, more.bytes);
  }

pub merge_chain-ChainMax :
    (qs refs : List (List ℕ)) (kursor total_len : ℕ)
    → sizes qs ≡ sizes refs
    → Covers (sizes qs) kursor total_len
    → AllBytes qs
    → AllBytes refs
    → (ys : List (List ℕ)) × (merge_chain qs refs kursor total_len ≡ some ys)
      × ChainMax kursor total_len qs refs ys
unfolding merge_chain sizes Covers
merge_chain-ChainMax [] refs k t h c bq br =
    (refs, refl, record { larger = λ b i h' h''. elim h' [ ]; shape = refl; bytes = br })
merge_chain-ChainMax (q ∷ qs) [] k t h c bq br = cc
merge_chain-ChainMax (q ∷ qs) (ref ∷ refs) k t h (c, cs) (bq, bqs) (br, brs) =
    let same : length q ≡ length ref = cc in
    let rest : sizes qs ≡ sizes refs = cc in
    let (y, e, one) =
      merge_words-MergedWords q ref k (rounds (limit t)) c (omega arith) bq (λ j h'. br j) in
    let (ys, e', more) = merge_chain-ChainMax qs refs 0 (rest_len t) rest cs bqs brs in
    (
      y ∷ ys,
      rw e (rw e' refl),
      ChainMax-suc k t q ref y qs refs ys one more (merge_words-Bytes q ref k _ bq br e),
    )
