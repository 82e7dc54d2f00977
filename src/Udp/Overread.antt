-- ===== src/Udp/Overread.antt =====
-- src/main.c, line 102: the loop over the first buffer starts behind its header and runs as many bytes as
-- the packet is long.
use zynq_lwip_frtos.Base.{
  ℕ, zero, suc, ◌+◌, ◌-◌, ◌*◌, ◌≤◌, ◌<◌, ◌≡◌, ◌≢◌, refl, inl, inr, none, List, [], ◌∷◌, arith,
  length, get_elem?, Option-cases, ltb, ltb→le, Bool-cases, ◌/◌,
}
use zynq_lwip_frtos.Udp.Merge.{
  Packet, is_greater, merge_pair, merge_words, limit, rounds, merge_chain, merge,
}

get_elem?-none : (xs : List ℕ) (i : ℕ) → length xs ≤ i → get_elem? xs i ≡ none
get_elem?-none [] i h = refl
get_elem?-none (x ∷ xs) zero h = elim h [ ]
get_elem?-none (x ∷ xs) (suc i) h = get_elem?-none xs i (omega arith)

is_greater-none : (q ref : List ℕ) (i : ℕ) → length q ≤ i → is_greater q ref i ≡ none
unfolding is_greater
is_greater-none q ref i h = rw (get_elem?-none q i h) refl

-- The last round starts behind the buffer.
merge_words-none :
    (q ref : List ℕ) (i n : ℕ) → length q ≤ i + n * 2 → merge_words q ref i (suc n) ≡ none
unfolding merge_words merge_pair
merge_words-none q ref i zero h = rw (is_greater-none q ref i (omega arith)) refl
merge_words-none q ref i (suc n) h = elim (Option-cases (merge_pair q ref i)) [
  | inl e ↦ rw e refl
  | inr (ref', e) ↦ rw e (merge_words-none q ref' (suc (suc i)) n (omega arith))
]

-- The rounds over a buffer of at most 1480 bytes that is not longer than the packet.
rounds-beyond :
    (l total_len : ℕ)
    → l ≤ 1480
    → l ≤ total_len
    → 0 < total_len
    → total_len ≢ 1480
    → (n : ℕ) × (rounds (limit total_len) ≡ suc n) × (l ≤ 32 + n * 2)
unfolding rounds limit
rounds-beyond l t h k pos ne = elim (Bool-cases (ltb 1480 t)) [
  | inl e ↦ (739, rw e refl, omega arith)
  | inr e ↦
      let le : t ≤ 1480 = ltb→le _ _ e in
      ((t - 1) / 2, rw e (ground (arith, le, ne)), ground (arith, le, ne))
]

chain-none :
    (q : List ℕ) (rest refs : List (List ℕ)) (n total_len : ℕ)
    → rounds (limit total_len) ≡ suc n
    → length q ≤ 32 + n * 2
    → merge_chain (q ∷ rest) refs 32 total_len ≡ none
unfolding merge_chain
chain-none q rest [] n t r h = refl
chain-none q rest (ref ∷ refs) n t r h = rw (r, merge_words-none q ref 32 n h) refl

-- A first buffer of at most 1480 bytes, as many as an Ethernet frame brings, and no longer than the packet,
-- is read behind its end in the merge, unless the packet is empty or has exactly 1480 bytes: the loop
-- starts behind the 32 bytes of the header and runs for the length of the packet all the same. Taken
-- with the packet's own bytes alone, without the memory behind them, every packet of a frame with
-- anything to merge is such a one.
pub merge-none :
    (p old : Packet) (q : List ℕ) (rest : List (List ℕ))
    → p.chain ≡ q ∷ rest
    → length q ≤ 1480
    → length q ≤ p.tot_len
    → 0 < p.tot_len
    → p.tot_len ≢ 1480
    → merge p old ≡ none
unfolding merge
merge-none p old q rest e h k pos ne =
    let (n, r, beyond) = rounds-beyond (length q) p.tot_len h k pos ne in
    rw (e, chain-none q rest old.chain n p.tot_len r beyond) refl
