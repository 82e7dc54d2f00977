-- ===== src/Udp/Pool.antt =====
-- The packets that lwIP hands over: their buffers lie in the pool, of which an entry has 1700 bytes
-- (PBUF_POOL_BUFSIZE), more than a frame needs.
use zynq_lwip_frtos.Base.{ℕ, ◌+◌, ◌*◌, ◌≤◌, ◌≡◌, List, [], ◌∷◌, arith}
use zynq_lwip_frtos.Udp.Merge.{limit, rest_len, rounds}
use zynq_lwip_frtos.Udp.Total.{Covers}

abbrev pub sum : List ℕ → ℕ
sum [] = 0
sum (l ∷ ls) = l + sum ls

-- By the lengths of the parts of the packet, each in a buffer: a frame brings at most 1480 bytes of
-- it, and the memory from the payload on has at least 1512 bytes, since the headers in front of it
-- have at most 82.
unfoldable pub InPool : List ℕ → List ℕ → Type 0
InPool [] [] = Unit
InPool [] (size ∷ memory) = ⊥
InPool (len ∷ lens) [] = ⊥
InPool (len ∷ lens) (size ∷ memory) = (len ≤ 1480) × (1512 ≤ size) × InPool lens memory

-- The length of the packet is the sum of its parts.
pub record Delivered (memory : List ℕ) (tot_len : ℕ) : Type 0 where
  pub lens : List ℕ
  pub whole : tot_len ≡ sum lens
  pub in_pool : InPool lens memory

rounds-limit : (total_len : ℕ) → rounds (limit total_len) * 2 ≤ 1480
unfolding rounds limit
rounds-limit t = ground arith

InPool-Covers :
    (lens memory : List ℕ) (kursor total_len : ℕ)
    → kursor ≤ 32
    → InPool lens memory
    → Covers memory kursor total_len
unfolding Covers InPool
InPool-Covers [] [] k t h p = tt
InPool-Covers [] (size ∷ memory) k t h p = elim p [ ]
InPool-Covers (len ∷ lens) [] k t h p = tt
InPool-Covers (len ∷ lens) (size ∷ memory) k t h (small, big, p) =
    (omega (arith, rounds-limit t), InPool-Covers lens memory 0 (rest_len t) (omega arith) p)

-- The loops of the merge stay in this memory.
pub Delivered-Covers :
    (memory : List ℕ) (tot_len : ℕ) → Delivered memory tot_len → Covers memory 32 tot_len
Delivered-Covers memory t d = InPool-Covers d.lens memory 32 t (omega arith) d.in_pool
