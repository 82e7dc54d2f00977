-- ===== src/Udp/Merge.antt =====
-- src/main.c, lines 84-111: merging a packet into the one that is kept, sample by sample. A packet
-- is a chain of buffers; a buffer is the list of the bytes of its memory from the payload on, those
-- of the packet first.
use zynq_lwip_frtos.Base.{
  ℕ, zero, suc, ◌+◌, ◌-◌, ◌/◌, ◌%◌, Bool, true, false, Option, none, some, List, [], ◌∷◌, get_elem?,
  set, ltb, ◌==◌, if◌then◌else◌, ◌>>=◌,
}

pub record Packet : Type 0 where
  pub tot_len : ℕ
  pub chain : List (List ℕ)

-- `a[i] = v`; outside the buffer it is undefined.
unfoldable pub store : List ℕ → ℕ → ℕ → Option (List ℕ)
store xs i v = do old ← get_elem? xs i; some (set xs i v)

-- Lines 106-107.
unfoldable pub copy_pair : List ℕ → List ℕ → ℕ → Option (List ℕ)
unfolding store
copy_pair q ref i = do
  high ← get_elem? q i
  ref' ← store ref i high
  low ← get_elem? q (i + 1)
  store ref' (i + 1) low

-- The right side of `||` in line 104, reached where the high bytes are equal.
unfoldable pub compare_low : List ℕ → List ℕ → ℕ → Option Bool
compare_low q ref i = do b ← get_elem? q (i + 1); d ← get_elem? ref (i + 1); some (ltb d b)

-- Line 104: the low bytes are read only if the high bytes are equal.
unfoldable pub is_greater : List ℕ → List ℕ → ℕ → Option Bool
unfolding compare_low
is_greater q ref i = do
  a ← get_elem? q i
  c ← get_elem? ref i
  if ltb c a then some true else if a == c then compare_low q ref i else some false

unfoldable pub merge_pair : List ℕ → List ℕ → ℕ → Option (List ℕ)
unfolding is_greater copy_pair
merge_pair q ref i = do
  greater ← is_greater q ref i
  if greater then copy_pair q ref i else some ref

-- The loop of line 102 from the byte `i` on, `n` rounds.
unfoldable pub merge_words : List ℕ → List ℕ → ℕ → ℕ → Option (List ℕ)
merge_words q ref i zero = some ref
merge_words q ref i (suc n) = do ref' ← merge_pair q ref i; merge_words q ref' (suc (suc i)) n

-- Lines 93-101: the bytes to merge in this buffer.
unfoldable pub limit : ℕ → ℕ
limit total_len = if ltb 1480 total_len then 1480 else total_len % 1480

unfoldable pub rest_len : ℕ → ℕ
rest_len total_len = if ltb 1480 total_len then total_len - 1480 else total_len

-- The rounds of `for (i = 0; i < n; i += 2)`.
unfoldable pub rounds : ℕ → ℕ
rounds n = (n + 1) / 2

-- The loop of line 91 over both chains. Its step reads `ref->next`, so the kept chain may not be the
-- shorter one.
unfoldable pub merge_chain : List (List ℕ) → List (List ℕ) → ℕ → ℕ → Option (List (List ℕ))
merge_chain [] refs kursor total_len = some refs
merge_chain (q ∷ qs) [] kursor total_len = none
merge_chain (q ∷ qs) (ref ∷ refs) kursor total_len = do
  ref' ← merge_words q ref kursor (rounds (limit total_len))
  refs' ← merge_chain qs refs 0 (rest_len total_len)
  some (ref' ∷ refs')

-- Lines 84-111; the first buffer has a header of 32 bytes.
unfoldable pub merge : Packet → Packet → Option Packet
merge p old_pbuf = do
  chain ← merge_chain p.chain old_pbuf.chain 32 p.tot_len
  some (record old_pbuf { chain = chain })
