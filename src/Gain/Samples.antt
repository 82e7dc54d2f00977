-- ===== src/Gain/Samples.antt =====
-- src/auto_gain_control.c, lines 53-113: the samples of one direction, over the chain of buffers.
-- `total_len` and `predel_na_shag` are computed there and never read, so they are left out.
use zynq_lwip_frtos.Base.{
  ℕ, zero, suc, ◌+◌, ◌*◌, ◌/◌, Bool, true, false, Option, none, some, List, [], ◌∷◌, get_elem?, ltb,
  ◌==◌, if◌then◌else◌, wrap32, ◌>>=◌,
}
use zynq_lwip_frtos.Gain.State.{Gain, row, update_at}
use zynq_lwip_frtos.Gain.Zone.{weaken_zone}

-- Lines 74-82: the sample is added to the sum of its direction. The first sample of all replaces it.
unfoldable pub add_sample : ℕ → ℕ → Gain → Option Gain
add_sample line_index value s = do
  ruler ←
      update_at s.average_values_of_the_ruler line_index
        (λ sum. if s.flag_first_disckret then value else wrap32 (sum + value))
  some (record s {
    average_values_of_the_ruler = ruler;
    flag_first_disckret = false;
    discrete_value = value;
  })

-- Line 73: two bytes, the high one first.
unfoldable pub sample_at : List ℕ → ℕ → ℕ → Option ℕ
sample_at payload kursor sample_index = do
  high ← get_elem? payload (kursor + sample_index * 2)
  low ← get_elem? payload (kursor + (sample_index * 2 + 1))
  some (high * 0x100 + low)

-- Lines 83-106: the directions round a saturated sample are weakened, and the samples end there.
unfoldable pub saturate : ℕ → Gain → Option (Bool × Gain)
saturate line_index s = do s' ← weaken_zone line_index s; some (true, s')

-- The loop of line 71 from a sample on, `n` rounds; `true` for the jump to `target`.
unfoldable pub sample_loop : List ℕ → ℕ → ℕ → ℕ → ℕ → Gain → Option (Bool × Gain)
sample_loop payload kursor line_index i zero s = some (false, s)
sample_loop payload kursor line_index i (suc n) s = do
  value ← sample_at payload kursor i
  s' ← add_sample line_index value s
  let rest = sample_loop payload kursor line_index (suc i) n s'
  if ltb row.max_permissible_value value then saturate line_index s' else rest

-- The loop of line 60 over the buffers; only the first one has a header of 74 bytes.
unfoldable pub segment_loop : List (List ℕ) → ℕ → ℕ → ℕ → Gain → Option Gain
segment_loop [] kursor size_of_samples line_index s = some s
segment_loop (payload ∷ rest) kursor size_of_samples line_index s = do
  (saturated, s') ← sample_loop payload kursor line_index 0 size_of_samples s
  let after = segment_loop rest 0 size_of_samples line_index s'
  if saturated then some s' else after

-- Line 112: a direction without samples divides by zero.
unfoldable pub divide : ℕ → ℕ → Option ℕ
divide a b = if b == 0 then none else some (a / b)

-- The average of the direction.
unfoldable pub average_line : ℕ → ℕ → Gain → Option Gain
average_line size_of_samples line_index s = do
  sum ← get_elem? s.average_values_of_the_ruler line_index
  average ← divide sum size_of_samples
  ruler ← update_at s.average_values_of_the_ruler line_index (λ _. average)
  some (record s { average_values_of_the_ruler = ruler })
