-- ===== src/SysCalls/Heap.antt =====
-- The blocks that `_sbrk` hands out.
use zynq_lwip_frtos.Base.{
  ℕ, ◌+◌, ◌^◌, ◌<◌, ◌≡◌, refl, ap, ◌∙◌, List, [], ◌∷◌, arith, ◌==◌, if◌then◌else◌,
}
use zynq_lwip_frtos.SysCalls.{Process, sbrk, sbrk_all, total, placed}

-- Where the next block starts.
abbrev pub start_of : ℕ → Process → ℕ
start_of end s = if s.heap_end == 0 then end else s.heap_end

-- Requests that stay below 2^32 get consecutive blocks, which do not overlap: each starts where the
-- one before it ends, the first at the end of the heap so far, or at `_end` if there is none yet.
-- Nothing limits the heap: no request is refused.
pub sbrk_all-placed :
    (end : ℕ) (sizes : List ℕ) (s : Process)
    → 0 < end
    → start_of end s + total sizes < 2 ^ 32
    → (s' : Process) × (sbrk_all end sizes s ≡ (placed (start_of end s) sizes, s'))
      × (start_of end s' ≡ start_of end s + total sizes)
unfolding sbrk_all placed sbrk
sbrk_all-placed end [] s h fits = (s, refl, omega arith)
sbrk_all-placed end (size ∷ rest) s h fits =
    let next : Process = (sbrk end size s).1 in
    let at : start_of end next ≡ start_of end s + size = ground arith in
    let (s', e, e') = sbrk_all-placed end rest next h (omega arith) in
    (s', ap (λ r. (start_of end s ∷ r.0, r.1)) (e ∙ ap (λ a. (placed a rest, s')) at), omega arith)
