-- ===== src/SysCalls/Tests.antt =====
-- Two blocks from the end of the program on.
use zynq_lwip_frtos.Base.{◌≡◌, [], ◌∷◌, arith}
use zynq_lwip_frtos.SysCalls.{Process, placed, sbrk_all}
use zynq_lwip_frtos.SysCalls.Heap.{start_of, sbrk_all-placed}

abbrev fresh_process : Process
fresh_process = record { heap_end = 0; errno = 0 }

sbrk_all_test :
    (s : Process) × (sbrk_all 0x10_0000 (16 ∷ 32 ∷ []) fresh_process
      ≡ (0x10_0000 ∷ 0x10_0010 ∷ [], s))
    × (start_of 0x10_0000 s ≡ 0x10_0030)
unfolding placed
sbrk_all_test = sbrk_all-placed 0x10_0000 (16 ∷ 32 ∷ []) fresh_process (omega arith) (omega arith)
