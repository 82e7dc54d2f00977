-- ===== src/SysCalls.antt =====
-- src/sys_calls.c: the system calls that newlib needs, and src/newlib_compat.c. An int is its 32 bits.
pub mod Heap
mod Tests
use zynq_lwip_frtos.Base.{ℕ, ◌+◌, List, [], ◌∷◌, wrap32, ◌==◌, if◌then◌else◌}
use zynq_lwip_frtos.Base.Calls.{Run, stopped}

-- `heap_end`, 0 for NULL, and `errno`.
pub record Process : Type 0 where
  pub heap_end : ℕ
  pub errno : ℕ

-- -1.
abbrev pub failure : ℕ
failure = 0xFFFF_FFFF

-- Lines 8-19, with the address `_end` of the linker. The result is the address, or what `int` holds.
unfoldable pub sbrk : ℕ → ℕ → Process → ℕ × Process
sbrk end incr s =
    let prev_heap_end = if s.heap_end == 0 then end else s.heap_end in
    (prev_heap_end, record s { heap_end = wrap32 (prev_heap_end + incr) })

-- Lines 22-25: it never returns.
unfoldable pub exit : ℕ → Run ℕ (Unit {0})
exit status = stopped []

unfoldable pub write : Process → ℕ × Process
write s = (failure, s)

-- Lines 34-38, with the EBADF of errno.h.
unfoldable pub read : ℕ → Process → ℕ × Process
read ebadf s = (failure, record s { errno = ebadf })

unfoldable pub close : ℕ → Process → ℕ × Process
close ebadf s = (failure, record s { errno = ebadf })

-- Lines 48-52: the result and the mode, S_IFCHR of sys/stat.h.
unfoldable pub fstat : ℕ → ℕ × ℕ
fstat ifchr = (0, ifchr)

unfoldable pub lseek : ℕ → Process → ℕ × Process
lseek ebadf s = (failure, record s { errno = ebadf })

unfoldable pub isatty : ℕ → ℕ
isatty file = 1

-- src/newlib_compat.c: the table `_ctype_`.
unfoldable pub locale_ctype_ptr {ℓ} : {A : Type ℓ} → A → A
locale_ctype_ptr ctype = ctype

-- Requests in their order: the blocks that they get, and what is left.
unfoldable pub sbrk_all : ℕ → List ℕ → Process → List ℕ × Process
sbrk_all end [] s = ([], s)
sbrk_all end (incr ∷ rest) s =
    let (block, s') = sbrk end incr s in
    let (blocks, s'') = sbrk_all end rest s' in (block ∷ blocks, s'')

abbrev pub total : List ℕ → ℕ
total [] = 0
total (x ∷ xs) = x + total xs

-- The addresses of blocks of these sizes, one behind the other.
unfoldable pub placed : ℕ → List ℕ → List ℕ
placed start [] = []
placed start (size ∷ rest) = start ∷ placed (start + size) rest
