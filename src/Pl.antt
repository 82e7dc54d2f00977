-- ===== src/Pl.antt =====
-- src/pl_interface.c: `send_to_PL` hands a message to the programmable logic; for now it prints it.
mod Tests
use zynq_lwip_frtos.Base.{
  ℕ, zero, suc, ◌≤◌, ◌≡◌, refl, append_assoc, length-append, Option, some, List, [], ◌∷◌, ◌++◌,
  arith, length, take, get_elem?, ◌>>=◌,
}

-- A line on the console: the size of the message, or one of its bytes with its index.
pub data Print : Type 0 where
  mesg_size : ℕ → Print
  byte : ℕ → ℕ → Print

-- `for (i = 0; i < size; i++) xil_printf(..., i, mesg[i]);` from index `i` on, `n` rounds.
print_bytes : List ℕ → ℕ → ℕ → Option (List Print)
print_bytes mesg i zero = some []
print_bytes mesg i (suc n) = do
  b ← get_elem? mesg i
  rest ← print_bytes mesg (suc i) n
  some (byte i b ∷ rest)

-- `none`: the message is shorter than its size says.
unfoldable pub send_to_pl : List ℕ → ℕ → Option (List Print)
unfolding print_bytes
send_to_pl messege size = do bytes ← print_bytes messege 0 size; some (mesg_size size ∷ bytes)

-- The bytes of a message with their indices.
unfoldable pub numbered : ℕ → List ℕ → List Print
numbered i [] = []
numbered i (b ∷ bs) = byte i b ∷ numbered (suc i) bs

get_elem?-append : (xs ys : List ℕ) (b : ℕ) → get_elem? (xs ++ b ∷ ys) (length xs) ≡ some b
get_elem?-append [] ys b = refl
get_elem?-append (x ∷ xs) ys b = get_elem?-append xs ys b

print_bytes-numbered :
    (front mesg : List ℕ) (n : ℕ)
    → n ≤ length mesg
    → print_bytes (front ++ mesg) (length front) n ≡ some (numbered (length front) (take n mesg))
unfolding print_bytes numbered
print_bytes-numbered front mesg zero h = refl
print_bytes-numbered front [] (suc n) h = absurd (omega arith)
print_bytes-numbered front (b ∷ bs) (suc n) h = ground (
  arith,
  get_elem?-append front bs b,
  append_assoc front (b ∷ []) bs,
  length-append front (b ∷ []),
  print_bytes-numbered (front ++ b ∷ []) bs n (omega arith),
)

-- The console shows the size of the message and then exactly its first `size` bytes, in order, each
-- with its index.
pub send_to_pl-numbered :
    (mesg : List ℕ) (size : ℕ)
    → size ≤ length mesg
    → send_to_pl mesg size ≡ some (mesg_size size ∷ numbered 0 (take size mesg))
unfolding send_to_pl
send_to_pl-numbered mesg size h = rw (print_bytes-numbered [] mesg size h)
