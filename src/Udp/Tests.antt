-- ===== src/Udp/Tests.antt =====
-- Packets of one buffer, and the theorems of the packet task at concrete inputs.
use zynq_lwip_frtos.Base.{
  ℕ, zero, suc, Bool, ltb, ltb→lt, Bool-cases, inl, inr, true, false, ◌≡◌, ◌<◌, refl, none, some,
  List, [], ◌∷◌, ◌++◌, arith, replicate, if◌then◌else◌,
}
use zynq_lwip_frtos.Udp.Merge.{Packet, merge}
use zynq_lwip_frtos.Udp.Task.{
  TaskState, running, suspended, Pbuf, Answers, Parser, initial, pass_on, send_only, receive_all,
}
use zynq_lwip_frtos.Udp.MaxWords.{Bytes}
use zynq_lwip_frtos.Udp.Total.{sizes}
use zynq_lwip_frtos.Udp.Calls.{dangling, tenth-dangling}
use mathlib.Core.List.Perm
use zynq_lwip_frtos.Udp.Order.{Ten, IsTen, in_order, packets, SameSamples, receive_all-perm}
use zynq_lwip_frtos.Udp.Peak.{Fitting, AllFitting, Peaks, peak}
use zynq_lwip_frtos.Udp.Tenth.{Passes, receive_all-Peaks}
use zynq_lwip_frtos.Udp.Overread.{merge-none}
use zynq_lwip_frtos.Udp.Pool.{InPool, Delivered}

-- The 36 bytes of a packet, and the memory behind them up to the end of an entry of the pool.
abbrev payload : ℕ → List ℕ
payload value = replicate 32 0 ++ 0 ∷ value ∷ 0 ∷ value ∷ [] ++ replicate 1622 0

abbrev pbuf : ℕ → ℕ → Pbuf
pbuf address sample = record {
  address = address;
  packet = record { tot_len = 36; chain = payload sample ∷ [] };
}

abbrev answers : TaskState → Answers
answers state = record { first = state; queued = true; second = state }

pbuf-Delivered : Delivered (1658 ∷ []) 36
unfolding InPool
pbuf-Delivered = record { lens = 36 ∷ []; whole = refl; in_pool = (omega arith, omega arith, tt) }

abbrev run : List (Pbuf × Answers)
run = (pbuf 1 5, answers running) ∷ (pbuf 2 9, answers suspended) ∷ []

abbrev full_queue : Answers
full_queue = record { first = running; queued = false; second = running }

tenth-dangling_example :
    dangling (pass_on (pbuf 1 5) full_queue ++ send_only (pbuf 1 5) full_queue) ≡ true
tenth-dangling_example = tenth-dangling (pbuf 1 5) full_queue

abbrev new : List ℕ
new = 1 ∷ 2 ∷ 3 ∷ 4 ∷ []

abbrev kept : List ℕ
kept = 1 ∷ 1 ∷ 3 ∷ 5 ∷ []

-- A list of which every entry is a byte.
abbrev all_small : List ℕ → Bool
all_small [] = true
all_small (b ∷ bs) = if ltb b 256 then all_small bs else false

all_small-head :
    (b : ℕ) (bs : List ℕ) → all_small (b ∷ bs) ≡ true → (b < 256) × (all_small bs ≡ true)
all_small-head b bs h = elim (Bool-cases (ltb b 256)) [
  | inl e ↦ (ltb→lt b 256 e, rw e at h)
  | inr e ↦ absurd (cc)
]

all_small-Bytes : (bs : List ℕ) → all_small bs ≡ true → Bytes bs
all_small-Bytes [] h i = omega arith
all_small-Bytes (b ∷ bs) h zero = (all_small-head b bs h).0
all_small-Bytes (b ∷ bs) h (suc i) = all_small-Bytes bs (all_small-head b bs h).1 i

fits :
    (address value : ℕ)
    → all_small (payload value) ≡ true
    → Fitting (1658 ∷ []) 36 (pbuf address value)
unfolding sizes
fits address value h = record {
  shape = refl;
  delivered = pbuf-Delivered;
  tot_len = refl;
  bytes = (all_small-Bytes (payload value) h, tt);
}

abbrev step : ℕ → Pbuf × Answers
step address = (pbuf address address, answers running)

abbrev middle : List (Pbuf × Answers)
middle = step 2 ∷ step 3 ∷ step 4 ∷ step 5 ∷ step 99 ∷ step 7 ∷ step 8 ∷ step 9 ∷ []

ten-AllFitting : AllFitting (1658 ∷ []) 36 (middle ++ step 10 ∷ [])
unfolding AllFitting
ten-AllFitting = (
  fits 2 2 refl,
  (
    fits 3 3 refl,
    (
      fits 4 4 refl,
      (
        fits 5 5 refl,
        (fits 99 99 refl, (fits 7 7 refl, (fits 8 8 refl, (fits 9 9 refl, (fits 10 10 refl, tt))))),
      ),
    ),
  ),
)

receive_all-Peaks_example :
    (s : Parser) × (receive_all ((pbuf 1 1, answers running) ∷ (middle ++ step 10 ∷ [])) initial
      ≡ some s)
    × (peaks : Peaks (1658 ∷ []) 36 (pbuf 1 1) (middle ++ step 10 ∷ []) s) × Passes
        (answers running)
        s
        peaks.kept
unfolding sizes
receive_all-Peaks_example =
    receive_all-Peaks (1658 ∷ []) 36 (pbuf 1 1) (pbuf 10 10) (answers running) (answers running)
      middle ten-AllFitting refl (all_small-Bytes (payload 1) refl, tt) refl

peak_test : peak (pbuf 1 1).packet.chain (middle ++ step 10 ∷ []) 0 34 ≡ 99
peak_test = refl

abbrev short : Packet
short = record { tot_len = 36; chain = (replicate 36 7) ∷ [] }

merge-none_example : merge short short ≡ none
merge-none_example =
    merge-none short short (replicate 36 7) [] refl (omega arith) (omega arith) (omega arith)
      (λ h. omega arith)

abbrev tail : List (Pbuf × Answers)
tail = step 3 ∷ step 4 ∷ step 5 ∷ step 99 ∷ step 7 ∷ step 8 ∷ step 9 ∷ []

abbrev ten : Pbuf × Answers → Pbuf × Answers → Ten
ten p q = record { first = p; middle = q ∷ tail; last = step 10 }

tail-AllFitting : AllFitting (1658 ∷ []) 36 (tail ++ step 10 ∷ [])
unfolding AllFitting
tail-AllFitting = ten-AllFitting.1

ten-IsTen : IsTen (1658 ∷ []) 36 (ten (step 1) (step 2))
unfolding sizes
ten-IsTen = record {
  fitting = ten-AllFitting;
  shape = refl;
  bytes = (all_small-Bytes (payload 1) refl, tt);
  eight = refl;
}

swapped-IsTen : IsTen (1658 ∷ []) 36 (ten (step 2) (step 1))
unfolding sizes AllFitting
swapped-IsTen = record {
  fitting = (fits 1 1 refl, tail-AllFitting);
  shape = refl;
  bytes = (all_small-Bytes (payload 2) refl, tt);
  eight = refl;
}

receive_all-perm_example :
    (s : Parser) × (s' : Parser) × (receive_all (in_order (ten (step 1) (step 2))) initial ≡ some s)
    × (receive_all (in_order (ten (step 2) (step 1))) initial ≡ some s')
    × SameSamples (1658 ∷ []) 36 s s'
receive_all-perm_example =
    receive_all-perm (1658 ∷ []) 36 (ten (step 1) (step 2)) (ten (step 2) (step 1)) ten-IsTen
      swapped-IsTen (Perm.swap (pbuf 2 2) (pbuf 1 1) (packets (tail ++ step 10 ∷ [])))
