-- ===== src/Udp/Faults.antt =====
-- What the limits of lines 91-101 do to chains of unequal length and to full buffers.
use zynq_lwip_frtos.Base.{
  ℕ, suc, ◌*◌, ◌≤◌, ◌<◌, ◌≡◌, refl, Option, none, some, List, [], ◌∷◌, ◌++◌, arith, length, ◌>>=◌,
}
use zynq_lwip_frtos.Udp.Merge.{merge_words, limit, rest_len, rounds, merge_chain}

bind-none {ℓ κ} :
    {A : Type ℓ} {B : Type κ} (m : Option A) (f : A → Option B)
    → ((a : A) → f a ≡ none)
    → (m >>= f) ≡ none
bind-none none f h = refl
bind-none (some a) f h = h a

-- If the chain of the packet has more buffers than the kept one, the step of the loop reads through
-- a NULL pointer, whatever the buffers hold.
pub merge_chain-none :
    (qs refs : List (List ℕ)) (kursor total_len : ℕ)
    → length refs < length qs
    → merge_chain qs refs kursor total_len ≡ none
unfolding merge_chain
merge_chain-none [] refs k t h = let no : 1 ≤ 0 = omega arith in elim no [ ]
merge_chain-none (q ∷ qs) [] k t h = refl
merge_chain-none (q ∷ qs) (ref ∷ refs) k t h =
    bind-none (merge_words q ref k (rounds (limit t))) _
      (λ ref'. rw (merge_chain-none qs refs 0 (rest_len t) (omega arith)) refl)

append_last :
    (q ref : List ℕ) (m : Option (List ℕ)) (f : Option (List (List ℕ)))
    → (do ref' ← m; refs' ← (do ys ← f; some (ys ++ ref ∷ [])); some (ref' ∷ refs'))
      ≡ (do ys ← (do ref' ← m; refs' ← f; some (ref' ∷ refs')); some (ys ++ ref ∷ []))
append_last q ref none f = refl
append_last q ref (some a) none = refl
append_last q ref (some a) (some b) = refl

rest_len-full : (n : ℕ) → rest_len (suc (suc n) * 1480) ≡ suc n * 1480
unfolding rest_len
rest_len-full n = ground arith

-- Where the length of a packet is a multiple of 1480, its last buffer, which is full, is not merged: the chain
-- without it is merged, and the last buffer that is kept stays as it is.
pub merge_chain-last_full :
    (qs refs : List (List ℕ)) (q ref : List ℕ) (kursor : ℕ)
    → length refs ≡ length qs
    → merge_chain (qs ++ q ∷ []) (refs ++ ref ∷ []) kursor (suc (length qs) * 1480)
      ≡ (do ys ← merge_chain qs refs kursor (suc (length qs) * 1480); some (ys ++ ref ∷ []))
unfolding merge_chain merge_words limit rounds
merge_chain-last_full [] [] q ref k h = refl
merge_chain-last_full [] (r ∷ refs) q ref k h =
    let no : suc (length refs) ≤ 0 = omega arith in elim no [ ]
merge_chain-last_full (x ∷ qs) [] q ref k h =
    let no : suc (length qs) ≤ 0 = omega arith in elim no [ ]
merge_chain-last_full (x ∷ qs) (r ∷ refs) q ref k h =
    rw (rest_len-full (length qs), merge_chain-last_full qs refs q ref 0 (omega arith))
      (append_last q ref (merge_words x r k (rounds (limit (suc (suc (length qs)) * 1480)))) _)
