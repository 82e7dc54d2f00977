-- ===== src/Gain/SampleLoop.antt =====
-- The samples of a packet keep the state of the gain control well formed.
use zynq_lwip_frtos.Base.{
  ℕ, zero, suc, ◌+◌, ◌*◌, ◌≤◌, ◌<◌, ◌∙◌, List, [], ◌∷◌, arith, length, length-set, get_elem?-lt,
  ltb, if◌then◌else◌, wrap32,
}
use zynq_lwip_frtos.Gain.State.{Gain}
use zynq_lwip_frtos.Gain.Zone.{weaken_zone}
use zynq_lwip_frtos.Gain.Samples.{add_sample, sample_at, saturate, sample_loop, segment_loop}
use zynq_lwip_frtos.Gain.Arrays.{update_at-lt}
use zynq_lwip_frtos.Gain.Near.{weaken_from-Weakened}
use zynq_lwip_frtos.Gain.Invariant.{IsValid, Gives, gives, bind-Gives, if-Gives}

weaken_zone-IsValid : (line : ℕ) (s : Gain) → IsValid s → Gives IsValid (weaken_zone line s)
weaken_zone-IsValid line s v =
    let (ys, e, (len, ranges, at)) = weaken_from-Weakened line 0 11 s.lines v.lines in
    rw e (
      gives (record {
        lines = len;
        ruler = v.ruler;
        revolutions = v.revolutions;
        counter = v.counter;
        ranges = ranges v.ranges;
        sent_lowest = v.sent_lowest;
        sent_highest = v.sent_highest;
      }))

add_sample-IsValid :
    (line value : ℕ) (s : Gain) → line < 1200 → IsValid s → Gives IsValid (add_sample line value s)
unfolding add_sample
add_sample-IsValid line value s h v =
    let (x, e, u) =
      update_at-lt s.average_values_of_the_ruler line
        (λ sum. if s.flag_first_disckret then value else wrap32 (sum + value))
        (omega (arith, v.ruler)) in
    rw u (
      gives (record {
        lines = v.lines;
        ruler = length-set s.average_values_of_the_ruler line _ ∙ v.ruler;
        revolutions = v.revolutions;
        counter = v.counter;
        ranges = v.ranges;
        sent_lowest = v.sent_lowest;
        sent_highest = v.sent_highest;
      }))

sample_at-Gives :
    (payload : List ℕ) (kursor i : ℕ)
    → kursor + (i * 2 + 1) < length payload
    → Gives (λ _. Unit {0}) (sample_at payload kursor i)
unfolding sample_at
sample_at-Gives payload kursor i h =
    let (a, e) = get_elem?-lt payload (kursor + i * 2) (omega arith) in
    let (b, e') = get_elem?-lt payload (kursor + (i * 2 + 1)) h in rw (e, e') (gives tt)

saturate-IsValid : (line : ℕ) (s : Gain) → IsValid s → Gives (λ r. IsValid r.1) (saturate line s)
unfolding saturate
saturate-IsValid line s v = bind-Gives _ (weaken_zone-IsValid line s v) (λ s' v'. gives v')

sample_loop-IsValid :
    (payload : List ℕ) (kursor line i n : ℕ) (s : Gain)
    → kursor + (i + n) * 2 ≤ length payload
    → line < 1200
    → IsValid s
    → Gives (λ r. IsValid r.1) (sample_loop payload kursor line i n s)
unfolding sample_loop
sample_loop-IsValid payload kursor line i zero s h hl v = gives v
sample_loop-IsValid payload kursor line i (suc n) s h hl v =
    bind-Gives _ (sample_at-Gives payload kursor i (omega arith)) λ value _.
      bind-Gives _ (add_sample-IsValid line value s hl v) λ s' v'.
        if-Gives (ltb 0xEC54 value) _ _ (λ _. saturate-IsValid line s' v')
          (λ _. sample_loop-IsValid payload kursor line (suc i) n s' (omega arith) hl v')

-- Each buffer holds the samples behind its header.
abbrev pub Holds : ℕ → ℕ → List (List ℕ) → Type 0
Holds kursor n [] = Unit
Holds kursor n (payload ∷ rest) = (kursor + n * 2 ≤ length payload) × Holds 0 n rest

pub segment_loop-IsValid :
    (p : List (List ℕ)) (kursor n line : ℕ) (s : Gain)
    → Holds kursor n p
    → line < 1200
    → IsValid s
    → Gives IsValid (segment_loop p kursor n line s)
unfolding segment_loop
segment_loop-IsValid [] kursor n line s h hl v = gives v
segment_loop-IsValid (payload ∷ rest) kursor n line s h hl v =
    bind-Gives _ (sample_loop-IsValid payload kursor line 0 n s (omega (arith, h.0)) hl v)
      λ (saturated, s') v'.
        if-Gives saturated _ _ (λ _. gives v')
          (λ _. segment_loop-IsValid rest 0 n line s' h.1 hl v')
