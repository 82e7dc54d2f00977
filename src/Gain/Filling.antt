-- ===== src/Gain/Filling.antt =====
-- The handler of a packet keeps the state of the gain control well formed.
use zynq_lwip_frtos.Base.{
  ℕ, zero, suc, ◌+◌, ◌/◌, ◌≤◌, ◌<◌, ◌≡◌, refl, ◌∙◌, false, List, [], ◌∷◌, arith, length, length-set,
  get_elem?-lt, set, ◌==◌, wrap32,
}
use zynq_lwip_frtos.Pl.{send_to_pl-numbered}
use zynq_lwip_frtos.Gain.State.{Gain}
use zynq_lwip_frtos.Gain.Zone.{
  clean, cleaning_auto_gain_control_array, send_gain, update_gain_value,
}
use zynq_lwip_frtos.Gain.Samples.{divide, average_line}
use zynq_lwip_frtos.Gain.Revolution.{sum_lines, average_three, average_revolution}
use zynq_lwip_frtos.Gain.Control.{boundary_line, next_line, filling_auto_gain_control_array}
use zynq_lwip_frtos.Gain.Cycle.{InRange, clean-InRange}
use zynq_lwip_frtos.Gain.Arrays.{All-get, All-set, update_at-lt}
use zynq_lwip_frtos.Gain.Invariant.{IsValid, Gives, gives, bind-Gives, if-Gives}
use zynq_lwip_frtos.Gain.SampleLoop.{Holds, segment_loop-IsValid}

average_line-IsValid :
    (n line : ℕ) (s : Gain)
    → 0 < n
    → line < 1200
    → IsValid s
    → Gives IsValid (average_line n line s)
unfolding average_line divide
average_line-IsValid n line s hn hl v =
    let h : line < length s.average_values_of_the_ruler = omega (arith, v.ruler) in
    let (x, e) = get_elem?-lt s.average_values_of_the_ruler line h in
    let (y, _, u) = update_at-lt s.average_values_of_the_ruler line (λ _. x / n) h in
    let nonzero : (n == 0) ≡ false = ground arith in
    rw (e, nonzero, u)
      (gives (record {
        lines = v.lines;
        ruler = length-set s.average_values_of_the_ruler line _ ∙ v.ruler;
        revolutions = v.revolutions;
        counter = v.counter;
        ranges = v.ranges;
        sent_lowest = v.sent_lowest;
        sent_highest = v.sent_highest;
      }))

sum_lines-Gives :
    (ruler : List ℕ) (i n sum : ℕ)
    → i + n ≤ length ruler
    → Gives (λ _. Unit {0}) (sum_lines ruler i n sum)
unfolding sum_lines
sum_lines-Gives ruler i zero sum h = gives tt
sum_lines-Gives ruler i (suc n) sum h =
    let (x, e) = get_elem?-lt ruler i (omega arith) in
    rw e (sum_lines-Gives ruler (suc i) n (wrap32 (sum + x)) (omega arith))

average_three-IsValid : (s : Gain) → IsValid s → Gives IsValid (average_three s)
unfolding average_three
average_three-IsValid s v =
    let (a0, e0) = get_elem?-lt s.average_value_per_revolution 0 (omega (arith, v.revolutions)) in
    let (a1, e1) = get_elem?-lt s.average_value_per_revolution 1 (omega (arith, v.revolutions)) in
    let (a2, e2) = get_elem?-lt s.average_value_per_revolution 2 (omega (arith, v.revolutions)) in
    rw (e0, e1, e2)
      (gives (record {
        lines = v.lines;
        ruler = v.ruler;
        revolutions = refl;
        counter = v.counter;
        ranges = v.ranges;
        sent_lowest = v.sent_lowest;
        sent_highest = v.sent_highest;
      }))

average_revolution-IsValid : (s : Gain) → IsValid s → Gives IsValid (average_revolution s)
unfolding average_revolution
average_revolution-IsValid s v =
    let c : s.counter_to_3 < length s.average_value_per_revolution =
      omega (arith, v.revolutions, v.counter) in
    let (x, e) = get_elem?-lt s.average_value_per_revolution s.counter_to_3 c in
    rw e (
      bind-Gives _ (sum_lines-Gives s.average_values_of_the_ruler 0 99 x (omega (arith, v.ruler)))
        λ sum _.
          let (_, _, u) =
            update_at-lt s.average_value_per_revolution s.counter_to_3 (λ _. sum / 98) c in
          let v' = stored (sum / 98) in
          rw u (
            if-Gives (s.counter_to_3 == 2) _ _ (λ _. average_three-IsValid _ v')
              (λ ne. gives (record {
                lines = v.lines;
                ruler = v.ruler;
                revolutions = v'.revolutions;
                counter = ground (arith, v.counter);
                ranges = v.ranges;
                sent_lowest = v.sent_lowest;
                sent_highest = v.sent_highest;
              }))))
  where
    stored :
        (average : ℕ)
        → IsValid (record s {
          average_value_per_revolution = set s.average_value_per_revolution s.counter_to_3 average;
        })
    stored average = record {
      lines = v.lines;
      ruler = v.ruler;
      revolutions =
          length-set s.average_value_per_revolution s.counter_to_3 average ∙ v.revolutions;
      counter = v.counter;
      ranges = v.ranges;
      sent_lowest = v.sent_lowest;
      sent_highest = v.sent_highest;
    }

cleaning-IsValid :
    (i : ℕ) (s : Gain) → i < 1200 → IsValid s → Gives IsValid (cleaning_auto_gain_control_array i s)
unfolding cleaning_auto_gain_control_array
cleaning-IsValid i s h v =
    let (x, e, u) = update_at-lt s.lines i clean (omega (arith, v.lines)) in
    rw u (
      gives (record {
        lines = length-set s.lines i _ ∙ v.lines;
        ruler = v.ruler;
        revolutions = v.revolutions;
        counter = v.counter;
        ranges =
            All-set InRange s.lines i (clean x) v.ranges
              (clean-InRange x (All-get InRange s.lines i x v.ranges e));
        sent_lowest = v.sent_lowest;
        sent_highest = v.sent_highest;
      }))

update_gain-IsValid :
    (i : ℕ) (s : Gain) → i < 1200 → IsValid s → Gives IsValid (update_gain_value i s)
unfolding update_gain_value send_gain
update_gain-IsValid i s h v =
    let (x, e) = get_elem?-lt s.lines i (omega (arith, v.lines)) in
    let r : InRange x = All-get InRange s.lines i x v.ranges e in
    rw e (
      if-Gives (x.curent_gain == s.old_gain_value) _ _ (λ _. gives v)
        (λ _. rw (send_to_pl-numbered (x.curent_gain ∷ 0xC3 ∷ []) 2 (omega arith)) (
          gives (record {
            lines = v.lines;
            ruler = v.ruler;
            revolutions = v.revolutions;
            counter = v.counter;
            ranges = v.ranges;
            sent_lowest = r.lowest;
            sent_highest = r.highest;
          }))))

boundary_line-lt : (line : ℕ) → boundary_line line < 1200
unfolding boundary_line
boundary_line-lt line = omega arith

next_line-lt : (line : ℕ) → next_line line < 1200
unfolding next_line
next_line-lt line = omega arith

-- The handler returns, and keeps the state well formed: of every gain and of every value that is
-- sent to the programmable logic it keeps the range from 100 to 127. The chain must hold the samples
-- that the header announces, at least one, and the direction must be one of the 1200.
pub filling-IsValid :
    (p : List (List ℕ)) (n line : ℕ) (s : Gain)
    → Holds 74 n p
    → 0 < n
    → line < 1200
    → IsValid s
    → Gives IsValid (filling_auto_gain_control_array p n line s)
unfolding filling_auto_gain_control_array
filling-IsValid p n line s h hn hl v =
    bind-Gives _ (segment_loop-IsValid p 74 n line s h hl v) λ s1 v1.
      bind-Gives _ (average_line-IsValid n line s1 hn hl v1) λ s2 v2.
        bind-Gives _
          (if-Gives (line == 98) _ _ (λ _. average_revolution-IsValid s2 v2) (λ _. gives v2))
          λ s3 v3.
            bind-Gives _
              (cleaning-IsValid (boundary_line line) (record s3 { flag_first_disckret = false })
                (boundary_line-lt line)
                (record {
                  lines = v3.lines;
                  ruler = v3.ruler;
                  revolutions = v3.revolutions;
                  counter = v3.counter;
                  ranges = v3.ranges;
                  sent_lowest = v3.sent_lowest;
                  sent_highest = v3.sent_highest;
                }))
              λ s4 v4. update_gain-IsValid (next_line line) s4 (next_line-lt line) v4
