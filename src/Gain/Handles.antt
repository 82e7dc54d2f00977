-- ===== src/Gain/Handles.antt =====
-- What one packet does to the directions: its samples first, then the direction that the zone has left is
-- cleared.
use zynq_lwip_frtos.Gain.Lines.{is_saturated, zone_entry, Zoned, segment_loop-Zoned}
use mathlib.Core.Option
use zynq_lwip_frtos.Base.{
  ℕ, ◌<◌, ◌≡◌, sym, subst, ap, ◌∙◌, Bool, true, false, Option, some, some_inj, List, [], ◌∷◌, arith,
  length, length-set, get_elem?, set, ◌==◌, if◌then◌else◌, >>=-eq-some,
}
use zynq_lwip_frtos.Gain.State.{AutoGainControl, Gain, update_at}
use zynq_lwip_frtos.Gain.Zone.{
  clean, cleaning_auto_gain_control_array, send_gain, update_gain_value,
}
use zynq_lwip_frtos.Gain.Samples.{segment_loop, average_line, divide}
use zynq_lwip_frtos.Gain.Revolution.{average_three, average_revolution, sum_lines}
use zynq_lwip_frtos.Gain.Control.{boundary_line, next_line, filling_auto_gain_control_array}
use zynq_lwip_frtos.Gain.Arrays.{update_at-lt, get_elem?-set}
use zynq_lwip_frtos.Pl.{send_to_pl}

average_line-lines :
    (n line : ℕ) (s s' : Gain) → average_line n line s ≡ some s' → s'.lines ≡ s.lines
unfolding average_line
average_line-lines n line s s' e =
    let (sum, _, e0) = >>=-eq-some (get_elem? s.average_values_of_the_ruler line) _ e in
    let (average, _, e1) = >>=-eq-some (divide sum n) _ e0 in
    let (ruler, _, e2) = >>=-eq-some (update_at s.average_values_of_the_ruler line _) _ e1 in
    ap (λ t. t.lines) (sym (some_inj e2))

average_three-lines : (s s' : Gain) → average_three s ≡ some s' → s'.lines ≡ s.lines
unfolding average_three
average_three-lines s s' e =
    let (a0, _, e0) = >>=-eq-some (get_elem? s.average_value_per_revolution 0) _ e in
    let (a1, _, e1) = >>=-eq-some (get_elem? s.average_value_per_revolution 1) _ e0 in
    let (a2, _, e2) = >>=-eq-some (get_elem? s.average_value_per_revolution 2) _ e1 in
    ap (λ t. t.lines) (sym (some_inj e2))

if-lines :
    (c : Bool) (s s' : Gain) (m m' : Option Gain)
    → (m ≡ some s' → s'.lines ≡ s.lines)
    → (m' ≡ some s' → s'.lines ≡ s.lines)
    → (if c then m else m') ≡ some s'
    → s'.lines ≡ s.lines
if-lines true s s' m m' k k' e = k e
if-lines false s s' m m' k k' e = k' e

average_revolution-lines : (s s' : Gain) → average_revolution s ≡ some s' → s'.lines ≡ s.lines
unfolding average_revolution
average_revolution-lines s s' e =
    let (start, _, e0) =
      >>=-eq-some (get_elem? s.average_value_per_revolution s.counter_to_3) _ e in
    let (sum, _, e1) = >>=-eq-some (sum_lines s.average_values_of_the_ruler 0 99 start) _ e0 in
    let (averages, _, e2) =
      >>=-eq-some (update_at s.average_value_per_revolution s.counter_to_3 _) _ e1 in
    if-lines (s.counter_to_3 == 2) s s' _ _ (average_three-lines _ s')
      (λ h. ap (λ t. t.lines) (sym (some_inj h))) e2

update_gain-lines : (i : ℕ) (s s' : Gain) → update_gain_value i s ≡ some s' → s'.lines ≡ s.lines
unfolding update_gain_value send_gain
update_gain-lines i s s' e =
    let (x, _, e0) = >>=-eq-some (get_elem? s.lines i) _ e in
    if-lines (x.curent_gain == s.old_gain_value) s s' _ _
      (λ h. ap (λ t. t.lines) (sym (some_inj h)))
      (λ h.
        let (printed, _, e1) = >>=-eq-some (send_to_pl (x.curent_gain ∷ 0xC3 ∷ []) 2) _ h in
        ap (λ t. t.lines) (sym (some_inj e1)))
      e0

-- A direction before and after the handling of a packet of the direction `line`.
abbrev pub entry_after :
    (line : ℕ) (saturated : Bool) (j : ℕ) → Option AutoGainControl → Option AutoGainControl
entry_after line saturated j x =
    let zoned = zone_entry line saturated j x in
    if boundary_line line == j then Option.map clean zoned else zoned

pub record Handles (line : ℕ) (saturated : Bool) (xs ys : List AutoGainControl) : Type 0 where
  pub length_same : length ys ≡ 1200
  pub at : (j : ℕ) → j < 1200 → get_elem? ys j ≡ entry_after line saturated j (get_elem? xs j)

cleaning-Handles :
    (line : ℕ) (saturated : Bool) (xs : List AutoGainControl) (s s' : Gain)
    → Zoned line saturated xs s.lines
    → cleaning_auto_gain_control_array (boundary_line line) s ≡ some s'
    → Handles line saturated xs s'.lines
unfolding cleaning_auto_gain_control_array boundary_line
cleaning-Handles line saturated xs s s' z e =
    let i : ℕ = boundary_line line in
    let (x, ex, u) = update_at-lt s.lines i clean (omega (arith, z.length_same)) in
    let same : record s { lines = set s.lines i (clean x) } ≡ s' = some_inj (rw u at e) in
    subst (λ t. Handles line saturated xs t.lines) same
      record {
        length_same = length-set s.lines i (clean x) ∙ z.length_same;
        at = λ j hj.
            get_elem?-set s.lines i j clean x ex
            ∙ ap (λ o. if i == j then Option.map clean o else o) (z.at j hj);
      }

-- The handler, where it returns, does to the directions what the samples of the packet say.
pub filling-Handles :
    (p : List (List ℕ)) (n line : ℕ) (s s' : Gain)
    → length s.lines ≡ 1200
    → line < 1200
    → filling_auto_gain_control_array p n line s ≡ some s'
    → Handles line (is_saturated p 74 n) s.lines s'.lines
unfolding filling_auto_gain_control_array
filling-Handles p n line s s' h hl e =
    let (s1, e1, r1) = >>=-eq-some (segment_loop p 74 n line s) _ e in
    let (s2, e2, r2) = >>=-eq-some (average_line n line s1) _ r1 in
    let (s3, e3, r3) = >>=-eq-some (if line == 98 then average_revolution s2 else some s2) _ r2 in
    let (s4, e4, r4) = >>=-eq-some (cleaning_auto_gain_control_array (boundary_line line) _) _ r3 in
    let z = segment_loop-Zoned p 74 n line s s1 h hl e1 in
    let same3 : s3.lines ≡ s2.lines =
      if-lines (line == 98) s2 s3 _ _ (average_revolution-lines s2 s3)
        (λ k. ap (λ t. t.lines) (sym (some_inj k))) e3 in
    let same : s3.lines ≡ s1.lines = same3 ∙ average_line-lines n line s1 s2 e2 in
    let z3 : Zoned line (is_saturated p 74 n) s.lines s3.lines =
      subst (Zoned line (is_saturated p 74 n) s.lines) (sym same) z in
    subst (Handles line (is_saturated p 74 n) s.lines)
      (sym (update_gain-lines (next_line line) s4 s' r4))
      (cleaning-Handles line _ s.lines _ s4 z3 e4)
