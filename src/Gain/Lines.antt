-- ===== src/Gain/Lines.antt =====
-- What the samples of a packet do to the directions: those near a saturated one are weakened.
use mathlib.Core.Option
use zynq_lwip_frtos.Base.{
  ℕ, zero, suc, ◌+◌, ◌*◌, ◌<◌, ◌≡◌, refl, sym, subst, ap, ◌∙◌, Bool, true, false, ◌&&◌, ◌||◌,
  Option, some, some_inj, List, [], ◌∷◌, length, get_elem?, get_or, ltb, if◌then◌else◌, >>=-eq-some,
}
use zynq_lwip_frtos.Gain.State.{AutoGainControl, Gain, update_at}
use zynq_lwip_frtos.Gain.Zone.{weaken, weaken_zone}
use zynq_lwip_frtos.Gain.Samples.{add_sample, sample_at, saturate, sample_loop, segment_loop}
use zynq_lwip_frtos.Gain.Near.{steps, weaken_zone-steps, weaken_from-Weakened}

-- The value of a sample, and whether one of `n` samples of a buffer is above the permissible value.
abbrev pub sample_value : List ℕ → ℕ → ℕ → ℕ
sample_value payload kursor i =
    get_or payload (kursor + i * 2) 0 * 0x100 + get_or payload (kursor + (i * 2 + 1)) 0

unfoldable pub buffer_saturated : List ℕ → ℕ → ℕ → ℕ → Bool
buffer_saturated payload kursor i zero = false
buffer_saturated payload kursor i (suc n) =
    ltb 0xEC54 (sample_value payload kursor i) || buffer_saturated payload kursor (suc i) n

-- The same of a chain: the first buffer has a header of `kursor` bytes.
unfoldable pub is_saturated : List (List ℕ) → ℕ → ℕ → Bool
is_saturated [] kursor n = false
is_saturated (payload ∷ rest) kursor n =
    buffer_saturated payload kursor 0 n || is_saturated rest 0 n

-- A direction before and after the samples of the direction `line`.
abbrev pub zone_entry :
    (line : ℕ) (saturated : Bool) (j : ℕ) → Option AutoGainControl → Option AutoGainControl
zone_entry line saturated j x =
    if saturated && ltb (steps line j) 11 then Option.map weaken x else x

-- All of them.
pub record Zoned (line : ℕ) (saturated : Bool) (xs ys : List AutoGainControl) : Type 0 where
  pub length_same : length ys ≡ 1200
  pub at : (j : ℕ) → j < 1200 → get_elem? ys j ≡ zone_entry line saturated j (get_elem? xs j)

pub get_elem?-value : (xs : List ℕ) (i : ℕ) {a : ℕ} → get_elem? xs i ≡ some a → get_or xs i 0 ≡ a
get_elem?-value [] i e = cc
get_elem?-value (x ∷ xs) zero e = some_inj e
get_elem?-value (x ∷ xs) (suc i) e = get_elem?-value xs i e

sample_at-value :
    (payload : List ℕ) (kursor i : ℕ) {value : ℕ}
    → sample_at payload kursor i ≡ some value
    → sample_value payload kursor i ≡ value
unfolding sample_at
sample_at-value payload kursor i e =
    let (high, h, e') = >>=-eq-some (get_elem? payload (kursor + i * 2)) _ e in
    let (low, l, e'') = >>=-eq-some (get_elem? payload (kursor + (i * 2 + 1))) _ e' in
    rw (get_elem?-value payload _ h, get_elem?-value payload _ l) (some_inj e'')

-- The lines that a step leaves as they are.
add_sample-lines :
    (line value : ℕ) (s : Gain) {s' : Gain} → add_sample line value s ≡ some s' → s'.lines ≡ s.lines
unfolding add_sample
add_sample-lines line value s e =
    let (ruler, _, e') = >>=-eq-some (update_at s.average_values_of_the_ruler line _) _ e in
    ap (λ t. t.lines) (sym (some_inj e'))

weaken_zone-Zoned :
    (line : ℕ) (s : Gain)
    → length s.lines ≡ 1200
    → line < 1200
    → (t : Gain) × (weaken_zone line s ≡ some t) × Zoned line true s.lines t.lines
weaken_zone-Zoned line s h hl =
    let (lines, e, at) = weaken_zone-steps line s h hl in
    let (ys, e', (len, ranges, at')) = weaken_from-Weakened line 0 11 s.lines h in
    let same : record s { lines = ys } ≡ record s { lines = lines } =
      some_inj (sym (rw e' refl) ∙ e) in
    (
      record s { lines = lines },
      e,
      record { length_same = ap (λ t. length t.lines) (sym same) ∙ len; at = at },
    )

-- Samples end with the mark `r.0`, and with the lines of a direction that is saturated or is not.
abbrev Sampled : (line : ℕ) (saturated : Bool) → Gain → Bool × Gain → Type 0
Sampled line saturated s r = (r.0 ≡ saturated) × Zoned line saturated s.lines r.1.lines

saturate-Sampled :
    (line : ℕ) (s : Gain) (r : Bool × Gain)
    → length s.lines ≡ 1200
    → line < 1200
    → saturate line s ≡ some r
    → Sampled line true s r
unfolding saturate
saturate-Sampled line s r h hl e =
    let (t, e', z) = weaken_zone-Zoned line s h hl in
    subst (Sampled line true s) (some_inj (rw e' at e)) (refl, z)

none-Zoned : (line : ℕ) (xs : List AutoGainControl) → length xs ≡ 1200 → Zoned line false xs xs
none-Zoned line xs h = record { length_same = h; at = λ j hj. refl }

-- A saturated sample ends the loop, another one does not.
first-Sampled :
    (c saturated : Bool) (line : ℕ) (s : Gain) (r : Bool × Gain) (m m' : Option (Bool × Gain))
    → (m ≡ some r → Sampled line true s r)
    → (m' ≡ some r → Sampled line saturated s r)
    → (if c then m else m') ≡ some r
    → Sampled line (c || saturated) s r
first-Sampled true saturated line s r m m' k k' e = k e
first-Sampled false saturated line s r m m' k k' e = k' e

sample_loop-Sampled :
    (payload : List ℕ) (kursor line i n : ℕ) (s : Gain) (r : Bool × Gain)
    → length s.lines ≡ 1200
    → line < 1200
    → sample_loop payload kursor line i n s ≡ some r
    → Sampled line (buffer_saturated payload kursor i n) s r
unfolding sample_loop buffer_saturated
sample_loop-Sampled payload kursor line i zero s r h hl e =
    subst (Sampled line false s) (some_inj e) (refl, none-Zoned line s.lines h)
sample_loop-Sampled payload kursor line i (suc n) s r h hl e =
    let (value, e0, e1) = >>=-eq-some (sample_at payload kursor i) _ e in
    let (t, e2, e3) = >>=-eq-some (add_sample line value s) _ e1 in
    let same = add_sample-lines line value s e2 in
    let h' : length t.lines ≡ 1200 = ap length same ∙ h in
    let sampled : Sampled line (ltb 0xEC54 value || buffer_saturated payload kursor (suc i) n) t r =
      first-Sampled (ltb 0xEC54 value) _ line t r _ _ (saturate-Sampled line t r h' hl)
        (sample_loop-Sampled payload kursor line (suc i) n t r h' hl) e3 in
    rw (sample_at-value payload kursor i e0, sym same) sampled

-- The buffers behind the first one.
rest-Zoned :
    (line : ℕ) (mark saturated more : Bool) (xs : List AutoGainControl) (t s' : Gain)
    (m : Option Gain)
    → mark ≡ saturated
    → Zoned line saturated xs t.lines
    → (m ≡ some s' → Zoned line more t.lines s'.lines)
    → (if mark then some t else m) ≡ some s'
    → Zoned line (saturated || more) xs s'.lines
rest-Zoned line true true more xs t s' m h z k e =
    subst (λ u. Zoned line true xs u.lines) (some_inj e) z
rest-Zoned line false false more xs t s' m h z k e =
    let z' = k e in
    record {
      length_same = z'.length_same;
      at = λ j hj. z'.at j hj ∙ ap (zone_entry line more j) (z.at j hj);
    }
rest-Zoned line true false more xs t s' m h z k e = absurd (cc)
rest-Zoned line false true more xs t s' m h z k e = absurd (cc)

pub segment_loop-Zoned :
    (p : List (List ℕ)) (kursor n line : ℕ) (s s' : Gain)
    → length s.lines ≡ 1200
    → line < 1200
    → segment_loop p kursor n line s ≡ some s'
    → Zoned line (is_saturated p kursor n) s.lines s'.lines
unfolding segment_loop is_saturated
segment_loop-Zoned [] kursor n line s s' h hl e =
    subst (λ t. Zoned line false s.lines t.lines) (some_inj e) (none-Zoned line s.lines h)
segment_loop-Zoned (payload ∷ rest) kursor n line s s' h hl e =
    let (r, e0, e1) = >>=-eq-some (sample_loop payload kursor line 0 n s) _ e in
    let (mark, z) = sample_loop-Sampled payload kursor line 0 n s r h hl e0 in
    rest-Zoned line r.0 _ _ s.lines r.1 s' _ mark z
      (segment_loop-Zoned rest 0 n line r.1 s' z.length_same hl) e1
