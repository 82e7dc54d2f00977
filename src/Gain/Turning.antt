-- ===== src/Gain/Turning.antt =====
-- The packets of an antenna that turns, and what the handler does to one direction meanwhile.
use zynq_lwip_frtos.Base.{
  ℕ, ◌+◌, ◌*◌, ◌/◌, ◌%◌, ◌^◌, ◌<◌, ◌≡◌, refl, Bool, true, false, ◌&&◌, some, some_inj, List, [],
  ◌∷◌, arith, length, get_elem?, get_or, ltb, ◌==◌, if◌then◌else◌, >>=-eq-some,
}
use mathlib.Core.Option
use zynq_lwip_frtos.Gain.State.{AutoGainControl, Gain}
use zynq_lwip_frtos.Gain.Zone.{weaken, clean}
use zynq_lwip_frtos.Gain.Control.{
  word_at, triple_at, boundary_line, next_line, read_mode_48, auto_gain_control,
}
use zynq_lwip_frtos.Gain.Near.{steps}
use zynq_lwip_frtos.Gain.Lines.{is_saturated, get_elem?-value}
use zynq_lwip_frtos.Gain.Handles.{Handles, entry_after, filling-Handles}
use zynq_lwip_frtos.Gain.Sweep.{before, turn}
use zynq_lwip_frtos.Gain.Task.{Admissible}

-- The direction of a packet, the samples it announces, and whether one of them is above the permissible value.
abbrev pub line_of : List (List ℕ) → ℕ
line_of [] = 0
line_of (payload ∷ rest) = (get_or payload 54 0 * 0x100 + get_or payload 55 0) / 54

abbrev samples_of : List (List ℕ) → ℕ
samples_of [] = 0
samples_of (payload ∷ rest) =
    (get_or payload 70 0 * 0x10000 + get_or payload 71 0 * 0x100 + get_or payload 72 0) % 2 ^ 16

unfoldable pub packet_saturated : List (List ℕ) → Bool
packet_saturated p = is_saturated p 74 (samples_of p)

word_at-value :
    (payload : List ℕ) (i : ℕ) {a : ℕ}
    → word_at payload i ≡ some a
    → get_or payload i 0 * 0x100 + get_or payload (i + 1) 0 ≡ a
unfolding word_at
word_at-value payload i e =
    let (high, h, e') = >>=-eq-some (get_elem? payload i) _ e in
    let (low, l, e'') = >>=-eq-some (get_elem? payload (i + 1)) _ e' in
    rw (get_elem?-value payload _ h, get_elem?-value payload _ l) (some_inj e'')

triple_at-value :
    (payload : List ℕ) (i : ℕ) {a : ℕ}
    → triple_at payload i ≡ some a
    → get_or payload i 0 * 0x10000 + get_or payload (i + 1) 0 * 0x100 + get_or payload (i + 2) 0 ≡ a
unfolding triple_at
triple_at-value payload i e =
    let (high, h, e') = >>=-eq-some (get_elem? payload i) _ e in
    let (middle, m, e'') = >>=-eq-some (get_elem? payload (i + 1)) _ e' in
    let (low, l, e''') = >>=-eq-some (get_elem? payload (i + 2)) _ e'' in
    rw (get_elem?-value payload _ h, get_elem?-value payload _ m, get_elem?-value payload _ l)
      (some_inj e''')

-- The handler on the direction and the samples of the header.
header-Handles :
    (payload : List ℕ) (rest : List (List ℕ)) (azimuth samples : ℕ) (s s' : Gain)
    → word_at payload 54 ≡ some azimuth
    → triple_at payload 70 ≡ some samples
    → azimuth < 64800
    → length s.lines ≡ 1200
    → auto_gain_control (payload ∷ rest) s ≡ some s'
    → Handles (azimuth / 54) (is_saturated (payload ∷ rest) 74 (samples % 2 ^ 16)) s.lines s'.lines
unfolding auto_gain_control
header-Handles payload rest azimuth samples s s' ha hs small h e =
    let (replaced, _, e1) = >>=-eq-some (read_mode_48 payload) _ e in
    let unwrapped : azimuth / 54 % 2 ^ 16 ≡ azimuth / 54 = omega (arith, small) in
    filling-Handles (payload ∷ rest) (samples % 2 ^ 16) (azimuth / 54) s s' h (omega (arith, small))
      (rw (ha, hs, unwrapped) at e1)

pub auto_gain_control-Handles :
    (p : List (List ℕ)) (s s' : Gain)
    → Admissible p
    → length s.lines ≡ 1200
    → auto_gain_control p s ≡ some s'
    → Handles (line_of p) (packet_saturated p) s.lines s'.lines
unfolding packet_saturated
auto_gain_control-Handles p s s' a h e =
    rw (a.chain, word_at-value a.payload 54 a.direction, triple_at-value a.payload 70 a.announced)
      (header-Handles a.payload a.rest a.azimuth a.samples s s' a.direction a.announced a.inside h
        (rw a.chain at e))

-- What the direction sees of it.
boundary-steps :
    (line j : ℕ) → line < 1200 → j < 1200 → (boundary_line line == j) ≡ (steps line j == 1199)
unfolding boundary_line
boundary-steps line j hl hj = ground arith

pub next-steps :
    (line j : ℕ) → line < 1200 → j < 1200 → steps (next_line line) j ≡ before (steps line j)
unfolding next_line
next-steps line j hl hj = omega arith

turn-zoned :
    (b c : Bool) (x : AutoGainControl)
    → (let zoned = if b then Option.map weaken (some x) else some x in
        if c then Option.map clean zoned else zoned)
      ≡ some (let zoned = if b then weaken x else x in if c then clean zoned else zoned)
turn-zoned true true x = refl
turn-zoned true false x = refl
turn-zoned false true x = refl
turn-zoned false false x = refl

pub entry_after-turn :
    (line : ℕ) (saturated : Bool) (j : ℕ) (x : AutoGainControl)
    → line < 1200
    → j < 1200
    → entry_after line saturated j (some x) ≡ some (turn (steps line j) saturated x)
entry_after-turn line saturated j x hl hj =
    rw (boundary-steps line j hl hj)
      (turn-zoned (saturated && ltb (steps line j) 11) (steps line j == 1199) x)
