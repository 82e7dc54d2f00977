-- ===== src/Gain/Sweep.antt =====
-- One direction while the antenna turns: it only sees how far it lies behind the zone of the current
-- direction, and whether the packet is saturated.
use zynq_lwip_frtos.Base.{
  ℕ, zero, suc, ◌+◌, ◌%◌, ◌≤◌, ◌<◌, ◌≡◌, refl, ap, ◌∙◌, inl, inr, Bool, true, false, ◌&&◌, ◌||◌,
  List, [], ◌∷◌, arith, length, ltb, ◌==◌, if◌then◌else◌, Bool-cases, ==→eq, tests,
}
use zynq_lwip_frtos.Gain.State.{AutoGainControl, fresh}
use zynq_lwip_frtos.Gain.Zone.{weaken, clean}
use zynq_lwip_frtos.Gain.Cycle.{weaken_idem, turns, turns-gain, clean_restores}

-- The distance at the next packet.
abbrev pub before : ℕ → ℕ
before d = (d + 1199) % 1200

-- Within ten behind the start of the zone a saturated packet weakens; at 1199 the zone has passed.
abbrev pub turn : ℕ → Bool → AutoGainControl → AutoGainControl
turn d saturated x =
    let zoned = if saturated && ltb d 11 then weaken x else x in
    if d == 1199 then clean zoned else zoned

abbrev pub view : ℕ → List Bool → AutoGainControl → AutoGainControl
view d [] x = x
view d (s ∷ ss) x = view (before d) ss (turn d s x)

-- Whether a packet that reaches the direction is saturated.
abbrev pub hit : ℕ → List Bool → Bool
hit d [] = false
hit d (s ∷ ss) = (s && ltb d 11) || hit (before d) ss

abbrev pub revolved : Bool → AutoGainControl → AutoGainControl
revolved h x = clean (if h then weaken x else x)

revolved-twice :
    (a b : Bool) (x : AutoGainControl)
    → revolved b (if a then weaken x else x) ≡ revolved (a || b) x
revolved-twice true true x = ap clean (weaken_idem x)
revolved-twice true false x = refl
revolved-twice false b x = refl

at_zero :
    (s t : Bool) (x : AutoGainControl) → view 0 (s ∷ t ∷ []) x ≡ revolved (hit 0 (s ∷ t ∷ [])) x
at_zero true true x = refl
at_zero true false x = refl
at_zero false true x = refl
at_zero false false x = refl

view-revolved_from :
    (d : ℕ) (ss : List Bool) (x : AutoGainControl)
    → d ≤ 1198
    → length ss ≡ suc (suc d)
    → view d ss x ≡ revolved (hit d ss) x
view-revolved_from d [] x h l = absurd (omega (arith, l))
view-revolved_from d (s ∷ []) x h l = absurd (omega (arith, l))
view-revolved_from zero (s ∷ t ∷ []) x h l = at_zero s t x
view-revolved_from zero (s ∷ t ∷ u ∷ ss) x h l = absurd (omega (arith, l))
view-revolved_from (suc d) (s ∷ t ∷ ss) x h l =
    let back : (suc d + 1199) % 1200 ≡ d = omega (arith, h) in
    let inner : (suc d == 1199) ≡ false = ground arith in
    rw (back, inner)
      (view-revolved_from d (t ∷ ss) (if s && ltb (suc d) 11 then weaken x else x)
          (omega (arith, h)) (omega (arith, l))
        ∙ revolved-twice (s && ltb (suc d) 11) (hit d (t ∷ ss)) x)

at_left : (s : Bool) (x : AutoGainControl) → view 1199 (s ∷ []) x ≡ revolved (hit 1199 (s ∷ [])) x
at_left true x = refl
at_left false x = refl

view-left :
    (ss : List Bool) (x : AutoGainControl)
    → length ss ≡ 1
    → view 1199 ss x ≡ revolved (hit 1199 ss) x
view-left [] x l = absurd (omega (arith, l))
view-left (s ∷ []) x l = at_left s x
view-left (s ∷ t ∷ ss) x l = absurd (omega (arith, l))

-- The packets up to the one that leaves the direction behind: at most a revolution.
pub view-round :
    (d : ℕ) (ss : List Bool) (x : AutoGainControl)
    → d < 1200
    → length ss ≡ 1 + suc d % 1200
    → view d ss x ≡ revolved (hit d ss) x
view-round d ss x h l = elim (Bool-cases (d == 1199)) [
  | inl e ↦
      let last : d ≡ 1199 = ==→eq d 1199 e in rw last (view-left ss x (omega (arith, l, last)))
  | inr e ↦
      let inner : d ≤ 1198 = omega (tests, h, e) in
      view-revolved_from d ss x inner (omega (arith, l, inner))
]

-- The saturated revolutions since the last one that was not.
abbrev pub streak : ℕ → List Bool → ℕ
streak n [] = n
streak n (h ∷ hs) = streak (if h then suc n else 0) hs

revolved-turns :
    (h : Bool) (n : ℕ) → revolved h (turns n fresh) ≡ turns (if h then suc n else 0) fresh
revolved-turns true n = refl
revolved-turns false n = clean_restores (turns n fresh) (ap (λ x. x.flag_cgange) (turns-gain n))

abbrev pub revolutions : List Bool → AutoGainControl → AutoGainControl
revolutions [] x = x
revolutions (h ∷ hs) x = revolutions hs (revolved h x)

-- A direction after revolutions that were saturated or not.
pub revolutions-streak :
    (hs : List Bool) (n : ℕ) → revolutions hs (turns n fresh) ≡ turns (streak n hs) fresh
revolutions-streak [] n = refl
revolutions-streak (h ∷ hs) n =
    ap (revolutions hs) (revolved-turns h n) ∙ revolutions-streak hs (if h then suc n else 0)
