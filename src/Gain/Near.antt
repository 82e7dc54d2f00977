-- ===== src/Gain/Near.antt =====
-- The zone as a set of directions: those at most five steps away on the circle.
use zynq_lwip_frtos.Base.{
  ℕ, zero, suc, ◌+◌, ◌-◌, ◌%◌, ◌≤◌, ◌<◌, ◌≡◌, refl, ap, ◌∙◌, Bool, false, ◌&&◌, ◌||◌, Option, none,
  some, List, arith, length, length-set, get_elem?, set, ltb, leb, ◌==◌, if◌then◌else◌,
}
use mathlib.Core.Option
use zynq_lwip_frtos.Gain.State.{AutoGainControl, Gain}
use zynq_lwip_frtos.Gain.Zone.{zone_index, weaken, weaken_from, weaken_zone}
use zynq_lwip_frtos.Gain.Cycle.{InRange, weaken_idem, weaken-InRange}
use zynq_lwip_frtos.Gain.Arrays.{All, All-get, All-set, update_at-lt, get_elem?-set}

-- The directions that the loop visits from an offset on.
unfoldable pub in_zone : ℕ → ℕ → ℕ → ℕ → Bool
in_zone line offset zero j = false
in_zone line offset (suc n) j = (zone_index line offset == j) || in_zone line (suc offset) n j

zone_index-lt : (line offset : ℕ) → zone_index line offset < 1200
unfolding zone_index
zone_index-lt line offset = omega arith

-- How far a direction lies behind the start of the zone.
abbrev pub steps : ℕ → ℕ → ℕ
steps line j = (j + 1205 - line) % 1200

zone_index-steps :
    (line offset j : ℕ)
    → line < 1200
    → offset < 1200
    → j < 1200
    → (zone_index line offset == j) ≡ (offset == steps line j)
unfolding zone_index
zone_index-steps line offset j hl ho hj = ground arith

in_zone-steps :
    (line offset n j : ℕ)
    → line < 1200
    → j < 1200
    → offset + n ≤ 1200
    → in_zone line offset n j ≡ (leb offset (steps line j) && ltb (steps line j) (offset + n))
unfolding in_zone
in_zone-steps line offset zero j hl hj h = ground arith
in_zone-steps line offset (suc n) j hl hj h =
    rw
      (
        zone_index-steps line offset j hl (omega arith) hj,
        in_zone-steps line (suc offset) n j hl hj (omega arith),
      )
      (by_steps (steps line j))
  where
    by_steps :
        (d : ℕ)
        → (offset == d) || (leb (suc offset) d && ltb d (suc offset + n))
          ≡ (leb offset d && ltb d (offset + suc n))
    by_steps d = ground arith

-- The lines after the loop: those in the zone are weakened, once.
abbrev pub Weakened : (line offset n : ℕ) (xs ys : List AutoGainControl) → Type 0
Weakened line offset n xs ys =
    (length ys ≡ 1200)
    × (All InRange xs → All InRange ys)
    × ((j : ℕ)
        → get_elem? ys j ≡ (
            if in_zone line offset n j then Option.map weaken (get_elem? xs j) else get_elem? xs j))

twice : (o : Option AutoGainControl) → Option.map weaken (Option.map weaken o) ≡ Option.map weaken o
twice none = refl
twice (some x) = ap some (weaken_idem x)

pub weaken_from-Weakened :
    (line offset n : ℕ) (xs : List AutoGainControl)
    → length xs ≡ 1200
    → (ys : List AutoGainControl) × (weaken_from line offset n xs ≡ some ys)
      × Weakened line offset n xs ys
unfolding weaken_from in_zone
weaken_from-Weakened line offset zero xs h = (xs, refl, (h, (λ v. v), λ j. refl))
weaken_from-Weakened line offset (suc n) xs h =
    let i : ℕ = zone_index line offset in
    let (x, e, u) = update_at-lt xs i weaken (omega (arith, h, zone_index-lt line offset)) in
    let (ys, e', (len, ranges, at)) =
      weaken_from-Weakened line (suc offset) n (set xs i (weaken x))
        (length-set xs i (weaken x) ∙ h) in
    (
      ys,
      rw u e',
      (
        len,
        (λ v.
            ranges
              (All-set InRange xs i (weaken x) v (weaken-InRange x (All-get InRange xs i x v e)))),
        λ j. ground (arith, at j, get_elem?-set xs i j weaken x e, twice (get_elem? xs j)),
      ),
    )

-- A saturated sample weakens exactly the directions at most five steps from its own, each once, and
-- leaves every other direction and everything else as it was.
pub weaken_zone-steps :
    (line : ℕ) (s : Gain)
    → length s.lines ≡ 1200
    → line < 1200
    → (lines : List AutoGainControl) × (weaken_zone line s ≡ some (record s { lines = lines }))
      × ((j : ℕ)
          → j < 1200
          → get_elem? lines j ≡ (
              if ltb (steps line j) 11
              then Option.map weaken (get_elem? s.lines j)
              else get_elem? s.lines j))
weaken_zone-steps line s h hl =
    let (ys, e, (len, ranges, at)) = weaken_from-Weakened line 0 11 s.lines h in
    (ys, rw e, λ j hj. ground (arith, at j, in_zone-steps line 0 11 j hl hj (omega arith)))
