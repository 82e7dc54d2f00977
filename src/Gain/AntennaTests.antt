-- ===== src/Gain/AntennaTests.antt =====
-- An antenna that is saturated everywhere, as packets of one sample, and the theorem on it.
use zynq_lwip_frtos.Base.{
  ℕ, zero, suc, ◌+◌, ◌-◌, ◌*◌, ◌/◌, ◌%◌, ◌<◌, ◌≡◌, refl, ap, sym, max, Bool, true, false, some,
  List, [], ◌∷◌, ◌++◌, arith, subst, ◌∙◌, tests, Bool-cases, inl, inr, length, get_elem?, replicate,
  ltb,
}
use mathlib.Core.List
use zynq_lwip_frtos.Gain.Control.{word_at, triple_at, next_line}
use zynq_lwip_frtos.Gain.Sweep.{streak}
use zynq_lwip_frtos.Gain.Near.{steps}
use zynq_lwip_frtos.Gain.Lines.{is_saturated, buffer_saturated}
use zynq_lwip_frtos.Gain.Turning.{line_of, packet_saturated}
use zynq_lwip_frtos.Gain.Antenna.{Turning, near_saturated, Rounds, udp_auto_gain_control_task-gain}
use zynq_lwip_frtos.Gain.Invariant.{Gives}
use zynq_lwip_frtos.Gain.Task.{Admissible, AllAdmissible, udp_auto_gain_control_task}

-- A packet of a direction, with one sample of 0xFFFF.
abbrev payload_at : ℕ → List ℕ
payload_at line =
    replicate 54 0
    ++ line * 54 / 256 ∷ line * 54 % 256 ∷ replicate 14 0
    ++ 0 ∷ 0 ∷ 1 ∷ 0 ∷ 0xFF ∷ 0xFF ∷ []

abbrev packet_at : ℕ → List (List ℕ)
packet_at line = payload_at line ∷ []

azimuth-word : (line : ℕ) → word_at (payload_at line) 54 ≡ some (line * 54)
unfolding word_at
azimuth-word line = ap some (omega arith)

samples-triple : (line : ℕ) → triple_at (payload_at line) 70 ≡ some 1
unfolding triple_at
samples-triple line = refl

packet_at-Admissible : (line : ℕ) → line < 1200 → Admissible (packet_at line)
packet_at-Admissible line h = record {
  payload = payload_at line;
  rest = [];
  azimuth = line * 54;
  samples = 1;
  chain = refl;
  direction = azimuth-word line;
  announced = samples-triple line;
  inside = omega (arith, h);
  some_samples = omega arith;
  complete = (omega arith, tt);
}

line_of-packet_at : (line : ℕ) → line_of (packet_at line) ≡ line
line_of-packet_at line = omega arith

packet_saturated-packet_at : (line : ℕ) → packet_saturated (packet_at line) ≡ true
unfolding packet_saturated is_saturated buffer_saturated
packet_saturated-packet_at line = refl

-- So many packets, from a direction on.
unfoldable scan : ℕ → ℕ → List (List (List ℕ))
scan line zero = []
scan line (suc n) = packet_at line ∷ scan ((line + 1) % 1200) n

length-scan : (line n : ℕ) → length (scan line n) ≡ n
unfolding scan
length-scan line zero = refl
length-scan line (suc n) = ap suc (length-scan ((line + 1) % 1200) n)

scan-AllAdmissible : (line n : ℕ) → line < 1200 → AllAdmissible (scan line n)
unfolding scan AllAdmissible
scan-AllAdmissible line zero h = tt
scan-AllAdmissible line (suc n) h =
    (packet_at-Admissible line h, scan-AllAdmissible ((line + 1) % 1200) n (omega arith))

scan-Turning : (line n : ℕ) → Turning line (scan line n)
unfolding scan Turning next_line
scan-Turning line zero = tt
scan-Turning line (suc n) = (line_of-packet_at line, scan-Turning ((line + 1) % 1200) n)

-- The packets from ten directions in front of the zone's end on.
near_saturated-scan :
    (j line n : ℕ)
    → line < 1200
    → j < 1200
    → steps line j < n
    → near_saturated j (scan line n) ≡ true
unfolding near_saturated scan
near_saturated-scan j line zero hl hj h = absurd (omega (arith, h))
near_saturated-scan j line (suc n) hl hj h =
    rw (packet_saturated-packet_at line, line_of-packet_at line)
      (elim (Bool-cases (ltb (steps line j) 11)) [
        | inl e ↦ rw e refl
        | inr e ↦
            let nearer : steps ((line + 1) % 1200) j < n = omega (tests, h, e, hl, hj) in
            rw (e, near_saturated-scan j ((line + 1) % 1200) n (omega arith) hj nearer) refl
      ])

-- The last three packets of a revolution of direction 0, and three revolutions more.
abbrev parts : List (List (List (List ℕ)))
parts = scan 4 3 ∷ scan 7 1200 ∷ scan 7 1200 ∷ scan 7 1200 ∷ []

AllAdmissible-both :
    (ps qs : List (List (List ℕ))) → AllAdmissible ps → AllAdmissible qs → AllAdmissible (ps ++ qs)
unfolding AllAdmissible
AllAdmissible-both [] qs a b = b
AllAdmissible-both (p ∷ ps) qs (a, more) b = (a, AllAdmissible-both ps qs more b)

part-AllAdmissible :
    (line n : ℕ) (rest : List (List (List (List ℕ))))
    → line < 1200
    → AllAdmissible (List.flatten rest)
    → AllAdmissible (List.flatten (scan line n ∷ rest))
unfolding List.flatten
part-AllAdmissible line n rest h a =
    AllAdmissible-both (scan line n) (List.flatten rest) (scan-AllAdmissible line n h) a

nothing-AllAdmissible : AllAdmissible (List.flatten {A = List (List ℕ)} [])
unfolding List.flatten AllAdmissible
nothing-AllAdmissible = tt

parts-AllAdmissible : AllAdmissible (List.flatten parts)
parts-AllAdmissible = part-AllAdmissible 4 3 _ (omega arith) (
    part-AllAdmissible 7 1200 _ (omega arith) (
      part-AllAdmissible 7 1200 _ (omega arith)
        (part-AllAdmissible 7 1200 _ (omega arith) nothing-AllAdmissible)))

part-Rounds :
    (line n : ℕ) (rest : List (List (List (List ℕ))))
    → 1 + suc (steps line 0) % 1200 ≡ n
    → Rounds 0 7 rest
    → Rounds 0 line (scan line n ∷ rest)
unfolding Rounds
part-Rounds line n rest h more = (length-scan line n ∙ sym h, scan-Turning line n, more)

nothing-Rounds : Rounds 0 7 []
unfolding Rounds
nothing-Rounds = tt

parts-Rounds : Rounds 0 4 parts
parts-Rounds = part-Rounds 4 3 _ refl (
    part-Rounds 7 1200 _ refl
      (part-Rounds 7 1200 _ refl (part-Rounds 7 1200 _ refl nothing-Rounds)))

parts-near : List.map (near_saturated 0) parts ≡ true ∷ true ∷ true ∷ true ∷ []
parts-near =
    rw
      (
        near_saturated-scan 0 4 3 (omega arith) (omega arith) (omega arith),
        near_saturated-scan 0 7 1200 (omega arith) (omega arith) (omega arith),
      )
      refl

-- The outcome for direction 0, from whether the parts are saturated.
abbrev Outcome : List Bool → Type 0
Outcome hits =
    Gives
      (λ r.
        (r.1 ≡ length (List.flatten parts))
        × (get_elem? r.0.lines 0
            ≡ some (
                let n = streak 0 hits in
                record {
                  counter_repetition = n % 256;
                  flag_cgange = false;
                  curent_gain = max 100 (127 - 10 * (n - 3));
                })))
      (udp_auto_gain_control_task true (List.flatten parts))

-- The gain is lowered in the fourth revolution.
udp_auto_gain_control_task-gain_example :
    Gives
      (λ r.
        (r.1 ≡ length (List.flatten parts))
        × (get_elem? r.0.lines 0
            ≡ some (record { counter_repetition = 4; flag_cgange = false; curent_gain = 117 })))
      (udp_auto_gain_control_task true (List.flatten parts))
udp_auto_gain_control_task-gain_example = subst Outcome parts-near (
    udp_auto_gain_control_task-gain 0 4 parts (omega arith) (omega arith) parts-AllAdmissible
      parts-Rounds)
