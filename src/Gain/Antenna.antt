-- ===== src/Gain/Antenna.antt =====
-- `udp_auto_gain_control_task` while the antenna turns, one packet for each direction: one direction over
-- any number of rounds.
use zynq_lwip_frtos.Base.{
  Option-cases, inl, inr, length-append, ℕ, zero, suc, ◌+◌, ◌-◌, ◌*◌, ◌%◌, ◌<◌, ◌≡◌, refl, sym, ap,
  ◌∙◌, max, Bool, true, false, ◌&&◌, ◌||◌, Option, some, List, [], ◌∷◌, ◌++◌, arith, length,
  get_elem?, ltb, ◌>>=◌,
}
use mathlib.Core.List
use zynq_lwip_frtos.Gain.State.{AutoGainControl, Gain, fresh, fill, create_auto_gain_control_array}
use zynq_lwip_frtos.Gain.Control.{next_line, auto_gain_control}
use zynq_lwip_frtos.Gain.Cycle.{turns-gain}
use zynq_lwip_frtos.Gain.Near.{steps}
use zynq_lwip_frtos.Gain.Handles.{entry_after}
use zynq_lwip_frtos.Gain.Sweep.{
  turn, view, hit, view-round, streak, revolutions, revolutions-streak,
}
use zynq_lwip_frtos.Gain.Turning.{
  line_of, packet_saturated, auto_gain_control-Handles, entry_after-turn, next-steps,
}
use zynq_lwip_frtos.Gain.Invariant.{IsValid, Gives, gives, bind-Gives}
use zynq_lwip_frtos.Gain.Start.{start, start-IsValid}
use zynq_lwip_frtos.Gain.Task.{
  start_with, udp_auto_gain_control_task, Admissible, AllAdmissible, handle_packets,
  handle_packet-IsValid,
}

-- One packet for each direction, from `line` on.
unfoldable pub Turning : ℕ → List (List (List ℕ)) → Type 0
Turning line [] = Unit
Turning line (p ∷ ps) = (line_of p ≡ line) × Turning (next_line line) ps

-- Whether a saturated packet is at most five steps away from the direction `j`.
unfoldable pub near_saturated : ℕ → List (List (List ℕ)) → Bool
near_saturated j [] = false
near_saturated j (p ∷ ps) =
    (packet_saturated p && ltb (steps (line_of p) j) 11) || near_saturated j ps

near_saturated-hit :
    (j line : ℕ) (ps : List (List (List ℕ)))
    → j < 1200
    → line < 1200
    → Turning line ps
    → near_saturated j ps ≡ hit (steps line j) (List.map packet_saturated ps)
unfolding Turning near_saturated next_line
near_saturated-hit j line [] hj hl t = refl
near_saturated-hit j line (p ∷ ps) hj hl (e, t) =
    rw (e, near_saturated-hit j (next_line line) ps hj (omega arith) t, next-steps line j hl hj)
      refl

-- The state is well formed, and the direction `j` has this entry.
abbrev pub Shows : ℕ → AutoGainControl → Gain → Type 0
Shows j x s = IsValid s × (get_elem? s.lines j ≡ some x)

after-Gives :
    {A : Type 0} {P Q : A → Type 0} (m : Option A)
    → Gives P m
    → ((a : A) → m ≡ some a → P a → Q a)
    → Gives Q m
after-Gives m (gives p) k = gives (k _ refl p)

handle_packet-Shows :
    (j : ℕ) (p : List (List ℕ)) (x : AutoGainControl) (s : Gain)
    → j < 1200
    → line_of p < 1200
    → Admissible p
    → Shows j x s
    → Gives (Shows j (turn (steps (line_of p) j) (packet_saturated p) x)) (auto_gain_control p s)
handle_packet-Shows j p x s hj hl a (v, e) =
    after-Gives _ (handle_packet-IsValid p s a v) λ s' e' v'. (
      v',
      (auto_gain_control-Handles p s s' a v.lines e').at j hj
          ∙ ap (entry_after (line_of p) (packet_saturated p) j) e
          ∙ entry_after-turn (line_of p) (packet_saturated p) j x hl hj,
    )

-- The same with the number of the freed packets.
abbrev pub ShowsFreed : ℕ → AutoGainControl → ℕ → Gain × ℕ → Type 0
ShowsFreed j x n (s, freed) = Shows j x s × (freed ≡ n)

handle_packets-view :
    (j line : ℕ) (ps : List (List (List ℕ))) (x : AutoGainControl) (s : Gain) (freed : ℕ)
    → j < 1200
    → line < 1200
    → AllAdmissible ps
    → Turning line ps
    → Shows j x s
    → Gives
        (ShowsFreed j (view (steps line j) (List.map packet_saturated ps) x) (freed + length ps))
        (handle_packets ps s freed)
unfolding handle_packets AllAdmissible Turning next_line
handle_packets-view j line [] x s freed hj hl a t v = gives (v, omega arith)
handle_packets-view j line (p ∷ ps) x s freed hj hl (a, more) (e, t) v =
    bind-Gives _ (handle_packet-Shows j p x s hj (omega (arith, e, hl)) a v) λ s' v'.
      let shift : suc freed + length ps ≡ freed + suc (length ps) = omega arith in
      rw (e, next-steps line j hl hj, shift) at
        (handle_packets-view j (next_line line) ps _ s' (suc freed) hj (omega arith) more t v')

-- Packets in two parts.
handle_packets-append :
    (ps qs : List (List (List ℕ))) (s : Gain) (freed : ℕ)
    → handle_packets (ps ++ qs) s freed
      ≡ (handle_packets ps s freed >>= λ r. handle_packets qs r.0 r.1)
unfolding handle_packets
handle_packets-append [] qs s freed = refl
handle_packets-append (p ∷ ps) qs s freed = elim (Option-cases (auto_gain_control p s)) [
  | inl e ↦ rw e
  | inr (s', e) ↦ rw e (handle_packets-append ps qs s' (suc freed))
]

AllAdmissible-append :
    (ps qs : List (List (List ℕ))) → AllAdmissible (ps ++ qs) → AllAdmissible ps × AllAdmissible qs
unfolding AllAdmissible
AllAdmissible-append [] qs a = (tt, a)
AllAdmissible-append (p ∷ ps) qs (a, more) =
    let (first, rest) = AllAdmissible-append ps qs more in ((a, first), rest)

length-map : {A B : Type 0} (f : A → B) (xs : List A) → length (List.map f xs) ≡ length xs
length-map f [] = refl
length-map f (x ∷ xs) = ap suc (length-map f xs)

-- The packets in rounds that each end with the packet after which the direction `j` is behind the zone:
-- `line` is the direction of the next packet.
unfoldable pub Rounds : ℕ → ℕ → List (List (List (List ℕ))) → Type 0
Rounds j line [] = Unit
Rounds j line (r ∷ rs) =
    (length r ≡ 1 + suc (steps line j) % 1200) × Turning line r × Rounds j ((j + 7) % 1200) rs

handle_packets-Rounds :
    (j line : ℕ) (rs : List (List (List (List ℕ)))) (x : AutoGainControl) (s : Gain) (freed : ℕ)
    → j < 1200
    → line < 1200
    → AllAdmissible (List.flatten rs)
    → Rounds j line rs
    → Shows j x s
    → Gives
        (ShowsFreed j
          (revolutions (List.map (near_saturated j) rs) x)
          (freed + length (List.flatten rs)))
        (handle_packets (List.flatten rs) s freed)
unfolding handle_packets List.flatten Rounds
handle_packets-Rounds j line [] x s freed hj hl a t v = gives (v, omega arith)
handle_packets-Rounds j line (r ∷ rs) x s freed hj hl a (len, t, more) v =
    let (first, rest) = AllAdmissible-append r (List.flatten rs) a in
    let seen =
      view-round (steps line j) (List.map packet_saturated r) x (omega arith)
        (length-map packet_saturated r ∙ len) in
    let near = near_saturated-hit j line r hj hl t in
    rw (handle_packets-append r (List.flatten rs) s freed) (
      bind-Gives _ (handle_packets-view j line r x s freed hj hl first t v) λ r' (v', n).
        let shift : freed + length r + length (List.flatten rs)
            ≡ freed + length (r ++ List.flatten rs) =
          omega (arith, length-append r (List.flatten rs)) in
        rw n (
          rw (seen, sym near, shift) at
            (handle_packets-Rounds j ((j + 7) % 1200) rs _ r'.0 (freed + length r) hj (omega arith)
              rest more v')))

-- The entry of a direction at the start.
fill-fresh : (n j : ℕ) → j < n → get_elem? (fill n) j ≡ some fresh
unfolding fill
fill-fresh zero j h = absurd (omega (arith, h))
fill-fresh (suc n) zero h = refl
fill-fresh (suc n) (suc j) h = fill-fresh n j (omega (arith, h))

-- If its array is allocated, the task handles every sequence of packets, each with an azimuth word
-- below 64800, at least one sample in 16 bits, and buffers that hold the announced samples, in which
-- the antenna turns by one direction from each packet to the next. For every direction such that the
-- sequence ends with a packet that leaves it six behind, cut the sequence into parts after each such
-- packet, and call a part saturated if it has a packet at most five directions away with a sample
-- above the permissible value. Then, after the packets, the direction has counted, modulo 256, the
-- parts at the end that were saturated in a row, and has the full gain of 127 less 10 for each of
-- them beyond the third, never below 100; and all packets are freed.
pub udp_auto_gain_control_task-gain :
    (j line : ℕ) (parts : List (List (List (List ℕ))))
    → j < 1200
    → line < 1200
    → AllAdmissible (List.flatten parts)
    → Rounds j line parts
    → Gives
        (λ r.
          (r.1 ≡ length (List.flatten parts))
          × (get_elem? r.0.lines j
              ≡ some (
                  let n = streak 0 (List.map (near_saturated j) parts) in
                  record {
                    counter_repetition = n % 256;
                    flag_cgange = false;
                    curent_gain = max 100 (127 - 10 * (n - 3));
                  })))
        (udp_auto_gain_control_task true (List.flatten parts))
unfolding udp_auto_gain_control_task start_with create_auto_gain_control_array
udp_auto_gain_control_task-gain j line parts hj hl a t =
    after-Gives _
      (handle_packets-Rounds j line parts fresh start 0 hj hl a t
        (start-IsValid, fill-fresh 1200 j hj))
      λ r same ((v, e), n).
        let turned =
          revolutions-streak (List.map (near_saturated j) parts) 0
          ∙ turns-gain (streak 0 (List.map (near_saturated j) parts)) in
        (n ∙ omega arith, e ∙ ap some turned)
