-- ===== src/Gain/Packet.antt =====
-- The handler of a packet: when it returns, and the two headers that lead outside defined behaviour.
use zynq_lwip_frtos.Base.{
  ℕ, zero, suc, ◌+◌, ◌*◌, ◌/◌, ◌%◌, ◌^◌, ◌≤◌, ◌<◌, ◌≡◌, ◌⊎◌, refl, inl, inr, none, some, List, [],
  ◌∷◌, ◌++◌, arith, length, get_elem?, get_elem?-lt, ◌==◌, if◌then◌else◌, Option-cases, wrap16,
}
use zynq_lwip_frtos.Pl.{numbered, mesg_size, byte, send_to_pl-numbered}
use zynq_lwip_frtos.Gain.State.{AutoGainControl, Gain}
use zynq_lwip_frtos.Gain.Zone.{send_gain, update_gain_value}
use zynq_lwip_frtos.Gain.Samples.{
  add_sample, sample_at, sample_loop, segment_loop, divide, average_line,
}
use zynq_lwip_frtos.Gain.Control.{
  filling_auto_gain_control_array, word_at, triple_at, read_mode_48, auto_gain_control,
}
use zynq_lwip_frtos.Gain.Arrays.{get_elem?-out, update_at_out}
use zynq_lwip_frtos.Gain.Invariant.{IsValid, Gives, gives, bind-Gives}
use zynq_lwip_frtos.Gain.SampleLoop.{Holds}
use zynq_lwip_frtos.Gain.Filling.{filling-IsValid}

word_at-Gives :
    (payload : List ℕ) (i : ℕ) → i + 1 < length payload → Gives (λ _. Unit {0}) (word_at payload i)
unfolding word_at
word_at-Gives payload i h =
    let (a, e) = get_elem?-lt payload i (omega arith) in
    let (b, e') = get_elem?-lt payload (i + 1) h in rw (e, e') (gives tt)

triple_at-Gives :
    (payload : List ℕ) (i : ℕ)
    → i + 2 < length payload
    → Gives (λ _. Unit {0}) (triple_at payload i)
unfolding triple_at
triple_at-Gives payload i h =
    let (a, e) = get_elem?-lt payload i (omega arith) in
    let (b, e') = get_elem?-lt payload (i + 1) (omega arith) in
    let (c, e'') = get_elem?-lt payload (i + 2) h in rw (e, e', e'') (gives tt)

read_mode_48-Gives :
    (payload : List ℕ) → 74 ≤ length payload → Gives (λ _. Unit {0}) (read_mode_48 payload)
unfolding read_mode_48
read_mode_48-Gives payload h =
    bind-Gives _ (word_at-Gives payload 40 (omega arith))
      λ azimuth _. bind-Gives _ (triple_at-Gives payload 56 (omega arith)) λ samples _. gives tt

-- A packet is handled, and the state stays well formed, if its azimuth word is below 64800, it
-- announces at least one sample in 16 bits, and every buffer of the chain holds the announced
-- samples, in the first buffer behind the header of 74 bytes.
pub auto_gain_control-IsValid :
    (payload : List ℕ) (rest : List (List ℕ)) (azimuth samples : ℕ) (s : Gain)
    → word_at payload 54 ≡ some azimuth
    → triple_at payload 70 ≡ some samples
    → azimuth < 64800
    → 0 < samples % 2 ^ 16
    → Holds 74 (samples % 2 ^ 16) (payload ∷ rest)
    → IsValid s
    → Gives IsValid (auto_gain_control (payload ∷ rest) s)
unfolding auto_gain_control
auto_gain_control-IsValid payload rest azimuth samples s ha hs small some_samples holds v =
    bind-Gives _ (read_mode_48-Gives payload (omega (arith, holds.0))) λ replaced _.
      rw (ha, hs)
        (filling-IsValid (payload ∷ rest) (samples % 2 ^ 16) (wrap16 (azimuth / 54)) s holds
          some_samples (omega arith) v)

-- Without samples, or with a direction outside the array, the loops do nothing or fault.
segment_loop_idle :
    (p : List (List ℕ)) (kursor line : ℕ) (s : Gain) → segment_loop p kursor 0 line s ≡ some s
unfolding segment_loop sample_loop
segment_loop_idle [] kursor line s = refl
segment_loop_idle (payload ∷ rest) kursor line s = segment_loop_idle rest 0 line s

add_sample_out :
    (line value : ℕ) (s : Gain)
    → length s.average_values_of_the_ruler ≤ line
    → add_sample line value s ≡ none
unfolding add_sample
add_sample_out line value s h = rw (
    update_at_out s.average_values_of_the_ruler line
      (λ sum. if s.flag_first_disckret then value else (sum + value) % 2 ^ 32) h)

sample_loop_out :
    (payload : List ℕ) (kursor line i n : ℕ) (s : Gain)
    → length s.average_values_of_the_ruler ≤ line
    → sample_loop payload kursor line i (suc n) s ≡ none
unfolding sample_loop
sample_loop_out payload kursor line i n s h = elim (Option-cases (sample_at payload kursor i)) [
  | inl e ↦ rw e
  | inr (value, e) ↦ rw (e, add_sample_out line value s h)
]

segment_loop_out :
    (p : List (List ℕ)) (kursor n line : ℕ) (s : Gain)
    → length s.average_values_of_the_ruler ≤ line
    → (segment_loop p kursor n line s ≡ none) ⊎ (segment_loop p kursor n line s ≡ some s)
unfolding segment_loop
segment_loop_out p kursor zero line s h = inr (segment_loop_idle p kursor line s)
segment_loop_out [] kursor (suc n) line s h = inr refl
segment_loop_out (payload ∷ rest) kursor (suc n) line s h =
    inl (rw (sample_loop_out payload kursor line 0 n s h))

filling_out :
    (p : List (List ℕ)) (n line : ℕ) (s : Gain)
    → length s.average_values_of_the_ruler ≤ line
    → filling_auto_gain_control_array p n line s ≡ none
unfolding filling_auto_gain_control_array average_line
filling_out p n line s h = elim (segment_loop_out p 74 n line s h) [
  | inl e ↦ rw e
  | inr e ↦ rw (e, get_elem?-out s.average_values_of_the_ruler line h)
]

filling_idle :
    (p : List (List ℕ)) (line : ℕ) (s : Gain) → filling_auto_gain_control_array p 0 line s ≡ none
unfolding filling_auto_gain_control_array average_line divide
filling_idle p line s =
    rw (segment_loop_idle p 74 line s)
      (elim (Option-cases (get_elem? s.average_values_of_the_ruler line)) [
        | inl e ↦ rw e
        | inr (x, e) ↦ rw e
      ])

-- With such an azimuth word the handler leaves the behaviour of C in any case.
auto_gain_control_out :
    (payload : List ℕ) (rest : List (List ℕ)) (azimuth : ℕ) (s : Gain)
    → word_at payload 54 ≡ some azimuth
    → 64800 ≤ azimuth
    → azimuth < 2 ^ 16
    → IsValid s
    → auto_gain_control (payload ∷ rest) s ≡ none
unfolding auto_gain_control
auto_gain_control_out payload rest azimuth s ha lo hi v =
    elim (Option-cases (read_mode_48 payload)) [
      | inl e ↦ rw e
      | inr (r, e) ↦
          rw (e, ha)
            (elim (Option-cases (triple_at payload 70)) [
              | inl e' ↦ rw e'
              | inr (samples, e') ↦ rw (
                e',
                filling_out (payload ∷ rest) (wrap16 samples) (wrap16 (azimuth / 54)) s
                    (omega (arith, v.ruler)),
              )
            ])
    ]

-- A packet with an azimuth word of 64800 or more that announces a sample and holds the first one:
-- this sample is read, its direction has no place in the array of averages, and adding it, the
-- write behind the end of the array, is where the handler leaves the behaviour of C.
pub auto_gain_control_azimuth :
    (payload : List ℕ) (rest : List (List ℕ)) (azimuth samples : ℕ) (s : Gain)
    → word_at payload 54 ≡ some azimuth
    → triple_at payload 70 ≡ some samples
    → 0 < samples % 2 ^ 16
    → 76 ≤ length payload
    → 64800 ≤ azimuth
    → azimuth < 2 ^ 16
    → IsValid s
    → (value : ℕ) × (sample_at payload 74 0 ≡ some value)
      × (get_elem? s.average_values_of_the_ruler (azimuth / 54) ≡ none)
      × (add_sample (azimuth / 54) value s ≡ none)
      × (auto_gain_control (payload ∷ rest) s ≡ none)
unfolding sample_at
auto_gain_control_azimuth payload rest azimuth samples s ha hs announced holds lo hi v =
    let behind : length s.average_values_of_the_ruler ≤ azimuth / 54 = omega (arith, v.ruler) in
    let (high, e) = get_elem?-lt payload 74 (omega arith) in
    let (low, e') = get_elem?-lt payload 75 holds in
    (
      high * 0x100 + low,
      rw (e, e') refl,
      get_elem?-out s.average_values_of_the_ruler (azimuth / 54) behind,
      add_sample_out (azimuth / 54) (high * 0x100 + low) s behind,
      auto_gain_control_out payload rest azimuth s ha lo hi v,
    )

-- A packet that announces a multiple of 65536 samples, zero among them, makes the handler divide by
-- zero, or read outside the packet before that.
pub auto_gain_control_no_samples :
    (payload : List ℕ) (rest : List (List ℕ)) (samples : ℕ) (s : Gain)
    → triple_at payload 70 ≡ some samples
    → samples % 2 ^ 16 ≡ 0
    → auto_gain_control (payload ∷ rest) s ≡ none
unfolding auto_gain_control
auto_gain_control_no_samples payload rest samples s hs hz =
    elim (Option-cases (read_mode_48 payload)) [
      | inl e ↦ rw e
      | inr (r, e) ↦ rw e (elim (Option-cases (word_at payload 54)) [
        | inl e' ↦ rw e'
        | inr (azimuth, e') ↦
            rw (e', hs) (rw hz (filling_idle (payload ∷ rest) (wrap16 (azimuth / 54)) s))
      ])
    ]

-- Setting the gain of a direction sends it exactly if it differs from the one sent last: then the
-- two bytes of the command appear on the console. Afterwards it is the one sent last in any case,
-- and nothing else has changed.
pub update_gain_value-console :
    (i : ℕ) (s : Gain) (x : AutoGainControl)
    → get_elem? s.lines i ≡ some x
    → update_gain_value i s
      ≡ some (record s {
        old_gain_value = x.curent_gain;
        console =
            if x.curent_gain == s.old_gain_value
            then s.console
            else s.console ++ mesg_size 2 ∷ byte 0 x.curent_gain ∷ byte 1 0xC3 ∷ [];
      })
unfolding update_gain_value send_gain numbered
update_gain_value-console i s x h =
    ground (arith, send_to_pl-numbered (x.curent_gain ∷ 0xC3 ∷ []) 2 (omega arith))
