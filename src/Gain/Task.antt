-- ===== src/Gain/Task.antt =====
-- src/main.c, lines 46-60: `udp_auto_gain_control_task` over the packets that its queue hands out.
use zynq_lwip_frtos.Base.{
  ℕ, suc, ◌+◌, arith, length, subst, ◌%◌, ◌^◌, ◌<◌, ◌≡◌, Bool, true, Option, none, some, List, [],
  ◌∷◌, ◌>>=◌,
}
use zynq_lwip_frtos.Gain.State.{
  Gain, AutoGainControl, create_auto_gain_control_array, initial,
  nominal_number_of_lines_per_revolution,
}
use zynq_lwip_frtos.Gain.Control.{word_at, triple_at, auto_gain_control}
use zynq_lwip_frtos.Gain.Invariant.{IsValid, Gives, gives, bind-Gives}
use zynq_lwip_frtos.Gain.SampleLoop.{Holds}
use zynq_lwip_frtos.Gain.Packet.{auto_gain_control-IsValid}
use zynq_lwip_frtos.Gain.Start.{create_auto_gain_control_array-IsValid}

-- Lines 52-59: a packet is handled and then freed. The count is of the packets freed.
unfoldable pub handle_packets : List (List (List ℕ)) → Gain → ℕ → Option (Gain × ℕ)
handle_packets [] s freed = some (s, freed)
handle_packets (p ∷ rest) s freed = do
  s' ← auto_gain_control p s
  handle_packets rest s' (suc freed)

-- The task with the array it got: without one, it writes through the NULL pointer at its first packet.
unfoldable pub start_with : Option (List AutoGainControl) → List (List (List ℕ)) → Option (Gain × ℕ)
start_with none packets = none
start_with (some lines) packets = handle_packets packets (initial lines) 0

unfoldable pub udp_auto_gain_control_task : Bool → List (List (List ℕ)) → Option (Gain × ℕ)
udp_auto_gain_control_task allocated packets = do
  array ← create_auto_gain_control_array allocated nominal_number_of_lines_per_revolution
  start_with array packets

-- A packet with a direction of the array and at least one sample, and with the samples it announces
-- in every buffer.
pub record Admissible (p : List (List ℕ)) : Type 0 where
  pub payload : List ℕ
  pub rest : List (List ℕ)
  pub azimuth : ℕ
  pub samples : ℕ
  pub chain : p ≡ payload ∷ rest
  pub direction : word_at payload 54 ≡ some azimuth
  pub announced : triple_at payload 70 ≡ some samples
  pub inside : azimuth < 64800
  pub some_samples : 0 < samples % 2 ^ 16
  pub complete : Holds 74 (samples % 2 ^ 16) (payload ∷ rest)

unfoldable pub AllAdmissible : List (List (List ℕ)) → Type 0
AllAdmissible [] = Unit
AllAdmissible (p ∷ rest) = Admissible p × AllAdmissible rest

-- The state is well formed, and so many packets are freed.
abbrev pub Handled : ℕ → Gain × ℕ → Type 0
Handled n (s, freed) = IsValid s × (freed ≡ n)

pub handle_packet-IsValid :
    (p : List (List ℕ)) (s : Gain)
    → Admissible p
    → IsValid s
    → Gives IsValid (auto_gain_control p s)
handle_packet-IsValid p s a v = rw a.chain (
    auto_gain_control-IsValid a.payload a.rest a.azimuth a.samples s a.direction a.announced
      a.inside a.some_samples a.complete v)

handle_packets-Handled :
    (packets : List (List (List ℕ))) (s : Gain) (freed : ℕ)
    → AllAdmissible packets
    → IsValid s
    → Gives (Handled (freed + length packets)) (handle_packets packets s freed)
unfolding handle_packets AllAdmissible
handle_packets-Handled [] s freed a v = gives (v, omega arith)
handle_packets-Handled (p ∷ rest) s freed (a, more) v =
    bind-Gives _ (handle_packet-IsValid p s a v) λ s' v'.
      subst (λ n. Gives (Handled n) (handle_packets rest s' (suc freed))) (omega arith)
        (handle_packets-Handled rest s' (suc freed) more v')

-- If its array is allocated, the task handles every sequence of packets, each with an azimuth word
-- below 64800, at least one sample in 16 bits, and buffers that hold the announced samples: it
-- returns to its queue with a well-formed state, in which every gain is between 100 and 127, and
-- has freed each packet once.
pub udp_auto_gain_control_task-Handled :
    (packets : List (List (List ℕ)))
    → AllAdmissible packets
    → Gives (Handled (length packets)) (udp_auto_gain_control_task true packets)
unfolding udp_auto_gain_control_task start_with
udp_auto_gain_control_task-Handled packets a =
    let (lines, e, v) = create_auto_gain_control_array-IsValid in
    rw e (
      subst (λ n. Gives (Handled n) (handle_packets packets (initial lines) 0)) (omega arith)
        (handle_packets-Handled packets (initial lines) 0 a v))
