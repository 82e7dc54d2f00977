-- ===== src/Gain/Tests.antt =====
-- A packet with one sample, and the theorems of the gain control at concrete inputs.
use zynq_lwip_frtos.Base.{
  ℕ, true, ◌≡◌, refl, false, none, some, List, [], ◌∷◌, ◌++◌, arith, replicate, get_elem?,
}
use zynq_lwip_frtos.Gain.State.{AutoGainControl, Gain}
use zynq_lwip_frtos.Gain.Samples.{add_sample, sample_at}
use zynq_lwip_frtos.Gain.Control.{word_at, triple_at, auto_gain_control}
use zynq_lwip_frtos.Gain.Invariant.{Gives}
use zynq_lwip_frtos.Gain.Packet.{auto_gain_control_azimuth}
use zynq_lwip_frtos.Gain.Task.{
  Admissible, AllAdmissible, Handled, udp_auto_gain_control_task,
  udp_auto_gain_control_task-Handled,
}
use zynq_lwip_frtos.Gain.Start.{start, start-IsValid}

-- A packet with this azimuth word and number of samples, and one saturated sample.
abbrev packet : ℕ → ℕ → ℕ → List ℕ
packet high low samples =
    replicate 54 0 ++ high ∷ low ∷ replicate 14 0 ++ 0 ∷ 0 ∷ samples ∷ 0 ∷ 0xFF ∷ 0xFF ∷ []

azimuth-word : word_at (packet 0 54 1) 54 ≡ some 54
unfolding word_at
azimuth-word = refl

samples-triple : triple_at (packet 0 54 1) 70 ≡ some 1
unfolding triple_at
samples-triple = refl

far_azimuth-word : word_at (packet 0xFD 0x20 1) 54 ≡ some 64800
unfolding word_at
far_azimuth-word = refl

far_samples-triple : triple_at (packet 0xFD 0x20 1) 70 ≡ some 1
unfolding triple_at
far_samples-triple = refl

auto_gain_control_azimuth_example :
    (value : ℕ) × (sample_at (packet 0xFD 0x20 1) 74 0 ≡ some value)
    × (get_elem? start.average_values_of_the_ruler 1200 ≡ none)
    × (add_sample 1200 value start ≡ none)
    × (auto_gain_control (packet 0xFD 0x20 1 ∷ []) start ≡ none)
auto_gain_control_azimuth_example =
    auto_gain_control_azimuth (packet 0xFD 0x20 1) [] 64800 1 start far_azimuth-word
      far_samples-triple (omega arith) (omega arith) (omega arith) (omega arith) start-IsValid

no_samples-triple : triple_at (packet 0 54 0) 70 ≡ some 0
unfolding triple_at
no_samples-triple = refl

abbrev weakened : AutoGainControl
weakened = record { counter_repetition = 9; flag_cgange = false; curent_gain = 100 }

abbrev weak_start : Gain
weak_start = record start { lines = weakened ∷ [] }

packet-Admissible : Admissible (packet 0 54 1 ∷ [])
packet-Admissible = record {
  payload = packet 0 54 1;
  rest = [];
  azimuth = 54;
  samples = 1;
  chain = refl;
  direction = azimuth-word;
  announced = samples-triple;
  inside = omega arith;
  some_samples = omega arith;
  complete = (omega arith, tt);
}

abbrev packets : List (List (List ℕ))
packets = (packet 0 54 1 ∷ []) ∷ (packet 0 54 1 ∷ []) ∷ []

packets-AllAdmissible : AllAdmissible packets
unfolding AllAdmissible
packets-AllAdmissible = (packet-Admissible, (packet-Admissible, tt))

udp_auto_gain_control_task-Handled_example :
    Gives (Handled 2) (udp_auto_gain_control_task true packets)
udp_auto_gain_control_task-Handled_example =
    udp_auto_gain_control_task-Handled packets packets-AllAdmissible
