-- ===== src/Pipeline/Tests.antt =====
-- Two packets of one buffer, and a round of the gain control, which waits.
use zynq_lwip_frtos.Base.{ℕ, ◌≡◌, refl, some, List, [], ◌∷◌, ◌++◌, replicate}
use zynq_lwip_frtos.Udp.Merge.{
  store, copy_pair, compare_low, is_greater, merge_pair, merge_words, limit, rest_len, rounds,
  merge_chain, merge,
}
use zynq_lwip_frtos.Udp.Task.{running, Pbuf, pbuf_free, initial, merge_packet, receive}
use zynq_lwip_frtos.Gain.State.{initial as gain_start}
use zynq_lwip_frtos.Pipeline.{
  Pipeline, Event, packet, gain_round, step, steps, udp_step, gain_step, gain_entry,
}
use zynq_lwip_frtos.Pipeline.Ownership.{AllAgree}

abbrev pbuf : ℕ → ℕ → Pbuf
pbuf address sample = record {
  address = address;
  packet = record { tot_len = 4; chain = (replicate 32 0 ++ 0 ∷ sample ∷ 0 ∷ sample ∷ []) ∷ [] };
}

abbrev begin : Pipeline
begin = record { parser = initial; queue = []; gain = gain_start []; calls = [] }

abbrev events : List Event
events = packet (pbuf 1 5) running running ∷ gain_round ∷ packet (pbuf 2 9) running running ∷ []

abbrev reached : Pipeline
reached = record begin {
  parser = record { old_pbuf = some (pbuf 1 9); counter_of_packets = 3; calls = pbuf_free 2 ∷ [] };
  calls = pbuf_free 2 ∷ [];
}

events_test : steps events begin ≡ some reached
unfolding steps step udp_step gain_step gain_entry receive merge_packet merge merge_chain
    merge_words merge_pair is_greater compare_low copy_pair store limit rest_len rounds
events_test = refl

events-AllAgree : AllAgree events
unfolding AllAgree
events-AllAgree = (refl, (refl, tt))
