-- ===== src/Pipeline/DefinedTests.antt =====
-- Packets of one format in any order of steps, and two packets that are not.
use zynq_lwip_frtos.Base.{
  ℕ, occurs, ◌+◌, ◌<◌, ◌≡◌, ◌*◌, refl, true, false, none, some, List, [], ◌∷◌, ◌++◌, arith,
  replicate, get_or, ◌>>=◌,
}
use zynq_lwip_frtos.Handoff.Queue.{Fifo, listed}
use zynq_lwip_frtos.Udp.Merge.{
  Packet, store, copy_pair, compare_low, is_greater, merge_pair, merge_words, limit, rest_len,
  rounds, merge_chain, merge,
}
use zynq_lwip_frtos.Udp.Total.{sizes}
use zynq_lwip_frtos.Udp.Pool.{InPool, Delivered}
use zynq_lwip_frtos.Udp.Task.{Pbuf, initial}
use zynq_lwip_frtos.Gain.Start.{start, start-IsValid}
use zynq_lwip_frtos.Pipeline.Schedule.{
  waiting, System, Event, arrives, takes, calls_next, gain_takes, gain_handles, commands, step,
  arrive,
}
use zynq_lwip_frtos.Pipeline.Reached.{Begins, Reach, start as start_state, later}
use zynq_lwip_frtos.Pipeline.Packet.{freed, kept_by}
use zynq_lwip_frtos.Pipeline.Drained.{Works, AtRest, Reach-AtRest}
use zynq_lwip_frtos.Pipeline.Format.{HoldsIn, Format, Sound}
use zynq_lwip_frtos.Pipeline.Sound.{SoundSystem}

-- A packet of 76 bytes of this azimuth, with one sample, that announces these samples, in an entry of the pool.
abbrev pbuf : (address azimuth middle low : ℕ) → Pbuf
pbuf address azimuth middle low = record {
  address = address;
  packet = record {
    tot_len = 76;
    chain =
        (replicate 54 0
          ++ 0 ∷ azimuth ∷ replicate 14 0
          ++ 0 ∷ middle ∷ low ∷ 0 ∷ 0xFF ∷ 0xFF ∷ replicate 1582 0)
        ∷ [];
  };
}

one_sample_complete : HoldsIn 74 1 (1658 ∷ [])
unfolding HoldsIn
one_sample_complete = (omega arith, tt)

abbrev one_sample : Format
one_sample = record {
  size = 1658;
  others = [];
  high = 0;
  middle = 0;
  low = 1;
  some_samples = omega arith;
  complete = one_sample_complete;
}

pbuf-Delivered : Delivered (1658 ∷ []) 76
unfolding InPool
pbuf-Delivered = record { lens = 76 ∷ []; whole = refl; in_pool = (omega arith, omega arith, tt) }

pbuf-Sound : (address azimuth : ℕ) → azimuth < 64800 → Sound one_sample (pbuf address azimuth 0 1)
unfolding sizes
pbuf-Sound address azimuth h = record {
  shape = refl;
  delivered = pbuf-Delivered;
  inside = omega (arith, h);
  high = refl;
  middle = refl;
  low = refl;
}

abbrev two_hundred : Fifo Pbuf (List Pbuf)
two_hundred = listed 200

abbrev begin : System (List Pbuf)
begin = record {
  inbox = [];
  parser = initial;
  place = waiting;
  queue = [];
  suspended = false;
  handling = none;
  gain = start;
  calls = [];
}

begin-Begins : Begins two_hundred begin
begin-Begins = record {
  parser = refl;
  place = refl;
  inbox = refl;
  queue = refl;
  handling = refl;
  calls = refl;
}

-- A burst of packets, a command in the middle, and all tasks.
abbrev events : List Event
events =
    arrives (pbuf 1 54 0 1)
    ∷ arrives (pbuf 2 55 0 1)
    ∷ takes
    ∷ commands true
    ∷ takes
    ∷ calls_next
    ∷ gain_takes
    ∷ gain_handles
    ∷ []

-- Packets that announce 0x1FF and 0x200 samples are merged into one that announces 0x2FF.
abbrev announced : Packet → ℕ
announced p = elim p.chain [ [] ↦ 0 | q ∷ qs ↦ get_or q 71 0 * 0x100 + get_or q 72 0 ]

mixed_header_test :
    (merge (pbuf 1 54 2 0).packet (pbuf 2 54 1 0xFF).packet >>= λ p. some (announced p))
    ≡ some 0x2FF
unfolding merge merge_chain merge_words merge_pair is_greater compare_low copy_pair store limit
    rest_len rounds
mixed_header_test = refl

-- Two packets have arrived.
abbrev both : System (List Pbuf)
both = record begin { inbox = pbuf 1 54 0 1 ∷ pbuf 2 55 0 1 ∷ [] }

both-Reach : Reach two_hundred (1 ∷ 2 ∷ []) both
unfolding step arrive
both-Reach =
    later (arrives (pbuf 2 55 0 1))
      (later {s = begin} {s' = record begin { inbox = pbuf 1 54 0 1 ∷ [] }}
        (arrives (pbuf 1 54 0 1)) (start_state begin-Begins) refl refl refl)
      refl refl refl

both-SoundSystem : SoundSystem one_sample two_hundred both
both-SoundSystem = record {
  inbox = (pbuf-Sound 1 54 (omega arith), (pbuf-Sound 2 55 (omega arith), tt));
  kept = λ later. absurd (cc);
  place = tt;
  queue = tt;
  handling = tt;
  gain = start-IsValid;
}

Reach-AtRest_example :
    (s' : System (List Pbuf)) × Works one_sample two_hundred both s'
    × AtRest one_sample two_hundred s'
    × ((a : ℕ)
        → occurs a (1 ∷ 2 ∷ [])
          ≡ occurs a (freed s'.calls)
            + occurs a (kept_by s'.parser.counter_of_packets s'.parser.old_pbuf))
Reach-AtRest_example = Reach-AtRest one_sample two_hundred both-Reach both-SoundSystem refl
