-- ===== src/Timer.antt =====
-- src/ttc_timer.c, lines 126-162, and src/main.c, lines 152-169: the timer interrupt raises the flags
-- of the TCP timers, and the thread of the network interface runs the timers and clears the flags.
pub mod Setup
pub mod Started
pub mod Interrupt
mod Tests
use zynq_lwip_frtos.Base.{
  ℕ, zero, suc, ◌+◌, ◌/◌, ◌%◌, ◌≡◌, refl, ap, ◌∙◌, Bool, true, false, not, List, [], ◌∷◌, arith,
  ◌==◌, if◌then◌else◌, length,
}

-- The flags, and how often the timers of lwIP have run.
pub record Flags : Type 0 where
  pub flag_for_led : Bool
  pub tcp_fast_tmr_flag : Bool
  pub tcp_slow_tmr_flag : Bool
  pub fast_runs : ℕ
  pub slow_runs : ℕ

abbrev pub initial : Flags
initial = record {
  flag_for_led = false;
  tcp_fast_tmr_flag = false;
  tcp_slow_tmr_flag = false;
  fast_runs = 0;
  slow_runs = 0;
}

-- The three timers; the second never raises an interrupt.
pub data Device : Type 0 where
  timer_0 timer_1 timer_2 : Device

unfoldable pub timer_handler : Device → Flags → Flags
timer_handler timer_0 s = s
timer_handler timer_1 s = s
timer_handler timer_2 s = record s {
  flag_for_led = not s.flag_for_led;
  tcp_fast_tmr_flag = true;
  tcp_slow_tmr_flag = if not s.flag_for_led then true else s.tcp_slow_tmr_flag;
}

-- One round of the loop of the thread.
-- `tcp_fasttmr();` and `TcpFastTmrFlag = 0;`.
unfoldable pub call_fast : Flags → Flags
call_fast s = record s { fast_runs = s.fast_runs + 1 }

unfoldable pub clear_fast : Flags → Flags
clear_fast s = record s { tcp_fast_tmr_flag = false }

-- Lines 157-161, with what happens between its two statements.
unfoldable pub run_fast : (Flags → Flags) → Flags → Flags
unfolding call_fast clear_fast
run_fast between s = if s.tcp_fast_tmr_flag then clear_fast (between (call_fast s)) else s

unfoldable pub run_slow : Flags → Flags
run_slow s =
    if s.tcp_slow_tmr_flag
    then record s { tcp_slow_tmr_flag = false; slow_runs = s.slow_runs + 1 }
    else s

unfoldable pub input_round : Flags → Flags
input_round s = run_slow (run_fast (λ t. t) s)

-- `n` rounds.
unfoldable pub input_rounds : ℕ → Flags → Flags
input_rounds zero s = s
input_rounds (suc n) s = input_rounds n (input_round s)

-- Interrupts of the third timer, each followed by so many rounds and one more.
unfoldable pub run : List ℕ → Flags → Flags
run [] s = s
run (rounds ∷ rest) s = run rest (input_rounds (suc rounds) (timer_handler timer_2 s))

-- The state after n interrupts.
abbrev pub settled : ℕ → Flags
settled n = record {
  flag_for_led = n % 2 == 1;
  tcp_fast_tmr_flag = false;
  tcp_slow_tmr_flag = false;
  fast_runs = n;
  slow_runs = (n + 1) / 2;
}

idle : (k n : ℕ) → input_rounds k (settled n) ≡ settled n
unfolding input_rounds input_round run_fast run_slow
idle zero n = refl
idle (suc k) n = idle k n

one_interrupt : (n : ℕ) → input_round (timer_handler timer_2 (settled n)) ≡ settled (suc n)
unfolding input_round run_fast run_slow timer_handler
one_interrupt n = ground arith

run-settled : (rounds : List ℕ) (n : ℕ) → run rounds (settled n) ≡ settled (length rounds + n)
unfolding run input_rounds
run-settled [] n = ap settled (omega arith)
run-settled (k ∷ rest) n =
    ap (λ s. run rest (input_rounds k s)) (one_interrupt n)
    ∙ ap (λ s. run rest s) (idle k (suc n))
    ∙ run-settled rest (suc n)
    ∙ ap settled (omega arith)

-- If the thread makes at least one whole round after each of the interrupts of the third timer, and
-- none of them comes within a round, tcp_fasttmr runs once for each interrupt and tcp_slowtmr for
-- every second one, from the first on; no flag is left.
pub run-fast_and_slow :
    (rounds : List ℕ)
    → run rounds initial ≡ record {
      flag_for_led = length rounds % 2 == 1;
      tcp_fast_tmr_flag = false;
      tcp_slow_tmr_flag = false;
      fast_runs = length rounds;
      slow_runs = (length rounds + 1) / 2;
    }
run-fast_and_slow rounds = run-settled rounds 0 ∙ ap settled (omega arith)

input_round-quiet :
    (s : Flags)
    → s.tcp_fast_tmr_flag ≡ false
    → ((input_round s).fast_runs ≡ s.fast_runs) × ((input_round s).tcp_fast_tmr_flag ≡ false)
unfolding input_round run_fast run_slow
input_round-quiet s h = ground arith

input_rounds-fast_runs :
    (k : ℕ) (s : Flags) → s.tcp_fast_tmr_flag ≡ false → (input_rounds k s).fast_runs ≡ s.fast_runs
unfolding input_rounds
input_rounds-fast_runs zero s h = refl
input_rounds-fast_runs (suc k) s h =
    let (same, quiet) = input_round-quiet s h in
    input_rounds-fast_runs k (input_round s) quiet ∙ same

-- A round in which an interrupt comes between the statements of lines 157-161.
unfoldable pub interrupted_round : Flags → Flags
interrupted_round s = run_slow (run_fast (timer_handler timer_2) s)

interrupted_round-quiet :
    (s : Flags)
    → s.tcp_fast_tmr_flag ≡ true
    → ((interrupted_round s).fast_runs ≡ s.fast_runs + 1)
      × ((interrupted_round s).tcp_fast_tmr_flag ≡ false)
unfolding interrupted_round run_fast run_slow timer_handler
interrupted_round-quiet s h = ground arith

served_round-quiet :
    (s : Flags)
    → s.tcp_fast_tmr_flag ≡ true
    → ((input_round (timer_handler timer_2 (input_round s))).fast_runs ≡ s.fast_runs + 2)
      × ((input_round (timer_handler timer_2 (input_round s))).tcp_fast_tmr_flag ≡ false)
unfolding input_round run_fast run_slow timer_handler
served_round-quiet s h = ground arith

-- While the flag of the fast timer is set, an interrupt that comes while tcp_fasttmr runs is lost:
-- the flag is cleared after the call, and however many rounds follow, tcp_fasttmr has run once for
-- both interrupts. Had the interrupt come after the round, it would have run twice.
pub timer_handler-lost :
    (k : ℕ) (s : Flags)
    → s.tcp_fast_tmr_flag ≡ true
    → ((input_rounds k (interrupted_round s)).fast_runs ≡ s.fast_runs + 1)
      × ((input_rounds (suc k) (timer_handler timer_2 (input_round s))).fast_runs ≡ s.fast_runs + 2)
unfolding input_rounds
timer_handler-lost k s h =
    let (once, quiet) = interrupted_round-quiet s h in
    let (twice, quiet') = served_round-quiet s h in
    (
      input_rounds-fast_runs k (interrupted_round s) quiet ∙ once,
      input_rounds-fast_runs k (input_round (timer_handler timer_2 (input_round s))) quiet' ∙ twice,
    )
