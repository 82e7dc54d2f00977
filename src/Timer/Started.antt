-- ===== src/Timer/Started.antt =====
-- Which timers run after the set-up.
use zynq_lwip_frtos.Base.{
  ℕ, ◌≡◌, refl, ap, ◌∙◌, true, not, ◌||◌, Option, some, List, [], ◌∷◌, ◌++◌, append-nil,
  append_assoc, get_elem?, inl, inr, Bool-cases, arith, ◌==◌, if◌then◌else◌,
}
use zynq_lwip_frtos.Base.Calls.{Run, done, prepend, pure, assert_some, deref, ◌>>=◌}
use zynq_lwip_frtos.Timer.Setup.{
  Call, TmrCntrSetup, lookup_config, set_options, calc_interval_from_freq, set_interval,
  set_prescaler, timer_settings, interrupt_ids, interrupt_priorities, start, enable, Constants,
  Answers, initialise_timer, start_interrupts, set_up_timer, set_up_timers, initialise_timers,
}

-- The timers that a call starts, and the interrupts that it enables.
abbrev pub starts : Call → List ℕ
starts (start timer) = timer ∷ []
starts _ = []

abbrev pub enables : Call → List ℕ
enables (enable interrupt) = interrupt ∷ []
enables _ = []

unfoldable pub gather : (Call → List ℕ) → List Call → List ℕ
gather f [] = []
gather f (c ∷ cs) = f c ++ gather f cs

-- The drivers find the timer, initialise it at the first or the second attempt, and connect the handler.
pub record Willing (a : Answers) : Type 0 where
  pub config : a.config ≡ some tt
  pub initialised : (a.first_initialised || a.second_initialised) ≡ true
  pub connected : a.connected ≡ true

-- What the set-up leaves: it returned, these timers run and these interrupts are enabled.
pub data Leaves {A : Type 0} (running interrupts : List ℕ) : Run Call A → Type 0 where
  leaves :
      {cs : List Call} {a : A}
      → gather starts cs ≡ running
      → gather enables cs ≡ interrupts
      → Leaves running interrupts (done cs a)

gather-append :
    (f : Call → List ℕ) (cs ds : List Call) → gather f (cs ++ ds) ≡ gather f cs ++ gather f ds
unfolding gather
gather-append f [] ds = refl
gather-append f (c ∷ cs) ds = simp (gather-append f cs ds, append_assoc)

prepend-Leaves :
    {A : Type 0} {r r' i i' : List ℕ} {m : Run Call A} (cs : List Call)
    → gather starts cs ≡ r
    → gather enables cs ≡ i
    → Leaves r' i' m
    → Leaves (r ++ r') (i ++ i') (prepend cs m)
prepend-Leaves cs h h' (leaves {cs = ds} e e') =
    leaves (gather-append starts cs ds ∙ cc) (gather-append enables cs ds ∙ cc)

bind-Leaves :
    {A B : Type 0} {r r' i i' : List ℕ} {m : Run Call A} (f : A → Run Call B)
    → Leaves r i m
    → ((a : A) → Leaves r' i' (f a))
    → Leaves (r ++ r') (i ++ i') (m >>= f)
bind-Leaves f (leaves {cs} {a} e e') k = prepend-Leaves cs e e' (k a)

-- A step that starts nothing.
quiet :
    {A B : Type 0} {r i : List ℕ} {m : Run Call A} (f : A → Run Call B)
    → Leaves [] [] m
    → ((a : A) → Leaves r i (f a))
    → Leaves r i (m >>= f)
quiet f h k = bind-Leaves f h k

found-Leaves :
    {A : Type 0} (look : Option A → Run Call A) (o : Option A) (a : A)
    → o ≡ some a
    → Leaves [] [] (look (some a))
    → Leaves [] [] (look o)
found-Leaves look o a e h = rw e h

initialise_timer-Leaves :
    (timer : ℕ) (a : Answers) → Willing a → Leaves [] [] (initialise_timer timer a)
unfolding initialise_timer gather
initialise_timer-Leaves timer a w = elim (Bool-cases a.first_initialised) [
  | inl e ↦ rw e (leaves refl refl)
  | inr e ↦
      let again : a.second_initialised ≡ true = ground (arith, w.initialised) in
      rw (e, again) (leaves refl refl)
]

-- The timers other than the second are started and their interrupts enabled.
started : ℕ → ℕ → List ℕ
started timer x = if timer == 1 then [] else x ∷ []

start_interrupts-Leaves :
    (k : Constants) (timer interrupt priority : ℕ) (a : Answers)
    → Willing a
    → get_elem? (interrupt_ids k) timer ≡ some interrupt
    → get_elem? (interrupt_priorities k) timer ≡ some priority
    → Leaves (timer ∷ []) (interrupt ∷ []) (start_interrupts k timer a)
unfolding start_interrupts gather
start_interrupts-Leaves k timer interrupt priority a w h h' =
    rw (h, h', w.connected) (leaves refl refl)

finish :
    {A B : Type 0} {r i : List ℕ} {m : Run Call A} (b : B)
    → Leaves r i m
    → Leaves r i (m >>= λ _. pure b)
finish b (leaves {cs} e e') =
    leaves (ap (gather starts) (append-nil cs) ∙ e) (ap (gather enables) (append-nil cs) ∙ e')

started_or_not :
    (k : Constants) (timer interrupt priority : ℕ) (a : Answers)
    → Willing a
    → get_elem? (interrupt_ids k) timer ≡ some interrupt
    → get_elem? (interrupt_priorities k) timer ≡ some priority
    → Leaves
        (started timer timer)
        (started timer interrupt)
        (if not (timer == 1) then start_interrupts k timer a else pure tt)
unfolding started gather
started_or_not k timer interrupt priority a w h h' = elim (Bool-cases (timer == 1)) [
  | inl e ↦ rw e (leaves refl refl)
  | inr e ↦ rw e (start_interrupts-Leaves k timer interrupt priority a w h h')
]

set_up_timer-Leaves :
    (k : Constants) (timer interrupt priority : ℕ) (settings : TmrCntrSetup) (a : Answers)
    → Willing a
    → get_elem? (timer_settings k) timer ≡ some settings
    → get_elem? (interrupt_ids k) timer ≡ some interrupt
    → get_elem? (interrupt_priorities k) timer ≡ some priority
    → Leaves (started timer timer) (started timer interrupt) (set_up_timer k timer a)
unfolding set_up_timer gather started
set_up_timer-Leaves k timer interrupt priority settings a w h h' h'' =
    prepend-Leaves (lookup_config timer ∷ []) refl refl (
      quiet _ (found-Leaves assert_some a.config tt w.config (leaves refl refl)) λ config.
        quiet _
          (found-Leaves deref (get_elem? (timer_settings k) timer) settings h (leaves refl refl))
          λ settings'. quiet _ (initialise_timer-Leaves timer a w) λ _.
            prepend-Leaves (set_options timer settings'.options ∷ []) refl refl (
              prepend-Leaves (calc_interval_from_freq timer settings'.output_hz ∷ []) refl refl (
                prepend-Leaves (set_interval timer a.interval ∷ []) refl refl (
                  prepend-Leaves (set_prescaler timer a.prescaler ∷ []) refl refl
                    (finish _ (started_or_not k timer interrupt priority a w h' h''))))))

-- Where the drivers find each timer, initialise it at the first or the second attempt and connect
-- its handler, the set-up returns; the first and the third timer are started and their interrupts
-- enabled, each once and in this order, and the second, though initialised, is not.
pub initialise_timers-Leaves :
    (k : Constants) (a0 a1 a2 : Answers)
    → Willing a0
    → Willing a1
    → Willing a2
    → Leaves
        (0 ∷ 2 ∷ [])
        (k.ttc_0_interrupt ∷ k.ttc_2_interrupt ∷ [])
        (initialise_timers k a0 a1 a2)
unfolding initialise_timers set_up_timers started gather
initialise_timers-Leaves k a0 a1 a2 w0 w1 w2 =
    bind-Leaves _ (set_up_timer-Leaves k 0 _ _ _ a0 w0 refl refl refl) λ s0.
      bind-Leaves _ (set_up_timer-Leaves k 1 _ _ _ a1 w1 refl refl refl) λ s1.
        bind-Leaves _ (set_up_timer-Leaves k 2 _ _ _ a2 w2 refl refl refl) λ s2. leaves refl refl
