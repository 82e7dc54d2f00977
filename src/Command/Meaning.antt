-- ===== src/Command/Meaning.antt =====
-- What a command means, in one table.
use zynq_lwip_frtos.Base.{
  ℕ, ◌/◌, ◌%◌, ◌≤◌, ◌<◌, ◌≡◌, refl, ap, ◌∙◌, inl, inr, Bool, true, false, ◌&&◌, ◌||◌, Option, some,
  List, [], ◌∷◌, ◌++◌, append_assoc, append-nil, arith, length, get_elem?, get_elem?-lt, take, set,
  ltb, ==→eq, ◌==◌, if◌then◌else◌, Bool-cases, wrap8,
}
use zynq_lwip_frtos.Pl.{numbered, mesg_size, send_to_pl-numbered}
use zynq_lwip_frtos.Udp.Task.{is_suspended}
use zynq_lwip_frtos.Command.Dispatch
use zynq_lwip_frtos.Command.Dispatch.{
  Event, Notice, xil_printf, tcp_write, task_resume, task_suspend, to_pl, Station, States,
  record_event, remember, note, forward, automatic, is_running, manual, ctrl_ampl, control,
  dispatch, loss_of_memory, ctrl_ampl_miss_value,
}

-- The command that a last byte stands for, given the one before it: below 0xC0 none; 0xC? the
-- byte itself up to 0xC6 and for 0xC8 and 0xC9, and otherwise "reset faults"; above that the high
-- half of the byte.
unfoldable pub meaning : ℕ → ℕ → ℕ
meaning b old =
    if ltb b 0xC0
    then old
    else if ltb b 0xD0
    then (if b == 0xC7 || ltb 0xC9 b then 0x1C9 else b)
    else b / 16

remember-some :
    (cmd old : ℕ) (s : Station)
    → s.last_recv_cmd ≡ some old
    → remember cmd s ≡ some (record s { last_recv_cmd = some cmd })
unfolding remember
remember-some cmd old s h = simp h

-- What the programmable logic prints of a message.
abbrev pub shown : List ℕ → Event
shown payload =
    to_pl (mesg_size (wrap8 (length payload)) ∷ numbered 0 (take (wrap8 (length payload)) payload))

forward-shown : (s : Station) → forward s ≡ some (record_event (shown s.payload) s)
unfolding forward
forward-shown s = simp (send_to_pl-numbered s.payload (wrap8 (length s.payload)) (omega arith))

-- The events of an amplitude command behind its echo, and the payload it leaves.
unfoldable pub amplitude_events : ℕ → States → List ℕ → List Event
amplitude_events value r payload =
    if value == 0xFF
    then (if is_suspended r.first then task_resume ∷ [] else []) ++ shown (set payload 0 0x7F) ∷ []
    else if (value == 0) || ltb 126 value
    then xil_printf ctrl_ampl_miss_value ∷ []
    else (if is_suspended r.first
        then []
        else (if is_running r.second then xil_printf loss_of_memory ∷ [] else [])
          ++ task_suspend ∷ [])
      ++ shown payload ∷ []

abbrev pub amplitude_payload : ℕ → List ℕ → List ℕ
amplitude_payload value payload = if value == 0xFF then set payload 0 0x7F else payload

automatic-events :
    (r : States) (s : Station)
    → automatic r s
      ≡ some (record s {
        payload = set s.payload 0 0x7F;
        events =
            s.events
            ++ (if is_suspended r.first then task_resume ∷ [] else [])
            ++ shown (set s.payload 0 0x7F) ∷ [];
      })
unfolding automatic
automatic-events r s = elim (Bool-cases (is_suspended r.first)) [
  | inl e ↦ rw e (forward-shown _ ∙ simp append_assoc)
  | inr e ↦ rw e (forward-shown _ ∙ simp append-nil)
]

manual-events :
    (r : States) (s : Station)
    → manual r s
      ≡ some (record s {
        events =
            s.events
            ++ (if is_suspended r.first
                then []
                else (if is_running r.second then xil_printf loss_of_memory ∷ [] else [])
                  ++ task_suspend ∷ [])
            ++ shown s.payload ∷ [];
      })
unfolding manual
manual-events r s = elim (Bool-cases (is_suspended r.first)) [
  | inl e ↦ rw e (forward-shown _ ∙ simp append-nil)
  | inr e ↦ rw e (elim (Bool-cases (is_running r.second)) [
    | inl e' ↦ rw e' (forward-shown _ ∙ simp append_assoc)
    | inr e' ↦ rw e' (forward-shown _ ∙ simp append_assoc)
  ])
]

-- The amplitude command is answered with itself. The value 0xFF resumes the task of the gain control if it is
-- suspended, and the logic gets the message with the gain 0x7F in its place; the values from 1 to 0x7E
-- suspend the task unless it is, and the logic gets the message; 0, and those from 0x7F to 0xFE,
-- change nothing but the command that is remembered.
pub ctrl_ampl-events :
    (r : States) (s : Station) (value old : ℕ)
    → get_elem? s.payload 0 ≡ some value
    → s.last_recv_cmd ≡ some old
    → ctrl_ampl r s
      ≡ some (record {
        last_recv_cmd = some 0xC3;
        payload = amplitude_payload value s.payload;
        events = s.events ++ tcp_write s.payload ∷ amplitude_events value r s.payload;
      })
unfolding ctrl_ampl amplitude_events remember
ctrl_ampl-events r s value old h h' = elim (Bool-cases (value == 0xFF)) [
  | inl e ↦ simp (h, h', e, automatic-events, append_assoc)
  | inr e ↦ elim (Bool-cases (value == 0 || ltb 126 value)) [
    | inl e' ↦
        let miss : (ltb 0 value && ltb value 127) ≡ false = ground arith in
        simp (h, h', e, e', miss, append_assoc)
    | inr e' ↦
        let hit : (ltb 0 value && ltb value 127) ≡ true = ground arith in
        simp (h, h', e, e', hit, manual-events, append_assoc)
  ]
]

-- The step returns, and remembers the command.
pub data Remembers (cmd : ℕ) : Option Station → Type 0 where
  remembers : {s : Station} → s.last_recv_cmd ≡ some cmd → Remembers cmd (some s)

if-Remembers :
    {cmd : ℕ} {x y : Option Station} (b : Bool)
    → (b ≡ true → Remembers cmd x)
    → (b ≡ false → Remembers cmd y)
    → Remembers cmd (if b then x else y)
if-Remembers true k k' = k refl
if-Remembers false k k' = k' refl

pub note-Remembers :
    (n : Notice) (code cmd old : ℕ) (s : Station)
    → s.last_recv_cmd ≡ some old
    → code ≡ cmd
    → Remembers cmd (note n code s)
unfolding note remember
note-Remembers n code cmd old s h e = rw h (remembers (ap (λ c. some c) e))

module _ (b old : ℕ) (r : States) (s : Station) (h : s.last_recv_cmd ≡ some old) where
  leaf : (n : Notice) (code : ℕ) → code ≡ meaning b old → Remembers (meaning b old) (note n code s)
  leaf n code = note-Remembers n code (meaning b old) old s h

  amplitude : b ≡ 0xC3 → 0 < length s.payload → Remembers (meaning b old) (ctrl_ampl r s)
  unfolding meaning
  amplitude e hl =
      let (value, first) = get_elem?-lt s.payload 0 hl in
      rw (ctrl_ampl-events r s value old first h) (remembers (ap (λ c. some c) (ground arith)))

  control-Remembers :
      192 ≤ b → b < 208 → 0 < length s.payload → Remembers (meaning b old) (control b r s)
  unfolding control meaning
  control-Remembers lo hi hl =
      if-Remembers (b == 0xC0) (λ e. leaf Dispatch.stop 0xC0 (ground arith))
        λ e0.
          if-Remembers (b == 0xC1) (λ e. leaf Dispatch.start 0xC1 (ground arith))
            λ e1.
              if-Remembers (b == 0xC2) (λ e. leaf Dispatch.set_worktype 0xC2 (ground arith))
                λ e2.
                  if-Remembers (b == 0xC3) (λ e. amplitude (omega (arith, ==→eq b 0xC3 e)) hl)
                    λ e3.
                      if-Remembers (b == 0xC4)
                        (λ e. leaf Dispatch.set_sea_filter 0xC4 (ground arith))
                        λ e4.
                          if-Remembers (b == 0xC5)
                            (λ e. leaf Dispatch.set_rain_filter 0xC5 (ground arith))
                            λ e5.
                              if-Remembers (b == 0xC6)
                                (λ e. leaf Dispatch.set_velocity 0xC6 (ground arith))
                                λ e6.
                                  if-Remembers (b == 0xC8)
                                    (λ e. leaf Dispatch.set_frequency 0xC8 (ground arith))
                                    λ e7.
                                      if-Remembers (b == 0xC9)
                                        (λ e. leaf Dispatch.get_telemetry 0xC9 (ground arith))
                                        λ e8. leaf Dispatch.reset_faults 0x1C9 (ground arith)

  pub dispatch-Remembers :
      b < 256 → 0 < length s.payload → Remembers (meaning b old) (dispatch (b / 16 % 16) b r s)
  unfolding dispatch meaning
  dispatch-Remembers hi hl =
      if-Remembers (b / 16 % 16 == 14) (λ e. leaf Dispatch.tob_value 0xE (ground arith))
        λ e0.
          if-Remembers (b / 16 % 16 == 15) (λ e. leaf Dispatch.worktypes 0xF (ground arith))
            λ e1.
              if-Remembers (b / 16 % 16 == 13) (λ e. leaf Dispatch.tob_point 0xD (ground arith))
                λ e2.
                  if-Remembers (b / 16 % 16 == 12)
                    (λ e. control-Remembers (ground arith) (ground arith) hl)
                    λ e3. remembers (h ∙ ap (λ c. some c) (ground arith))
