-- ===== src/Command/Dispatch.antt =====
-- src/iwip.c, lines 248-373: `get_tetrada` and `parse_msg`. The calls of lwIP and FreeRTOS are
-- recorded in their order; what eTaskGetState answers is an argument.
use zynq_lwip_frtos.Base.{
  ℕ, zero, suc, ◌/◌, ◌%◌, Bool, true, false, ◌&&◌, Option, none, some, List, [], ◌∷◌, ◌++◌, length,
  get_elem?, set, ltb, ◌==◌, if◌then◌else◌, wrap8, ◌>>=◌,
}
use zynq_lwip_frtos.Pl.{Print, send_to_pl}
use zynq_lwip_frtos.Udp.Task.{TaskState, running, is_suspended}
use zynq_lwip_frtos.Command.Codes.{
  cmd_stop, cmd_start, cmd_worktype_set, cmd_ctrl_ampl, cmd_ctrl_ampl_auto_value,
  cmd_ctrl_ampl_max_value, cmd_ctrl_ampl_min_value, cmd_sea_filter, cmd_prec_filter, cmd_velocity,
  cmd_blank_sec, cmd_freq_chge, cmd_telemetry_reqs, cmd_reset_faults, cmd_worktype_reqs,
  cmd_tob_point, cmd_tob_value_reqs,
}

-- The lines that `parse_msg` prints, by what they say.
pub data Notice : Type 0 where
  tob_value worktypes tob_point stop start set_worktype : Notice
  loss_of_memory ctrl_ampl_miss_value : Notice
  set_sea_filter set_rain_filter set_velocity set_frequency : Notice
  get_telemetry reset_faults not_found blind_sector : Notice

pub data Event : Type 0 where
  xil_printf : Notice → Event
  tcp_write : List ℕ → Event
  task_resume task_suspend : Event
  to_pl : List Print → Event

-- `monitor->last_recv_cmd`, `none` if there is no monitor; the payload; and the calls.
pub record Station : Type 0 where
  pub last_recv_cmd : Option ℕ
  pub payload : List ℕ
  pub events : List Event

-- The answers about the state of the gain control task in lines 305 and 314, and in line 316.
pub record States : Type 0 where
  pub first : TaskState
  pub second : TaskState

-- A NULL pointer is the missing list; `len` is the length that is passed.
unfoldable pub get_tetrada : Option (List ℕ) → ℕ → Option ℕ
get_tetrada none len = some 0
get_tetrada (some bytes) zero = some 0
get_tetrada (some bytes) (suc len) = do
  lowest_byte ← get_elem? bytes len
  some (lowest_byte / 16 % 16)

abbrev pub record_event : Event → Station → Station
record_event e s = record s { events = s.events ++ e ∷ [] }

-- `monitor->last_recv_cmd = cmd`.
unfoldable pub remember : ℕ → Station → Option Station
remember cmd s = do old ← s.last_recv_cmd; some (record s { last_recv_cmd = some cmd })

-- A branch that prints and remembers.
unfoldable pub note : Notice → ℕ → Station → Option Station
note n cmd s = remember cmd (record_event (xil_printf n) s)

-- `send_to_PL(p->payload, (uint8_t)p->len)`.
unfoldable pub forward : Station → Option Station
forward s = do
  prints ← send_to_pl s.payload (wrap8 (length s.payload))
  some (record_event (to_pl prints) s)

-- Lines 304-310.
unfoldable pub automatic : States → Station → Option Station
automatic r s =
    let resumed = if is_suspended r.first then record_event task_resume s else s in
    forward (record resumed { payload = set resumed.payload 0 0x7F })

-- `eTaskGetState(...) == eRunning`.
abbrev pub is_running : TaskState → Bool
is_running running = true
is_running _ = false

-- Lines 312-323.
unfoldable pub manual : States → Station → Option Station
manual r s =
    let warned = if is_running r.second then record_event (xil_printf loss_of_memory) s else s in
    forward (if is_suspended r.first then s else record_event task_suspend warned)

-- Lines 299-330.
unfoldable pub ctrl_ampl : States → Station → Option Station
ctrl_ampl r s = do
  value ← get_elem? s.payload 0
  let echoed = record_event (tcp_write s.payload) s
  s' ←
      (if value == cmd_ctrl_ampl_auto_value
        then automatic r echoed
        else if ltb cmd_ctrl_ampl_min_value value && ltb value cmd_ctrl_ampl_max_value
        then manual r echoed
        else some (record_event (xil_printf ctrl_ampl_miss_value) echoed))
  remember cmd_ctrl_ampl s'

-- Lines 282-360: the commands of which the high half of the last byte is 0xC.
unfoldable pub control : ℕ → States → Station → Option Station
control last_byte r s =
    if last_byte == cmd_stop
    then note stop cmd_stop s
    else if last_byte == cmd_start
    then note start cmd_start s
    else if last_byte == cmd_worktype_set
    then note set_worktype cmd_worktype_set s
    else if last_byte == cmd_ctrl_ampl
    then ctrl_ampl r s
    else if last_byte == cmd_sea_filter
    then note set_sea_filter cmd_sea_filter s
    else if last_byte == cmd_prec_filter
    then note set_rain_filter cmd_prec_filter s
    else if last_byte == cmd_velocity
    then note set_velocity cmd_velocity s
    else if last_byte == cmd_freq_chge
    then note set_frequency cmd_freq_chge s
    else if last_byte == cmd_telemetry_reqs
    then note get_telemetry cmd_telemetry_reqs s
    else note reset_faults cmd_reset_faults s

-- The switch of line 265.
unfoldable pub dispatch : ℕ → ℕ → States → Station → Option Station
dispatch tetrada last_byte r s =
    if tetrada == 0x0E
    then note tob_value cmd_tob_value_reqs s
    else if tetrada == 0x0F
    then note worktypes cmd_worktype_reqs s
    else if tetrada == 0x0D
    then note tob_point cmd_tob_point s
    else if tetrada == 0x0C
    then control last_byte r s
    else some (record_event (xil_printf not_found) s)

-- `payload[len - 1]`: before the payload for length 0.
unfoldable pub last_of : List ℕ → ℕ → Option ℕ
last_of payload zero = none
last_of payload (suc n) = get_elem? payload n

-- Lines 263-366.
unfoldable pub short_message : ℕ → States → Station → Option Station
short_message last_byte r s = do
  tetrada ← get_tetrada (some s.payload) (wrap8 (length s.payload))
  dispatch tetrada last_byte r s

-- The length of the first buffer is kept in 8 bits throughout.
unfoldable pub parse_msg : States → Station → Option Station
parse_msg r s = do
  last_byte ← last_of s.payload (wrap8 (length s.payload))
  if ltb (wrap8 (length s.payload)) 6
      then short_message last_byte r s
      else note blind_sector cmd_blank_sec s
