-- ===== src/Connection.antt =====
-- src/iwip.c, lines 132-246: the TCP connection. lwIP's control blocks and the memory of the
-- monitors are stores in which a freed entry stays as `none`; reading or freeing one again is
-- undefined. What lwIP and the heap answer is an argument.
pub mod Store
pub mod WellFormed
pub mod Connect
pub mod Reconnect
pub mod Reach
pub mod Dangling
mod Tests
use zynq_lwip_frtos.Base.{
  ℕ, Bool, true, false, not, Option, none, some, List, [], ◌∷◌, ◌++◌, length, get_elem?, set,
  if◌then◌else◌, ◌>>=◌,
}
use zynq_lwip_frtos.Monitor.{TcpState, established, TcpPcb, TcpMonitor, create_tcp_monitor, refresh}

pub data Err : Type 0 where
  ok mem clsd already uninitialised : Err
  other : ℕ → Err

-- A monitor in memory, with its pointer to a control block.
pub record Watch : Type 0 where
  pub monitor : TcpMonitor
  pub pcb : ℕ

pub data Call : Type 0 where
  tcp_err tcp_recv tcp_sent_null tcp_err_null tcp_poll_null tcp_connect tcp_close tcp_abort :
      ℕ → Call
  vtask_delay : ℕ → Call

-- The stores, the globals of src/iwip.h and src/iwip.c, and the calls.
pub record Connection : Type 0 where
  pub pcbs : List (Option TcpPcb)
  pub monitors : List (Option Watch)
  pub tcp_pcb : Option ℕ
  pub monitor : Option ℕ
  pub stat_tcp_con : Bool
  pub try_reconnect : Bool
  pub calls : List Call

-- What a pointer stands for: `none` if it was freed.
unfoldable pub load {ℓ} : {A : Type ℓ} → List (Option A) → ℕ → Option A
load xs i = do entry ← get_elem? xs i; entry

abbrev pub note : Call → Connection → Connection
note c s = record s { calls = s.calls ++ c ∷ [] }

-- An entry is freed; twice is undefined.
unfoldable pub free_pcb : ℕ → Connection → Option Connection
free_pcb p s = do pcb ← load s.pcbs p; some (record s { pcbs = set s.pcbs p none })

unfoldable pub free_monitor : ℕ → Connection → Option Connection
free_monitor m s = do
  watch ← load s.monitors m
  some (record s { monitors = set s.monitors m none })

-- Lines 137-143: lwIP has freed the control block before.
unfoldable pub tcp_connect_error : Connection → Connection
tcp_connect_error s = record s { tcp_pcb = none; stat_tcp_con = false }

-- Lines 235-246: its answer and the new state.
unfoldable pub client_connected : ℕ → Err → Connection → Err × Connection
client_connected p ok s = (ok, note (tcp_recv p) (record s { stat_tcp_con = true }))
client_connected p err s = (err, s)

-- `update_monitor(monitor)` on the global pointer.
unfoldable pub update_global : ℕ → Option ℕ → Connection → Option Connection
update_global now none s = some s
update_global now (some m) s = do
  watch ← load s.monitors m
  pcb ← load s.pcbs watch.pcb
  some (record s {
    monitors = set s.monitors m (some (record watch { monitor = refresh pcb now watch.monitor }));
  })

-- What happens in lwIP while the task waits: a connection is refused or lost, is made, or a control
-- block changes its state.
pub data Event : Type 0 where
  lost : ℕ → Event
  connected : ℕ → Err → Event
  changed : ℕ → TcpState → Event

unfoldable pub happen : Event → Connection → Option Connection
happen (lost p) s = do s' ← free_pcb p s; some (tcp_connect_error s')
happen (connected p err) s = some (client_connected p err s).1
happen (changed p state) s = do
  pcb ← load s.pcbs p
  some (record s { pcbs = set s.pcbs p (some (record pcb { state = state })) })

unfoldable pub happen_all : List Event → Connection → Option Connection
happen_all [] s = some s
happen_all (e ∷ es) s = do s' ← happen e s; happen_all es s'

-- What is answered to one attempt: the new control block, the memory for its monitor, the tick counts,
-- the result of `tcp_connect`, what happens in the two seconds, and the result of `tcp_close`.
pub record Attempt : Type 0 where
  pub new_pcb : Option TcpPcb
  pub memory : Bool
  pub ticks : ℕ
  pub connect_err : Err
  pub during : List Event
  pub close_err : Err

abbrev pub is_ok : Err → Bool
is_ok ok = true
is_ok _ = false

-- The three calls that take the callbacks off a control block.
abbrev pub detach : ℕ → Connection → Connection
detach p s = note (tcp_poll_null p) (note (tcp_err_null p) (note (tcp_sent_null p) s))

-- Lines 218-232: in the end the control block is closed or aborted. Without one the answer is a
-- variable that was never set.
unfoldable pub tcp_client_close : Err → Option ℕ → Connection → Option (Err × Connection)
tcp_client_close answer none s = some (uninitialised, s)
tcp_client_close answer (some p) s = do
  let closed = note (tcp_close p) (detach p s)
  s' ← free_pcb p (if is_ok answer then closed else note (tcp_abort p) closed)
  some (answer, s')

-- Line 157: the global gets what `create_tcp_monitor` answers.
unfoldable pub attach : Option TcpMonitor → ℕ → Connection → Connection
attach none p s = record s { monitor = none }
attach (some m) p s = record s {
  monitors = s.monitors ++ some (record { monitor = m; pcb = p }) ∷ [];
  monitor = some (length s.monitors);
}

unfoldable pub make_monitor : Attempt → TcpPcb → ℕ → Connection → Connection
make_monitor r pcb p s = attach (create_tcp_monitor r.memory pcb r.ticks r.ticks) p s

-- Lines 168-169: the state that is printed is read, unless the control block is destroyed.
unfoldable pub read_state : Option ℕ → Connection → Option Connection
read_state none s = some s
read_state (some p) s = do pcb ← load s.pcbs p; some s

-- Lines 170-176.
unfoldable pub check_connect : Attempt → Connection → Option (Err × Connection)
check_connect r s =
    if is_ok r.connect_err
    then some (ok, s)
    else (do (err, s') ← tcp_client_close r.close_err s.tcp_pcb s; some (clsd, s'))

-- Lines 157-176, with the new control block.
unfoldable pub connect_new : Attempt → TcpPcb → Connection → Option (Err × Connection)
connect_new r pcb s = do
  let p = length s.pcbs
  let s0 = record s { pcbs = s.pcbs ++ some pcb ∷ []; tcp_pcb = some p }
  s1 ← update_global r.ticks (make_monitor r pcb p s0).monitor (make_monitor r pcb p s0)
  s2 ← happen_all r.during (note (vtask_delay 2000) (note (tcp_connect p) (note (tcp_err p) s1)))
  s3 ← read_state s2.tcp_pcb s2
  check_connect r s3

-- Lines 150-155.
unfoldable pub connect_with : Attempt → Option TcpPcb → Connection → Option (Err × Connection)
connect_with r none s = some (mem, record s { tcp_pcb = none })
connect_with r (some pcb) s = connect_new r pcb s

unfoldable pub tcp_connection_cl : Attempt → Connection → Option (Err × Connection)
tcp_connection_cl r s = connect_with r r.new_pcb s

abbrev pub is_established : TcpState → Bool
is_established established = true
is_established _ = false

-- Lines 185-189: the monitor is used without a test.
unfoldable pub check_state : Option ℕ → Connection → Option Connection
check_state none s = none
check_state (some m) s = do
  watch ← load s.monitors m
  pcb ← load s.pcbs watch.pcb
  some (record s { try_reconnect = not (is_established pcb.state) })

-- Lines 180-191; the argument is not used.
unfoldable pub need_reconnect : ℕ → Connection → Option (Err × Connection)
need_reconnect now s = do
  s1 ← update_global now s.monitor s
  s2 ← check_state s1.monitor s1
  some (ok, s2)

-- `destroy_monitor(monitor)` on the global pointer, which stays as it is.
unfoldable pub destroy_global : Option ℕ → Connection → Option Connection
destroy_global none s = some s
destroy_global (some m) s = free_monitor m s

-- Lines 207-212.
unfoldable pub rebuild : Attempt → ℕ → Connection → Option (Err × Connection)
rebuild r p s = do
  s1 ← destroy_global s.monitor s
  s2 ← free_pcb p (note (tcp_abort p) (detach p s1))
  (err, s3) ← tcp_connection_cl r s2
  some (ok, s3)

-- Lines 194-215.
unfoldable pub reconnection_tcp : Attempt → ℕ → Connection → Option (Err × Connection)
reconnection_tcp r p s = do
  pcb ← load s.pcbs p
  if is_established pcb.state
      then some (already, record s { try_reconnect = false })
      else rebuild r p s
