-- ===== src/Monitor/Status.antt =====
-- src/tcp_stack.c, lines 12-27 and 70-81: the status of the connection on the console.
use Prim.Native.String.{String}
use zynq_lwip_frtos.Base.{ℕ, Option, none, some, List, [], ◌∷◌, if◌then◌else◌}
use zynq_lwip_frtos.Monitor.{
  TcpState, closed, listen, syn_sent, syn_rcvd, established, fin_wait_1, fin_wait_2, close_wait,
  closing, last_ack, time_wait, TcpMonitor, ErrT, err_ok, err_mem,
}

unfoldable pub tcp_state_to_string : TcpState → String
tcp_state_to_string closed = "CLOSED"
tcp_state_to_string listen = "LISTEN"
tcp_state_to_string syn_sent = "SYN_SENT"
tcp_state_to_string syn_rcvd = "SYN_RCVD"
tcp_state_to_string established = "ESTABLISHED"
tcp_state_to_string fin_wait_1 = "FIN_WAIT_1"
tcp_state_to_string fin_wait_2 = "FIN_WAIT_2"
tcp_state_to_string close_wait = "CLOSE_WAIT"
tcp_state_to_string closing = "CLOSING"
tcp_state_to_string last_ack = "LAST_ACK"
tcp_state_to_string time_wait = "TIME_WAIT"

-- What a line shows.
pub data StatusLine : Type 0 where
  title : StatusLine
  remote : List ℕ → ℕ → StatusLine
  state : String → ℕ → StatusLine
  lifetime last_update_time : ℕ → StatusLine

-- The numbers of the states in lwIP are an argument.
unfoldable pub print_status : (TcpState → ℕ) → Option TcpMonitor → ErrT × List StatusLine
print_status number none = (err_mem, [])
print_status number (some m) =
    if m.has_pcb
    then (
      err_ok,
      title
          ∷ remote m.remote_ip_str m.remote_port
          ∷ state (tcp_state_to_string m.state) (number m.state)
          ∷ lifetime m.lifetime
          ∷ last_update_time m.last_update_time
          ∷ [],
    )
    else (err_mem, [])
