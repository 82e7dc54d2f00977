-- ===== src/Network.antt =====
-- src/iwip.c, lines 13-57, and src/iwip.h, lines 36-53: the network interface and the two UDP
-- connections. What lwIP and FreeRTOS answer is an argument.
pub mod Outcome
mod Tests
use zynq_lwip_frtos.Base.{ℕ, Bool, true, false, Option, none, some, List, [], ◌∷◌, if◌then◌else◌}
use zynq_lwip_frtos.Base.Calls.{Run, done, stopped, fault, ◌>>=◌, ◌>>◌, pure, call, lift}
use zynq_lwip_frtos.Sender
use zynq_lwip_frtos.Sender.{UdpSender, add_sender}

-- An IPv4 address, as its four numbers.
pub record Address : Type 0 where
  pub a : ℕ
  pub b : ℕ
  pub c : ℕ
  pub d : ℕ

abbrev pub local_ip_address : Address
local_ip_address = record { a = 192; b = 168; c = 1; d = 10 }

abbrev pub remote_ip_address : Address
remote_ip_address = record { a = 192; b = 168; c = 1; d = 100 }

abbrev pub local_net_mask : Address
local_net_mask = record { a = 255; b = 255; c = 255; d = 0 }

abbrev pub local_gateway : Address
local_gateway = record { a = 192; b = 168; c = 1; d = 1 }

abbrev pub tcp_remote_port : ℕ
tcp_remote_port = 7

abbrev pub udp_remote_port : ℕ
udp_remote_port = 5005

-- The two UDP control blocks.
pub data UdpPcb : Type 0 where
  udp_pcb_conn udp_pcb_answer : UdpPcb

pub data Call : Type 0 where
  lwip_init netif_set_default netif_set_up task_delete : Call
  inet_aton : Address → Call
  xemac_add : (ip mask gateway : Address) → (mac : List ℕ) → Call
  udp_new : UdpPcb → Call
  sender_call : Sender.Call → Call
  -- Whether there is a control block: without one lwIP answers ERR_ARG.
  udp_connect : UdpPcb → (given : Bool) → Address → ℕ → Call
  udp_bind : UdpPcb → ℕ → Call
  udp_recv : UdpPcb → Call
  adding_failed no_udp_pcb : Call

abbrev pub mac : List ℕ
mac = 0x00 ∷ 0x0A ∷ 0x35 ∷ 0x00 ∷ 0x01 ∷ 0x02 ∷ []

-- A deleted task does not go on.
abbrev pub delete_task : Run Call (Unit {0})
delete_task = stopped (task_delete ∷ [])

-- Whether the interface is added.
unfoldable pub network_setup : Bool → Run Call (Unit {0})
network_setup added = do
  call lwip_init
  call (inet_aton local_ip_address)
  call (inet_aton local_net_mask)
  call (inet_aton local_gateway)
  call (xemac_add local_ip_address local_net_mask local_gateway mac)
  (if added then pure tt else (do call adding_failed; delete_task))
  call netif_set_default
  call netif_set_up

-- What lwIP answers while the UDP connections are made: the control blocks, the memory for the
-- sender, and its buffer.
pub record UdpAnswers : Type 0 where
  pub conn : Bool
  pub answer : Bool
  pub allocated : Bool
  pub buffer : Option (List ℕ)

-- `add_sender` with its calls; `none` is a write through NULL.
unfoldable pub make_sender : UdpAnswers → Run Call (Option UdpSender)
make_sender r = elim (add_sender r.allocated r.conn r.buffer) [
  | none ↦ fault []
  | some (made, cs) ↦ lift sender_call (done cs made)
]

-- Line 53: the control block is not tested, and the answer of `udp_connect` is ignored.
unfoldable pub connect_answer : Bool → Run Call (Unit {0})
connect_answer given = call (udp_connect udp_pcb_answer given remote_ip_address udp_remote_port)

unfoldable pub require_sender : Option UdpSender → Run Call UdpSender
require_sender none = stopped (task_delete ∷ [])
require_sender (some sender) = pure sender

unfoldable pub udp_connection : UdpAnswers → Run Call UdpSender
udp_connection r = do
  call (udp_new udp_pcb_conn)
  call (udp_new udp_pcb_answer)
  (if r.conn then pure tt else (do call no_udp_pcb; delete_task))
  call (inet_aton remote_ip_address)
  made ← make_sender r
  sender ← require_sender made
  connect_answer r.answer
  call (udp_bind udp_pcb_conn 5005)
  call (udp_recv udp_pcb_conn)
  pure sender
