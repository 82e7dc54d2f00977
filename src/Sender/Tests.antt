-- ===== src/Sender/Tests.antt =====
-- The sender at the packet of the program.
use zynq_lwip_frtos.Base.{◌≡◌, refl, some, [], arith}
use zynq_lwip_frtos.Sender.{UdpSender, Link, default_state}
use zynq_lwip_frtos.Sender.Numbers.{send_times, Sent, send_times-number}

abbrev udp_sender : UdpSender
udp_sender = record { udp_pbuf = some default_state; err_count = 0 }

abbrev link : Link
link = record { sender = some udp_sender; count = 0; calls = [] }

send_times-number_example : (s : Link) × (send_times 266 link ≡ some s) × Sent 0xCC s 266
send_times-number_example =
    send_times-number 266 0xCC link udp_sender default_state refl refl refl (omega arith) refl
