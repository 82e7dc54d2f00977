-- ===== src/Network/Tests.antt =====
-- The second control block is missing.
use zynq_lwip_frtos.Base.{◌≡◌, true, false, some, [], ◌∷◌}
use zynq_lwip_frtos.Base.Calls.{returns, ending, calls}
use zynq_lwip_frtos.Network.{udp_pcb_conn, udp_pcb_answer, udp_connection, UdpAnswers}
use zynq_lwip_frtos.Network.Outcome.{connected, received, udp_connection-ending}

abbrev answers : UdpAnswers
answers = record { conn = true; answer = false; allocated = true; buffer = some [] }

udp_connection-ending_example :
    (ending (udp_connection answers) ≡ returns)
    × (connected (calls (udp_connection answers)) ≡ (udp_pcb_answer, false) ∷ [])
    × (received (calls (udp_connection answers)) ≡ udp_pcb_conn ∷ [])
udp_connection-ending_example = udp_connection-ending true true false (some [])
