-- ===== src/Network/Outcome.antt =====
-- How the set-up of the UDP connections ends, for each answer of lwIP.
use zynq_lwip_frtos.Base.{
  ◌≡◌, refl, Bool, true, false, Option, none, some, List, [], ◌∷◌, ℕ, if◌then◌else◌,
}
use zynq_lwip_frtos.Base.Calls.{Ending, returns, stops, crashes, ending, calls}
use zynq_lwip_frtos.Sender.{add_sender}
use zynq_lwip_frtos.Network.{
  Call, UdpPcb, udp_pcb_conn, udp_pcb_answer, udp_connect, udp_recv, make_sender, require_sender,
  connect_answer, udp_connection,
}

-- By the first control block, the memory and the buffer.
abbrev pub expected : Bool → Bool → Option (List ℕ) → Ending
expected false allocated buffer = stops
expected true false buffer = crashes
expected true true none = stops
expected true true (some bytes) = returns

abbrev pub has_returned : Ending → Bool
has_returned returns = true
has_returned _ = false

-- The control blocks that are connected to the remote address, and whether each of them exists.
unfoldable pub connected : List Call → List (UdpPcb × Bool)
connected [] = []
connected (udp_connect pcb given address port ∷ cs) = (pcb, given) ∷ connected cs
connected (_ ∷ cs) = connected cs

-- The control blocks whose packets go to the callback.
unfoldable pub received : List Call → List UdpPcb
received [] = []
received (udp_recv pcb ∷ cs) = pcb ∷ received cs
received (_ ∷ cs) = received cs

-- The task is deleted without a first control block or a buffer for the sender; the code leaves the
-- behaviour of C without memory for the sender. Otherwise the set-up returns and has registered the
-- callback for the first control block, also without a second one: then NULL is what it has connected to the
-- remote address. Where it does not return, it has connected and registered nothing.
pub udp_connection-ending :
    (conn allocated answer : Bool) (buffer : Option (List ℕ))
    → let run =
        udp_connection
          (record { conn = conn; answer = answer; allocated = allocated; buffer = buffer }) in
      let reached = has_returned (expected conn allocated buffer) in
      (ending run ≡ expected conn allocated buffer)
      × (connected (calls run) ≡ (if reached then (udp_pcb_answer, answer) ∷ [] else []))
      × (received (calls run) ≡ (if reached then udp_pcb_conn ∷ [] else []))
unfolding udp_connection make_sender require_sender connect_answer connected received add_sender
udp_connection-ending false allocated answer buffer = (refl, refl, refl)
udp_connection-ending true false answer buffer = (refl, refl, refl)
udp_connection-ending true true answer none = (refl, refl, refl)
udp_connection-ending true true answer (some bytes) = (refl, refl, refl)
