-- ===== src/Handoff.antt =====
-- src/iwip.c, lines 113-130 and 375-387, and src/main.c, lines 136-149: lwIP hands the buffers that
-- arrive to a callback, which puts them into a queue; a task takes them out, and handles and frees
-- them. The queue of FreeRTOS is an argument.
pub mod Queue
pub mod Refines
pub mod Drain
pub mod Ownership
mod Tests
use zynq_lwip_frtos.Base.{
  ℕ, Bool, true, false, ◌||◌, Option, none, some, List, [], ◌∷◌, ◌++◌, ◌>>=◌,
}
use zynq_lwip_frtos.Handoff.Queue.{Fifo}
use zynq_lwip_frtos.Command.Dispatch.{Station, States, parse_msg}
use zynq_lwip_frtos.Sender
use zynq_lwip_frtos.Sender.{Link, send_udp_data}

-- A buffer of lwIP: the address tells buffers apart.
pub record Buffer : Type 0 where
  pub address : ℕ
  pub payload : List ℕ

pub data Err : Type 0 where
  err_ok err_buf : Err

pub data Call : Type 0 where
  queue_send : ℕ → Bool → Call
  pbuf_free : ℕ → Call
  yield_from_isr : Bool → Call
  parse_msg_call : ℕ → Call

-- The queue, the static variable of the callback, the calls, and the state of `parse_msg`.
pub record Inbox (Q : Type 0) : Type 0 where
  pub queue : Q
  pub woken : Bool
  pub calls : List Call
  pub station : Station

-- A buffer that the queue did not take is freed.
abbrev pub free_unless : Bool → ℕ → List Call
free_unless true address = []
free_unless false address = pbuf_free address ∷ []

module _ {Q : Type 0} (f : Fifo (Option Buffer) Q) where
  -- The same lines in both callbacks. The queue may set the static variable, and nothing resets it.
  unfoldable pub hand_over : Buffer → Bool → Inbox Q → Inbox Q
  hand_over p wakes s =
      let (sent, queue) = f.send s.queue (some p) in
      let woken = s.woken || wakes in
      record s {
        queue = queue;
        woken = woken;
        calls =
            s.calls
            ++ queue_send p.address sent
              ∷ (free_unless sent p.address ++ yield_from_isr woken ∷ []);
      }

  unfoldable pub udp_receive_callback : Option Buffer → Bool → Inbox Q → Inbox Q
  udp_receive_callback none wakes s = s
  udp_receive_callback (some p) wakes s = hand_over p wakes s

  unfoldable pub recv_callback : Option Buffer → Bool → Inbox Q → Err × Inbox Q
  recv_callback none wakes s = (err_buf, s)
  recv_callback (some p) wakes s = (err_ok, hand_over p wakes s)

  -- What xQueueReceive answered, and the queue it leaves: the task waits, or skips NULL, or handles the
  -- buffer and frees it.
  unfoldable pub parse_entry : States → Option (Option Buffer) → Q → Inbox Q → Option (Inbox Q)
  parse_entry r none queue s = some (record s { queue = queue })
  parse_entry r (some none) queue s = some (record s { queue = queue })
  parse_entry r (some (some p)) queue s = do
    station ← parse_msg r (record s.station { payload = p.payload })
    some (record s {
      queue = queue;
      calls = s.calls ++ parse_msg_call p.address ∷ pbuf_free p.address ∷ [];
      station = station;
    })

  -- One round of `tcp_parse_task`.
  unfoldable pub tcp_parse_round : States → Inbox Q → Option (Inbox Q)
  tcp_parse_round r s = let (entry, queue) = f.receive s.queue in parse_entry r entry queue s

  -- The callback and the task in any order.
  unfoldable pub tcp_parse_rounds : List States → Inbox Q → Option (Inbox Q)
  tcp_parse_rounds [] s = some s
  tcp_parse_rounds (r ∷ rs) s = do s' ← tcp_parse_round r s; tcp_parse_rounds rs s'

pub data Event : Type 0 where
  arrives : Option Buffer → Bool → Event
  parses : States → Event

module _ {Q : Type 0} (f : Fifo (Option Buffer) Q) where
  unfoldable pub happen : Event → Inbox Q → Option (Inbox Q)
  happen (arrives p wakes) s = some (recv_callback f p wakes s).1
  happen (parses r) s = tcp_parse_round f r s

  unfoldable pub happen_all : List Event → Inbox Q → Option (Inbox Q)
  happen_all [] s = some s
  happen_all (e ∷ es) s = do s' ← happen e s; happen_all es s'

-- src/iwip.c, lines 126-130: the sender's next packet.
unfoldable pub udp_package_send : Sender.Err → Link → Option (Sender.Err × Link)
udp_package_send answer s = send_udp_data answer s
