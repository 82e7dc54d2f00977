-- ===== src/Sender.antt =====
-- src/udp_stack.c, src/udp_stack.h: the sender of the UDP packets. The calls of lwIP are recorded in
-- their order; what they answer is an argument.
pub mod Numbers
mod Tests
use zynq_lwip_frtos.Base.{
  ℕ, ◌+◌, ◌%◌, Bool, true, false, Option, none, some, List, [], ◌∷◌, ◌++◌, get_elem?, set, ◌==◌,
  if◌then◌else◌, wrap8, wrap32, ◌>>=◌, replicate,
}

-- src/main.h, line 69: the packet that the program gives to the sender.
abbrev pub default_state : List ℕ
default_state = 0xAA ∷ 0xBB ∷ 0xCC ∷ replicate 8189 0

-- err_t of lwIP: success, ERR_VAL, or another error.
pub data Err : Type 0 where
  err_ok err_val : Err
  err_other : ℕ → Err

abbrev is_ok : Err → Bool
is_ok err_ok = true
is_ok _ = false

pub data Call : Type 0 where
  mem_malloc pbuf_alloc_reference pbuf_free mem_free : Call
  udp_send : List ℕ → Call
  sending_error failed_to_alloc initialized : Call
  send_errors : ℕ → Call

-- `udp_sender_t`: the payload of its buffer, if it has one, and whether the buffer is referenced.
pub record UdpSender : Type 0 where
  pub udp_pbuf : Option (List ℕ)
  pub err_count : ℕ

-- The sender, the byte `count` of the header, and the calls.
pub record Link : Type 0 where
  pub sender : Option UdpSender
  pub count : ℕ
  pub calls : List Call

-- Lines 14-30. The arguments: whether there is memory for the record, whether a connection is given,
-- and the buffer that lwIP gives. The record is cleared before the pointer is tested, so a failed
-- allocation is written through (`none`).
unfoldable pub add_sender : Bool → Bool → Option (List ℕ) → Option (Option UdpSender × List Call)
add_sender false pcb buffer = none
add_sender true false buffer = some (none, mem_malloc ∷ [])
add_sender true true none =
    some (none, mem_malloc ∷ pbuf_alloc_reference ∷ failed_to_alloc ∷ mem_free ∷ [])
add_sender true true (some bytes) = some (
  some (record { udp_pbuf = some bytes; err_count = 0 }),
  mem_malloc ∷ pbuf_alloc_reference ∷ initialized ∷ [],
)

-- Lines 39-46: after `udp_send` failed.
unfoldable pub failed : UdpSender → Link → Link
failed sender s =
    let errors = wrap32 (sender.err_count + 1) in
    record s {
      sender = some (record sender { err_count = errors });
      calls =
          s.calls ++ sending_error ∷ (if errors % 1000 == 0 then send_errors errors ∷ [] else []);
    }

-- Lines 48-52: byte 2 of the payload is the number of the packet.
unfoldable pub renumber : UdpSender → List ℕ → Link → Option Link
renumber sender payload s = do
  number ← get_elem? payload 2
  let next = if s.count == 10 then 0 else wrap8 (number + 1)
  some (record s { sender = some (record sender { udp_pbuf = some (set payload 2 next) }) })

-- Lines 36-54.
unfoldable pub send_payload : Err → UdpSender → List ℕ → Link → Option (Err × Link)
send_payload answer sender payload s =
    let sent = record s { count = wrap8 (s.count + 1); calls = s.calls ++ udp_send payload ∷ [] } in
    if is_ok answer
    then (do s' ← renumber sender payload sent; some (err_ok, s'))
    else some (answer, failed sender sent)

-- Lines 32-55, with what `udp_send` answers: the first guard finds a sender without a buffer.
unfoldable pub send_sender : Err → UdpSender → Option (List ℕ) → Link → Option (Err × Link)
send_sender answer sender none s = some (err_val, s)
send_sender answer sender (some payload) s = send_payload answer sender payload s

unfoldable pub send_link : Err → Option UdpSender → Link → Option (Err × Link)
send_link answer none s = some (err_val, s)
send_link answer (some sender) s = send_sender answer sender sender.udp_pbuf s

unfoldable pub send_udp_data : Err → Link → Option (Err × Link)
send_udp_data answer s = send_link answer s.sender s

-- Lines 57-65, with the count of references of the buffer.
unfoldable pub destroy_sender : ℕ → Option UdpSender → List Call
destroy_sender ref none = []
destroy_sender ref (some sender) = elim sender.udp_pbuf [
  | none ↦ mem_free ∷ []
  | some payload ↦ if ref == 0 then pbuf_free ∷ mem_free ∷ [] else mem_free ∷ []
]
