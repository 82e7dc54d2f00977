-- ===== src/Handoff/Queue.antt =====
-- What the code relies on of a queue of FreeRTOS: it is bounded, and hands out first what came first.
use zynq_lwip_frtos.Base.{
  ℕ, ◌≤◌, ◌<◌, ◌≡◌, refl, Bool, true, false, Option, none, some, List, [], ◌∷◌, ◌++◌, length, ltb,
  lt→ltb, le→ltb, if◌then◌else◌,
}

-- `send` is xQueueSendFromISR, or xQueueSend that does not wait, its answer whether the entry was
-- taken; `receive` is xQueueReceive,
-- `none` where it would wait.
pub record Fifo (A Q : Type 0) : Type 0 where
  pub send : Q → A → Bool × Q
  pub receive : Q → Option A × Q
  pub contents : Q → List A
  pub capacity : ℕ
  pub send_room :
      (q : Q) (a : A)
      → length (contents q) < capacity
      → ((send q a).0 ≡ true) × (contents (send q a).1 ≡ contents q ++ a ∷ [])
  pub send_full :
      (q : Q) (a : A)
      → capacity ≤ length (contents q)
      → ((send q a).0 ≡ false) × (contents (send q a).1 ≡ contents q)
  pub receive_empty :
      (q : Q) → contents q ≡ [] → ((receive q).0 ≡ none) × (contents (receive q).1 ≡ [])
  pub receive_first :
      (q : Q) (a : A) (rest : List A)
      → contents q ≡ a ∷ rest
      → ((receive q).0 ≡ some a) × (contents (receive q).1 ≡ rest)

-- The queue as a list.
module _ {A : Type 0} where
  abbrev pub list_send : ℕ → List A → A → Bool × List A
  list_send capacity q a = if ltb (length q) capacity then (true, q ++ a ∷ []) else (false, q)

  abbrev pub list_receive : List A → Option A × List A
  list_receive [] = (none, [])
  list_receive (a ∷ q) = (some a, q)

  pub send_list_room :
      (capacity : ℕ) (q : List A) (a : A)
      → length q < capacity
      → ((list_send capacity q a).0 ≡ true) × ((list_send capacity q a).1 ≡ q ++ a ∷ [])
  send_list_room capacity q a h = rw (lt→ltb (length q) capacity h) (refl, refl)

  pub send_list_full :
      (capacity : ℕ) (q : List A) (a : A)
      → capacity ≤ length q
      → ((list_send capacity q a).0 ≡ false) × ((list_send capacity q a).1 ≡ q)
  send_list_full capacity q a h = rw (le→ltb (length q) capacity h) (refl, refl)

  abbrev pub listed : ℕ → Fifo A (List A)
  listed capacity = record {
    send = list_send capacity;
    receive = list_receive;
    contents = λ q. q;
    capacity = capacity;
    send_room = send_list_room capacity;
    send_full = send_list_full capacity;
    receive_empty = λ q h. rw h (refl, refl);
    receive_first = λ q a rest h. rw h (refl, refl);
  }
