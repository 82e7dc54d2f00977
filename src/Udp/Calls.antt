-- ===== src/Udp/Calls.antt =====
-- The calls that give a packet up or use it, and what goes wrong at the tenth packet.
use zynq_lwip_frtos.Base.{
  ℕ, ◌+◌, ◌≡◌, Bool, true, false, not, ◌&&◌, ◌||◌, List, [], ◌∷◌, ◌++◌, arith, ◌==◌, if◌then◌else◌,
}
use zynq_lwip_frtos.Udp.Task.{
  is_suspended, Pbuf, Call, pbuf_free, queue_send, udp_send, Answers, pass_on, send_only,
}

-- A call that gives a packet up: it is freed, or the queue has taken it.
abbrev pub gives_up : Call → ℕ
gives_up (pbuf_free a) = 1
gives_up (queue_send a p true) = 1
gives_up (queue_send a p false) = 0
gives_up (udp_send a p) = 0

unfoldable pub releases : List Call → ℕ
releases [] = 0
releases (c ∷ cs) = gives_up c + releases cs

pub releases-append : (xs ys : List Call) → releases (xs ++ ys) ≡ releases xs + releases ys
unfolding releases
releases-append [] ys = omega arith
releases-append (x ∷ xs) ys = omega (arith, releases-append xs ys)

-- Whether a packet is sent or queued after it was freed.
abbrev pub uses : ℕ → Call → Bool
uses a (pbuf_free b) = false
uses a (queue_send b p taken) = a == b
uses a (udp_send b p) = a == b

unfoldable pub used_later : ℕ → List Call → Bool
used_later a [] = false
used_later a (c ∷ cs) = uses a c || used_later a cs

abbrev pub freed_here : Call → List Call → Bool
freed_here (pbuf_free a) cs = used_later a cs
freed_here (queue_send a p taken) cs = false
freed_here (udp_send a p) cs = false

unfoldable pub dangling : List Call → Bool
dangling [] = false
dangling (c ∷ cs) = freed_here c cs || dangling cs

-- At the tenth packet the merged packet is given up once for each of the two questions about the
-- task of the gain control that finds a reason: the first if it is not suspended, the second if it is.
pub tenth-releases :
    (b : Pbuf) (r : Answers)
    → releases (pass_on b r ++ send_only b r)
      ≡ (if is_suspended r.first then 0 else 1) + (if is_suspended r.second then 1 else 0)
unfolding releases
tenth-releases b r = ground arith

-- At the tenth packet the merged packet is used after it was freed exactly if the task was not
-- suspended at the first question and the queue was full.
pub tenth-dangling :
    (b : Pbuf) (r : Answers)
    → dangling (pass_on b r ++ send_only b r) ≡ (not (is_suspended r.first) && not r.queued)
unfolding dangling used_later
tenth-dangling b r = ground arith
