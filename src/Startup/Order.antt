-- ===== src/Startup/Order.antt =====
-- In which order the queues, the tasks that read them and the callback that fills one come to be.
use zynq_lwip_frtos.Base.{
  ℕ, ◌≡◌, refl, ap, ◌∙◌, Bool, true, false, ◌&&◌, some, List, [], ◌∷◌, ◌++◌, if◌then◌else◌,
}
use zynq_lwip_frtos.Base.Calls.{Run, done, stopped, fault, prepend, ◌>>=◌, lift, map_calls, calls}
use zynq_lwip_frtos.Network.{
  udp_recv, network_setup, udp_connection, make_sender, require_sender, connect_answer,
}
use zynq_lwip_frtos.Sender.{add_sender}
use zynq_lwip_frtos.Timer.Setup.{initialise_timers}
use zynq_lwip_frtos.Startup.{
  Call, Task, Queue, InitAnswers, network_init, pbuf_queue_udp, pbuf_queue_auto_gain_control,
  pbuf_queue_tcp, task_create, queue_create, network_call, timer_call, udp_parse_task,
  udp_auto_gain_control_task, tcp_parse_task,
}

-- The queues that exist.
pub record Queues : Type 0 where
  pub udp : Bool
  pub auto_gain_control : Bool
  pub tcp : Bool

abbrev pub no_queues : Queues
no_queues = record { udp = false; auto_gain_control = false; tcp = false }

abbrev pub with_queue : Queue → Queues → Queues
with_queue pbuf_queue_udp q = record q { udp = true }
with_queue pbuf_queue_auto_gain_control q = record q { auto_gain_control = true }
with_queue pbuf_queue_tcp q = record q { tcp = true }

-- The queues after a call: one more if FreeRTOS makes it.
abbrev pub after : Call → Queues → Queues
after (queue_create queue n made) q = if made then with_queue queue q else q
after _ q = q

-- Whether the queue that a new task reads exists. The task of the UDP packets also fills the one of
-- the gain control, but not before it has received ten packets.
abbrev pub can_read : Task → Queues → Bool
can_read udp_parse_task q = q.udp
can_read udp_auto_gain_control_task q = q.auto_gain_control
can_read tcp_parse_task q = q.tcp
can_read _ q = true

abbrev pub task_ready : Call → Queues → Bool
task_ready (task_create task stack priority made) q = can_read task q
task_ready _ q = true

-- Whether the queue that `udp_receive_callback` fills exists when the callback is registered.
abbrev pub callback_ready : Call → Queues → Bool
callback_ready (network_call (udp_recv pcb)) q = q.udp
callback_ready _ q = true

unfoldable pub holds : (Call → Queues → Bool) → Queues → List Call → Bool
holds f q [] = true
holds f q (c ∷ cs) = f c q && holds f (after c q) cs

calls-prepend :
    {A : Type 0} (cs : List Call) (m : Run Call A) → calls (prepend cs m) ≡ cs ++ calls m
calls-prepend cs (done ds a) = refl
calls-prepend cs (stopped ds) = refl
calls-prepend cs (fault ds) = refl

data Orderly {A : Type 0} (q : Queues) (m : Run Call A) : Type 0 where
  orderly : holds task_ready q (calls m) ≡ true → Orderly q m

-- One call, and what follows.
call-Orderly :
    {A : Type 0} {q : Queues} (c : Call) (m : Run Call A)
    → task_ready c q ≡ true
    → Orderly (after c q) m
    → Orderly q (prepend (c ∷ []) m)
unfolding holds
call-Orderly c m h (orderly h') = orderly (rw (calls-prepend (c ∷ []) m) (rw h h'))

-- Calls of the network and of the timers need no queue, and create none.
module _ {C : Type 0} (q : Queues) (f : C → Call) (ready : (c : C) → task_ready (f c) q ≡ true)
    (same : (c : C) → after (f c) q ≡ q) where
  neutral :
      (cs : List C) (ds : List Call)
      → holds task_ready q (map_calls f cs ++ ds) ≡ holds task_ready q ds
  unfolding holds
  neutral [] ds = refl
  neutral (c ∷ cs) ds = rw (ready c, same c) (neutral cs ds)

  neutral_only : (cs : List C) → holds task_ready q (map_calls f cs) ≡ true
  unfolding holds
  neutral_only [] = refl
  neutral_only (c ∷ cs) = rw (ready c, same c) (neutral_only cs)

  lift-Orderly :
      {A B : Type 0} (m : Run C A) (k : A → Run Call B)
      → ((a : A) → Orderly q (k a))
      → Orderly q (lift f m >>= k)
  lift-Orderly (done cs a) k h = elim (h a) [
    | orderly e ↦
        orderly (ap (holds task_ready q) (calls-prepend _ (k a)) ∙ neutral cs (calls (k a)) ∙ e)
  ]
  lift-Orderly (stopped cs) k h = orderly (neutral_only cs)
  lift-Orderly (fault cs) k h = orderly (neutral_only cs)

-- A queue that is made.
queue-Orderly :
    {A : Type 0} {q : Queues} (queue : Queue) (n : ℕ) (made : Bool) (m : Run Call A)
    → made ≡ true
    → Orderly (with_queue queue q) m
    → Orderly q (prepend (queue_create queue n made ∷ []) m)
queue-Orderly queue n true m h o = call-Orderly _ m refl o
queue-Orderly queue n false m h o = absurd (cc)

network_init-Orderly :
    (r : InitAnswers) → ((q : Queue) → r.queues q ≡ true) → Orderly no_queues (network_init r)
unfolding network_init holds
network_init-Orderly r made = call-Orderly _ _ refl (
    lift-Orderly _ network_call (λ c. refl) (λ c. refl) (network_setup r.added) _
      λ _. call-Orderly _ _ refl (
        lift-Orderly _ network_call (λ c. refl) (λ c. refl) (udp_connection r.udp) _
          λ sender. call-Orderly _ _ refl (
            queue-Orderly _ _ _ _ (made pbuf_queue_udp) (
              call-Orderly _ _ refl (
                queue-Orderly _ _ _ _ (made pbuf_queue_auto_gain_control) (
                  call-Orderly _ _ refl (
                    call-Orderly _ _ refl (
                      queue-Orderly _ _ _ _ (made pbuf_queue_tcp) (
                        call-Orderly _ _ refl (
                          lift-Orderly _ timer_call (λ c. refl) (λ c. refl)
                            (initialise_timers r.constants r.timer_0 r.timer_1 r.timer_2) _
                            λ _. orderly refl))))))))))

-- If FreeRTOS makes the queues it is asked for, every task is created after the queue that it reads
-- exists, whatever else the libraries answer.
pub network_init-task_ready :
    (r : InitAnswers)
    → ((q : Queue) → r.queues q ≡ true)
    → holds task_ready no_queues (calls (network_init r)) ≡ true
network_init-task_ready r made = elim (network_init-Orderly r made) [ orderly e ↦ e ]

-- Where the network interface is added and lwIP gives all that the UDP connections ask for, the
-- callback that fills the queue of the UDP packets is registered before this queue exists.
pub network_init-callback_ready :
    (r : InitAnswers) (bytes : List ℕ)
    → r.added ≡ true
    → r.udp ≡ record { conn = true; answer = true; allocated = true; buffer = some bytes }
    → holds callback_ready no_queues (calls (network_init r)) ≡ false
unfolding network_init holds network_setup udp_connection make_sender require_sender connect_answer
    add_sender
network_init-callback_ready r bytes h h' = rw (h, h') (simp calls-prepend)
