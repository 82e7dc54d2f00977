-- ===== src/Connection/Reach.antt =====
-- The states of the connection that any sequence of its operations reaches.
use zynq_lwip_frtos.Base.{ℕ, ◌≡◌, sym, subst, ◌∙◌, Option, some, some_inj, length}
use zynq_lwip_frtos.Connection.{
  Err, Connection, Event, Attempt, happen, tcp_connection_cl, need_reconnect, reconnection_tcp,
}
use zynq_lwip_frtos.Connection.WellFormed.{Empty, need_reconnect-WellFormed}
use zynq_lwip_frtos.Connection.Connect.{
  Calm, Connected, Quiet, happen-Connected, tcp_connection_cl-Connected,
}
use zynq_lwip_frtos.Connection.Reconnect.{Reconnected-Connected, reconnection_tcp-Reconnected}

-- The states that a first attempt, checks, new attempts and events of lwIP reach, where no
-- attempt lacks memory and the connection is not lost.
pub data Reach : Connection → Type 0 where
  first :
      {s t : Connection} {err : Err} (r : Attempt)
      → Quiet r (length s.pcbs)
      → Empty s
      → tcp_connection_cl r s ≡ some (err, t)
      → Reach t
  check :
      {s t : Connection} {err : Err} (now : ℕ)
      → Reach s
      → need_reconnect now s ≡ some (err, t)
      → Reach t
  retry :
      {s t : Connection} {err : Err} (r : Attempt) (p : ℕ)
      → Reach s
      → s.tcp_pcb ≡ some p
      → Quiet r (length s.pcbs)
      → reconnection_tcp r p s ≡ some (err, t)
      → Reach t
  event :
      {s t : Connection} (e : Event) (p : ℕ)
      → Reach s
      → s.tcp_pcb ≡ some p
      → Calm p e
      → happen e s ≡ some t
      → Reach t

same_state :
    {o : Option (Err × Connection)} {err err' : Err} {s t : Connection}
    → o ≡ some (err, s)
    → o ≡ some (err', t)
    → s ≡ t
same_state e e' = cc

-- The control block is the one of the global pointer.
at_global :
    (p : ℕ) (s : Connection) → s.tcp_pcb ≡ some p → (p' : ℕ) × Connected s p' → Connected s p
at_global p s at (p', (pcb, w)) =
    let same : p' ≡ p = some_inj (sym w.tcp_pcb ∙ at) in subst (Connected s) same (pcb, w)

-- In every state that a first attempt, checks, new attempts and events of lwIP reach, where each attempt
-- gets what it asks for and the connection is not lost: one control block and one monitor are live,
-- the globals point to them, and the monitor watches the control block.
pub Reach-Connected : {s : Connection} → Reach s → (p : ℕ) × Connected s p
Reach-Connected (first {s} r q none_left e) =
    let (s', e', w) = tcp_connection_cl-Connected r s q none_left in
    (length s.pcbs, subst (λ x. Connected x (length s.pcbs)) (same_state e' e) w)
Reach-Connected (check {s} now reach e) =
    let (p, (pcb, w)) = Reach-Connected reach in
    let (s', e', flag, w') = need_reconnect-WellFormed now p pcb s w in
    (p, subst (λ x. Connected x p) (same_state e' e) (pcb, w'))
Reach-Connected (retry {s} r p reach at q e) =
    let (pcb, w) = at_global p s at (Reach-Connected reach) in
    let (err, s', p', e', w') =
      Reconnected-Connected s p _ _ (reconnection_tcp-Reconnected r p pcb s q w) in
    (p', subst (λ x. Connected x p') (same_state e' e) w')
Reach-Connected (event {s} ev p reach at calm e) =
    let (s', e', w) = happen-Connected ev p s calm (at_global p s at (Reach-Connected reach)) in
    (p, subst (λ x. Connected x p) (some_inj (sym e' ∙ e)) w)
