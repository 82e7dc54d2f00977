-- ===== src/Connection/Reconnect.antt =====
-- A new attempt after the old connection is torn down.
use zynq_lwip_frtos.Base.{
  ℕ, ◌≡◌, refl, sym, ap, subst, ◌∙◌, Bool, true, false, Option, none, some, arith, length,
  length-set, set, if◌then◌else◌, ◌>>=◌,
}
use zynq_lwip_frtos.Monitor.{TcpPcb}
use zynq_lwip_frtos.Connection.{
  Err, ok, already, Watch, Connection, note, Attempt, load, free_pcb, free_monitor, detach,
  tcp_abort, tcp_connection_cl, is_established, destroy_global, rebuild, reconnection_tcp,
}
use zynq_lwip_frtos.Connection.Store.{live-set-none}
use zynq_lwip_frtos.Connection.WellFormed.{WellFormed, Empty}
use zynq_lwip_frtos.Connection.Connect.{Connected, Quiet, tcp_connection_cl-Connected}

pub free_monitor-some :
    (m : ℕ) (watch : Watch) (s : Connection)
    → load s.monitors m ≡ some watch
    → free_monitor m s ≡ some (record s { monitors = set s.monitors m none })
unfolding free_monitor
free_monitor-some m watch s h = simp h

pub free_pcb-some :
    (p : ℕ) (pcb : TcpPcb) (s : Connection)
    → load s.pcbs p ≡ some pcb
    → free_pcb p s ≡ some (record s { pcbs = set s.pcbs p none })
unfolding free_pcb
free_pcb-some p pcb s h = simp h

-- Both are freed.
abbrev pub torn_down : ℕ → ℕ → Connection → Connection
torn_down p m s =
    record (note (tcp_abort p) (detach p (record s { monitors = set s.monitors m none }))) {
      pcbs = set s.pcbs p none;
    }

torn_down-Empty :
    (p : ℕ) (pcb : TcpPcb) (s : Connection) (w : WellFormed s p pcb) → Empty (torn_down p w.m s)
torn_down-Empty p pcb s w = record {
  no_pcb = omega (arith, live-set-none s.pcbs p w.loaded, w.one_pcb);
  no_monitor = omega (arith, live-set-none s.monitors w.m w.watched, w.one_monitor);
}

-- The new control block is the next one.
again :
    (r : Attempt) (p : ℕ) (s : Connection)
    → Quiet r (length s.pcbs)
    → Quiet r (length (set s.pcbs p none))
again r p s q = subst (Quiet r) (sym (length-set s.pcbs p none)) q

-- After the old connection is torn down, what counts is the attempt.
pub rebuild-torn_down :
    (r : Attempt) (p : ℕ) (pcb : TcpPcb) (s : Connection) (w : WellFormed s p pcb) {err : Err}
    {s3 : Connection}
    → tcp_connection_cl r (torn_down p w.m s) ≡ some (err, s3)
    → rebuild r p s ≡ some (ok, s3)
unfolding rebuild destroy_global
rebuild-torn_down r p pcb s w e3 =
    let s1 = record s { monitors = set s.monitors w.m none } in
    let s2 = torn_down p w.m s in
    let e1 : destroy_global s.monitor s ≡ some s1 =
      ap (λ o. destroy_global o s) w.monitor ∙ free_monitor-some w.m w.watch s w.watched in
    let e2 : free_pcb p (note (tcp_abort p) (detach p s1)) ≡ some s2 =
      free_pcb-some p pcb (note (tcp_abort p) (detach p s1)) w.loaded in
    ap
      (λ o. do
        x ← o
        y ← free_pcb p (note (tcp_abort p) (detach p x))
        (err, z) ← tcp_connection_cl r y
        some (ok, z))
      e1
    ∙ ap (λ o. do y ← o; (err, z) ← tcp_connection_cl r y; some (ok, z)) e2
    ∙ ap (λ o. do (err, z) ← o; some (ok, z)) e3

rebuild-Connected :
    (r : Attempt) (p : ℕ) (pcb : TcpPcb) (s : Connection)
    → Quiet r (length s.pcbs)
    → WellFormed s p pcb
    → (s' : Connection) × (rebuild r p s ≡ some (ok, s')) × Connected s' (length s.pcbs)
rebuild-Connected r p pcb s q w =
    let (s3, e3, w3) =
      tcp_connection_cl-Connected r (torn_down p w.m s) (again r p s q)
        (torn_down-Empty p pcb s w) in
    (s3, rebuild-torn_down r p pcb s w e3, subst (Connected s3) (length-set s.pcbs p none) w3)

-- What the reconnection answers and leaves, by whether the connection is established: the old connection,
-- with nothing changed but the mark of a new attempt, or one with the next control block.
abbrev pub Reconnected : Connection → ℕ → Bool → Option (Err × Connection) → Type 0
Reconnected s p true o =
    (o ≡ some (already, record s { try_reconnect = false }))
    × Connected (record s { try_reconnect = false }) p
Reconnected s p false o = (s' : Connection) × (o ≡ some (ok, s')) × Connected s' (length s.pcbs)

by_state :
    (b : Bool) (r : Attempt) (p : ℕ) (pcb : TcpPcb) (s : Connection)
    → Quiet r (length s.pcbs)
    → WellFormed s p pcb
    → Reconnected s p b
        (if b then some (already, record s { try_reconnect = false }) else rebuild r p s)
by_state true r p pcb s q w = (refl, (pcb, w))
by_state false r p pcb s q w = rebuild-Connected r p pcb s q w

-- In both cases one connection.
pub Reconnected-Connected :
    (s : Connection) (p : ℕ) (b : Bool) (o : Option (Err × Connection))
    → Reconnected s p b o
    → (err : Err) × (s' : Connection) × (p' : ℕ) × (o ≡ some (err, s')) × Connected s' p'
Reconnected-Connected s p true o (e, w) = (already, record s { try_reconnect = false }, p, e, w)
Reconnected-Connected s p false o (s', e, w) = (ok, s', length s.pcbs, e, w)

pub reconnection_tcp-by_state :
    (r : Attempt) (p : ℕ) (pcb : TcpPcb) (s : Connection)
    → WellFormed s p pcb
    → reconnection_tcp r p s ≡ (
        if is_established pcb.state
        then some (already, record s { try_reconnect = false })
        else rebuild r p s)
unfolding reconnection_tcp
reconnection_tcp-by_state r p pcb s w =
    ap
      (λ o. do
        b ← o
        if is_established b.state
            then some (already, record s { try_reconnect = false })
            else rebuild r p s)
      w.loaded

-- In a well-formed state, and with an attempt that gets what it asks for and is not lost meanwhile, the
-- reconnection uses and frees no freed memory. If the connection is established, it answers that it is,
-- and changes nothing but the mark of a new attempt; otherwise it answers ERR_OK, and leaves one
-- control block, the next one instead of the old one, and one monitor, which watches it.
pub reconnection_tcp-Reconnected :
    (r : Attempt) (p : ℕ) (pcb : TcpPcb) (s : Connection)
    → Quiet r (length s.pcbs)
    → WellFormed s p pcb
    → Reconnected s p (is_established pcb.state) (reconnection_tcp r p s)
reconnection_tcp-Reconnected r p pcb s q w =
    subst (Reconnected s p (is_established pcb.state)) (sym (reconnection_tcp-by_state r p pcb s w))
      (by_state (is_established pcb.state) r p pcb s q w)
