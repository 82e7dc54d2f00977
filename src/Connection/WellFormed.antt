-- ===== src/Connection/WellFormed.antt =====
-- One control block, one monitor that watches it, and the globals that point to them.
use zynq_lwip_frtos.Base.{ℕ, ◌≡◌, refl, ap, ◌∙◌, not, Option, some, List, set, ◌>>=◌}
use zynq_lwip_frtos.Monitor.{TcpPcb, refresh}
use zynq_lwip_frtos.Connection.{
  ok, Watch, Connection, load, update_global, is_established, check_state, need_reconnect,
}
use zynq_lwip_frtos.Connection.Store.{live, load-set-some, live-set-some}

-- The control block p with this content, and the monitor m.
pub record Shape (pcbs : List (Option TcpPcb)) (monitors : List (Option Watch))
    (global_pcb global_monitor : Option ℕ) (p : ℕ) (pcb : TcpPcb) : Type 0 where
  pub m : ℕ
  pub watch : Watch
  pub tcp_pcb : global_pcb ≡ some p
  pub loaded : load pcbs p ≡ some pcb
  pub monitor : global_monitor ≡ some m
  pub watched : load monitors m ≡ some watch
  pub points : watch.pcb ≡ p
  pub one_pcb : live pcbs ≡ 1
  pub one_monitor : live monitors ≡ 1

abbrev pub WellFormed : Connection → ℕ → TcpPcb → Type 0
WellFormed s p pcb = Shape s.pcbs s.monitors s.tcp_pcb s.monitor p pcb

-- Nothing is allocated.
pub record Empty (s : Connection) : Type 0 where
  pub no_pcb : live s.pcbs ≡ 0
  pub no_monitor : live s.monitors ≡ 0

-- A monitor may be updated.
abbrev pub updated : ℕ → TcpPcb → Watch → ℕ → Connection → Connection
updated now pcb watch m s = record s {
  monitors = set s.monitors m (some (record watch { monitor = refresh pcb now watch.monitor }));
}

pub update_global-updated :
    (now m : ℕ) (pcb : TcpPcb) (watch : Watch) (s : Connection)
    → load s.monitors m ≡ some watch
    → load s.pcbs watch.pcb ≡ some pcb
    → update_global now (some m) s ≡ some (updated now pcb watch m s)
unfolding update_global
update_global-updated now m pcb watch s h h' = simp (h, h')

pub updated-WellFormed :
    (now p : ℕ) (pcb : TcpPcb) (s : Connection) (w : WellFormed s p pcb)
    → WellFormed (updated now pcb w.watch w.m s) p pcb
updated-WellFormed now p pcb s w = record {
  m = w.m;
  watch = record w.watch { monitor = refresh pcb now w.watch.monitor };
  tcp_pcb = w.tcp_pcb;
  loaded = w.loaded;
  monitor = w.monitor;
  watched = load-set-some s.monitors w.m _ w.watched;
  points = w.points;
  one_pcb = w.one_pcb;
  one_monitor = live-set-some s.monitors w.m _ w.watched ∙ w.one_monitor;
}

pub watched_pcb :
    (p : ℕ) (pcb : TcpPcb) (s : Connection) (w : WellFormed s p pcb)
    → load s.pcbs w.watch.pcb ≡ some pcb
watched_pcb p pcb s w = ap (load s.pcbs) w.points ∙ w.loaded

check_state-some :
    (p m : ℕ) (pcb : TcpPcb) (watch : Watch) (s : Connection)
    → load s.monitors m ≡ some watch
    → load s.pcbs watch.pcb ≡ some pcb
    → check_state (some m) s ≡ some (record s { try_reconnect = not (is_established pcb.state) })
unfolding check_state
check_state-some p m pcb watch s h h' = simp (h, h')

-- In a well-formed state the check of the connection uses no freed memory; it asks for a new
-- connection exactly if the control block is not in the state ESTABLISHED, and the state stays well
-- formed.
pub need_reconnect-WellFormed :
    (now p : ℕ) (pcb : TcpPcb) (s : Connection)
    → WellFormed s p pcb
    → (s' : Connection) × (need_reconnect now s ≡ some (ok, s'))
      × (s'.try_reconnect ≡ not (is_established pcb.state))
      × WellFormed s' p pcb
unfolding need_reconnect
need_reconnect-WellFormed now p pcb s w =
    let s1 = updated now pcb w.watch w.m s in
    let w1 = updated-WellFormed now p pcb s w in
    let s2 = record s1 { try_reconnect = not (is_established pcb.state) } in
    let e1 =
      ap (λ o. update_global now o s) w.monitor
      ∙ update_global-updated now w.m pcb w.watch s w.watched (watched_pcb p pcb s w) in
    let e2 =
      ap (λ o. check_state o s1) w1.monitor
      ∙ check_state-some p w1.m pcb w1.watch s1 w1.watched (watched_pcb p pcb s1 w1) in
    (
      s2,
      ap (λ o. do s3 ← o; s4 ← check_state s3.monitor s3; some (ok, s4)) e1
          ∙ ap (λ o. do s4 ← o; some (ok, s4)) e2,
      refl,
      w1,
    )
