-- ===== src/Connection/Connect.antt =====
-- An attempt to connect, and a new attempt after it, leave one control block and one monitor.
use zynq_lwip_frtos.Base.{
  ℕ, suc, ◌≡◌, refl, sym, ap, ◌∙◌, Bool, true, false, some, List, [], ◌∷◌, ◌++◌, length, set, ◌>>=◌,
}
use zynq_lwip_frtos.Monitor.{TcpPcb, TcpMonitor, TcpState, create_tcp_monitor}
use zynq_lwip_frtos.Connection.{
  Err, ok, mem, clsd, uninitialised, other, already, Connection, note, Event, lost, connected,
  changed, Attempt, load, tcp_err, tcp_connect, vtask_delay, client_connected, update_global,
  happen, happen_all, make_monitor, read_state, check_connect, attach, connect_new, connect_with,
  tcp_connection_cl,
}
use zynq_lwip_frtos.Connection.Store.{live-append, load-append_last, load-set-some, live-set-some}
use zynq_lwip_frtos.Connection.WellFormed.{
  WellFormed, Empty, updated, update_global-updated, updated-WellFormed, watched_pcb,
}

-- Events that leave the control block p to the program.
abbrev pub Calm : ℕ → Event → Type 0
Calm p (lost q) = ⊥
Calm p (connected q err) = Unit
Calm p (changed q state) = q ≡ p

abbrev pub AllCalm : ℕ → List Event → Type 0
AllCalm p [] = Unit
AllCalm p (e ∷ es) = Calm p e × AllCalm p es

-- The state is well formed, with some content of the control block.
abbrev pub Connected : Connection → ℕ → Type 0
Connected s p = (pcb : TcpPcb) × WellFormed s p pcb

client_connected-Connected :
    (q p : ℕ) (err : Err) (s : Connection)
    → Connected s p
    → Connected (client_connected q err s).1 p
unfolding client_connected
client_connected-Connected q p ok s w = w
client_connected-Connected q p mem s w = w
client_connected-Connected q p clsd s w = w
client_connected-Connected q p already s w = w
client_connected-Connected q p uninitialised s w = w
client_connected-Connected q p (other n) s w = w

changed-Connected :
    (q p : ℕ) (state : TcpState) (s : Connection)
    → q ≡ p
    → Connected s p
    → (s' : Connection) × (happen (changed q state) s ≡ some s') × Connected s' p
unfolding happen
changed-Connected q p state s same (pcb, w) =
    let e : load s.pcbs q ≡ some pcb = ap (load s.pcbs) same ∙ w.loaded in
    let pcb' = record pcb { state = state } in
    let at : load (set s.pcbs q (some pcb')) p ≡ some pcb' =
      ap (load (set s.pcbs q (some pcb'))) (sym same) ∙ load-set-some s.pcbs q pcb' e in
    (
      record s { pcbs = set s.pcbs q (some pcb') },
      ap
          (λ o. do
            b ← o
            some (record s { pcbs = set s.pcbs q (some (record b { state = state })) }))
          e,
      (
        pcb',
        record {
          m = w.m;
          watch = w.watch;
          tcp_pcb = w.tcp_pcb;
          loaded = at;
          monitor = w.monitor;
          watched = w.watched;
          points = w.points;
          one_pcb = live-set-some s.pcbs q pcb' e ∙ w.one_pcb;
          one_monitor = w.one_monitor;
        },
      ),
    )

pub happen-Connected :
    (e : Event) (p : ℕ) (s : Connection)
    → Calm p e
    → Connected s p
    → (s' : Connection) × (happen e s ≡ some s') × Connected s' p
unfolding happen
happen-Connected (lost q) p s calm w = absurd calm
happen-Connected (connected q err) p s calm w =
    ((client_connected q err s).1, refl, client_connected-Connected q p err s w)
happen-Connected (changed q state) p s calm w = changed-Connected q p state s calm w

pub happen_all-Connected :
    (es : List Event) (p : ℕ) (s : Connection)
    → AllCalm p es
    → Connected s p
    → (s' : Connection) × (happen_all es s ≡ some s') × Connected s' p
unfolding happen_all
happen_all-Connected [] p s calm w = (s, refl, w)
happen_all-Connected (e ∷ es) p s (c, calm) w =
    let (s1, e1, w1) = happen-Connected e p s c w in
    let (s2, e2, w2) = happen_all-Connected es p s1 calm w1 in
    (s2, ap (λ o. do s' ← o; happen_all es s') e1 ∙ e2, w2)

-- The attempt gets a control block and memory, `tcp_connect` succeeds, and the connection is not
-- lost within the two seconds.
pub record Quiet (r : Attempt) (p : ℕ) : Type 0 where
  pub pcb : TcpPcb
  pub new_pcb : r.new_pcb ≡ some pcb
  pub memory : r.memory ≡ true
  pub connect_err : r.connect_err ≡ ok
  pub calm : AllCalm p r.during

read_state-Connected : (p : ℕ) (s : Connection) → Connected s p → read_state s.tcp_pcb s ≡ some s
unfolding read_state
read_state-Connected p s (pcb, w) =
    ap (λ o. read_state o s) w.tcp_pcb ∙ ap (λ o. do b ← o; some s) w.loaded

check_connect-ok :
    (r : Attempt) (s : Connection) → r.connect_err ≡ ok → check_connect r s ≡ some (ok, s)
unfolding check_connect
check_connect-ok r s h = simp h

-- The state with the new control block and its monitor.
abbrev made : Attempt → TcpPcb → TcpMonitor → Connection → Connection
made r pcb monitor s = record s {
  pcbs = s.pcbs ++ some pcb ∷ [];
  tcp_pcb = some (length s.pcbs);
  monitors = s.monitors ++ some (record { monitor = monitor; pcb = length s.pcbs }) ∷ [];
  monitor = some (length s.monitors);
}

made-WellFormed :
    (r : Attempt) (pcb : TcpPcb) (monitor : TcpMonitor) (s : Connection)
    → Empty s
    → WellFormed (made r pcb monitor s) (length s.pcbs) pcb
made-WellFormed r pcb monitor s none_left = record {
  m = length s.monitors;
  watch = record { monitor = monitor; pcb = length s.pcbs };
  tcp_pcb = refl;
  loaded = load-append_last s.pcbs pcb;
  monitor = refl;
  watched = load-append_last s.monitors _;
  points = refl;
  one_pcb = live-append s.pcbs pcb ∙ ap suc none_left.no_pcb;
  one_monitor = live-append s.monitors _ ∙ ap suc none_left.no_monitor;
}

-- The state with the new control block.
abbrev opened : TcpPcb → Connection → Connection
opened pcb s = record s { pcbs = s.pcbs ++ some pcb ∷ []; tcp_pcb = some (length s.pcbs) }

created :
    (memory : Bool) (pcb : TcpPcb) (ticks : ℕ)
    → memory ≡ true
    → (monitor : TcpMonitor) × (create_tcp_monitor memory pcb ticks ticks ≡ some monitor)
unfolding create_tcp_monitor
created false pcb ticks h = absurd (cc)
created true pcb ticks h = (_, refl)

make_monitor-made :
    (r : Attempt) (pcb : TcpPcb) (s : Connection)
    → r.memory ≡ true
    → (monitor : TcpMonitor) × (make_monitor r pcb (length s.pcbs) (opened pcb s)
        ≡ made r pcb monitor s)
unfolding make_monitor attach
make_monitor-made r pcb s h =
    let (monitor, e) = created r.memory pcb r.ticks h in
    (monitor, ap (λ o. attach o (length s.pcbs) (opened pcb s)) e)

-- What `connect_new` does with the new monitor, up to the wait.
updated-made :
    (r : Attempt) (pcb : TcpPcb) (s : Connection)
    → r.memory ≡ true
    → Empty s
    → (s1 : Connection) × (update_global r.ticks
          (make_monitor r pcb (length s.pcbs) (opened pcb s)).monitor
          (make_monitor r pcb (length s.pcbs) (opened pcb s))
        ≡ some s1)
      × WellFormed s1 (length s.pcbs) pcb
updated-made r pcb s h none_left =
    let (monitor, e) = make_monitor-made r pcb s h in
    let w = made-WellFormed r pcb monitor s none_left in
    let s0 = made r pcb monitor s in
    (
      updated r.ticks pcb w.watch w.m s0,
      ap (λ x. update_global r.ticks x.monitor x) e
          ∙ ap (λ o. update_global r.ticks o s0) w.monitor
          ∙ update_global-updated r.ticks w.m pcb w.watch s0 w.watched
              (watched_pcb (length s.pcbs) pcb s0 w),
      updated-WellFormed r.ticks (length s.pcbs) pcb s0 w,
    )

connect_new-Connected :
    (r : Attempt) (pcb : TcpPcb) (s : Connection) (q : Quiet r (length s.pcbs))
    → Empty s
    → (s' : Connection) × (connect_new r pcb s ≡ some (ok, s')) × Connected s' (length s.pcbs)
unfolding connect_new
connect_new-Connected r pcb s q none_left =
    let p = length s.pcbs in
    let (s1, e1, w1) = updated-made r pcb s q.memory none_left in
    let (s2, e2, w2) =
      happen_all-Connected r.during p
        (note (vtask_delay 2000) (note (tcp_connect p) (note (tcp_err p) s1))) q.calm (pcb, w1) in
    (
      s2,
      ap
            (λ o. do
              x ← o
              y ←
                  happen_all r.during
                    (note (vtask_delay 2000) (note (tcp_connect p) (note (tcp_err p) x)))
              z ← read_state y.tcp_pcb y
              check_connect r z)
            e1
          ∙ ap (λ o. do y ← o; z ← read_state y.tcp_pcb y; check_connect r z) e2
          ∙ ap (λ o. do z ← o; check_connect r z) (read_state-Connected p s2 w2)
          ∙ check_connect-ok r s2 q.connect_err,
      w2,
    )

-- An attempt that gets a control block, memory and no error, and during which the connection is not lost,
-- returns, and leaves one control block and one monitor that watches it, where there was none.
pub tcp_connection_cl-Connected :
    (r : Attempt) (s : Connection)
    → Quiet r (length s.pcbs)
    → Empty s
    → (s' : Connection) × (tcp_connection_cl r s ≡ some (ok, s')) × Connected s' (length s.pcbs)
unfolding tcp_connection_cl connect_with
tcp_connection_cl-Connected r s q none_left =
    let (s', e, w) = connect_new-Connected r q.pcb s q none_left in
    (s', ap (λ o. connect_with r o s) q.new_pcb ∙ e, w)
