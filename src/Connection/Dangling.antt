-- ===== src/Connection/Dangling.antt =====
-- How the pointers of the monitor come to dangle.
use zynq_lwip_frtos.Base.{ℕ, ◌≡◌, ap, ◌∙◌, false, none, some, if◌then◌else◌, ◌>>=◌}
use zynq_lwip_frtos.Monitor.{TcpPcb}
use zynq_lwip_frtos.Connection.{
  ok, mem, already, Connection, Attempt, load, update_global, connect_with, tcp_connection_cl,
  is_established, check_state, need_reconnect, rebuild, reconnection_tcp,
}
use zynq_lwip_frtos.Connection.Store.{load-set-none}
use zynq_lwip_frtos.Connection.WellFormed.{WellFormed}
use zynq_lwip_frtos.Connection.Reconnect.{torn_down, rebuild-torn_down, reconnection_tcp-by_state}

-- The monitor itself is freed.
update_global-freed :
    (now m : ℕ) (s : Connection) → load s.monitors m ≡ none → update_global now (some m) s ≡ none
unfolding update_global
update_global-freed now m s h = simp h

need_reconnect-none :
    (now m : ℕ) (s : Connection)
    → s.monitor ≡ some m
    → update_global now (some m) s ≡ none
    → need_reconnect now s ≡ none
unfolding need_reconnect
need_reconnect-none now m s at h =
    ap (λ o. do s1 ← o; s2 ← check_state s1.monitor s1; some (ok, s2))
      (ap (λ o. update_global now o s) at ∙ h)

-- The attempt fails for want of a control block.
connect-mem :
    (r : Attempt) (s : Connection)
    → r.new_pcb ≡ none
    → tcp_connection_cl r s ≡ some (mem, record s { tcp_pcb = none })
unfolding tcp_connection_cl connect_with
connect-mem r s h = ap (λ o. connect_with r o s) h

-- When a reconnection of a connection that is not established gets no control block, it answers ERR_OK all
-- the same. The monitor is freed, but the global pointer is still the one to it, so that the next check of
-- the connection uses freed memory.
pub reconnection_tcp-no_pcb :
    (r : Attempt) (now p : ℕ) (pcb : TcpPcb) (s : Connection) (w : WellFormed s p pcb)
    → is_established pcb.state ≡ false
    → r.new_pcb ≡ none
    → (s' : Connection) × (reconnection_tcp r p s ≡ some (ok, s'))
      × (s'.monitor ≡ some w.m)
      × (load s'.monitors w.m ≡ none)
      × (need_reconnect now s' ≡ none)
reconnection_tcp-no_pcb r now p pcb s w down h =
    let s3 = record (torn_down p w.m s) { tcp_pcb = none } in
    let gone = load-set-none s.monitors w.m in
    (
      s3,
      reconnection_tcp-by_state r p pcb s w
          ∙ ap
              (λ b. if b then some (already, record s { try_reconnect = false }) else rebuild r p s)
              down
          ∙ rebuild-torn_down r p pcb s w (connect-mem r (torn_down p w.m s) h),
      w.monitor,
      gone,
      need_reconnect-none now w.m s3 w.monitor (update_global-freed now w.m s3 gone),
    )
