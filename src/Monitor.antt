-- ===== src/Monitor.antt =====
-- src/tcp_stack.c and src/tcp_stack.h: the monitor of the TCP connection. The control block of lwIP,
-- the text of its address and the tick counts are arguments.
pub mod Status
mod Tests
use zynq_lwip_frtos.Base.{
  ℕ, ◌+◌, ◌%◌, ◌^◌, ◌<◌, ◌≡◌, refl, ap, ◌∙◌, Bool, true, false, Option, none, some, List, [], ◌∷◌,
  arith, sub32, if◌then◌else◌,
}

pub data TcpState : Type 0 where
  closed listen syn_sent syn_rcvd established fin_wait_1 fin_wait_2 : TcpState
  close_wait closing last_ack time_wait : TcpState

-- What the monitor reads of `struct tcp_pcb`: whether its address is 0.0.0.0, and the address as
-- `ipaddr_ntoa_r` writes it.
pub record TcpPcb : Type 0 where
  pub state : TcpState
  pub remote_port : ℕ
  pub flags : ℕ
  pub any_address : Bool
  pub address : List ℕ

-- `tcp_monitor_t`; `has_pcb` says whether its pointer to the control block is set.
pub record TcpMonitor : Type 0 where
  pub has_pcb : Bool
  pub state : TcpState
  pub remote_ip_str : List ℕ
  pub remote_port : ℕ
  pub flags : ℕ
  pub creation_time : ℕ
  pub lifetime : ℕ
  pub last_recv_cmd : ℕ
  pub last_update_time : ℕ

pub data ErrT : Type 0 where
  err_ok err_mem err_val : ErrT

-- "0.0.0.0"
abbrev pub any_text : List ℕ
any_text = 48 ∷ 46 ∷ 48 ∷ 46 ∷ 48 ∷ 46 ∷ 48 ∷ []

-- Lines 29-52: whether there is memory, the control block, and the two tick counts that are read.
unfoldable pub create_tcp_monitor : Bool → TcpPcb → (created updated : ℕ) → Option TcpMonitor
create_tcp_monitor false pcb created updated = none
create_tcp_monitor true pcb created updated = some (record {
  has_pcb = true;
  state = pcb.state;
  remote_ip_str = if pcb.any_address then any_text else pcb.address;
  remote_port = pcb.remote_port;
  flags = pcb.flags;
  creation_time = created;
  lifetime = 0;
  last_recv_cmd = 0;
  last_update_time = updated;
})

-- Lines 59-65.
unfoldable pub refresh : TcpPcb → ℕ → TcpMonitor → TcpMonitor
refresh pcb now m = record m {
  state = pcb.state;
  flags = pcb.flags;
  remote_port = pcb.remote_port;
  last_update_time = now;
  lifetime = sub32 now m.creation_time;
  remote_ip_str = pcb.address;
}

-- Lines 54-68: the first pointer may be NULL, or the one in the monitor.
unfoldable pub update_monitor : TcpPcb → ℕ → Option TcpMonitor → ErrT × Option TcpMonitor
update_monitor pcb now none = (err_mem, none)
update_monitor pcb now (some m) =
    if m.has_pcb then (err_ok, some (refresh pcb now m)) else (err_mem, some m)

-- Lines 83-90: the answer, and whether the memory is freed.
unfoldable pub destroy_monitor : Option TcpMonitor → ErrT × Bool
destroy_monitor none = (err_val, false)
destroy_monitor (some m) = (err_ok, true)

-- Updates in their order, each with the control block and the tick count of its moment.
unfoldable pub update_all : List (TcpPcb × ℕ) → Option TcpMonitor → Option TcpMonitor
update_all [] m = m
update_all ((pcb, now) ∷ rest) m = update_all rest (update_monitor pcb now m).1

-- A tick counter of 32 bits.
abbrev pub ticks : ℕ → ℕ
ticks time = time % 2 ^ 32

elapsed : (start d : ℕ) → d < 2 ^ 32 → sub32 (ticks (start + d)) (ticks start) ≡ d
elapsed start d h = omega arith

update_monitor-refresh :
    (pcb : TcpPcb) (now : ℕ) (m : TcpMonitor)
    → m.has_pcb ≡ true
    → update_monitor pcb now (some m) ≡ (err_ok, some (refresh pcb now m))
unfolding update_monitor
update_monitor-refresh pcb now m h =
    ap (λ b. if b then (err_ok, some (refresh pcb now m)) else (err_mem, some m)) h

update_all-some :
    (before : List (TcpPcb × ℕ)) (m : TcpMonitor) (start : ℕ)
    → m.has_pcb ≡ true
    → m.creation_time ≡ ticks start
    → (m' : TcpMonitor) × (update_all before (some m) ≡ some m')
      × (m'.has_pcb ≡ true)
      × (m'.creation_time ≡ ticks start)
unfolding update_all refresh
update_all-some [] m start h t = (m, refl, h, t)
update_all-some ((pcb, now) ∷ rest) m start h t =
    let (m', e, h', t') = update_all-some rest (refresh pcb now m) start h t in
    (m', ap (λ x. update_all rest x.1) (update_monitor-refresh pcb now m h) ∙ e, h', t')

-- A monitor that was created shows, whatever updates came in between, the state and the port of the
-- connection at the last update, and as its lifetime the ticks since it was created, if these are
-- less than 2^32; the counter of ticks may have wrapped round meanwhile.
pub update_monitor-lifetime :
    (first last : TcpPcb) (before : List (TcpPcb × ℕ)) (start second d : ℕ)
    → d < 2 ^ 32
    → (m : TcpMonitor) × (update_monitor last
          (ticks (start + d))
          (update_all before (create_tcp_monitor true first (ticks start) (ticks second)))
        ≡ (err_ok, some m))
      × (m.lifetime ≡ d)
      × (m.state ≡ last.state)
      × (m.remote_port ≡ last.remote_port)
unfolding refresh create_tcp_monitor
update_monitor-lifetime first last before start second d h =
    let now = ticks (start + d) in
    let (m, e, pcb, t) = update_all-some before _ start refl refl in
    (
      refresh last now m,
      ap (λ x. update_monitor last now x) e ∙ update_monitor-refresh last now m pcb,
      ap (λ c. sub32 now c) t ∙ elapsed start d h,
      refl,
      refl,
    )
