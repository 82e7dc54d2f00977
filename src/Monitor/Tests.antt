-- ===== src/Monitor/Tests.antt =====
-- A monitor over a wrap of the tick counter.
use zynq_lwip_frtos.Base.{◌≡◌, true, false, some, [], ◌∷◌, arith}
use zynq_lwip_frtos.Monitor.{
  TcpPcb, TcpMonitor, closed, established, err_ok, create_tcp_monitor, update_monitor, update_all,
  update_monitor-lifetime,
}

abbrev opening : TcpPcb
opening = record { state = closed; remote_port = 7; flags = 0; any_address = true; address = [] }

abbrev connected : TcpPcb
connected = record {
  state = established;
  remote_port = 7;
  flags = 0;
  any_address = false;
  address = 49 ∷ [];
}

update_monitor-lifetime_example :
    (m : TcpMonitor) × (update_monitor connected 5
        (update_all ((opening, 0) ∷ []) (create_tcp_monitor true opening 0xFFFF_FFFF 0))
      ≡ (err_ok, some m))
    × (m.lifetime ≡ 6)
    × (m.state ≡ established)
    × (m.remote_port ≡ 7)
update_monitor-lifetime_example =
    update_monitor-lifetime opening connected ((opening, 0) ∷ []) 0xFFFF_FFFF 0x1_0000_0000 6
      (omega arith)
