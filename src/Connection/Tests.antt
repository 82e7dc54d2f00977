-- ===== src/Connection/Tests.antt =====
-- An attempt, a check and a loss.
use zynq_lwip_frtos.Base.{ℕ, ◌≡◌, refl, true, false, some, none, [], ◌∷◌}
use zynq_lwip_frtos.Monitor.{TcpPcb, TcpMonitor, syn_sent, established}
use zynq_lwip_frtos.Connection.{
  ok, Connection, Attempt, connected, changed, load, tcp_connection_cl, need_reconnect,
  reconnection_tcp,
}
use zynq_lwip_frtos.Connection.WellFormed.{WellFormed, Empty, need_reconnect-WellFormed}
use zynq_lwip_frtos.Connection.Connect.{Connected, Quiet, tcp_connection_cl-Connected}
use zynq_lwip_frtos.Connection.Reconnect.{reconnection_tcp-Reconnected}
use zynq_lwip_frtos.Connection.Reach.{first, Reach-Connected}
use zynq_lwip_frtos.Connection.Dangling.{reconnection_tcp-no_pcb}

abbrev pcb : TcpPcb
pcb = record { state = syn_sent; remote_port = 7; flags = 0; any_address = true; address = [] }

abbrev attempt : Attempt
attempt = record {
  new_pcb = some pcb;
  memory = true;
  ticks = 10;
  connect_err = ok;
  during = connected 0 ok ∷ changed 0 established ∷ [];
  close_err = ok;
}

abbrev nothing : Connection
nothing = record {
  pcbs = [];
  monitors = [];
  tcp_pcb = none;
  monitor = none;
  stat_tcp_con = false;
  try_reconnect = false;
  calls = [];
}

nothing-Empty : Empty nothing
nothing-Empty = record { no_pcb = refl; no_monitor = refl }

attempt-Quiet : Quiet attempt 0
attempt-Quiet = record {
  pcb = pcb;
  new_pcb = refl;
  memory = refl;
  connect_err = refl;
  calm = (tt, (refl, tt));
}

tcp_connection_cl-Connected_example :
    (s : Connection) × (tcp_connection_cl attempt nothing ≡ some (ok, s)) × Connected s 0
tcp_connection_cl-Connected_example =
    tcp_connection_cl-Connected attempt nothing attempt-Quiet nothing-Empty

abbrev watching : TcpMonitor
watching = record {
  has_pcb = true;
  state = syn_sent;
  remote_ip_str = [];
  remote_port = 7;
  flags = 0;
  creation_time = 10;
  lifetime = 0;
  last_recv_cmd = 0;
  last_update_time = 10;
}

abbrev waiting : Connection
waiting = record nothing {
  pcbs = some pcb ∷ [];
  monitors = some (record { monitor = watching; pcb = 0 }) ∷ [];
  tcp_pcb = some 0;
  monitor = some 0;
}

waiting-WellFormed : WellFormed waiting 0 pcb
unfolding load
waiting-WellFormed = record {
  m = 0;
  watch = record { monitor = watching; pcb = 0 };
  tcp_pcb = refl;
  loaded = refl;
  monitor = refl;
  watched = refl;
  points = refl;
  one_pcb = refl;
  one_monitor = refl;
}

need_reconnect-WellFormed_example :
    (s : Connection) × (need_reconnect 20 waiting ≡ some (ok, s))
    × (s.try_reconnect ≡ true)
    × WellFormed s 0 pcb
need_reconnect-WellFormed_example = need_reconnect-WellFormed 20 0 pcb waiting waiting-WellFormed

abbrev second_attempt : Attempt
second_attempt = record attempt { during = [] }

second_attempt-Quiet : Quiet second_attempt 1
second_attempt-Quiet = record {
  pcb = pcb;
  new_pcb = refl;
  memory = refl;
  connect_err = refl;
  calm = tt;
}

reconnection_tcp-Reconnected_example :
    (s : Connection) × (reconnection_tcp second_attempt 0 waiting ≡ some (ok, s)) × Connected s 1
reconnection_tcp-Reconnected_example =
    reconnection_tcp-Reconnected second_attempt 0 pcb waiting second_attempt-Quiet
      waiting-WellFormed

abbrev reached :
    (s : Connection) × (tcp_connection_cl attempt nothing ≡ some (ok, s)) × Connected s 0
reached = tcp_connection_cl-Connected attempt nothing attempt-Quiet nothing-Empty

Reach-Connected_example : (p : ℕ) × Connected reached.0 p
Reach-Connected_example = Reach-Connected (first attempt attempt-Quiet nothing-Empty reached.1)

abbrev no_pcb : Attempt
no_pcb = record attempt { new_pcb = none }

reconnection_tcp-no_pcb_example :
    (s : Connection) × (reconnection_tcp no_pcb 0 waiting ≡ some (ok, s))
    × (s.monitor ≡ some 0)
    × (load s.monitors 0 ≡ none)
    × (need_reconnect 20 s ≡ none)
unfolding waiting-WellFormed
reconnection_tcp-no_pcb_example =
    reconnection_tcp-no_pcb no_pcb 20 0 pcb waiting waiting-WellFormed refl refl
