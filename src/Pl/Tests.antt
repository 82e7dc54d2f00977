-- ===== src/Pl/Tests.antt =====
-- A message of three bytes, of which two are sent.
use zynq_lwip_frtos.Base.{◌≡◌, refl, some, [], ◌∷◌}
use zynq_lwip_frtos.Pl.{mesg_size, byte, send_to_pl}

send_to_pl_test : send_to_pl (7 ∷ 8 ∷ 9 ∷ []) 2 ≡ some (mesg_size 2 ∷ byte 0 7 ∷ byte 1 8 ∷ [])
unfolding send_to_pl
send_to_pl_test = refl
