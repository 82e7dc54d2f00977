-- ===== src/Compose/Tests.antt =====
-- Runs of the composition at concrete inputs.
use zynq_lwip_frtos.Base.{
  ℕ, ◌<◌, ◌≡◌, refl, none, some, List, [], ◌∷◌, ◌++◌, arith, length, drop, get_or, replicate,
}
use zynq_lwip_frtos.Asterix.Message.{Message, cleared, video_block_low}
use zynq_lwip_frtos.Compose.{Storage, compose, refactor, refactor_more, average_azimuth, set_first}
use zynq_lwip_frtos.Compose.Concat.{stored, compose-stored}
use zynq_lwip_frtos.Compose.Refactor.{Refactored, refactor-Refactored}
use zynq_lwip_frtos.Compose.Maximum.{peak, refactor_more-peak}

abbrev small : Storage
small = record {
  header_data = 1 ∷ 2 ∷ 3 ∷ [];
  header_size = 2;
  video_data = 10 ∷ 20 ∷ 30 ∷ [];
  data_size = 3;
  start_az = 1000 ∷ 7 ∷ [];
  end_az = 1200 ∷ 9 ∷ [];
  time_per_bytes = 4 ∷ 5 ∷ 6 ∷ [];
  time_size = 3;
}

abbrev zeros : List ℕ
zeros = replicate 10 0

compose_test : compose zeros small ≡ some (1 ∷ 2 ∷ 10 ∷ 20 ∷ 30 ∷ 4 ∷ 5 ∷ 6 ∷ 0 ∷ 0 ∷ [])
unfolding compose
compose_test = refl

-- A buffer that is too short is written past its end.
compose_short_test : compose (0 ∷ 0 ∷ 0 ∷ []) small ≡ none
unfolding compose
compose_short_test = refl

compose-stored_example : compose zeros small ≡ some (stored small ++ drop 3 (drop 3 (drop 2 zeros)))
compose-stored_example =
    compose-stored zeros small
      (record { header_fits = omega arith; video_fits = omega arith; time_fits = omega arith })
      (omega arith)

abbrev brighter : Message
brighter = record cleared {
  header_nano = record { start_az = 1010; end_az = 1020; start_rg = 0; cell_dur = 1 };
  video_block = record {
    type = video_block_low;
    rep = 1;
    bytes = some (15 ∷ 15 ∷ 35 ∷ 99 ∷ []);
    data_bytes = 4;
  };
}

-- 1005 reduced to 8 bits is 237.
refactor_test :
    refactor brighter small
    ≡ some (record small {
      start_az = 237 ∷ 7 ∷ [];
      end_az = 455 ∷ 9 ∷ [];
      video_data = 15 ∷ 20 ∷ 35 ∷ [];
    })
unfolding refactor average_azimuth set_first
refactor_test = refl

refactor-Refactored_example :
    (dir' : Storage) × (refactor brighter small ≡ some dir')
    × Refactored brighter small dir' (15 ∷ 15 ∷ 35 ∷ 99 ∷ []) 1000
refactor-Refactored_example =
    refactor-Refactored brighter small (15 ∷ 15 ∷ 35 ∷ 99 ∷ []) refl refl refl (omega arith)
      (omega arith)

abbrev wide : ℕ → Storage
wide v = record small { header_data = replicate 125 1; video_data = replicate 124 v }

refactor_more-peak_example :
    (ys : List ℕ) × (refactor_more (wide 0) (wide 3 ∷ wide 8 ∷ []) 2
      ≡ some (record (wide 0) { header_data = ys ++ drop 124 (wide 0).header_data }))
    × (length ys ≡ 124)
    × ((i : ℕ) → i < 124 → get_or ys i 0 ≡ peak (wide 3 ∷ wide 8 ∷ []) i)
refactor_more-peak_example =
    refactor_more-peak (wide 0) (wide 3) (wide 8 ∷ []) (omega arith, (omega arith, tt))
      (omega arith)
