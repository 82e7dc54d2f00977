-- ===== src/Compose.antt =====
-- src/iwip.c, lines 59-111, and src/asterix.h, lines 8-10 and 103-113: putting a stored record
-- together, and merging records. An array is the list of its elements; an access outside it, and a
-- NULL pointer that is used, are undefined (`none`).
pub mod Write
pub mod Concat
pub mod Larger
pub mod Refactor
pub mod Maximum
mod Tests
use zynq_lwip_frtos.Base.{
  ℕ, zero, suc, ◌+◌, ◌/◌, Option, none, some, List, [], ◌∷◌, get_elem?, set, replicate, wrap8,
  wrap16, ◌>>=◌,
}
use zynq_lwip_frtos.Asterix.Message.{Message}
use zynq_lwip_frtos.Compose.Write.{memcpy}
use zynq_lwip_frtos.Compose.Larger.{keep_larger}

abbrev pub max_video_block_low : ℕ
max_video_block_low = 1020

abbrev pub max_video_block_medium : ℕ
max_video_block_medium = 16320

abbrev pub max_video_block_high : ℕ
max_video_block_high = 65024

-- `cat240_storage_t`.
pub record Storage : Type 0 where
  pub header_data : List ℕ
  pub header_size : ℕ
  pub video_data : List ℕ
  pub data_size : ℕ
  pub start_az : List ℕ
  pub end_az : List ℕ
  pub time_per_bytes : List ℕ
  pub time_size : ℕ

-- Lines 60-65: `src` after the three copies.
unfoldable pub compose : List ℕ → Storage → Option (List ℕ)
compose src store = do
  src1 ← memcpy src 0 store.header_data store.header_size
  src2 ← memcpy src1 store.header_size store.video_data store.data_size
  memcpy src2 (store.header_size + store.data_size) store.time_per_bytes store.time_size

-- `x[0] = v`.
unfoldable pub set_first : List ℕ → ℕ → Option (List ℕ)
set_first xs v = do old ← get_elem? xs 0; some (set xs 0 v)

-- Lines 75-77: the azimuths.
unfoldable pub average_azimuth : Message → Storage → Option Storage
average_azimuth src dir = do
  first ← get_elem? dir.start_az 0
  let avg_az = wrap8 ((src.header_nano.start_az + first) / 2)
  end_az ← set_first dir.end_az (wrap16 (avg_az + 0x00DA))
  start_az ← set_first dir.start_az avg_az
  some (record dir { start_az = start_az; end_az = end_az })

-- Lines 73-85; the bytes of the message are read only if there is a round.
unfoldable pub refactor : Message → Storage → Option Storage
refactor src dir = do
  dir' ← average_azimuth src dir
  video ← keep_larger dir.data_size src.video_block.bytes dir'.video_data
  some (record dir' { video_data = video })

-- Lines 97-106.
unfoldable pub maxima : ℕ → List Storage → List ℕ → Option (List ℕ)
maxima zero dir acc = some acc
maxima (suc size) [] acc = none
maxima (suc size) (d ∷ ds) acc = do
  acc' ← keep_larger 124 (some d.video_data) acc
  maxima size ds acc'

-- Lines 88-111; the maxima are bytes, which `double` holds exactly.
unfoldable pub refactor_more : Storage → List Storage → ℕ → Option Storage
refactor_more lst dir zero = some lst
refactor_more lst dir (suc size) = do
  max ← maxima (suc size) dir (replicate 124 0)
  header ← memcpy lst.header_data 0 max 124
  some (record lst { header_data = header })
