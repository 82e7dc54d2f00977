-- ===== src/Compose/Concat.antt =====
-- src/iwip.c, lines 60-65: what `compose` writes.
use zynq_lwip_frtos.Base.{
  ℕ, ◌+◌, ◌≤◌, ◌≡◌, refl, sym, some, List, [], ◌++◌, arith, length, take, drop, length-take,
  length-drop, length-append, append_assoc,
}
use zynq_lwip_frtos.Compose.{Storage, compose}
use zynq_lwip_frtos.Compose.Write.{memcpy, memcpy-append}

-- A storage whose sizes do not exceed its arrays.
pub record Fits (s : Storage) : Type 0 where
  pub header_fits : s.header_size ≤ length s.header_data
  pub video_fits : s.data_size ≤ length s.video_data
  pub time_fits : s.time_size ≤ length s.time_per_bytes

-- The bytes of a storage, in the order in which they are sent.
abbrev pub stored : Storage → List ℕ
stored s =
    take s.header_size s.header_data
    ++ (take s.data_size s.video_data ++ take s.time_size s.time_per_bytes)

-- memcpy behind a prefix of a known length.
memcpy-behind :
    (pre dst from : List ℕ) (at n : ℕ)
    → at ≡ length pre
    → n ≤ length dst
    → n ≤ length from
    → memcpy (pre ++ dst) at from n ≡ some (pre ++ (take n from ++ drop n dst))
memcpy-behind pre dst from at n e h k = rw e (memcpy-append pre dst from n h k)

-- Where the sizes do not exceed the arrays of the storage, and the array that is written has room for
-- all three parts, `compose` writes the header, the video and the time one after the other and leaves
-- the bytes behind them.
pub compose-stored :
    (src : List ℕ) (s : Storage)
    → Fits s
    → s.header_size + s.data_size + s.time_size ≤ length src
    → compose src s
      ≡ some (stored s ++ drop s.time_size (drop s.data_size (drop s.header_size src)))
unfolding compose
compose-stored src s f h =
    let n = s.header_size in
    let m = s.data_size in
    let k = s.time_size in
    let header = take n s.header_data in
    let video = take m s.video_data in
    let hl : length header ≡ n = omega (arith, length-take n s.header_data, f.header_fits) in
    let vl : length video ≡ m = omega (arith, length-take m s.video_data, f.video_fits) in
    let one = memcpy-behind [] src s.header_data 0 n refl (omega arith) f.header_fits in
    let two =
      memcpy-behind header (drop n src) s.video_data n m (sym hl) (omega (arith, length-drop n src))
        f.video_fits in
    let three =
      memcpy-behind (header ++ video) (drop m (drop n src)) s.time_per_bytes (n + m) k
        (omega (arith, hl, vl, length-append header video))
        (omega (arith, length-drop m (drop n src), length-drop n src)) f.time_fits in
    let time = take k s.time_per_bytes in
    let rest = drop k (drop m (drop n src)) in
    rw (one, two) cc
      (
        three,
        append_assoc header video (drop m (drop n src)),
        append_assoc header video (time ++ rest),
        append_assoc header (video ++ time) rest,
        append_assoc video time rest,
      )
