-- ===== src/Compose/Refactor.antt =====
-- src/iwip.c, lines 73-85: what `refactor` writes.
use zynq_lwip_frtos.Base.{
  ℕ, ◌+◌, ◌/◌, ◌%◌, ◌≤◌, ◌≡◌, refl, some, List, ◌∷◌, arith, length, drop, wrap8, wrap16,
}
use zynq_lwip_frtos.Asterix.Message.{Message}
use zynq_lwip_frtos.Compose.{Storage, average_azimuth, set_first, refactor}
use zynq_lwip_frtos.Compose.Larger.{KeepsLarger, keep_in-KeepsLarger, keep_larger-keep_in}

-- What `refactor` leaves of the storage `dir`, with the first azimuths `first` and `last`.
pub record Refactored (src : Message) (dir dir' : Storage) (video : List ℕ) (first : ℕ)
    : Type 0 where
  pub averaged :
      dir'.start_az ≡ ((src.header_nano.start_az + first) / 2 % 256) ∷ drop 1 dir.start_az
  pub ended : dir'.end_az ≡ ((src.header_nano.start_az + first) / 2 % 256 + 218) ∷ drop 1 dir.end_az
  pub merged : KeepsLarger dir.data_size video dir.video_data dir'.video_data

end_az-fits : (n : ℕ) → wrap16 (wrap8 n + 218) ≡ n % 256 + 218
end_az-fits n = omega arith

-- Where both azimuth arrays have a first entry, and the message and the storage hold as many bytes of
-- video as the storage says, `refactor` ends. It stores as start the mean of the two start azimuths
-- reduced to 8 bits, though azimuths have 16, and as end 218 more; the video keeps the larger value at
-- each of the places that the storage counts.
pub refactor-Refactored :
    (src : Message) (dir : Storage) (video : List ℕ) {first last : ℕ} {starts ends : List ℕ}
    → dir.start_az ≡ first ∷ starts
    → dir.end_az ≡ last ∷ ends
    → src.video_block.bytes ≡ some video
    → dir.data_size ≤ length video
    → dir.data_size ≤ length dir.video_data
    → (dir' : Storage) × (refactor src dir ≡ some dir') × Refactored src dir dir' video first
unfolding refactor average_azimuth set_first
refactor-Refactored src dir video {first} {last} {starts} {ends} hs he hv h k =
    let (ys, e, r) = keep_in-KeepsLarger dir.data_size video dir.video_data h k in
    (
      record dir {
        start_az = ((src.header_nano.start_az + first) / 2 % 256) ∷ starts;
        end_az = ((src.header_nano.start_az + first) / 2 % 256 + 218) ∷ ends;
        video_data = ys;
      },
      rw (hs, he, hv, keep_larger-keep_in dir.data_size video dir.video_data, e)
          (rw (end_az-fits ((src.header_nano.start_az + first) / 2)) refl),
      record { averaged = rw hs refl; ended = rw he refl; merged = r },
    )
