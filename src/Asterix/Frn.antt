-- ===== src/Asterix/Frn.antt =====
-- Each FRN step reads the optional item that the wire format puts at its place.
use zynq_lwip_frtos.Base.{ℕ, ◌^◌, ◌<◌, ◌≡◌, refl, true, Option, List, [], ◌∷◌, length, bit}
use zynq_lwip_frtos.Asterix.Words.{Endian}
use zynq_lwip_frtos.Asterix.Message.{
  VideoHeader, ResolutionIndicator, Counters, video_block_low, video_block_medium, video_block_high,
}
use zynq_lwip_frtos.Asterix.Fields.{
  read_msg_index, read_summary, read_nano, read_femto, read_resolution, read_counters,
  read_video_block, read_time, read_re, read_sp, frn1, frn2, frn3, frn4, frn5, frn6, frn7, frn8,
  frn9, frn10, frn11, frn12, frn13, frn14,
}
use zynq_lwip_frtos.Asterix.Encode.{
  Block, is_some, be24, be32, item, counted, header_bytes, resolution_bytes, counters_bytes,
  block_bytes, set_source, set_type, set_index, set_summary, set_nano, set_femto, set_resolution,
  set_counters, set_block, set_time, set_re, set_sp,
}
use zynq_lwip_frtos.Asterix.Items.{
  Holds, Reading, optional-Reading, HeaderFits, ResolutionFits, CountersFit, BlockFits,
  read_source-Reads, read_message_type-Reads, read_msg_index-Reads, read_summary-Reads,
  read_nano-Reads, read_femto-Reads, read_resolution-Reads, read_counters-Reads,
  read_video_block-Reads, read_time-Reads, read_re-Reads, read_sp-Reads,
}

module _ (fspec : ℕ) where
  pub frn1-Reading :
      (sac sic : ℕ)
      → bit fspec 7 ≡ true
      → Reading (frn1 fspec) (sac ∷ sic ∷ []) (λ _. set_source sac sic)
  unfolding frn1
  frn1-Reading sac sic e = record {
    reads = λ rest r m small. rw e (read_source-Reads sac sic rest r m small);
  }

  pub frn2-Reading :
      (type : ℕ) → bit fspec 6 ≡ true → Reading (frn2 fspec) (type ∷ []) (λ _. set_type type)
  unfolding frn2
  frn2-Reading type e = record {
    reads = λ rest r m small. rw e (read_message_type-Reads type rest r m small);
  }

  pub frn3-Reading :
      (e : Endian) (o : Option (ℕ))
      → bit fspec 5 ≡ is_some o
      → Holds (λ i. i < 2 ^ 32) o
      → Reading (frn3 e fspec) (item be32 o) (λ _. set_index o)
  unfolding frn3
  frn3-Reading e o b h =
      optional-Reading (λ i. i < 2 ^ 32) be32 (λ o _. set_index o) (read_msg_index e) _ o b
        (λ rest m. refl) (read_msg_index-Reads e) h

  pub frn4-Reading :
      (o : Option (List ℕ))
      → bit fspec 4 ≡ is_some o
      → Holds (λ text. length text < 256) o
      → Reading (frn4 fspec) (item counted o) (λ _. set_summary o)
  unfolding frn4
  frn4-Reading o b h =
      optional-Reading (λ text. length text < 256) counted (λ o _. set_summary o) read_summary _ o b
        (λ rest m. refl) read_summary-Reads h

  pub frn5-Reading :
      (e : Endian) (o : Option (VideoHeader))
      → bit fspec 3 ≡ is_some o
      → Holds (HeaderFits) o
      → Reading (frn5 e fspec) (item header_bytes o) (λ _. set_nano o)
  unfolding frn5
  frn5-Reading e o b h =
      optional-Reading (HeaderFits) header_bytes (λ o _. set_nano o) (read_nano e) _ o b
        (λ rest m. refl) (read_nano-Reads e) h

  pub frn6-Reading :
      (e : Endian) (o : Option (VideoHeader))
      → bit fspec 2 ≡ is_some o
      → Holds (HeaderFits) o
      → Reading (frn6 e fspec) (item header_bytes o) (λ _. set_femto o)
  unfolding frn6
  frn6-Reading e o b h =
      optional-Reading (HeaderFits) header_bytes (λ o _. set_femto o) (read_femto e) _ o b
        (λ rest m. refl) (read_femto-Reads e) h

  pub frn7-Reading :
      (e : Endian) (o : Option (ResolutionIndicator))
      → bit fspec 1 ≡ is_some o
      → Holds (ResolutionFits) o
      → Reading (frn7 e fspec) (item resolution_bytes o) (λ _. set_resolution o)
  unfolding frn7
  frn7-Reading e o b h =
      optional-Reading (ResolutionFits) resolution_bytes (λ o _. set_resolution o)
        (read_resolution e) _ o b (λ rest m. refl) (read_resolution-Reads e) h

  pub frn8-Reading :
      (e : Endian) (o : Option (Counters))
      → bit fspec 7 ≡ is_some o
      → Holds (CountersFit) o
      → Reading (frn8 e fspec) (item counters_bytes o) (λ _. set_counters o)
  unfolding frn8
  frn8-Reading e o b h =
      optional-Reading (CountersFit) counters_bytes (λ o _. set_counters o) (read_counters e) _ o b
        (λ rest m. refl) (read_counters-Reads e) h

  pub frn9-Reading :
      (o : Option (Block))
      → bit fspec 6 ≡ is_some o
      → Holds (BlockFits 4) o
      → Reading (frn9 fspec) (item block_bytes o) (set_block video_block_low o)
  unfolding frn9
  frn9-Reading o b h =
      optional-Reading (BlockFits 4) block_bytes (set_block video_block_low)
        (read_video_block video_block_low 4) _ o b (λ rest m. refl)
        (read_video_block-Reads video_block_low 4) h

  pub frn10-Reading :
      (o : Option (Block))
      → bit fspec 5 ≡ is_some o
      → Holds (BlockFits 64) o
      → Reading (frn10 fspec) (item block_bytes o) (set_block video_block_medium o)
  unfolding frn10
  frn10-Reading o b h =
      optional-Reading (BlockFits 64) block_bytes (set_block video_block_medium)
        (read_video_block video_block_medium 64) _ o b (λ rest m. refl)
        (read_video_block-Reads video_block_medium 64) h

  pub frn11-Reading :
      (o : Option (Block))
      → bit fspec 4 ≡ is_some o
      → Holds (BlockFits 256) o
      → Reading (frn11 fspec) (item block_bytes o) (set_block video_block_high o)
  unfolding frn11
  frn11-Reading o b h =
      optional-Reading (BlockFits 256) block_bytes (set_block video_block_high)
        (read_video_block video_block_high 256) _ o b (λ rest m. refl)
        (read_video_block-Reads video_block_high 256) h

  pub frn12-Reading :
      (o : Option (ℕ))
      → bit fspec 3 ≡ is_some o
      → Holds (λ t. t < 2 ^ 24) o
      → Reading (frn12 fspec) (item be24 o) (λ _. set_time o)
  unfolding frn12
  frn12-Reading o b h =
      optional-Reading (λ t. t < 2 ^ 24) be24 (λ o _. set_time o) read_time _ o b (λ rest m. refl)
        read_time-Reads h

  pub frn13-Reading :
      (o : Option (List ℕ))
      → bit fspec 2 ≡ is_some o
      → Holds (λ xs. length xs < 256) o
      → Reading (frn13 fspec) (item counted o) (λ _. set_re o)
  unfolding frn13
  frn13-Reading o b h =
      optional-Reading (λ xs. length xs < 256) counted (λ o _. set_re o) read_re _ o b
        (λ rest m. refl) read_re-Reads h

  pub frn14-Reading :
      (o : Option (List ℕ))
      → bit fspec 1 ≡ is_some o
      → Holds (λ xs. length xs < 256) o
      → Reading (frn14 fspec) (item counted o) (λ _. set_sp o)
  unfolding frn14
  frn14-Reading o b h =
      optional-Reading (λ xs. length xs < 256) counted (λ o _. set_sp o) read_sp _ o b
        (λ rest m. refl) read_sp-Reads h
