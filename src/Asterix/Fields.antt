-- ===== src/Asterix/Fields.antt =====
-- src/asterix_parse.c, lines 106-288: one step for each field reference number (FRN) of the FSPEC.
use zynq_lwip_frtos.Base.{
  ℕ, ◌*◌, ◌/◌, ◌%◌, ◌^◌, Bool, true, some, List, ◌++◌, ltb, if◌then◌else◌, length, set, drop, bit,
}
use zynq_lwip_frtos.Asterix.Words.{Endian}
use zynq_lwip_frtos.Asterix.Message.{
  Message, VideoHeader, BlockType, video_block_low, video_block_medium, video_block_high,
}
use zynq_lwip_frtos.Asterix.Reader.{
  ◌>>◌, ◌>>=◌, Parser, pure, require, need, consume, modify, cursor, peek, advance, read_u8,
  read_u16, read_u24, read_u32,
}

-- The field is present if its bit of the FSPEC is set.
abbrev pub optional : Bool → Parser (Unit {0}) → Parser (Unit {0})
optional present field = if present then field else pure tt

unfoldable pub read_source : Parser (Unit {0})
unfolding read_u8
read_source = do
  need 2
  sac ← read_u8
  sic ← read_u8
  modify (λ m. record m { data_source = record { sac = sac; sic = sic } })
  consume 2

-- I240/010 is obligatory.
unfoldable pub frn1 : ℕ → Parser (Unit {0})
frn1 fspec1 = do require (bit fspec1 7); read_source

unfoldable pub read_message_type : Parser (Unit {0})
unfolding read_u8
read_message_type = do
  need 1
  type ← read_u8
  modify (λ m. record m { message_type = type })
  consume 1

-- I240/000 is obligatory.
unfoldable pub frn2 : ℕ → Parser (Unit {0})
frn2 fspec1 = do require (bit fspec1 6); read_message_type

unfoldable pub read_msg_index : Endian → Parser (Unit {0})
unfolding read_u32
read_msg_index e = do
  need 4
  modify (λ m. record m { has_video_header = true })
  index ← read_u32 e
  modify (λ m. record m { msg_index = index })
  consume 4

unfoldable pub frn3 : Endian → ℕ → Parser (Unit {0})
frn3 e fspec1 = optional (bit fspec1 5) (read_msg_index e)

-- `memcpy(text, src, rep); text[rep] = '\0';` over the 256 characters of the field.
unfoldable pub write_text : List ℕ → List ℕ → List ℕ
write_text src text = set (src ++ drop (length src) text) (length src) 0

-- How each field of variable length begins: its flag, and a count in one byte.
unfoldable pub read_rep : (Message → Message) → Parser ℕ
unfolding read_u8
read_rep flag = do need 1; modify flag; rep ← read_u8; consume 1; pure rep

-- `if (rep > sizeof(text) - 1) rep = sizeof(text) - 1;`
unfoldable pub text_length : ℕ → ℕ
text_length rep = if ltb 255 rep then 255 else rep

-- Lines 147-153: the text behind the count.
unfoldable pub copy_text : ℕ → Parser (Unit {0})
copy_text rep = do
  need rep
  modify (λ m. record m { summary = record { rep = rep; text = m.summary.text } })
  let kept = text_length rep
  chars ← peek kept
  modify (λ m. record m {
    summary = record { rep = m.summary.rep; text = write_text chars m.summary.text };
  })
  advance kept
  consume kept

unfoldable pub read_summary : Parser (Unit {0})
read_summary = do rep ← read_rep (λ m. record m { has_summary = true }); copy_text rep

unfoldable pub frn4 : ℕ → Parser (Unit {0})
frn4 fspec1 = optional (bit fspec1 4) read_summary

-- The four reads that FRN5 and FRN6 share.
unfoldable pub read_header : Endian → Parser VideoHeader
unfolding read_u16 read_u32
read_header e = do
  start_az ← read_u16 e
  end_az ← read_u16 e
  start_rg ← read_u32 e
  cell_dur ← read_u32 e
  pure (record { start_az = start_az; end_az = end_az; start_rg = start_rg; cell_dur = cell_dur })

unfoldable pub read_nano : Endian → Parser (Unit {0})
unfolding read_header
read_nano e = do
  need 12
  modify (λ m. record m { has_header_nano = true })
  header ← read_header e
  modify (λ m. record m { header_nano = header })
  consume 12

unfoldable pub frn5 : Endian → ℕ → Parser (Unit {0})
frn5 e fspec1 = optional (bit fspec1 3) (read_nano e)

unfoldable pub read_femto : Endian → Parser (Unit {0})
unfolding read_header
read_femto e = do
  need 12
  modify (λ m. record m { has_header_femto = true })
  header ← read_header e
  modify (λ m. record m { header_femto = header })
  consume 12

unfoldable pub frn6 : Endian → ℕ → Parser (Unit {0})
frn6 e fspec1 = optional (bit fspec1 2) (read_femto e)

unfoldable pub read_resolution : Endian → Parser (Unit {0})
unfolding read_u16
read_resolution e = do
  need 2
  modify (λ m. record m { has_resolution = true })
  res_comp ← read_u16 e
  modify (λ m. record m {
    resolution = record {
      compression = res_comp / 2 ^ 15 % 2;
      reserved = res_comp / 2 ^ 8 % 2 ^ 7;
      resolution = res_comp % 2 ^ 8;
    };
  })
  consume 2

unfoldable pub frn7 : Endian → ℕ → Parser (Unit {0})
frn7 e fspec1 = optional (bit fspec1 1) (read_resolution e)

unfoldable pub read_counters : Endian → Parser (Unit {0})
unfolding read_u16 read_u24
read_counters e = do
  need 5
  modify (λ m. record m { has_counters = true })
  nb_vb ← read_u16 e
  nb_cells ← read_u24
  modify (λ m. record m { counters = record { nb_vb = nb_vb; nb_cells = nb_cells } })
  consume 5

unfoldable pub frn8 : Endian → ℕ → Parser (Unit {0})
frn8 e fspec2 = optional (bit fspec2 7) (read_counters e)

abbrev pub mark_block : BlockType → Message → Message
mark_block type m = record m {
  has_video_block = true;
  video_block = record {
    type = type;
    rep = m.video_block.rep;
    bytes = m.video_block.bytes;
    data_bytes = m.video_block.data_bytes;
  };
}

abbrev pub point_block : ℕ → List ℕ → ℕ → Message → Message
point_block rep bytes data_bytes m = record m {
  video_block = record {
    type = m.video_block.type;
    rep = rep;
    bytes = some bytes;
    data_bytes = data_bytes;
  };
}

-- Lines 212-218: the block itself is not copied, the message points to it.
unfoldable pub point_to_block : ℕ → ℕ → Parser (Unit {0})
point_to_block unit rep = do
  let block_bytes = rep * unit
  need block_bytes
  p ← cursor
  modify (point_block rep p block_bytes)
  advance block_bytes
  consume block_bytes

-- FRN9, FRN10 and FRN11 differ in the type of the block and in the bytes of one repetition.
unfoldable pub read_video_block : BlockType → ℕ → Parser (Unit {0})
read_video_block type unit = do rep ← read_rep (mark_block type); point_to_block unit rep

unfoldable pub frn9 : ℕ → Parser (Unit {0})
frn9 fspec2 = optional (bit fspec2 6) (read_video_block video_block_low 4)

unfoldable pub frn10 : ℕ → Parser (Unit {0})
frn10 fspec2 = optional (bit fspec2 5) (read_video_block video_block_medium 64)

unfoldable pub frn11 : ℕ → Parser (Unit {0})
frn11 fspec2 = optional (bit fspec2 4) (read_video_block video_block_high 256)

unfoldable pub read_time : Parser (Unit {0})
unfolding read_u24
read_time = do
  need 3
  modify (λ m. record m { has_time = true })
  time ← read_u24
  modify (λ m. record m { time_of_day = time })
  consume 3

unfoldable pub frn12 : ℕ → Parser (Unit {0})
frn12 fspec2 = optional (bit fspec2 3) read_time

-- The reserved expansion and special purpose fields: a length, and bytes that are skipped.
unfoldable pub skip_bytes : (Message → Message) → ℕ → Parser (Unit {0})
skip_bytes note rep = do need rep; modify note; advance rep; consume rep

unfoldable pub read_re : Parser (Unit {0})
read_re = do
  rep ← read_rep (λ m. record m { has_re = true })
  skip_bytes (λ m. record m { re_len = rep }) rep

unfoldable pub frn13 : ℕ → Parser (Unit {0})
frn13 fspec2 = optional (bit fspec2 2) read_re

unfoldable pub read_sp : Parser (Unit {0})
read_sp = do
  rep ← read_rep (λ m. record m { has_sp = true })
  skip_bytes (λ m. record m { sp_len = rep }) rep

unfoldable pub frn14 : ℕ → Parser (Unit {0})
frn14 fspec2 = optional (bit fspec2 1) read_sp
