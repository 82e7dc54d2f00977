-- ===== src/Asterix/Parse.antt =====
-- src/asterix_parse.c, lines 57-297: `parse_cat240`. The messages to the console are left out.
use zynq_lwip_frtos.Base.{
  ℕ, ◌&&◌, not, Bool, true, false, List, ltb, ◌==◌, if◌then◌else◌, bit, sub32,
}
use zynq_lwip_frtos.Asterix.Words.{Endian}
use zynq_lwip_frtos.Asterix.Message.{Message, cleared}
use zynq_lwip_frtos.Asterix.Reader.{
  ◌>>◌, ◌>>=◌, Flow, go, reject, fault, Parser, pure, require, consume, set_remaining, modify,
  read_u8, read_u16,
}
use zynq_lwip_frtos.Asterix.Fields.{
  optional, frn1, frn2, frn3, frn4, frn5, frn6, frn7, frn8, frn9, frn10, frn11, frn12, frn13, frn14,
}

-- What the call leaves behind: the value returned and the message, or a read outside the buffer.
pub data Outcome : Type 0 where
  returned : Bool → Message → Outcome
  out_of_bounds : Outcome

-- Lines 64-80: category and length of the block.
unfoldable pub read_block_header : Endian → ℕ → Parser (Unit {0})
unfolding read_u8 read_u16
read_block_header e data_len = do
  require (not (ltb data_len 3))
  cat ← read_u8
  require (cat == 240)
  block_len ← read_u16 e
  require (not (ltb block_len 3) && not (ltb data_len block_len))
  set_remaining (sub32 block_len 3)

-- Lines 88-101: the second byte of the FSPEC, whose own extension bit must be 0.
unfoldable pub read_fspec2 : Parser ℕ
unfolding read_u8
read_fspec2 = do
  s ← (λ s. go s s)
  require (not (s.remaining == 0))
  fspec2 ← read_u8
  consume 1
  require (not (bit fspec2 0))
  pure fspec2

-- Lines 82-102: the field specification.
unfoldable pub read_fspec : Parser (ℕ × ℕ)
read_fspec = do
  fspec1 ← read_u8
  consume 1
  fspec2 ← (if bit fspec1 0 then read_fspec2 else pure 0)
  pure (fspec1, fspec2)

-- Lines 106-189: the fields of the first FSPEC byte.
unfoldable pub first_fields : Endian → ℕ → Parser (Unit {0})
first_fields e fspec1 = do
  frn1 fspec1
  frn2 fspec1
  frn3 e fspec1
  frn4 fspec1
  frn5 e fspec1
  frn6 e fspec1
  frn7 e fspec1

-- Lines 191-289: the fields of the second FSPEC byte.
unfoldable pub second_fields : Endian → ℕ → Parser (Unit {0})
second_fields e fspec2 = do
  frn8 e fspec2
  frn9 fspec2
  frn10 fspec2
  frn11 fspec2
  frn12 fspec2
  frn13 fspec2
  frn14 fspec2

-- The fields behind the FSPEC.
unfoldable pub read_fields : Endian → ℕ × ℕ → Parser (Unit {0})
read_fields e (fspec1, fspec2) = do
  modify (λ _. cleared)
  first_fields e fspec1
  optional (bit fspec1 0) (second_fields e fspec2)

unfoldable pub parse_block : Endian → ℕ → Parser (Unit {0})
parse_block e data_len = do read_block_header e data_len; fspec ← read_fspec; read_fields e fspec

abbrev pub outcome : Flow (Unit {0}) → Outcome
outcome (go _ s) = returned true s.msg
outcome (reject m) = returned false m
outcome fault = out_of_bounds

-- Bytes that are left over at the end are accepted (lines 291-296).
unfoldable pub parse_cat240 : Endian → List ℕ → ℕ → Message → Outcome
parse_cat240 e bytes data_len msg =
    outcome (parse_block e data_len (record { p = bytes; remaining = 0; msg = msg }))
