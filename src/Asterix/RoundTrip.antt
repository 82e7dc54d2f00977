-- ===== src/Asterix/RoundTrip.antt =====
-- `parse_cat240` against the wire format: what a sender encodes, the parser reads back.
use zynq_lwip_frtos.Base.{
  ℕ, ◌+◌, ◌-◌, ◌^◌, ◌≤◌, ◌<◌, ◌≡◌, refl, true, Option, none, some, List, [], ◌∷◌, ◌++◌, arith,
  length, append_assoc, bit, ap,
}
use native.Mathlib.Nat.{add-zero}
use zynq_lwip_frtos.Asterix.Words.{Endian}
use zynq_lwip_frtos.Asterix.Message.{cleared, Message}
use zynq_lwip_frtos.Asterix.Reader.{go, read_u8, read_u16}
use zynq_lwip_frtos.Asterix.Fields.{optional}
use zynq_lwip_frtos.Asterix.Parse.{
  returned, outcome, read_block_header, read_fspec2, read_fspec, first_fields, second_fields,
  read_fields, parse_block, parse_cat240,
}
use zynq_lwip_frtos.Asterix.Encode.{
  Content, Second, is_some, be16, item, second_bytes, item_bytes, fspec1, fspec2, fspec_bytes,
  block_size, encode, set_second, set_items, set_extension, message_of,
}
use zynq_lwip_frtos.Asterix.Items.{
  at, Holds, Reading, then-Reading, HeaderFits, ResolutionFits, CountersFit, BlockFits, u16_be,
}
use zynq_lwip_frtos.Asterix.Octet.{
  bit-fspec1_0, bit-fspec1_1, bit-fspec1_2, bit-fspec1_3, bit-fspec1_4, bit-fspec1_5, bit-fspec1_6,
  bit-fspec1_7, bit-fspec2_0, bit-fspec2_1, bit-fspec2_2, bit-fspec2_3, bit-fspec2_4, bit-fspec2_5,
  bit-fspec2_6, bit-fspec2_7,
}
use zynq_lwip_frtos.Asterix.Frn.{
  frn1-Reading, frn2-Reading, frn3-Reading, frn4-Reading, frn5-Reading, frn6-Reading, frn7-Reading,
  frn8-Reading, frn9-Reading, frn10-Reading, frn11-Reading, frn12-Reading, frn13-Reading,
  frn14-Reading,
}

-- The values of the second byte's items fit their fields.
pub record SecondFits (s : Second) : Type 0 where
  pub counters : Holds CountersFit s.counters
  pub low : Holds (BlockFits 4) s.low
  pub medium : Holds (BlockFits 64) s.medium
  pub high : Holds (BlockFits 256) s.high
  pub time : Holds (λ t. t < 2 ^ 24) s.time
  pub re : Holds (λ xs. length xs < 256) s.re
  pub sp : Holds (λ xs. length xs < 256) s.sp

-- So do the values of all items, and the block's length fits its 16 bits.
pub record ContentFits (c : Content) : Type 0 where
  pub index : Holds (λ i. i < 2 ^ 32) c.index
  pub summary : Holds (λ text. length text < 256) c.summary
  pub nano : Holds HeaderFits c.nano
  pub femto : Holds HeaderFits c.femto
  pub resolution : Holds ResolutionFits c.resolution
  pub second : Holds SecondFits c.second
  pub size : block_size c < 2 ^ 16

second_fields-Reading :
    (e : Endian) (s : Second)
    → SecondFits s
    → Reading (second_fields e (fspec2 s)) (second_bytes s) (set_second s)
unfolding second_fields second_bytes set_second
second_fields-Reading e s v =
    then-Reading (frn8-Reading _ e s.counters (bit-fspec2_7 s) v.counters) (
      then-Reading (frn9-Reading _ s.low (bit-fspec2_6 s) v.low) (
        then-Reading (frn10-Reading _ s.medium (bit-fspec2_5 s) v.medium) (
          then-Reading (frn11-Reading _ s.high (bit-fspec2_4 s) v.high) (
            then-Reading (frn12-Reading _ s.time (bit-fspec2_3 s) v.time) (
              then-Reading (frn13-Reading _ s.re (bit-fspec2_2 s) v.re)
                (frn14-Reading _ s.sp (bit-fspec2_1 s) v.sp))))))

first_fields-Reading :
    (e : Endian) (c : Content)
    → ContentFits c
    → Reading (first_fields e (fspec1 c)) (item_bytes c) (λ _. set_items c)
unfolding first_fields item_bytes set_items
first_fields-Reading e c v = then-Reading (frn1-Reading _ c.sac c.sic (bit-fspec1_7 c)) (
    then-Reading (frn2-Reading _ c.type (bit-fspec1_6 c)) (
      then-Reading (frn3-Reading _ e c.index (bit-fspec1_5 c) v.index) (
        then-Reading (frn4-Reading _ c.summary (bit-fspec1_4 c) v.summary) (
          then-Reading (frn5-Reading _ e c.nano (bit-fspec1_3 c) v.nano) (
            then-Reading (frn6-Reading _ e c.femto (bit-fspec1_2 c) v.femto)
              (frn7-Reading _ e c.resolution (bit-fspec1_1 c) v.resolution))))))

block_header-be16 :
    (e : Endian) (n data_len : ℕ) (rest : List ℕ) (msg : Message)
    → 3 ≤ n
    → n ≤ data_len
    → n < 2 ^ 16
    → read_block_header e data_len (at (240 ∷ be16 n ++ rest) 0 msg) ≡ go tt (at rest (n - 3) msg)
unfolding read_block_header read_u16
block_header-be16 e n data_len rest msg lo hi h = ground (arith, u16_be e n)

abbrev second_octet : Option Second → ℕ
second_octet none = 0
second_octet (some s) = fspec2 s

abbrev fspecs : Content → Option Second → ℕ × ℕ
fspecs c o = (fspec1 c, second_octet o)

read_fspec-bytes :
    (c : Content) (o : Option Second) (rest : List ℕ) (r k : ℕ) (m : Message)
    → bit (fspec1 c) 0 ≡ is_some o
    → k ≡ 1 + (length (item (λ s. fspec2 s ∷ []) o) + r)
    → k < 2 ^ 32
    → read_fspec (at (fspec1 c ∷ (item (λ s. fspec2 s ∷ []) o ++ rest)) k m)
      ≡ go (fspecs c o) (at rest r m)
unfolding read_fspec read_fspec2 read_u8
read_fspec-bytes c none rest r k m b e h = ground arith
read_fspec-bytes c (some s) rest r k m b e h = ground (arith, bit-fspec2_0 s)

extension-Reads :
    (e : Endian) (c : Content) (o : Option Second)
    → bit (fspec1 c) 0 ≡ is_some o
    → Holds SecondFits o
    → (rest : List ℕ) (m : Message) → length (item second_bytes o) < 2 ^ 32
    → optional
        (bit (fspec1 c) 0)
        (second_fields e (fspecs c o).1)
        (at (item second_bytes o ++ rest) (length (item second_bytes o)) m)
      ≡ go tt (at rest 0 (set_extension o rest m))
extension-Reads e c none b v rest m h = rw b
extension-Reads e c (some s) b v rest m h = rw b (
    rw (add-zero (length (second_bytes s))) at
      ((second_fields-Reading e s v).reads rest 0 m (omega arith)))

abbrev body_size : Content → ℕ
body_size c = length (item_bytes c) + length (item second_bytes c.second)

Holds-second : (c : Content) → ContentFits c → Holds SecondFits c.second
Holds-second c v = v.second

read_fields-items :
    (e : Endian) (c : Content)
    → ContentFits c
    → (rest : List ℕ) (m : Message) → body_size c < 2 ^ 16
    → read_fields e
        (fspecs c c.second)
        (at (item_bytes c ++ (item second_bytes c.second ++ rest)) (body_size c) m)
      ≡ go tt (at rest 0 (message_of c rest))
unfolding read_fields message_of
read_fields-items e c v rest m h =
    rw
      ((first_fields-Reading e c v).reads (item second_bytes c.second ++ rest)
        (length (item second_bytes c.second)) cleared (omega arith))
      (extension-Reads e c c.second (bit-fspec1_0 c) v.second rest _ (omega arith))

block_size_lem : (c : Content) → block_size c ≡ 3 + (length (fspec_bytes c) + body_size c)
unfolding block_size
block_size_lem c = refl

parse_block-encode :
    (e : Endian) (c : Content) (rest : List ℕ) (data_len : ℕ) (msg : Message)
    → ContentFits c
    → block_size c ≤ data_len
    → parse_block e data_len (at (encode c ++ rest) 0 msg) ≡ go tt (at rest 0 (message_of c rest))
unfolding parse_block encode
parse_block-encode e c rest data_len msg v le =
    rw (append_assoc, append_assoc, append_assoc)
      (rw
        (block_header-be16 e (block_size c) data_len _ msg (omega (arith, block_size_lem c)) le
          v.size)
        (rw
          (read_fspec-bytes c c.second (item_bytes c ++ (item second_bytes c.second ++ rest))
            (body_size c) (block_size c - 3) msg (bit-fspec1_0 c) (omega (arith, block_size_lem c))
            (omega (arith, v.size)))
          (read_fields-items e c v rest msg (omega (arith, v.size, block_size_lem c)))))

-- The parser reads back what the wire format says: over the bytes of a block whose values fit their
-- fields it returns true, with the message that the items describe, whatever the message held
-- before and whatever stands behind the block in the buffer, on a host of either byte order.
pub parse_cat240-encode :
    (e : Endian) (c : Content) (rest : List ℕ) (data_len : ℕ) (msg : Message)
    → ContentFits c
    → block_size c ≤ data_len
    → parse_cat240 e (encode c ++ rest) data_len msg ≡ returned true (message_of c rest)
unfolding parse_cat240
parse_cat240-encode e c rest data_len msg v le =
    ap outcome (parse_block-encode e c rest data_len msg v le)
