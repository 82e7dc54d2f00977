-- ===== src/Asterix/Octet.antt =====
-- The bits of a byte that is written by its bits.
use zynq_lwip_frtos.Base.{◌≤◌, ◌≡◌, Bool, true, false, arith, bit}
use zynq_lwip_frtos.Asterix.Encode.{Content, Second, is_some, digit, octet, fspec1, fspec2}

digit-le : (b : Bool) → digit b ≤ 1
digit-le true = omega arith
digit-le false = omega arith

module _ (b7 b6 b5 b4 b3 b2 b1 b0 : Bool) where
  pub bit_7 : bit (octet b7 b6 b5 b4 b3 b2 b1 b0) 7 ≡ b7
  unfolding octet
  bit_7 = ground (
    arith,
    digit-le b6,
    digit-le b5,
    digit-le b4,
    digit-le b3,
    digit-le b2,
    digit-le b1,
    digit-le b0,
  )

  pub bit_6 : bit (octet b7 b6 b5 b4 b3 b2 b1 b0) 6 ≡ b6
  unfolding octet
  bit_6 = ground (
    arith,
    digit-le b7,
    digit-le b5,
    digit-le b4,
    digit-le b3,
    digit-le b2,
    digit-le b1,
    digit-le b0,
  )

  pub bit_5 : bit (octet b7 b6 b5 b4 b3 b2 b1 b0) 5 ≡ b5
  unfolding octet
  bit_5 = ground (
    arith,
    digit-le b7,
    digit-le b6,
    digit-le b4,
    digit-le b3,
    digit-le b2,
    digit-le b1,
    digit-le b0,
  )

  pub bit_4 : bit (octet b7 b6 b5 b4 b3 b2 b1 b0) 4 ≡ b4
  unfolding octet
  bit_4 = ground (
    arith,
    digit-le b7,
    digit-le b6,
    digit-le b5,
    digit-le b3,
    digit-le b2,
    digit-le b1,
    digit-le b0,
  )

  pub bit_3 : bit (octet b7 b6 b5 b4 b3 b2 b1 b0) 3 ≡ b3
  unfolding octet
  bit_3 = ground (
    arith,
    digit-le b7,
    digit-le b6,
    digit-le b5,
    digit-le b4,
    digit-le b2,
    digit-le b1,
    digit-le b0,
  )

  pub bit_2 : bit (octet b7 b6 b5 b4 b3 b2 b1 b0) 2 ≡ b2
  unfolding octet
  bit_2 = ground (
    arith,
    digit-le b7,
    digit-le b6,
    digit-le b5,
    digit-le b4,
    digit-le b3,
    digit-le b1,
    digit-le b0,
  )

  pub bit_1 : bit (octet b7 b6 b5 b4 b3 b2 b1 b0) 1 ≡ b1
  unfolding octet
  bit_1 = ground (
    arith,
    digit-le b7,
    digit-le b6,
    digit-le b5,
    digit-le b4,
    digit-le b3,
    digit-le b2,
    digit-le b0,
  )

  pub bit_0 : bit (octet b7 b6 b5 b4 b3 b2 b1 b0) 0 ≡ b0
  unfolding octet
  bit_0 = ground (
    arith,
    digit-le b7,
    digit-le b6,
    digit-le b5,
    digit-le b4,
    digit-le b3,
    digit-le b2,
    digit-le b1,
  )

-- The bits of the two FSPEC bytes.
module _ (c : Content) where
  pub bit-fspec1_7 : bit (fspec1 c) 7 ≡ true
  unfolding fspec1
  bit-fspec1_7 =
      bit_7 true true (is_some c.index) (is_some c.summary) (is_some c.nano) (is_some c.femto)
        (is_some c.resolution) (is_some c.second)

  pub bit-fspec1_6 : bit (fspec1 c) 6 ≡ true
  unfolding fspec1
  bit-fspec1_6 =
      bit_6 true true (is_some c.index) (is_some c.summary) (is_some c.nano) (is_some c.femto)
        (is_some c.resolution) (is_some c.second)

  pub bit-fspec1_5 : bit (fspec1 c) 5 ≡ is_some c.index
  unfolding fspec1
  bit-fspec1_5 =
      bit_5 true true (is_some c.index) (is_some c.summary) (is_some c.nano) (is_some c.femto)
        (is_some c.resolution) (is_some c.second)

  pub bit-fspec1_4 : bit (fspec1 c) 4 ≡ is_some c.summary
  unfolding fspec1
  bit-fspec1_4 =
      bit_4 true true (is_some c.index) (is_some c.summary) (is_some c.nano) (is_some c.femto)
        (is_some c.resolution) (is_some c.second)

  pub bit-fspec1_3 : bit (fspec1 c) 3 ≡ is_some c.nano
  unfolding fspec1
  bit-fspec1_3 =
      bit_3 true true (is_some c.index) (is_some c.summary) (is_some c.nano) (is_some c.femto)
        (is_some c.resolution) (is_some c.second)

  pub bit-fspec1_2 : bit (fspec1 c) 2 ≡ is_some c.femto
  unfolding fspec1
  bit-fspec1_2 =
      bit_2 true true (is_some c.index) (is_some c.summary) (is_some c.nano) (is_some c.femto)
        (is_some c.resolution) (is_some c.second)

  pub bit-fspec1_1 : bit (fspec1 c) 1 ≡ is_some c.resolution
  unfolding fspec1
  bit-fspec1_1 =
      bit_1 true true (is_some c.index) (is_some c.summary) (is_some c.nano) (is_some c.femto)
        (is_some c.resolution) (is_some c.second)

  pub bit-fspec1_0 : bit (fspec1 c) 0 ≡ is_some c.second
  unfolding fspec1
  bit-fspec1_0 =
      bit_0 true true (is_some c.index) (is_some c.summary) (is_some c.nano) (is_some c.femto)
        (is_some c.resolution) (is_some c.second)

module _ (s : Second) where
  pub bit-fspec2_7 : bit (fspec2 s) 7 ≡ is_some s.counters
  unfolding fspec2
  bit-fspec2_7 =
      bit_7 (is_some s.counters) (is_some s.low) (is_some s.medium) (is_some s.high)
        (is_some s.time) (is_some s.re) (is_some s.sp) false

  pub bit-fspec2_6 : bit (fspec2 s) 6 ≡ is_some s.low
  unfolding fspec2
  bit-fspec2_6 =
      bit_6 (is_some s.counters) (is_some s.low) (is_some s.medium) (is_some s.high)
        (is_some s.time) (is_some s.re) (is_some s.sp) false

  pub bit-fspec2_5 : bit (fspec2 s) 5 ≡ is_some s.medium
  unfolding fspec2
  bit-fspec2_5 =
      bit_5 (is_some s.counters) (is_some s.low) (is_some s.medium) (is_some s.high)
        (is_some s.time) (is_some s.re) (is_some s.sp) false

  pub bit-fspec2_4 : bit (fspec2 s) 4 ≡ is_some s.high
  unfolding fspec2
  bit-fspec2_4 =
      bit_4 (is_some s.counters) (is_some s.low) (is_some s.medium) (is_some s.high)
        (is_some s.time) (is_some s.re) (is_some s.sp) false

  pub bit-fspec2_3 : bit (fspec2 s) 3 ≡ is_some s.time
  unfolding fspec2
  bit-fspec2_3 =
      bit_3 (is_some s.counters) (is_some s.low) (is_some s.medium) (is_some s.high)
        (is_some s.time) (is_some s.re) (is_some s.sp) false

  pub bit-fspec2_2 : bit (fspec2 s) 2 ≡ is_some s.re
  unfolding fspec2
  bit-fspec2_2 =
      bit_2 (is_some s.counters) (is_some s.low) (is_some s.medium) (is_some s.high)
        (is_some s.time) (is_some s.re) (is_some s.sp) false

  pub bit-fspec2_1 : bit (fspec2 s) 1 ≡ is_some s.sp
  unfolding fspec2
  bit-fspec2_1 =
      bit_1 (is_some s.counters) (is_some s.low) (is_some s.medium) (is_some s.high)
        (is_some s.time) (is_some s.re) (is_some s.sp) false

  pub bit-fspec2_0 : bit (fspec2 s) 0 ≡ false
  unfolding fspec2
  bit-fspec2_0 =
      bit_0 (is_some s.counters) (is_some s.low) (is_some s.medium) (is_some s.high)
        (is_some s.time) (is_some s.re) (is_some s.sp) false
