-- ===== src/Asterix/Words.antt =====
-- src/asterix_parse.c, lines 3-50: byte order of the host, `ntohs` and `ntohl`.
-- A 16-bit and a 32-bit word stand in memory as bytes, in the order of the host.
use zynq_lwip_frtos.Base.{
  ℕ, ◌+◌, ◌*◌, ◌/◌, ◌%◌, ◌^◌, ◌<◌, ◌≡◌, Bool, arith, ◌==◌, if◌then◌else◌, wrap16, wrap32,
}

pub data Endian : Type 0 where
  little big : Endian

-- The byte at the lowest address of a uint16_t.
low_address : Endian → ℕ → ℕ
low_address little x = x % 256
low_address big x = x / 256 % 256

pub is_little_endian : Endian → Bool
unfolding low_address
is_little_endian e = low_address e 1 == 1

-- memcpy of two bytes into a uint16_t.
pub load16 : Endian → (b0 b1 : ℕ) → ℕ
load16 little b0 b1 = b0 + b1 * 256
load16 big b0 b1 = b0 * 256 + b1

-- memcpy of four bytes into a uint32_t.
pub load32 : Endian → (b0 b1 b2 b3 : ℕ) → ℕ
load32 little b0 b1 b2 b3 = b0 + b1 * 2 ^ 8 + b2 * 2 ^ 16 + b3 * 2 ^ 24
load32 big b0 b1 b2 b3 = b0 * 2 ^ 24 + b1 * 2 ^ 16 + b2 * 2 ^ 8 + b3

-- The operands of `|` have no bit in common, so `|` is `+`.
pub ntohs : Endian → ℕ → ℕ
unfolding is_little_endian
ntohs e x = if is_little_endian e then wrap16 (x / 2 ^ 8 + x * 2 ^ 8) else x

-- The four masked parts, from the highest source byte to the lowest.
pub ntohl : Endian → ℕ → ℕ
unfolding is_little_endian
ntohl e x =
    if is_little_endian e
    then x / 2 ^ 24 % 256
      + x / 2 ^ 8 / 2 ^ 8 % 256 * 2 ^ 8
      + wrap32 (x * 2 ^ 8) / 2 ^ 16 % 256 * 2 ^ 16
      + wrap32 (x * 2 ^ 24) / 2 ^ 24 % 256 * 2 ^ 24
    else x

unfoldable pub u16_at : Endian → (b0 b1 : ℕ) → ℕ
unfolding ntohs load16
u16_at e b0 b1 = ntohs e (load16 e b0 b1)

pub u32_at : Endian → (b0 b1 b2 b3 : ℕ) → ℕ
unfolding ntohl load32
u32_at e b0 b1 b2 b3 = ntohl e (load32 e b0 b1 b2 b3)

unfoldable pub u24_at : (b0 b1 b2 : ℕ) → ℕ
u24_at b0 b1 b2 = b0 * 2 ^ 16 + b1 * 2 ^ 8 + b2

-- A 16-bit word of the message, as the parser reads it, has its high byte first on hosts of either byte order.
pub u16_at-big_endian :
    (e : Endian) (b0 b1 : ℕ) → b0 < 256 → b1 < 256 → u16_at e b0 b1 ≡ b0 * 2 ^ 8 + b1
unfolding u16_at
u16_at-big_endian little b0 b1 h0 h1 = omega arith
u16_at-big_endian big b0 b1 h0 h1 = omega arith

-- A 32-bit word of the message, as the parser reads it, has its highest byte first on hosts of
-- either byte order.
pub u32_at-big_endian :
    (e : Endian) (b0 b1 b2 b3 : ℕ)
    → b0 < 256
    → b1 < 256
    → b2 < 256
    → b3 < 256
    → u32_at e b0 b1 b2 b3 ≡ b0 * 2 ^ 24 + b1 * 2 ^ 16 + b2 * 2 ^ 8 + b3
unfolding u32_at
u32_at-big_endian little b0 b1 b2 b3 h0 h1 h2 h3 = omega arith
u32_at-big_endian big b0 b1 b2 b3 h0 h1 h2 h3 = omega arith
