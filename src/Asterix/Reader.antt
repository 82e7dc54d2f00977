-- ===== src/Asterix/Reader.antt =====
-- src/asterix_parse.c, lines 27-55: the cursor `p`, the count `remaining` and the message under
-- construction, threaded through the steps of the parser. A step goes on, makes the parser return
-- false with the message as it stands, or reads outside the buffer.
use zynq_lwip_frtos.Base.{
  ℕ, Bool, true, false, List, [], ◌∷◌, ltb, if◌then◌else◌, length, take, drop, sub32,
}
use zynq_lwip_frtos.Asterix.Words.{Endian, u16_at, u24_at, u32_at}
use zynq_lwip_frtos.Asterix.Message.{Message}

pub record Reader : Type 0 where
  pub p : List ℕ
  pub remaining : ℕ
  pub msg : Message

pub data Flow (A : Type 0) : Type 0 where
  go : A → Reader → Flow A
  reject : Message → Flow A
  fault : Flow A

abbrev pub Parser : Type 0 → Type 0
Parser A = Reader → Flow A

abbrev pub pure : {A : Type 0} → A → Parser A
pure a s = go a s

abbrev pub and_then : {A B : Type 0} → Flow A → (A → Parser B) → Flow B
and_then (go a s) k = k a s
and_then (reject m) k = reject m
and_then fault k = fault

infixl 5 ◌>>=◌ ◌>>◌
abbrev pub ◌>>=◌ : {A B : Type 0} → Parser A → (A → Parser B) → Parser B
◌>>=◌ m k s = and_then (m s) k

abbrev pub ◌>>◌ : {B : Type 0} → Parser (Unit {0}) → Parser B → Parser B
◌>>◌ m k s = and_then (m s) (λ _. k)

-- `if (!test) return false;`
abbrev pub require : Bool → Parser (Unit {0})
require true s = go tt s
require false s = reject s.msg

-- `if (remaining < n) return false;`
abbrev pub need : ℕ → Parser (Unit {0})
need n s = if ltb s.remaining n then reject s.msg else go tt s

-- `remaining -= n;`
abbrev pub consume : ℕ → Parser (Unit {0})
consume n s = go tt (record s { remaining = sub32 s.remaining n })

abbrev pub set_remaining : ℕ → Parser (Unit {0})
set_remaining n s = go tt (record s { remaining = n })

abbrev pub modify : (Message → Message) → Parser (Unit {0})
modify f s = go tt (record s { msg = f s.msg })

-- The bytes from the cursor on.
abbrev pub cursor : Parser (List ℕ)
cursor s = go s.p s

-- `memcpy(dst, p, n)`: the n bytes at the cursor.
abbrev pub peek : ℕ → Parser (List ℕ)
peek n s = if ltb (length s.p) n then fault else go (take n s.p) s

-- `p += n;`
abbrev pub advance : ℕ → Parser (Unit {0})
advance n s = if ltb (length s.p) n then fault else go tt (record s { p = drop n s.p })

next_byte : Reader → List ℕ → Flow ℕ
next_byte s [] = fault
next_byte s (b ∷ rest) = go b (record s { p = rest })

unfoldable pub read_u8 : Parser ℕ
unfolding next_byte
read_u8 s = next_byte s s.p

unfoldable pub read_u16 : Endian → Parser ℕ
unfolding read_u8
read_u16 e = do b0 ← read_u8; b1 ← read_u8; pure (u16_at e b0 b1)

unfoldable pub read_u32 : Endian → Parser ℕ
unfolding read_u8
read_u32 e = do b0 ← read_u8; b1 ← read_u8; b2 ← read_u8; b3 ← read_u8; pure (u32_at e b0 b1 b2 b3)

unfoldable pub read_u24 : Parser ℕ
unfolding read_u8
read_u24 = do b0 ← read_u8; b1 ← read_u8; b2 ← read_u8; pure (u24_at b0 b1 b2)
