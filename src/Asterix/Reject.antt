-- ===== src/Asterix/Reject.antt =====
-- The blocks that `parse_cat240` refuses.
use zynq_lwip_frtos.Base.{
  ℕ, ◌<◌, ◌≡◌, ◌≢◌, inl, inr, true, false, List, ◌∷◌, arith, bit, Bool-cases, subst, sym,
}
use zynq_lwip_frtos.Asterix.Words.{Endian, u16_at}
use zynq_lwip_frtos.Asterix.Message.{Message}
use zynq_lwip_frtos.Asterix.Reader.{
  Reader, Flow, go, reject, fault, and_then, read_u8, read_u16, Parser, ◌>>◌, ◌>>=◌,
}
use zynq_lwip_frtos.Asterix.Fields.{frn1, frn2}
use zynq_lwip_frtos.Asterix.Parse.{
  Outcome, returned, out_of_bounds, outcome, read_block_header, read_fspec2, read_fspec,
  first_fields, read_fields, parse_block, parse_cat240,
}

-- What is wrong with the header of a block: the buffer is too short for one, the category is not
-- 240, or the declared length is below 3 or beyond the buffer.
pub data BadHeader (e : Endian) (data_len c b1 b2 : ℕ) : Type 0 where
  short : data_len < 3 → BadHeader e data_len c b1 b2
  category : c ≢ 240 → BadHeader e data_len c b1 b2
  too_small : u16_at e b1 b2 < 3 → BadHeader e data_len c b1 b2
  too_large : data_len < u16_at e b1 b2 → BadHeader e data_len c b1 b2

block_header-BadHeader :
    (e : Endian) (data_len c b1 b2 : ℕ) (rest : List ℕ) (msg : Message)
    → BadHeader e data_len c b1 b2
    → read_block_header e data_len (record { p = c ∷ b1 ∷ b2 ∷ rest; remaining = 0; msg = msg })
      ≡ reject msg
unfolding read_block_header read_u16
block_header-BadHeader e data_len c b1 b2 rest msg (short h) = ground arith
block_header-BadHeader e data_len c b1 b2 rest msg (category h) = ground arith
block_header-BadHeader e data_len c b1 b2 rest msg (too_small h) = ground arith
block_header-BadHeader e data_len c b1 b2 rest msg (too_large h) = ground arith

-- A block with a bad header is refused, and the caller's message is left as it was.
pub parse_cat240-BadHeader :
    (e : Endian) (data_len c b1 b2 : ℕ) (rest : List ℕ) (msg : Message)
    → BadHeader e data_len c b1 b2
    → parse_cat240 e (c ∷ b1 ∷ b2 ∷ rest) data_len msg ≡ returned false msg
unfolding parse_cat240 parse_block
parse_cat240-BadHeader e data_len c b1 b2 rest msg h =
    rw (block_header-BadHeader e data_len c b1 b2 rest msg h)

abbrev Accepts : Outcome → Type 0
Accepts (returned true m) = Unit {0}
Accepts (returned false m) = ⊥
Accepts out_of_bounds = ⊥

abbrev HasBoth : ℕ → Type 0
HasBoth fspec1 = (bit fspec1 7 ≡ true) × (bit fspec1 6 ≡ true)

-- Nothing goes on behind the first fields without the two obligatory ones.
frn1-bit : (fspec1 : ℕ) (s : Reader) → bit fspec1 7 ≡ false → frn1 fspec1 s ≡ reject s.msg
unfolding frn1
frn1-bit fspec1 s h = rw h

frn2-bit : (fspec1 : ℕ) (s : Reader) → bit fspec1 6 ≡ false → frn2 fspec1 s ≡ reject s.msg
unfolding frn2
frn2-bit fspec1 s h = rw h

-- The first byte of the FSPEC.
abbrev Announces : ℕ → Flow (ℕ × ℕ) → Type 0
Announces fspec1 (go fspec s) = fspec.0 ≡ fspec1
Announces fspec1 (reject m) = Unit {0}
Announces fspec1 fault = Unit {0}

read_fspec-Announces :
    (fspec1 : ℕ) (rest : List ℕ) (s : Reader)
    → s.p ≡ fspec1 ∷ rest
    → Announces fspec1 (read_fspec s)
unfolding read_fspec read_fspec2 read_u8
read_fspec-Announces fspec1 rest s h = ground arith

then_frn2-bit :
    (fspec1 : ℕ) (k k' : Parser (Unit {0})) (r : Flow (Unit {0}))
    → bit fspec1 6 ≡ false
    → Accepts (outcome (and_then (and_then r (λ _. frn2 fspec1 >> k)) (λ _. k')))
    → ⊥
then_frn2-bit fspec1 k k' (go a s) b h = rw (frn2-bit fspec1 s b) at h
then_frn2-bit fspec1 k k' (reject m) b h = h
then_frn2-bit fspec1 k k' fault b h = h

read_fields-HasBoth :
    (e : Endian) (fspec1 fspec2 : ℕ) (s : Reader)
    → Accepts (outcome (read_fields e (fspec1, fspec2) s))
    → HasBoth fspec1
unfolding read_fields first_fields
read_fields-HasBoth e fspec1 fspec2 s h = (
  elim (Bool-cases (bit fspec1 7)) [ inl b ↦ b | inr b ↦ absurd (rw (frn1-bit fspec1 _ b) at h) ],
  elim (Bool-cases (bit fspec1 6)) [ inl b ↦ b | inr b ↦ absurd (then_frn2-bit fspec1 _ _ _ b h) ],
)

behind_fspec :
    (e : Endian) (fspec1 : ℕ) (r : Flow (ℕ × ℕ))
    → Announces fspec1 r
    → Accepts (outcome (and_then r (read_fields e)))
    → HasBoth fspec1
behind_fspec e fspec1 (go (f1, f2) s) same h = subst HasBoth same (read_fields-HasBoth e f1 f2 s h)
behind_fspec e fspec1 (reject m) same h = absurd h
behind_fspec e fspec1 fault same h = absurd h

-- The reader goes on where the header ends.
abbrev BehindHeader : List ℕ → Flow (Unit {0}) → Type 0
BehindHeader rest (go a s) = s.p ≡ rest
BehindHeader rest (reject m) = Unit {0}
BehindHeader rest fault = Unit {0}

block_header-BehindHeader :
    (e : Endian) (data_len c b1 b2 : ℕ) (rest : List ℕ) (msg : Message)
    → BehindHeader rest
        (read_block_header e data_len (record { p = c ∷ b1 ∷ b2 ∷ rest; remaining = 0; msg = msg }))
unfolding read_block_header read_u16
block_header-BehindHeader e data_len c b1 b2 rest msg = ground arith

behind_header :
    (e : Endian) (fspec1 : ℕ) (rest : List ℕ) (r : Flow (Unit {0}))
    → BehindHeader (fspec1 ∷ rest) r
    → Accepts (outcome (and_then r (λ _. read_fspec >>= read_fields e)))
    → HasBoth fspec1
behind_header e fspec1 rest (go a s) same h =
    behind_fspec e fspec1 (read_fspec s) (read_fspec-Announces fspec1 rest s same) h
behind_header e fspec1 rest (reject m) same h = absurd h
behind_header e fspec1 rest fault same h = absurd h

-- The parser returns true only for a block whose FSPEC announces both obligatory items, the data
-- source (bit 7) and the message type (bit 6).
pub parse_cat240-obligatory :
    (e : Endian) (data_len c b1 b2 fspec1 : ℕ) (rest : List ℕ) (msg m : Message)
    → parse_cat240 e (c ∷ b1 ∷ b2 ∷ fspec1 ∷ rest) data_len msg ≡ returned true m
    → (bit fspec1 7 ≡ true) × (bit fspec1 6 ≡ true)
unfolding parse_cat240 parse_block
parse_cat240-obligatory e data_len c b1 b2 fspec1 rest msg m h =
    behind_header e fspec1 rest _ (block_header-BehindHeader e data_len c b1 b2 (fspec1 ∷ rest) msg)
      (subst Accepts (sym h) tt)
