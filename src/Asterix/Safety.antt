-- ===== src/Asterix/Safety.antt =====
-- Memory safety of `parse_cat240`: every read stays inside the buffer.
use zynq_lwip_frtos.Base.{
  ℕ, ◌-◌, ◌^◌, ◌≤◌, ◌<◌, ◌≡◌, ◌≢◌, ◌⊎◌, refl, subst, inl, inr, true, false, Option, none, some,
  List, [], ◌∷◌, arith, length, bit,
}
use zynq_lwip_frtos.Asterix.Words.{Endian, u16_at}
use zynq_lwip_frtos.Asterix.Message.{Message, cleared}
use zynq_lwip_frtos.Asterix.Reader.{
  Reader, Flow, go, reject, fault, ◌>>=◌, and_then, read_u8, read_u16,
}
use zynq_lwip_frtos.Asterix.Parse.{
  Outcome, returned, out_of_bounds, outcome, read_block_header, read_fspec, read_fspec2,
  read_fields, parse_block, parse_cat240,
}
use zynq_lwip_frtos.Asterix.Bounds.{
  VideoFits, Safe, then-Preserves, optional-Preserves, first_fields-Preserves,
  second_fields-Preserves,
}

-- What holds before the message is cleared.
record Bounded (s : Reader) : Type 0 where
  inside : s.remaining ≤ length s.p
  small : s.remaining < 2 ^ 32

read_fields-Safe :
    (e : Endian) (fspec : ℕ × ℕ) (s : Reader) → Bounded s → Safe (read_fields e fspec s)
unfolding read_fields
read_fields-Safe e (fspec1, fspec2) s v =
    (then-Preserves (first_fields-Preserves e fspec1)
        (optional-Preserves (bit fspec1 0) (second_fields-Preserves e fspec2))).keeps
      (record s { msg = cleared }) (record { inside = v.inside; small = v.small; video = refl })

-- A step before the message is cleared goes on within bounds, or rejects the message as it was.
abbrev Starts : {A : Type 0} → Message → Flow A → Type 0
Starts msg (go a s) = Bounded s × (s.msg ≡ msg)
Starts msg (reject m) = m ≡ msg
Starts msg fault = ⊥

read_fspec-Starts : (s : Reader) → Bounded s → 0 < s.remaining → Starts s.msg (read_fspec s)
unfolding read_fspec read_fspec2 read_u8
read_fspec-Starts s v h = ground arith

-- The declared length of the block: bytes 1 and 2 of the datagram.
abbrev pub declared_length : Endian → List ℕ → Option ℕ
declared_length e (c ∷ b1 ∷ b2 ∷ rest) = some (u16_at e b1 b2)
declared_length e _ = none

abbrev Opened : Message → Flow (Unit {0}) → Type 0
Opened msg (go a s) = Bounded s × (s.msg ≡ msg) × (0 < s.remaining)
Opened msg (reject m) = m ≡ msg
Opened msg fault = ⊥

read_block_header-Opened :
    (e : Endian) (bytes : List ℕ) (data_len : ℕ) (msg : Message)
    → data_len ≤ length bytes
    → data_len < 2 ^ 32
    → declared_length e bytes ≢ some 3
    → Opened msg (read_block_header e data_len (record { p = bytes; remaining = 0; msg = msg }))
unfolding read_block_header read_u16
read_block_header-Opened e [] data_len msg fits small h = ground arith
read_block_header-Opened e (c ∷ []) data_len msg fits small h = ground arith
read_block_header-Opened e (c ∷ b1 ∷ []) data_len msg fits small h = ground arith
read_block_header-Opened e (c ∷ b1 ∷ b2 ∷ rest) data_len msg fits small h = ground arith

abbrev pub IsSafe : Message → Outcome → Type 0
IsSafe msg (returned true m) = VideoFits m
IsSafe msg (returned false m) = (m ≡ msg) ⊎ VideoFits m
IsSafe msg out_of_bounds = ⊥

outcome-IsSafe : (msg : Message) (r : Flow (Unit {0})) → Safe r → IsSafe msg (outcome r)
outcome-IsSafe msg (go a s) v = v.video
outcome-IsSafe msg (reject m) v = inr v
outcome-IsSafe msg fault v = v

behind_fspec :
    (e : Endian) (msg : Message) (r : Flow (ℕ × ℕ))
    → Starts msg r
    → IsSafe msg (outcome (and_then r (read_fields e)))
behind_fspec e msg (go fspec s) (v, _) = outcome-IsSafe msg _ (read_fields-Safe e fspec s v)
behind_fspec e msg (reject m) same = inl same
behind_fspec e msg fault v = v

behind_header :
    (e : Endian) (msg : Message) (r : Flow (Unit {0}))
    → Opened msg r
    → IsSafe msg (outcome (and_then r (λ _. read_fspec >>= read_fields e)))
behind_header e msg (go a s) (v, same, some_left) =
    behind_fspec e msg (read_fspec s)
      (subst (λ m. Starts m (read_fspec s)) same (read_fspec-Starts s v some_left))
behind_header e msg (reject m) same = inl same
behind_header e msg fault v = v

-- On a buffer that holds the `data_len` bytes it is said to hold, and whose block length is not
-- exactly 3, `parse_cat240` returns without a read outside the buffer. If it returns true, the
-- video block of the message lies inside the buffer; if it returns false, the message is the
-- caller's unchanged one or again has its video block inside the buffer.
pub parse_cat240-IsSafe :
    (e : Endian) (bytes : List ℕ) (data_len : ℕ) (msg : Message)
    → data_len ≤ length bytes
    → data_len < 2 ^ 32
    → declared_length e bytes ≢ some 3
    → IsSafe msg (parse_cat240 e bytes data_len msg)
unfolding parse_cat240 parse_block
parse_cat240-IsSafe e bytes data_len msg fits small h =
    behind_header e msg _ (read_block_header-Opened e bytes data_len msg fits small h)

-- A block that declares the length 3 and ends with its buffer passes the checks of the header, and
-- the parser then reads its FSPEC outside the buffer.
pub parse_cat240_header_only :
    (e : Endian) (b1 b2 : ℕ) (msg : Message)
    → u16_at e b1 b2 ≡ 3
    → parse_cat240 e (240 ∷ b1 ∷ b2 ∷ []) 3 msg ≡ out_of_bounds
unfolding parse_cat240 parse_block read_block_header read_fspec read_u16
parse_cat240_header_only e b1 b2 msg h = ground arith

-- With a longer buffer the same length makes `remaining` wrap round: behind the FSPEC the parser
-- counts 2^32 - 1 bytes in the block, and no later check of the length of a field can fail.
pub read_fspec-wraps :
    (s : Reader) (fspec1 : ℕ) (rest : List ℕ)
    → s.p ≡ fspec1 ∷ rest
    → s.remaining ≡ 0
    → bit fspec1 0 ≡ false
    → read_fspec s ≡ go (fspec1, 0) (record { p = rest; remaining = 2 ^ 32 - 1; msg = s.msg })
unfolding read_fspec read_u8
read_fspec-wraps s fspec1 rest hp hr hb = ground arith
