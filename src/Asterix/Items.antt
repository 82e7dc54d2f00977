-- ===== src/Asterix/Items.antt =====
-- Each field step reads back the item that the wire format puts at its place.
use zynq_lwip_frtos.Base.{
  ℕ, zero, suc, drop, set, ◌+◌, ◌-◌, ◌*◌, ◌/◌, ◌%◌, ◌^◌, ◌≤◌, ◌<◌, ◌≡◌, refl, ap, Bool, true,
  Option, none, some, List, [], ◌∷◌, ◌++◌, arith, length, length-append, take-append, drop-append,
  append_assoc,
}
use native.Mathlib.Nat.{add_assoc}
use zynq_lwip_frtos.Asterix.Words.{
  Endian, u16_at, u24_at, u32_at, u16_at-big_endian, u32_at-big_endian,
}
use zynq_lwip_frtos.Asterix.Message.{Message, BlockType, VideoHeader, ResolutionIndicator, Counters}
use zynq_lwip_frtos.Asterix.Reader.{Reader, go, Parser, ◌>>◌}
use zynq_lwip_frtos.Asterix.Fields.{
  optional, read_source, read_message_type, read_msg_index, read_summary, read_nano, read_femto,
  read_resolution, read_counters, read_video_block, read_time, read_re, read_sp, read_rep,
  write_text, copy_text, text_length, point_to_block, point_block, skip_bytes, mark_block,
}
use zynq_lwip_frtos.Asterix.Encode.{
  Block, is_some, stored, be24, be32, item, counted, header_bytes, resolution_bytes, counters_bytes,
  block_bytes, set_source, set_type, set_index, set_summary, set_nano, set_femto, set_resolution,
  set_counters, set_block, set_time, set_re, set_sp,
}

abbrev pub at : List ℕ → ℕ → Message → Reader
at p r m = record { p = p; remaining = r; msg = m }

-- A property of the item, if it is there.
abbrev pub Holds {ℓ} : {A : Type ℓ} → (A → Type 0) → Option A → Type 0
Holds P none = Unit
Holds P (some a) = P a

pub u16_be : (e : Endian) (x : ℕ) → x < 2 ^ 16 → u16_at e (x / 2 ^ 8) (x % 2 ^ 8) ≡ x
u16_be e x h = omega (arith, u16_at-big_endian e (x / 2 ^ 8) (x % 2 ^ 8))

u32_be :
    (e : Endian) (x : ℕ)
    → x < 2 ^ 32
    → u32_at e (x / 2 ^ 24) (x / 2 ^ 16 % 2 ^ 8) (x / 2 ^ 8 % 2 ^ 8) (x % 2 ^ 8) ≡ x
u32_be e x h =
    omega
      (arith, u32_at-big_endian e (x / 2 ^ 24) (x / 2 ^ 16 % 2 ^ 8) (x / 2 ^ 8 % 2 ^ 8) (x % 2 ^ 8))

u24_be : (x : ℕ) → x < 2 ^ 24 → u24_at (x / 2 ^ 16) (x / 2 ^ 8 % 2 ^ 8) (x % 2 ^ 8) ≡ x
unfolding u24_at
u24_be x h = omega arith

-- A step that reads the item `bytes`: it goes on behind the item, with the message updated.
abbrev pub Reads : Parser (Unit {0}) → List ℕ → (List ℕ → Message → Message) → Type 0
Reads step bytes set =
    (rest : List ℕ) (r : ℕ) (m : Message)
    → length bytes + r < 2 ^ 32
    → step (at (bytes ++ rest) (length bytes + r) m) ≡ go tt (at rest r (set rest m))

-- The same as a record, from which a rule reads off its step.
pub record Reading (step : Parser (Unit {0})) (bytes : List ℕ) (set : List ℕ → Message → Message)
    : Type 0 where
  pub reads : Reads step bytes set

pub then-Reading :
    {step1 step2 : Parser (Unit {0})} {xs ys : List ℕ} {set1 set2 : List ℕ → Message → Message}
    → Reading step1 xs set1
    → Reading step2 ys set2
    → Reading (step1 >> step2) (xs ++ ys) (λ rest m. set2 rest (set1 (ys ++ rest) m))
then-Reading {xs} {ys} {set1} h1 h2 = record {
  reads = λ rest r m small.
      rw (append_assoc, length-append xs ys, add_assoc)
        (rw (h1.reads (ys ++ rest) (length ys + r) m (omega (arith, length-append xs ys)))
          (h2.reads rest r (set1 (ys ++ rest) m) (omega (arith, length-append xs ys))));
}

-- An optional item whose bit in the FSPEC says whether it is there.
pub optional-Reading :
    {A : Type 0} (P : A → Type 0) (enc : A → List ℕ) (set : Option A → List ℕ → Message → Message)
    (step : Parser (Unit {0})) (present : Bool) (o : Option A)
    → present ≡ is_some o
    → ((rest : List ℕ) (m : Message) → set none rest m ≡ m)
    → ((a : A) → P a → Reads step (enc a) (set (some a)))
    → Holds P o
    → Reading (optional present step) (item enc o) (set o)
optional-Reading P enc set step present none e idle reads h = record {
  reads = λ rest r m small. rw (e, idle rest m) (ground arith);
}
optional-Reading P enc set step present (some a) e idle reads h = record {
  reads = λ rest r m small. rw e (reads a h rest r m small);
}

pub read_source-Reads : (sac sic : ℕ) → Reads read_source (sac ∷ sic ∷ []) (λ _. set_source sac sic)
unfolding read_source
read_source-Reads sac sic rest r m small = ground arith

pub read_message_type-Reads : (type : ℕ) → Reads read_message_type (type ∷ []) (λ _. set_type type)
unfolding read_message_type
read_message_type-Reads type rest r m small = ground arith

pub read_msg_index-Reads :
    (e : Endian) (i : ℕ) → i < 2 ^ 32 → Reads (read_msg_index e) (be32 i) (λ _. set_index (some i))
unfolding read_msg_index
read_msg_index-Reads e i h rest r m small = ground (arith, u32_be e i)

abbrev pub HeaderFits : VideoHeader → Type 0
HeaderFits h =
    (h.start_az < 2 ^ 16) × (h.end_az < 2 ^ 16) × (h.start_rg < 2 ^ 32) × (h.cell_dur < 2 ^ 32)

pub read_nano-Reads :
    (e : Endian) (h : VideoHeader)
    → HeaderFits h
    → Reads (read_nano e) (header_bytes h) (λ _. set_nano (some h))
unfolding read_nano
read_nano-Reads e h v rest r m small =
    ground (arith, u16_be e h.start_az, u16_be e h.end_az, u32_be e h.start_rg, u32_be e h.cell_dur)

pub read_femto-Reads :
    (e : Endian) (h : VideoHeader)
    → HeaderFits h
    → Reads (read_femto e) (header_bytes h) (λ _. set_femto (some h))
unfolding read_femto
read_femto-Reads e h v rest r m small =
    ground (arith, u16_be e h.start_az, u16_be e h.end_az, u32_be e h.start_rg, u32_be e h.cell_dur)

abbrev pub ResolutionFits : ResolutionIndicator → Type 0
ResolutionFits r = (r.compression < 2) × (r.reserved < 2 ^ 7) × (r.resolution < 2 ^ 8)

pub read_resolution-Reads :
    (e : Endian) (x : ResolutionIndicator)
    → ResolutionFits x
    → Reads (read_resolution e) (resolution_bytes x) (λ _. set_resolution (some x))
unfolding read_resolution
read_resolution-Reads e x v rest r m small =
    ground (arith, u16_at-big_endian e (x.compression * 2 ^ 7 + x.reserved) x.resolution)

abbrev pub CountersFit : Counters → Type 0
CountersFit n = (n.nb_vb < 2 ^ 16) × (n.nb_cells < 2 ^ 24)

pub read_counters-Reads :
    (e : Endian) (n : Counters)
    → CountersFit n
    → Reads (read_counters e) (counters_bytes n) (λ _. set_counters (some n))
unfolding read_counters
read_counters-Reads e n v rest r m small = ground (arith, u16_be e n.nb_vb, u24_be n.nb_cells)

pub read_time-Reads :
    (time : ℕ) → time < 2 ^ 24 → Reads read_time (be24 time) (λ _. set_time (some time))
unfolding read_time
read_time-Reads time h rest r m small = ground (arith, u24_be time)

-- The same for the parts of a counted item, where the count of bytes left is any `k`.
read_rep-cons :
    (flag : Message → Message) (n : ℕ) (rest : List ℕ) (k : ℕ) (m : Message)
    → 0 < k
    → k < 2 ^ 32
    → read_rep flag (at (n ∷ rest) k m) ≡ go n (at rest (k - 1) (flag m))
unfolding read_rep
read_rep-cons flag n rest k m h small = ground arith

text_length_id : (n : ℕ) → n < 256 → text_length n ≡ n
unfolding text_length
text_length_id n h = ground arith

drop_nil : (n : ℕ) → drop {A = ℕ} n [] ≡ []
drop_nil zero = refl
drop_nil (suc n) = refl

set_end : (text : List ℕ) → set (text ++ []) (length text) 0 ≡ text
set_end [] = refl
set_end (x ∷ xs) = ap (λ zs. x ∷ zs) (set_end xs)

write_text_nil : (text : List ℕ) → write_text text [] ≡ text
unfolding write_text
write_text_nil text = rw (drop_nil (length text)) (set_end text)

write_text-stored : (text field : List ℕ) → write_text text field ≡ stored text field
unfolding write_text stored
write_text-stored [] [] = refl
write_text-stored [] (y ∷ ys) = refl
write_text-stored (x ∷ xs) [] = write_text_nil (x ∷ xs)
write_text-stored (x ∷ xs) (y ∷ ys) = ap (λ zs. x ∷ zs) (write_text-stored xs ys)

copy_text-append :
    (text rest : List ℕ) (k : ℕ) (m : Message)
    → length text < 256
    → length text ≤ k
    → k < 2 ^ 32
    → copy_text (length text) (at (text ++ rest) k m)
      ≡ go tt (
          at rest (k - length text) (record m {
            summary = record { rep = length text; text = stored text m.summary.text };
          }))
unfolding copy_text
copy_text-append text rest k m h le small = rw (text_length_id (length text) h) (
    ground (
      arith,
      write_text-stored text m.summary.text,
      take-append text rest,
      drop-append text rest,
      length-append text rest,
    ))

pub read_summary-Reads :
    (text : List ℕ)
    → length text < 256
    → Reads read_summary (counted text) (λ _. set_summary (some text))
unfolding read_summary
read_summary-Reads text h rest r m small = ground (
  arith,
  read_rep-cons (λ m. record m { has_summary = true }) (length text) (text ++ rest)
      (suc (length text) + r) m,
  copy_text-append text rest (suc (length text) + r - 1) (record m { has_summary = true }),
)

point_to_block-append :
    (unit rep : ℕ) (xs rest : List ℕ) (k : ℕ) (m : Message)
    → length xs ≡ rep * unit
    → length xs ≤ k
    → k < 2 ^ 32
    → point_to_block unit rep (at (xs ++ rest) k m)
      ≡ go tt (at rest (k - length xs) (point_block rep (xs ++ rest) (length xs) m))
unfolding point_to_block
point_to_block-append unit rep xs rest k m h le small =
    rw (← h) (ground (arith, drop-append xs rest, length-append xs rest))

-- A block of `rep` units.
abbrev pub BlockFits : ℕ → Block → Type 0
BlockFits unit b = (b.rep < 256) × (length b.bytes ≡ b.rep * unit)

pub read_video_block-Reads :
    (type : BlockType) (unit : ℕ) (b : Block)
    → BlockFits unit b
    → Reads (read_video_block type unit) (block_bytes b) (λ rest. set_block type (some b) rest)
unfolding read_video_block
read_video_block-Reads type unit b (small_rep, fits) rest r m small = ground (
  arith,
  read_rep-cons (mark_block type) b.rep (b.bytes ++ rest) (suc (length b.bytes) + r) m,
  point_to_block-append unit b.rep b.bytes rest (suc (length b.bytes) + r - 1) (mark_block type m),
)

skip_bytes-append :
    (note : Message → Message) (xs rest : List ℕ) (k : ℕ) (m : Message)
    → length xs ≤ k
    → k < 2 ^ 32
    → skip_bytes note (length xs) (at (xs ++ rest) k m) ≡ go tt (at rest (k - length xs) (note m))
unfolding skip_bytes
skip_bytes-append note xs rest k m le small =
    ground (arith, drop-append xs rest, length-append xs rest)

pub read_re-Reads :
    (xs : List ℕ) → length xs < 256 → Reads read_re (counted xs) (λ _. set_re (some xs))
unfolding read_re
read_re-Reads xs h rest r m small = ground (
  arith,
  read_rep-cons (λ m. record m { has_re = true }) (length xs) (xs ++ rest) (suc (length xs) + r) m,
  skip_bytes-append (λ m. record m { re_len = length xs }) xs rest (suc (length xs) + r - 1)
      (record m { has_re = true }),
)

pub read_sp-Reads :
    (xs : List ℕ) → length xs < 256 → Reads read_sp (counted xs) (λ _. set_sp (some xs))
unfolding read_sp
read_sp-Reads xs h rest r m small = ground (
  arith,
  read_rep-cons (λ m. record m { has_sp = true }) (length xs) (xs ++ rest) (suc (length xs) + r) m,
  skip_bytes-append (λ m. record m { sp_len = length xs }) xs rest (suc (length xs) + r - 1)
      (record m { has_sp = true }),
)
