-- ===== src/Asterix/Bounds.antt =====
-- Each field step of `parse_cat240` stays inside the buffer: invariants and a rule for sequences.
use zynq_lwip_frtos.Base.{
  ℕ, ◌*◌, ◌^◌, ◌≤◌, ◌<◌, ◌≡◌, Bool, true, false, Option, none, some, List, arith, length,
  length-drop, bit,
}
use zynq_lwip_frtos.Asterix.Words.{Endian}
use zynq_lwip_frtos.Asterix.Message.{Message, BlockType}
use zynq_lwip_frtos.Asterix.Reader.{
  Reader, Flow, go, reject, fault, Parser, ◌>>=◌, ◌>>◌, and_then, require,
}
use zynq_lwip_frtos.Asterix.Fields.{
  frn1, frn2, frn3, frn4, frn5, frn6, frn7, frn8, frn9, frn10, frn11, frn12, frn13, frn14, optional,
  read_source, read_message_type, read_msg_index, read_summary, read_nano, read_femto,
  read_resolution, read_counters, read_video_block, read_time, read_re, read_sp, read_rep,
  copy_text, text_length, point_to_block, skip_bytes,
}
use zynq_lwip_frtos.Asterix.Parse.{first_fields, second_fields}

-- The video block of a message lies inside the buffer.
abbrev pub PointerFits : Option (List ℕ) → ℕ → Type 0
PointerFits none n = n ≡ 0
PointerFits (some bytes) n = n ≤ length bytes

abbrev pub VideoFits : Message → Type 0
VideoFits m = PointerFits m.video_block.bytes m.video_block.data_bytes

-- `remaining` never promises more bytes than the buffer holds behind the cursor.
pub record Inv (s : Reader) : Type 0 where
  pub inside : s.remaining ≤ length s.p
  pub small : s.remaining < 2 ^ 32
  pub video : VideoFits s.msg

abbrev pub Safe : {A : Type 0} → Flow A → Type 0
Safe (go a s) = Inv s
Safe (reject m) = VideoFits m
Safe fault = ⊥

abbrev pub Keeps : {A : Type 0} → Parser A → Type 0
Keeps m = (s : Reader) → Inv s → Safe (m s)

pub and_then-Safe :
    {A B : Type 0} (r : Flow A) (k : A → Parser B)
    → Safe r
    → ((a : A) → Keeps (k a))
    → Safe (and_then r k)
and_then-Safe (go a s) k v hk = hk a s v
and_then-Safe (reject m) k v hk = v
and_then-Safe fault k v hk = v

-- The same as a record, from which a rule reads off its step.
pub record Preserves {A : Type 0} (m : Parser A) : Type 0 where
  pub keeps : Keeps m

-- Steps that keep the invariant, one after the other.
pub then-Preserves :
    {B : Type 0} {m : Parser (Unit {0})} {k : Parser B}
    → Preserves m
    → Preserves k
    → Preserves (m >> k)
then-Preserves {m} {k} hm hk = record {
  keeps = λ s v. and_then-Safe (m s) (λ _. k) (hm.keeps s v) (λ _. hk.keeps);
}

bind-Preserves :
    {A B : Type 0} {m : Parser A} {k : A → Parser B}
    → Preserves m
    → ((a : A) → Preserves (k a))
    → Preserves (m >>= k)
bind-Preserves {m} {k} hm hk = record {
  keeps = λ s v. and_then-Safe (m s) k (hm.keeps s v) (λ a. (hk a).keeps);
}

pub optional-Preserves :
    (present : Bool) {field : Parser (Unit {0})}
    → Preserves field
    → Preserves (optional present field)
optional-Preserves true h = h
optional-Preserves false h = record { keeps = λ s v. v }

require-Keeps : (b : Bool) → Keeps (require b)
require-Keeps true s v = v
require-Keeps false s v = v.video

require-Preserves : (b : Bool) → Preserves (require b)
require-Preserves b = record { keeps = require-Keeps b }

read_source-Keeps : Keeps read_source
unfolding read_source
read_source-Keeps s v = ground arith

read_message_type-Keeps : Keeps read_message_type
unfolding read_message_type
read_message_type-Keeps s v = ground arith

read_msg_index-Keeps : (e : Endian) → Keeps (read_msg_index e)
unfolding read_msg_index
read_msg_index-Keeps e s v = ground arith

read_rep-Keeps :
    (flag : Message → Message)
    → ((m : Message) → VideoFits m → VideoFits (flag m))
    → Keeps (read_rep flag)
unfolding read_rep
read_rep-Keeps flag keep s v = ground (arith, keep s.msg)

text_length-le : (rep : ℕ) → text_length rep ≤ rep
unfolding text_length
text_length-le rep = ground arith

copy_text-Keeps : (rep : ℕ) → Keeps (copy_text rep)
unfolding copy_text
copy_text-Keeps rep s v = ground (arith, text_length-le rep, length-drop (text_length rep) s.p)

point_to_block-Keeps : (unit rep : ℕ) → Keeps (point_to_block unit rep)
unfolding point_to_block
point_to_block-Keeps unit rep s v = ground (arith, length-drop (rep * unit) s.p)

skip_bytes-Keeps :
    (note : Message → Message)
    → ((m : Message) → VideoFits m → VideoFits (note m))
    → (rep : ℕ) → Keeps (skip_bytes note rep)
unfolding skip_bytes
skip_bytes-Keeps note keep rep s v = ground (arith, keep s.msg, length-drop rep s.p)

read_nano-Keeps : (e : Endian) → Keeps (read_nano e)
unfolding read_nano
read_nano-Keeps e s v = ground arith

read_femto-Keeps : (e : Endian) → Keeps (read_femto e)
unfolding read_femto
read_femto-Keeps e s v = ground arith

read_resolution-Keeps : (e : Endian) → Keeps (read_resolution e)
unfolding read_resolution
read_resolution-Keeps e s v = ground arith

read_counters-Keeps : (e : Endian) → Keeps (read_counters e)
unfolding read_counters
read_counters-Keeps e s v = ground arith

read_time-Keeps : Keeps read_time
unfolding read_time
read_time-Keeps s v = ground arith

read_summary-Preserves : Preserves read_summary
unfolding read_summary
read_summary-Preserves =
    bind-Preserves (record { keeps = read_rep-Keeps _ (λ m h. h) })
      λ rep. record { keeps = copy_text-Keeps rep }

video_block-Preserves : (type : BlockType) (unit : ℕ) → Preserves (read_video_block type unit)
unfolding read_video_block
video_block-Preserves type unit =
    bind-Preserves (record { keeps = read_rep-Keeps _ (λ m h. h) })
      λ rep. record { keeps = point_to_block-Keeps unit rep }

read_re-Preserves : Preserves read_re
unfolding read_re
read_re-Preserves =
    bind-Preserves (record { keeps = read_rep-Keeps _ (λ m h. h) })
      λ rep. record { keeps = skip_bytes-Keeps _ (λ m h. h) rep }

read_sp-Preserves : Preserves read_sp
unfolding read_sp
read_sp-Preserves =
    bind-Preserves (record { keeps = read_rep-Keeps _ (λ m h. h) })
      λ rep. record { keeps = skip_bytes-Keeps _ (λ m h. h) rep }

frn1-Preserves : (fspec1 : ℕ) → Preserves (frn1 fspec1)
unfolding frn1
frn1-Preserves fspec1 =
    then-Preserves (require-Preserves (bit fspec1 7)) (record { keeps = read_source-Keeps })

frn2-Preserves : (fspec1 : ℕ) → Preserves (frn2 fspec1)
unfolding frn2
frn2-Preserves fspec1 =
    then-Preserves (require-Preserves (bit fspec1 6)) (record { keeps = read_message_type-Keeps })

pub first_fields-Preserves : (e : Endian) (fspec1 : ℕ) → Preserves (first_fields e fspec1)
unfolding first_fields frn3 frn4 frn5 frn6 frn7
first_fields-Preserves e fspec1 = then-Preserves (frn1-Preserves fspec1) (
    then-Preserves (frn2-Preserves fspec1) (
      then-Preserves (optional-Preserves (bit fspec1 5) (record { keeps = read_msg_index-Keeps e }))
        (then-Preserves (optional-Preserves (bit fspec1 4) read_summary-Preserves) (
          then-Preserves (optional-Preserves (bit fspec1 3) (record { keeps = read_nano-Keeps e }))
            (then-Preserves
              (optional-Preserves (bit fspec1 2) (record { keeps = read_femto-Keeps e }))
              (optional-Preserves (bit fspec1 1) (record { keeps = read_resolution-Keeps e })))))))

pub second_fields-Preserves : (e : Endian) (fspec2 : ℕ) → Preserves (second_fields e fspec2)
unfolding second_fields frn8 frn9 frn10 frn11 frn12 frn13 frn14
second_fields-Preserves e fspec2 =
    then-Preserves (optional-Preserves (bit fspec2 7) (record { keeps = read_counters-Keeps e })) (
      then-Preserves (optional-Preserves (bit fspec2 6) (video_block-Preserves _ 4)) (
        then-Preserves (optional-Preserves (bit fspec2 5) (video_block-Preserves _ 64)) (
          then-Preserves (optional-Preserves (bit fspec2 4) (video_block-Preserves _ 256)) (
            then-Preserves (optional-Preserves (bit fspec2 3) (record { keeps = read_time-Keeps }))
              (then-Preserves (optional-Preserves (bit fspec2 2) read_re-Preserves)
                (optional-Preserves (bit fspec2 1) read_sp-Preserves))))))
