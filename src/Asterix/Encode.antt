-- ===== src/Asterix/Encode.antt =====
-- The wire format of a CAT240 block (FRN1 to FRN14), written down independently of the parser: what
-- a sender puts into a block, its bytes, and the message that a receiver should hold.
use zynq_lwip_frtos.Base.{
  ℕ, ◌+◌, ◌*◌, ◌/◌, ◌%◌, ◌^◌, Bool, true, false, Option, none, some, List, [], ◌∷◌, ◌++◌, length,
}
use zynq_lwip_frtos.Asterix.Message.{
  Message, VideoHeader, ResolutionIndicator, Counters, BlockType, video_block_low,
  video_block_medium, video_block_high, cleared,
}

pub record Block : Type 0 where
  pub rep : ℕ
  pub bytes : List ℕ

pub record Second : Type 0 where
  pub counters : Option Counters
  pub low : Option Block
  pub medium : Option Block
  pub high : Option Block
  pub time : Option ℕ
  pub re : Option (List ℕ)
  pub sp : Option (List ℕ)

pub record Content : Type 0 where
  pub sac : ℕ
  pub sic : ℕ
  pub type : ℕ
  pub index : Option ℕ
  pub summary : Option (List ℕ)
  pub nano : Option VideoHeader
  pub femto : Option VideoHeader
  pub resolution : Option ResolutionIndicator
  pub second : Option Second

abbrev pub is_some {ℓ} : {A : Type ℓ} → Option A → Bool
is_some none = false
is_some (some a) = true

abbrev pub digit : Bool → ℕ
digit true = 1
digit false = 0

-- A byte from its bits, the highest first.
unfoldable pub octet : (b7 b6 b5 b4 b3 b2 b1 b0 : Bool) → ℕ
octet b7 b6 b5 b4 b3 b2 b1 b0 =
    digit b7 * 128
    + digit b6 * 64
    + digit b5 * 32
    + digit b4 * 16
    + digit b3 * 8
    + digit b2 * 4
    + digit b1 * 2
    + digit b0

abbrev pub be16 : ℕ → List ℕ
be16 x = x / 2 ^ 8 ∷ x % 2 ^ 8 ∷ []

abbrev pub be24 : ℕ → List ℕ
be24 x = x / 2 ^ 16 ∷ x / 2 ^ 8 % 2 ^ 8 ∷ x % 2 ^ 8 ∷ []

abbrev pub be32 : ℕ → List ℕ
be32 x = x / 2 ^ 24 ∷ x / 2 ^ 16 % 2 ^ 8 ∷ x / 2 ^ 8 % 2 ^ 8 ∷ x % 2 ^ 8 ∷ []

-- The bytes of an optional item.
abbrev pub item {ℓ} : {A : Type ℓ} → (A → List ℕ) → Option A → List ℕ
item enc none = []
item enc (some a) = enc a

abbrev pub counted : List ℕ → List ℕ
counted xs = length xs ∷ xs

abbrev pub header_bytes : VideoHeader → List ℕ
header_bytes h = be16 h.start_az ++ (be16 h.end_az ++ (be32 h.start_rg ++ be32 h.cell_dur))

abbrev pub resolution_bytes : ResolutionIndicator → List ℕ
resolution_bytes r = (r.compression * 2 ^ 7 + r.reserved) ∷ r.resolution ∷ []

abbrev pub counters_bytes : Counters → List ℕ
counters_bytes c = be16 c.nb_vb ++ be24 c.nb_cells

abbrev pub block_bytes : Block → List ℕ
block_bytes b = b.rep ∷ b.bytes

-- What stands behind each of the three video blocks.
abbrev pub behind_high : Second → List ℕ
behind_high s = item be24 s.time ++ (item counted s.re ++ item counted s.sp)

abbrev pub behind_medium : Second → List ℕ
behind_medium s = item block_bytes s.high ++ behind_high s

abbrev pub behind_low : Second → List ℕ
behind_low s = item block_bytes s.medium ++ behind_medium s

-- The items of the second FSPEC byte.
unfoldable pub second_bytes : Second → List ℕ
second_bytes s = item counters_bytes s.counters ++ (item block_bytes s.low ++ behind_low s)

-- The items of the first FSPEC byte and those of the second behind them.
unfoldable pub item_bytes : Content → List ℕ
item_bytes c =
    (c.sac ∷ c.sic ∷ [])
    ++ ((c.type ∷ [])
        ++ (item be32 c.index
            ++ (item counted c.summary
                ++ (item header_bytes c.nano
                    ++ (item header_bytes c.femto ++ item resolution_bytes c.resolution)))))

unfoldable pub fspec1 : Content → ℕ
fspec1 c =
    octet true true (is_some c.index) (is_some c.summary) (is_some c.nano) (is_some c.femto)
      (is_some c.resolution) (is_some c.second)

unfoldable pub fspec2 : Second → ℕ
fspec2 s =
    octet (is_some s.counters) (is_some s.low) (is_some s.medium) (is_some s.high) (is_some s.time)
      (is_some s.re) (is_some s.sp) false

abbrev pub fspec_bytes : Content → List ℕ
fspec_bytes c = fspec1 c ∷ item (λ s. fspec2 s ∷ []) c.second

-- The length that the block declares.
unfoldable pub block_size : Content → ℕ
block_size c =
    3 + (length (fspec_bytes c) + (length (item_bytes c) + length (item second_bytes c.second)))

-- The whole block.
unfoldable pub encode : Content → List ℕ
encode c =
    240 ∷ be16 (block_size c) ++ (fspec_bytes c ++ (item_bytes c ++ item second_bytes c.second))

-- A text as C stores it over what a field holds: its characters, a zero, and the rest of the field.
unfoldable pub stored : (text field : List ℕ) → List ℕ
stored [] [] = []
stored [] (y ∷ ys) = 0 ∷ ys
stored (x ∷ xs) [] = x ∷ xs
stored (x ∷ xs) (y ∷ ys) = x ∷ stored xs ys

-- What each item says of the message.
abbrev pub set_index : Option ℕ → Message → Message
set_index none m = m
set_index (some i) m = record m { has_video_header = true; msg_index = i }

abbrev pub set_summary : Option (List ℕ) → Message → Message
set_summary none m = m
set_summary (some text) m = record m {
  has_summary = true;
  summary = record { rep = length text; text = stored text m.summary.text };
}

abbrev pub set_nano : Option VideoHeader → Message → Message
set_nano none m = m
set_nano (some h) m = record m { has_header_nano = true; header_nano = h }

abbrev pub set_femto : Option VideoHeader → Message → Message
set_femto none m = m
set_femto (some h) m = record m { has_header_femto = true; header_femto = h }

abbrev pub set_resolution : Option ResolutionIndicator → Message → Message
set_resolution none m = m
set_resolution (some r) m = record m { has_resolution = true; resolution = r }

abbrev pub set_counters : Option Counters → Message → Message
set_counters none m = m
set_counters (some n) m = record m { has_counters = true; counters = n }

-- The message points to the block and to the bytes behind it.
abbrev pub set_block : BlockType → Option Block → List ℕ → Message → Message
set_block type none behind m = m
set_block type (some b) behind m = record m {
  has_video_block = true;
  video_block = record {
    type = type;
    rep = b.rep;
    bytes = some (b.bytes ++ behind);
    data_bytes = length b.bytes;
  };
}

abbrev pub set_time : Option ℕ → Message → Message
set_time none m = m
set_time (some t) m = record m { has_time = true; time_of_day = t }

abbrev pub set_re : Option (List ℕ) → Message → Message
set_re none m = m
set_re (some xs) m = record m { has_re = true; re_len = length xs }

abbrev pub set_sp : Option (List ℕ) → Message → Message
set_sp none m = m
set_sp (some xs) m = record m { has_sp = true; sp_len = length xs }

-- Of two video blocks the message keeps the later one. `rest` is what stands behind the items.
unfoldable pub set_second : Second → List ℕ → Message → Message
set_second s rest m = set_sp s.sp (
    set_re s.re (
      set_time s.time (
        set_block video_block_high s.high (behind_high s ++ rest) (
          set_block video_block_medium s.medium (behind_medium s ++ rest)
            (set_block video_block_low s.low (behind_low s ++ rest) (set_counters s.counters m))))))

abbrev pub set_extension : Option Second → List ℕ → Message → Message
set_extension none rest m = m
set_extension (some s) rest m = set_second s rest m

abbrev pub set_source : ℕ → ℕ → Message → Message
set_source sac sic m = record m { data_source = record { sac = sac; sic = sic } }

abbrev pub set_type : ℕ → Message → Message
set_type type m = record m { message_type = type }

-- The items of the first FSPEC byte, set in their order.
unfoldable pub set_items : Content → Message → Message
set_items c m = set_resolution c.resolution (
    set_femto c.femto (
      set_nano c.nano
        (set_summary c.summary (set_index c.index (set_type c.type (set_source c.sac c.sic m))))))

-- The message that a receiver holds after the block; `rest` stands behind it in the buffer.
unfoldable pub message_of : Content → List ℕ → Message
message_of c rest = set_extension c.second rest (set_items c cleared)
