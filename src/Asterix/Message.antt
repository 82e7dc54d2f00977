-- ===== src/Asterix/Message.antt =====
-- src/asterix.h: the data items of a CAT240 record. A pointer into the datagram is the list of the
-- bytes from it to the end of the buffer; NULL is `none`.
use zynq_lwip_frtos.Base.{ℕ, Bool, false, Option, none, List, replicate}

pub record DataSource : Type 0 where
  pub sac : ℕ
  pub sic : ℕ

pub record VideoSummary : Type 0 where
  pub rep : ℕ
  pub text : List ℕ

pub record VideoHeader : Type 0 where
  pub start_az : ℕ
  pub end_az : ℕ
  pub start_rg : ℕ
  pub cell_dur : ℕ

pub record ResolutionIndicator : Type 0 where
  pub compression : ℕ
  pub reserved : ℕ
  pub resolution : ℕ

pub record Counters : Type 0 where
  pub nb_vb : ℕ
  pub nb_cells : ℕ

pub data BlockType : Type 0 where
  video_block_low video_block_medium video_block_high : BlockType

pub record VideoBlock : Type 0 where
  pub type : BlockType
  pub rep : ℕ
  pub bytes : Option (List ℕ)
  pub data_bytes : ℕ

pub record Message : Type 0 where
  pub data_source : DataSource
  pub message_type : ℕ
  pub has_video_header : Bool
  pub msg_index : ℕ
  pub has_summary : Bool
  pub summary : VideoSummary
  pub has_header_nano : Bool
  pub header_nano : VideoHeader
  pub has_header_femto : Bool
  pub header_femto : VideoHeader
  pub has_resolution : Bool
  pub resolution : ResolutionIndicator
  pub has_counters : Bool
  pub counters : Counters
  pub has_video_block : Bool
  pub video_block : VideoBlock
  pub has_time : Bool
  pub time_of_day : ℕ
  pub check_sum : ℕ
  pub has_re : Bool
  pub re_len : ℕ
  pub has_sp : Bool
  pub sp_len : ℕ

-- `char text[256]` after the memset.
unfoldable pub zero_text : List ℕ
zero_text = replicate 256 0

abbrev zero_header : VideoHeader
zero_header = record { start_az = 0; end_az = 0; start_rg = 0; cell_dur = 0 }

-- The message after `memset(msg, 0, sizeof(*msg))`.
abbrev pub cleared : Message
cleared = record {
  data_source = record { sac = 0; sic = 0 };
  message_type = 0;
  has_video_header = false;
  msg_index = 0;
  has_summary = false;
  summary = record { rep = 0; text = zero_text };
  has_header_nano = false;
  header_nano = zero_header;
  has_header_femto = false;
  header_femto = zero_header;
  has_resolution = false;
  resolution = record { compression = 0; reserved = 0; resolution = 0 };
  has_counters = false;
  counters = record { nb_vb = 0; nb_cells = 0 };
  has_video_block = false;
  video_block = record { type = video_block_low; rep = 0; bytes = none; data_bytes = 0 };
  has_time = false;
  time_of_day = 0;
  check_sum = 0;
  has_re = false;
  re_len = 0;
  has_sp = false;
  sp_len = 0;
}
