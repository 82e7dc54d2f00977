-- ===== src/Asterix/Tests.antt =====
-- A video message of 37 bytes, the parser run over it, and the theorems at concrete inputs.
use zynq_lwip_frtos.Base.{ℕ, ◌≡◌, refl, true, false, none, some, List, [], ◌∷◌, ◌++◌, arith, bit}
use zynq_lwip_frtos.Asterix.Words.{little, big, u16_at}
use zynq_lwip_frtos.Asterix.Message.{VideoHeader, Counters, cleared}
use zynq_lwip_frtos.Asterix.Parse.{
  returned, out_of_bounds, parse_cat240, parse_block, read_block_header, read_fspec, read_fields,
  first_fields,
}
use zynq_lwip_frtos.Asterix.Fields
use zynq_lwip_frtos.Asterix.Encode.{
  Content, Second, encode, message_of, block_size, item_bytes, second_bytes, octet, fspec1, fspec2,
}
use zynq_lwip_frtos.Asterix.Safety.{IsSafe, parse_cat240-IsSafe, parse_cat240_header_only}
use zynq_lwip_frtos.Asterix.Reject.{category, parse_cat240-BadHeader, parse_cat240-obligatory}
use zynq_lwip_frtos.Asterix.RoundTrip.{ContentFits, parse_cat240-encode}

abbrev header : VideoHeader
header = record { start_az = 0x0100; end_az = 0x0136; start_rg = 0; cell_dur = 70_000 }

abbrev counters : Counters
counters = record { nb_vb = 4; nb_cells = 2 }

abbrev items : Second
items = record {
  counters = some counters;
  low = some (record { rep = 1; bytes = 9 ∷ 8 ∷ 7 ∷ 6 ∷ [] });
  medium = none;
  high = none;
  time = some 0x01_02_03;
  re = none;
  sp = none;
}

abbrev video : Content
video = record {
  sac = 1;
  sic = 2;
  type = 2;
  index = some 77;
  summary = none;
  nano = some header;
  femto = none;
  resolution = none;
  second = some items;
}

abbrev datagram : List ℕ
datagram =
    240 ∷ 0 ∷ 37 ∷ 0xE9 ∷ 0xC8 ∷ 1 ∷ 2 ∷ 2 ∷ 0 ∷ 0 ∷ 0 ∷ 77 ∷ 1 ∷ 0 ∷ 1 ∷ 0x36 ∷ 0 ∷ 0 ∷ 0 ∷ 0 ∷ 0
    ∷ 1 ∷ 0x11 ∷ 0x70 ∷ 0 ∷ 4 ∷ 0 ∷ 0 ∷ 2 ∷ 1 ∷ 9 ∷ 8 ∷ 7 ∷ 6 ∷ 1 ∷ 2 ∷ 3 ∷ []

encode-video : encode video ≡ datagram
unfolding encode block_size item_bytes second_bytes octet fspec1 fspec2
encode-video = refl

video-size : block_size video ≡ 37
unfolding block_size item_bytes second_bytes
video-size = refl

video-ContentFits : ContentFits video
video-ContentFits = record {
  index = omega arith;
  summary = tt;
  nano = omega arith;
  femto = tt;
  resolution = tt;
  second = record {
    counters = omega arith;
    low = omega arith;
    medium = tt;
    high = tt;
    time = omega arith;
    re = tt;
    sp = tt;
  };
  size = omega (arith, video-size);
}

parse_cat240-encode_example :
    parse_cat240 little (encode video ++ 0xFF ∷ []) 38 cleared
    ≡ returned true (message_of video (0xFF ∷ []))
parse_cat240-encode_example =
    parse_cat240-encode little video (0xFF ∷ []) 38 cleared video-ContentFits
      (omega (arith, video-size))

parse_cat240-IsSafe_example : IsSafe cleared (parse_cat240 big datagram 37 cleared)
unfolding u16_at
parse_cat240-IsSafe_example =
    parse_cat240-IsSafe big datagram 37 cleared (omega arith) (omega arith) (λ e. cc)

parse_cat240_header_only_example : parse_cat240 big (240 ∷ 0 ∷ 3 ∷ []) 3 cleared ≡ out_of_bounds
unfolding u16_at
parse_cat240_header_only_example = parse_cat240_header_only big 0 3 cleared refl

parse_cat240-BadHeader_example :
    parse_cat240 little (48 ∷ 0 ∷ 4 ∷ 0 ∷ []) 4 cleared ≡ returned false cleared
parse_cat240-BadHeader_example =
    parse_cat240-BadHeader little 4 48 0 4 (0 ∷ []) cleared (category (λ e. omega arith))

-- Source and type alone: the shortest record that is accepted.
abbrev shortest : List ℕ
shortest = 240 ∷ 0 ∷ 7 ∷ 0xC0 ∷ 1 ∷ 2 ∷ 2 ∷ []

shortest-parse :
    parse_cat240 big shortest 7 cleared
    ≡ returned true (record cleared { data_source = record { sac = 1; sic = 2 }; message_type = 2 })
unfolding parse_cat240 parse_block read_block_header read_fspec read_fields first_fields Fields.frn1
    Fields.frn2 Fields.frn3 Fields.frn4 Fields.frn5 Fields.frn6 Fields.frn7 Fields.read_source
    Fields.read_message_type u16_at
shortest-parse = refl

parse_cat240-obligatory_example : (bit 0xC0 7 ≡ true) × (bit 0xC0 6 ≡ true)
parse_cat240-obligatory_example =
    parse_cat240-obligatory big 7 240 0 7 0xC0 (1 ∷ 2 ∷ 2 ∷ []) cleared _ shortest-parse
