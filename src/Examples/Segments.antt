-- ===== src/Examples/Segments.antt =====
-- Segments of ethox/src/wire/tcp.rs in a buffer, between two hosts.
use ethox.Base.{ℕ, returns, List, ◌∷◌, ◌≡◌, refl, arith, some, true, length}
use ethox.Wire.Repr.{Repr, Address, ipv4}
use ethox.Wire.Flags.{syn_flag}
use ethox.Wire.Checked.{accept, Answers}
use ethox.Wire.Checksum.{pseudo_header, combine, data_sum, propagate_carries}
use ethox.Wire.Checksum.Sums.{words, data_sum-words}
use ethox.Wire.Options.{no_ranges}
use ethox.Wire.Segment.{fill_checksum}
use ethox.Wire.Segment.Parse.{manual, ignored, parse}
use ethox.Wire.Segment.Emit.{emit, buffer_len, header_len, options_len, sack_range_len}
use ethox.Wire.Segment.Header.{IsHeader}
use ethox.Wire.Segment.Scanned.{zeros}
use ethox.Wire.Segment.RoundTrip.{sent}
use ethox.Wire.Segment.Sent.{zeros-IsOctets, send-receive}
use ethox.Wire.Segment.Total.{parse_total}

-- A SYN that acknowledges one, with three options and two octets of data.
abbrev syn_ack : Repr
syn_ack = record {
  src_port = 80;
  dst_port = 4000;
  flags = syn_flag;
  seq_number = 4294967295;
  ack_number = some 7;
  window_len = 65535;
  window_scale = some 3;
  max_seg_size = some 1460;
  sack_permitted = true;
  sack_ranges = no_ranges;
  payload_len = 2;
}

syn_ack-IsHeader : IsHeader syn_ack
syn_ack-IsHeader = record {
  src_given = omega arith;
  src_fits = omega arith;
  dst_given = omega arith;
  dst_fits = omega arith;
  flags_fit = omega arith;
  seq_fits = omega arith;
  ack_fits = omega arith;
  window_fits = omega arith;
  scale_fits = λ value e. ground arith;
  size_fits = λ value e. ground arith;
  first_fits = tt;
  second_fits = tt;
  third_fits = tt;
  second_behind = λ e. refl;
  third_behind = λ e. refl;
  payload_fits = omega arith;
}

buffer_fits : length (zeros 34) ≡ buffer_len syn_ack
unfolding buffer_len header_len options_len sack_range_len
buffer_fits = refl

abbrev client : Address
client = ipv4 0x0a000001

abbrev server : Address
server = ipv4 0x0a000002

pseudo : pseudo_header server client 6 34 ≡ returns 5163
unfolding pseudo_header combine data_sum propagate_carries
pseudo = refl

send-receive_example :
    (b' : List ℕ) × (b'' : List ℕ) × (emit syn_ack (zeros 34) ≡ returns b')
    × (fill_checksum server client b' ≡ returns b'')
    × (parse b'' (manual server client) ≡ accept (sent syn_ack))
send-receive_example =
    send-receive syn_ack (zeros 34) server client 5163 syn_ack-IsHeader (zeros-IsOctets 34)
      buffer_fits (omega arith) pseudo

parse_total_example : Answers (parse (0 ∷ 80 ∷ zeros 34) ignored)
parse_total_example = parse_total (0 ∷ 80 ∷ zeros 34) ignored tt

data_sum-words_example :
    data_sum (0x45 ∷ 0x10 ∷ zeros 39) ≡ propagate_carries (words (0x45 ∷ 0x10 ∷ zeros 39))
data_sum-words_example =
    data_sum-words (0x45 ∷ 0x10 ∷ zeros 39) (omega arith, (omega arith, zeros-IsOctets 39))
      (omega arith)
