-- ===== src/Segment/Tests.antt =====
-- A segment with three bytes of data, and the theorems on segments and checksums at it.
use ns_stack.Base.{◌≡◌, ◌≢◌, refl, arith, true, [], ◌∷◌}
use ns_stack.Checksum.{add_words, fold}
use ns_stack.Checksum.Sum.{oc_sum, fold-add_words}
use ns_stack.Segment.{Segment, zero_hdr, tcp_checksum}
use ns_stack.Segment.Wire.{InRange}
use ns_stack.Segment.Check.{IsSane, corrupt, tcp_checksum-corrupt}

abbrev greeting : Segment
greeting = record {
  hdr = record zero_hdr { source = 80; dest = 90; seq = 201; ack_seq = 101; doff = 5; ack = true };
  payload = 104 ∷ 101 ∷ 121 ∷ [];
  src = 2;
  dst = 1;
}

greeting-InRange : InRange greeting.hdr
greeting-InRange = record {
  source_in = omega arith;
  dest_in = omega arith;
  seq_in = omega arith;
  ack_seq_in = omega arith;
  res1_in = omega arith;
  doff_in = omega arith;
  res2_in = omega arith;
  window_in = omega arith;
  check_in = omega arith;
  urg_ptr_in = omega arith;
}

greeting-IsSane : IsSane greeting
greeting-IsSane = record {
  in_range = greeting-InRange;
  bytes = omega arith;
  short = omega arith;
  src_in = omega arith;
  dst_in = omega arith;
}

tcp_checksum-corrupt_example : tcp_checksum (corrupt greeting 1 100) ≢ tcp_checksum greeting
tcp_checksum-corrupt_example =
    tcp_checksum-corrupt greeting 1 101 100 greeting-IsSane refl (omega arith) (omega arith)
      (omega arith)

fold-add_words_example :
    fold (add_words 0 (255 ∷ 255 ∷ 1 ∷ 0 ∷ 7 ∷ [])) ≡ oc_sum 0 (255 ∷ 255 ∷ 1 ∷ 0 ∷ 7 ∷ [])
fold-add_words_example = fold-add_words (255 ∷ 255 ∷ 1 ∷ 0 ∷ 7 ∷ []) (omega arith) (omega arith)
