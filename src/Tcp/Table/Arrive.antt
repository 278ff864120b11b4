-- ===== src/Tcp/Table/Arrive.antt =====
-- A segment from the sender's control block to the receiver's: the bytes that the one gives to
-- `ip_send_packet`, in the `tcp_segment_handler` of the other.
use ns_stack.Base.{
  ℕ, ◌^◌, ◌<◌, ◌≡◌, refl, sym, ap, subst, inl, inr, true, false, ◌||◌, some, arith, ltb, ◌==◌,
  Bool-cases, length, All, All-append, ==_iff,
}
use ns_stack.Bytes.{htons-lt, htonl-lt}
use mathlib.Core.Option.{some-injective}
use ns_stack.Checksum.{complement}
use ns_stack.Checksum.Sum.{IsByte}
use ns_stack.Segment.{
  Segment, hdr_bytes, to_bytes, len, tcphdr_size, tcp_checksum, fill_in_tcp_checksum, ntoh,
}
use ns_stack.Segment.Wire.{InRange, of_bytes-to_bytes, length-to_bytes, hdr_bytes-IsByte, ntoh-ntoh}
use ns_stack.Segment.Check
use ns_stack.Tcp.{Config, Env}
use ns_stack.Tcp.Table.{Tables}
use ns_stack.Tcp.Table.Step.{on_segment, tcp_segment_handler}

-- The segment with the checksum that it was sent with.
abbrev pub checked : Segment → ℕ → Segment
checked s k = record s { hdr = record (s.hdr) { check = k } }

ntoh-InRange : (s : Segment) → InRange s.hdr → InRange (ntoh s).hdr
unfolding ntoh
ntoh-InRange s v = record {
  source_in = v.source_in;
  dest_in = v.dest_in;
  seq_in = htonl-lt s.hdr.seq;
  ack_seq_in = htonl-lt s.hdr.ack_seq;
  res1_in = v.res1_in;
  doff_in = v.doff_in;
  res2_in = v.res2_in;
  window_in = htons-lt s.hdr.window;
  check_in = v.check_in;
  urg_ptr_in = v.urg_ptr_in;
}

checked-InRange : (s : Segment) (k : ℕ) → k < 2 ^ 16 → InRange s.hdr → InRange (checked s k).hdr
checked-InRange s k h v = record {
  source_in = v.source_in;
  dest_in = v.dest_in;
  seq_in = v.seq_in;
  ack_seq_in = v.ack_seq_in;
  res1_in = v.res1_in;
  doff_in = v.doff_in;
  res2_in = v.res2_in;
  window_in = v.window_in;
  check_in = h;
  urg_ptr_in = v.urg_ptr_in;
}

tcp_checksum-lt : (s : Segment) → tcp_checksum s < 2 ^ 16
unfolding tcp_checksum complement
tcp_checksum-lt s = omega arith

-- What `fill_in_tcp_checksum` gives.
filled :
    (s t : Segment)
    → fill_in_tcp_checksum s ≡ some t
    → (s.src == 0 || s.dst == 0 ≡ false) × (t ≡ checked s (tcp_checksum s))
unfolding fill_in_tcp_checksum
filled s t e = elim (Bool-cases (s.src == 0 || s.dst == 0)) [
  | inl bad ↦ absurd (cc (rw bad at e))
  | inr good ↦ (good, sym (some-injective _ _ (rw good at e)))
]

-- The receiver's own sum is the one that is there, so that filling it in changes nothing.
refilled : (s t : Segment) → fill_in_tcp_checksum s ≡ some t → fill_in_tcp_checksum t ≡ some t
unfolding fill_in_tcp_checksum
refilled s t e =
    let (good, is) = filled s t e in
    subst (λ u. tcp_checksum u ≡ u.hdr.check → fill_in_tcp_checksum u ≡ some u) (sym is)
      (again good) (Check.tcp_checksum-fill s t e)
  where
    again :
        s.src == 0 || s.dst == 0 ≡ false
        → tcp_checksum (checked s (tcp_checksum s)) ≡ tcp_checksum s
        → fill_in_tcp_checksum (checked s (tcp_checksum s)) ≡ some (checked s (tcp_checksum s))
    again good same = rw (fill_in_tcp_checksum, good) (ap (λ x. some (checked s x)) same)

module _ (s t : Segment) (v : InRange s.hdr) (e : fill_in_tcp_checksum (ntoh s) ≡ some t) where
  pub sent-InRange : InRange t.hdr
  sent-InRange =
      subst (λ u. InRange u.hdr) (sym (filled (ntoh s) t e).1)
        (checked-InRange (ntoh s) (tcp_checksum (ntoh s)) (tcp_checksum-lt (ntoh s))
          (ntoh-InRange s v))

  pub sent-IsByte : All IsByte s.payload → All IsByte (to_bytes t)
  unfolding to_bytes ntoh
  sent-IsByte b =
      All-append IsByte (hdr_bytes t.hdr) t.payload (hdr_bytes-IsByte t.hdr sent-InRange)
        (subst (λ u. All IsByte u.payload) (sym (filled (ntoh s) t e).1) b)

  sent-ntoh : ntoh t ≡ checked s t.hdr.check
  unfolding ntoh
  sent-ntoh =
      subst (λ u. ntoh u ≡ checked s u.hdr.check) (sym (filled (ntoh s) t e).1)
        (ap (λ x. checked x (tcp_checksum (ntoh s))) (ntoh-ntoh s v))

  pub handler-sent :
      (c : Config) (env : Env) (rand : ℕ) (tables : Tables)
      → tcp_segment_handler c env rand tables (to_bytes t) t.src t.dst
        ≡ on_segment c env rand tables (checked s t.hdr.check)
  unfolding tcp_segment_handler len
  handler-sent c env rand tables =
      let long : ltb (length (to_bytes t)) tcphdr_size ≡ false =
        ground (arith, length-to_bytes t) in
      let same : t.hdr.check == t.hdr.check ≡ true = (==_iff _ _).1 refl in
      rw
        (
          tcp_segment_handler,
          long,
          of_bytes-to_bytes t sent-InRange,
          refilled (ntoh s) t e,
          same,
          sent-ntoh,
        )
        refl
