-- ===== src/Segment/Wire.antt =====
-- The overlay of `struct tcphdr` on a segment's bytes, both ways.
use ns_stack.Base.{
  ◌+◌, ◌*◌, ◌/◌, ◌%◌, ◌^◌, ◌≤◌, ◌<◌, ◌≡◌, refl, Bool, true, false, some, ◌==◌, arith, length, All,
}
use ns_stack.Bytes.{word16-read, word32-read, bit, htons-htons, htonl-htonl}
use ns_stack.Checksum.Sum.{IsByte}
use ns_stack.Segment.{TcpHdr, Segment, flag_byte, hdr_bytes, to_bytes, of_bytes, len, bit_at, ntoh}

-- The widths of the header's fields.
pub record InRange (h : TcpHdr) : Type 0 where
  pub source_in : h.source < 2 ^ 16
  pub dest_in : h.dest < 2 ^ 16
  pub seq_in : h.seq < 2 ^ 32
  pub ack_seq_in : h.ack_seq < 2 ^ 32
  pub res1_in : h.res1 < 16
  pub doff_in : h.doff < 16
  pub res2_in : h.res2 < 4
  pub window_in : h.window < 2 ^ 16
  pub check_in : h.check < 2 ^ 16
  pub urg_ptr_in : h.urg_ptr < 2 ^ 16

bit_le : (b : Bool) → bit b ≤ 1
bit_le true = omega arith
bit_le false = omega arith

bit-test : (b : Bool) → (bit b == 1) ≡ b
bit-test true = refl
bit-test false = refl

module _ (h : TcpHdr) where
  bounds :
      (bit h.fin ≤ 1)
      × (bit h.syn ≤ 1)
      × (bit h.rst ≤ 1)
      × (bit h.psh ≤ 1)
      × (bit h.ack ≤ 1)
      × (bit h.urg ≤ 1)
  bounds = (bit_le _, bit_le _, bit_le _, bit_le _, bit_le _, bit_le _)

  fin-read : bit_at 1 (flag_byte h) ≡ h.fin
  fin-read =
      let e : flag_byte h / 1 % 2 ≡ bit h.fin = omega (arith, bounds) in rw e (bit-test h.fin)

  syn-read : bit_at 2 (flag_byte h) ≡ h.syn
  syn-read =
      let e : flag_byte h / 2 % 2 ≡ bit h.syn = omega (arith, bounds) in rw e (bit-test h.syn)

  rst-read : bit_at 4 (flag_byte h) ≡ h.rst
  rst-read =
      let e : flag_byte h / 4 % 2 ≡ bit h.rst = omega (arith, bounds) in rw e (bit-test h.rst)

  psh-read : bit_at 8 (flag_byte h) ≡ h.psh
  psh-read =
      let e : flag_byte h / 8 % 2 ≡ bit h.psh = omega (arith, bounds) in rw e (bit-test h.psh)

  ack-read : bit_at 16 (flag_byte h) ≡ h.ack
  ack-read =
      let e : flag_byte h / 16 % 2 ≡ bit h.ack = omega (arith, bounds) in rw e (bit-test h.ack)

  urg-read : bit_at 32 (flag_byte h) ≡ h.urg
  urg-read =
      let e : flag_byte h / 32 % 2 ≡ bit h.urg = omega (arith, bounds) in rw e (bit-test h.urg)

  res2-read : flag_byte h / 64 ≡ h.res2
  res2-read = omega (arith, bounds)

-- Reading the bytes of a segment gives the segment back, if its header's fields are in range.
pub of_bytes-to_bytes : (s : Segment) → InRange s.hdr → of_bytes (to_bytes s) s.src s.dst ≡ some s
unfolding of_bytes to_bytes hdr_bytes
of_bytes-to_bytes s v =
    let low : (s.hdr.res1 + 16 * s.hdr.doff) % 16 ≡ s.hdr.res1 = omega (arith, v) in
    let high : (s.hdr.res1 + 16 * s.hdr.doff) / 16 ≡ s.hdr.doff = omega (arith, v) in
    simp (
      word16-read,
      word32-read,
      low,
      high,
      fin-read s.hdr,
      syn-read s.hdr,
      rst-read s.hdr,
      psh-read s.hdr,
      ack-read s.hdr,
      urg-read s.hdr,
      res2-read s.hdr,
    )

-- `len` is the length of the buffer.
pub length-to_bytes : (s : Segment) → length (to_bytes s) ≡ len s
unfolding to_bytes hdr_bytes len
length-to_bytes s = omega arith

pub hdr_bytes-IsByte : (h : TcpHdr) → InRange h → All IsByte (hdr_bytes h)
unfolding hdr_bytes
hdr_bytes-IsByte h v = omega (arith, bounds h)

-- Changing the byte order twice changes nothing.
pub ntoh-ntoh : (s : Segment) → InRange s.hdr → ntoh (ntoh s) ≡ s
unfolding ntoh
ntoh-ntoh s v = simp (
  htonl-htonl s.hdr.seq v.seq_in,
  htonl-htonl s.hdr.ack_seq v.ack_seq_in,
  htons-htons s.hdr.window v.window_in,
)
