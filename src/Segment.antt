-- ===== src/Segment.antt =====
-- src/includes/tcp_segment.h: a TCP segment in a buffer of its own, which `hdr` overlays with the
-- `struct tcphdr` of <netinet/tcp.h>. The model keeps the header's fields as the words and bits that
-- stand in memory, and the bytes behind the header; `to_bytes` and `of_bytes` are the overlay.
-- A buffer shorter than a header is no `Segment` of the model.
pub mod Wire
pub mod Check
mod Tests
use ns_stack.Base.{
  ℕ, zero, suc, ◌+◌, ◌-◌, ◌*◌, ◌/◌, ◌%◌, Bool, true, false, ◌&&◌, ◌||◌, Option, none, some, List,
  [], ◌∷◌, ◌++◌, ltb, ◌==◌, if◌then◌else◌, length, u16_mod, add32,
}
use ns_stack.Bytes.{bytes16, bytes32, word16, word32, htons, htonl, bit}
use ns_stack.Checksum.{add_words, fold, complement}

-- `struct tcphdr`, on a little-endian host.
pub record TcpHdr : Type 0 where
  pub source : ℕ
  pub dest : ℕ
  pub seq : ℕ
  pub ack_seq : ℕ
  pub res1 : ℕ
  pub doff : ℕ
  pub fin : Bool
  pub syn : Bool
  pub rst : Bool
  pub psh : Bool
  pub ack : Bool
  pub urg : Bool
  pub res2 : ℕ
  pub window : ℕ
  pub check : ℕ
  pub urg_ptr : ℕ

-- A header of zeros, as `memset` leaves it.
abbrev pub zero_hdr : TcpHdr
zero_hdr = record {
  source = 0;
  dest = 0;
  seq = 0;
  ack_seq = 0;
  res1 = 0;
  doff = 0;
  fin = false;
  syn = false;
  rst = false;
  psh = false;
  ack = false;
  urg = false;
  res2 = 0;
  window = 0;
  check = 0;
  urg_ptr = 0;
}

-- `sizeof(struct tcphdr)`
abbrev pub tcphdr_size : ℕ
tcphdr_size = 20

pub record Segment : Type 0 where
  pub hdr : TcpHdr
  pub payload : List ℕ
  pub src : ℕ
  pub dst : ℕ

abbrev pub flag_byte : TcpHdr → ℕ
flag_byte h =
    bit h.fin
    + 2 * bit h.syn
    + 4 * bit h.rst
    + 8 * bit h.psh
    + 16 * bit h.ack
    + 32 * bit h.urg
    + 64 * h.res2

unfoldable pub hdr_bytes : TcpHdr → List ℕ
hdr_bytes h =
    bytes16 h.source
    ++ bytes16 h.dest
    ++ bytes32 h.seq
    ++ bytes32 h.ack_seq
    ++ ((h.res1 + 16 * h.doff) ∷ flag_byte h ∷ [])
    ++ bytes16 h.window
    ++ bytes16 h.check
    ++ bytes16 h.urg_ptr

-- The buffer, and its length.
unfoldable pub to_bytes : Segment → List ℕ
unfolding hdr_bytes
to_bytes s = hdr_bytes s.hdr ++ s.payload

unfoldable pub len : Segment → ℕ
len s = tcphdr_size + length s.payload

abbrev bit_at : ℕ → ℕ → Bool
bit_at k b = b / k % 2 == 1

-- `Segment(buf, len, src, dst)`: the copied bytes under the overlay.
unfoldable pub of_bytes : List ℕ → ℕ → ℕ → Option Segment
of_bytes
      (s0 ∷ s1 ∷ d0 ∷ d1 ∷ q0 ∷ q1 ∷ q2 ∷ q3 ∷ a0 ∷ a1 ∷ a2 ∷ a3 ∷ off ∷ flags ∷ w0 ∷ w1 ∷ c0 ∷ c1
        ∷ u0 ∷ u1 ∷ rest)
      src dst =
    some (record {
      hdr = record {
        source = word16 s0 s1;
        dest = word16 d0 d1;
        seq = word32 q0 q1 q2 q3;
        ack_seq = word32 a0 a1 a2 a3;
        res1 = off % 16;
        doff = off / 16;
        fin = bit_at 1 flags;
        syn = bit_at 2 flags;
        rst = bit_at 4 flags;
        psh = bit_at 8 flags;
        ack = bit_at 16 flags;
        urg = bit_at 32 flags;
        res2 = flags / 64;
        window = word16 w0 w1;
        check = word16 c0 c1;
        urg_ptr = word16 u0 u1;
      };
      payload = rest;
      src = src;
      dst = dst;
    })
of_bytes _ src dst = none

-- `_tcp_checksum`: the sum of its two loops. The checksum field counts as 0, and the pseudo header is
-- added to the words. IPPROTO_TCP is 6.
unfoldable pub checksum_sum : Segment → ℕ
checksum_sum s =
    let words : ℕ = add_words 0 (to_bytes (record s { hdr = record (s.hdr) { check = 0 } })) in
    add32
      (add32
        (add32 (add32 (add32 (add32 words (s.src / u16_mod)) (s.src % u16_mod)) (s.dst / u16_mod))
          (s.dst % u16_mod))
        (htons 6))
      (htons (len s % u16_mod))

unfoldable pub tcp_checksum : Segment → ℕ
tcp_checksum s = complement (fold (checksum_sum s))

-- `fill_in_tcp_checksum`; `none` is its failed assertion on the addresses.
unfoldable pub fill_in_tcp_checksum : Segment → Option Segment
fill_in_tcp_checksum s =
    if s.src == 0 || s.dst == 0
    then none
    else some (record s { hdr = record (s.hdr) { check = tcp_checksum s } })

unfoldable pub have_payload : Segment → Bool
have_payload s = ltb tcphdr_size (len s)

unfoldable pub payload_len : Segment → ℕ
payload_len s = len s - tcphdr_size

-- Byte order of the fields that the stack computes with; ports stay in network order.
unfoldable pub ntoh : Segment → Segment
ntoh s = record s {
  hdr = record (s.hdr) {
    seq = htonl s.hdr.seq;
    ack_seq = htonl s.hdr.ack_seq;
    window = htons s.hdr.window;
  };
}

unfoldable pub need_to_ack : Segment → Bool
need_to_ack s = have_payload s || s.hdr.fin || s.hdr.syn
