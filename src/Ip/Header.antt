-- ===== src/Ip/Header.antt =====
-- The header's bytes, and its checksum.
use ns_stack.Base.{
  ℕ, zero, suc, ◌+◌, ◌-◌, ◌*◌, ◌/◌, ◌%◌, ◌^◌, ◌≤◌, ◌<◌, ◌≡◌, refl, true, some, List, [], ◌∷◌, arith,
  take, All, length-take, u16_mod, ==_iff,
}
use ns_stack.Bytes.{word16, word16-read, word32-read}
use ns_stack.Checksum.{add_words, fold, complement}
use ns_stack.Checksum.Sum.{IsByte, fold-complement}
use ns_stack.Checksum.Weights.{weigh, weigh-le, add_words-weigh}
use ns_stack.Ip.{
  Packet, to_bytes, of_bytes, summed, calc_iphd_checksum, verify_iphd_checksum, with_checksum, aged,
}

-- The fields have room in the header.
pub record InRange (p : Packet) : Type 0 where
  pub ihl_in : p.ihl < 16
  pub version_in : p.version < 16
  pub tos_in : p.tos < 256
  pub tot_len_in : p.tot_len < 2 ^ 16
  pub id_in : p.id < 2 ^ 16
  pub frag_off_in : p.frag_off < 2 ^ 16
  pub ttl_in : p.ttl < 256
  pub protocol_in : p.protocol < 256
  pub check_in : p.check < 2 ^ 16
  pub saddr_in : p.saddr < 2 ^ 32
  pub daddr_in : p.daddr < 2 ^ 32
  pub rest_in : All IsByte p.rest

-- Reading the bytes of a packet gives the packet back, if its header's fields are in range.
pub of_bytes-to_bytes : (p : Packet) → InRange p → of_bytes (to_bytes p) ≡ some p
unfolding of_bytes to_bytes
of_bytes-to_bytes p v =
    let low : (p.ihl + 16 * p.version) % 16 ≡ p.ihl = omega (arith, v) in
    let high : (p.ihl + 16 * p.version) / 16 ≡ p.version = omega (arith, v) in
    simp (word16-read, word32-read, low, high)

complement-lt : (s : ℕ) → complement s < 2 ^ 16
unfolding complement
complement-lt s = omega arith

put-InRange :
    (p : Packet) (t c : ℕ)
    → t < 256
    → c < 2 ^ 16
    → InRange p
    → InRange (record p { ttl = t; check = c })
put-InRange p t c ht h v = record {
  ihl_in = v.ihl_in;
  version_in = v.version_in;
  tos_in = v.tos_in;
  tot_len_in = v.tot_len_in;
  id_in = v.id_in;
  frag_off_in = v.frag_off_in;
  ttl_in = ht;
  protocol_in = v.protocol_in;
  check_in = h;
  saddr_in = v.saddr_in;
  daddr_in = v.daddr_in;
  rest_in = v.rest_in;
}

pub with_checksum-InRange : (p : Packet) → InRange p → InRange (with_checksum p)
unfolding calc_iphd_checksum
with_checksum-InRange p v =
    put-InRange p p.ttl (complement (fold (add_words 0 (summed p)))) v.ttl_in
      (complement-lt (fold (add_words 0 (summed p)))) v

pub aged-InRange : (p : Packet) → InRange p → InRange (aged p)
unfolding aged
aged-InRange p v =
    with_checksum-InRange (record p { ttl = p.ttl - 1 })
      (put-InRange p (p.ttl - 1) p.check (omega (arith, v)) v.check_in v)

-- The checksum that was filled in is the one that a receiver computes.
pub verify-with_checksum : (p : Packet) → verify_iphd_checksum (with_checksum p) ≡ true
unfolding verify_iphd_checksum calc_iphd_checksum
verify-with_checksum p = (==_iff _ _).1 refl

-- The sum of a header with options, in plain numbers.
header_sum : Packet → ℕ → ℕ
header_sum p n =
    word16 (p.ihl + 16 * p.version) p.tos
    + p.tot_len
    + p.id
    + p.frag_off
    + word16 p.ttl p.protocol
    + p.saddr % 65536
    + p.saddr / 65536
    + p.daddr % 65536
    + p.daddr / 65536
    + weigh (take n p.rest)

weigh-header :
    (p : Packet) (n : ℕ)
    → p.ihl * 4 ≡ 20 + n
    → weigh (take (p.ihl * 4) (to_bytes p)) ≡ header_sum p n + p.check
unfolding to_bytes header_sum
weigh-header p n e =
    let steps : p.ihl * 4
        ≡ suc (
            suc (
              suc (
                suc (
                  suc (
                    suc (
                      suc (
                        suc (
                          suc (
                            suc (
                              suc
                                (suc (suc (suc (suc (suc (suc (suc (suc (suc n))))))))))))))))))) =
      omega (arith, e) in
    rw steps (omega arith)

take-IsByte : (n : ℕ) (l : List ℕ) → All IsByte l → All IsByte (take n l)
take-IsByte zero l v = tt
take-IsByte (suc n) [] v = tt
take-IsByte (suc n) (x ∷ l) v = (v.0, take-IsByte n l v.1)

options-le :
    (p : Packet) (n : ℕ) → InRange p → p.ihl * 4 ≡ 20 + n → weigh (take n p.rest) ≤ 65535 * 20
options-le p n v e =
    weigh-le 20 (take n p.rest) (take-IsByte n p.rest v.rest_in)
      (omega (arith, length-take n p.rest, v, e))

header_sum-lt :
    (p : Packet) (n : ℕ)
    → InRange p
    → p.ihl * 4 ≡ 20 + n
    → header_sum p n + 65535 + u16_mod < 2 ^ 32
unfolding header_sum
header_sum-lt p n v e = omega (arith, v, options-le p n v e)

-- The 32-bit sum over a header is the plain one.
add_words-header :
    (p : Packet) (n : ℕ)
    → InRange p
    → p.ihl * 4 ≡ 20 + n
    → add_words 0 (take (p.ihl * 4) (to_bytes p)) ≡ header_sum p n + p.check
add_words-header p n v e =
    let w : weigh (take (p.ihl * 4) (to_bytes p)) ≡ header_sum p n + p.check = weigh-header p n e in
    omega (
      arith,
      w,
      header_sum-lt p n v e,
      v.check_in,
      add_words-weigh 0 (take (p.ihl * 4) (to_bytes p)),
    )

-- A receiver that adds all words of a header that was given its checksum, options included, gets
-- 0xffff, as RFC 1071 checks.
pub sum_checks :
    (p : Packet)
    → InRange p
    → 5 ≤ p.ihl
    → fold (add_words 0 (take (p.ihl * 4) (to_bytes (with_checksum p)))) ≡ 65535
unfolding calc_iphd_checksum header_sum
sum_checks p v h =
    let n : ℕ = p.ihl * 4 - 20 in
    let e : p.ihl * 4 ≡ 20 + n = omega (arith, h) in
    let c : InRange (record p { check = 0 }) = put-InRange p p.ttl 0 v.ttl_in (omega arith) v in
    let bare : add_words 0 (summed p) ≡ header_sum p n + 0 =
      add_words-header (record p { check = 0 }) n c e in
    let plus_zero : header_sum p n + 0 ≡ header_sum p n = omega arith in
    let full : add_words 0 (take (p.ihl * 4) (to_bytes (with_checksum p)))
        ≡ header_sum p n + complement (fold (add_words 0 (summed p))) =
      add_words-header (with_checksum p) n (with_checksum-InRange p v) e in
    rw (full, bare, plus_zero)
      (fold-complement (header_sum p n) (omega (arith, header_sum-lt p n v e)))
