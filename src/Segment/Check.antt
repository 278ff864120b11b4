-- ===== src/Segment/Check.antt =====
-- The TCP checksum: what a sender fills in is accepted, and a changed byte is noticed.
use mathlib.Core.Option.{some-injective}
use ns_stack.Base.{
  ℕ, ◌+◌, ◌*◌, ◌/◌, ◌%◌, ◌^◌, ◌≤◌, ◌<◌, ◌≡◌, ◌≢◌, ◌⊎◌, refl, subst, ◌||◌, Bool-cases, inl, inr,
  some, ◌==◌, arith, length, get_elem?, set, length-set, All, All-append, u16_mod,
}
use ns_stack.Bytes.{htons, htons-lt}
use ns_stack.Checksum.Sum.{IsByte, complement-fold_iff}
use ns_stack.Checksum.Weights.{weigh, weigh-le, weigh-set, add_words-weigh, All-set}
use ns_stack.Segment.{
  Segment, hdr_bytes, to_bytes, len, checksum_sum, tcp_checksum, fill_in_tcp_checksum,
}
use ns_stack.Segment.Wire.{InRange, hdr_bytes-IsByte, length-to_bytes}

-- A segment that fits an IP packet, with 32-bit addresses.
pub record IsSane (s : Segment) : Type 0 where
  pub in_range : InRange s.hdr
  pub bytes : All IsByte s.payload
  pub short : length s.payload ≤ 65515
  pub src_in : s.src < 2 ^ 32
  pub dst_in : s.dst < 2 ^ 32

-- The segment as the sum reads it.
abbrev cleared : Segment → Segment
cleared s = record s { hdr = record (s.hdr) { check = 0 } }

-- The sum in plain numbers: nothing wraps.
plain : Segment → ℕ
plain s =
    weigh (to_bytes (cleared s))
    + s.src / u16_mod
    + s.src % u16_mod
    + s.dst / u16_mod
    + s.dst % u16_mod
    + htons 6
    + htons (len s % u16_mod)

weigh-cleared : (s : Segment) → IsSane s → weigh (to_bytes (cleared s)) ≤ 65535 * 32768
unfolding to_bytes len
weigh-cleared s v =
    weigh-le 32768 (to_bytes (cleared s))
      (All-append IsByte (hdr_bytes (cleared s).hdr) s.payload
        (hdr_bytes-IsByte (cleared s).hdr (omega (arith, v))) v.bytes)
      (omega (arith, length-to_bytes (cleared s), v))

checksum_sum-plain : (s : Segment) → IsSane s → (checksum_sum s ≡ plain s) × (plain s < 2 ^ 32)
unfolding checksum_sum plain
checksum_sum-plain s v = omega (
  arith,
  v,
  weigh-cleared s v,
  add_words-weigh 0 (to_bytes (cleared s)),
  htons-lt 6,
  htons-lt (len s % u16_mod),
)

-- What `fill_in_tcp_checksum` writes is what the receiver computes anew.
pub tcp_checksum-fill :
    (s t : Segment) → fill_in_tcp_checksum s ≡ some t → tcp_checksum t ≡ t.hdr.check
unfolding fill_in_tcp_checksum tcp_checksum checksum_sum len
tcp_checksum-fill s t e = elim (Bool-cases (s.src == 0 || s.dst == 0)) [
  | inl bad ↦ cc (rw bad at e)
  | inr good ↦ subst (λ u. tcp_checksum u ≡ u.hdr.check) (some-injective _ _ (rw good at e)) refl
]

-- A segment with one byte of its data changed.
abbrev pub corrupt : Segment → ℕ → ℕ → Segment
corrupt s i y = record s { payload = set s.payload i y }

corrupt-IsSane : (s : Segment) (i y : ℕ) → y < 256 → IsSane s → IsSane (corrupt s i y)
corrupt-IsSane s i y h v = record {
  in_range = v.in_range;
  bytes = All-set s.payload i y h v.bytes;
  short = omega (arith, length-set s.payload i y, v);
  src_in = v.src_in;
  dst_in = v.dst_in;
}

plain-corrupt :
    (s : Segment) (i x y : ℕ)
    → get_elem? s.payload i ≡ some x
    → (plain (corrupt s i y) + x ≡ plain s + y)
      ⊎ (plain (corrupt s i y) + 256 * x ≡ plain s + 256 * y)
unfolding plain to_bytes hdr_bytes len
plain-corrupt s i x y e =
    let same : length (set s.payload i y) ≡ length s.payload = length-set s.payload i y in
    rw same (omega (arith, weigh-set s.payload i x y e))

-- A change of one byte of the data changes the checksum of a segment whose fields are in range and
-- that is at most 65535 bytes long.
pub tcp_checksum-corrupt :
    (s : Segment) (i x y : ℕ)
    → IsSane s
    → get_elem? s.payload i ≡ some x
    → x < 256
    → y < 256
    → x ≢ y
    → tcp_checksum (corrupt s i y) ≢ tcp_checksum s
unfolding tcp_checksum
tcp_checksum-corrupt s i x y v at hx hy ne e =
    let (p, small) = checksum_sum-plain s v in
    let (p', small') = checksum_sum-plain (corrupt s i y) (corrupt-IsSane s i y hy v) in
    omega (
      arith,
      (complement-fold_iff (checksum_sum (corrupt s i y)) (checksum_sum s) (omega arith)
            (omega arith)).0
          e,
      plain-corrupt s i x y at,
    )
