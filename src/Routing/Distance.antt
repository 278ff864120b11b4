-- ===== src/Routing/Distance.antt =====
-- The messages of the distance-vector protocol of src/routing.cc: `DistanceEntry::to_bytes` and
-- `from_bytes`, `distance_vec_to_bytes`, and the reading of a message in `resolve_distance_upd`.
use ns_stack.Base.{
  ℕ, zero, suc, ◌+◌, ◌*◌, ◌%◌, ◌^◌, ◌<◌, ◌≡◌, refl, true, false, Option, none, some, List, [], ◌∷◌,
  ◌++◌, arith, ltb, if◌then◌else◌, length, length-append, append-nil, subst, All, u32_mod,
}
use ns_stack.Bytes.{bytes32, word32, htonl, htonl-htonl, word32-read}

-- The fields that travel; `hops` is an `int`, here its 32 bits.
pub record DistanceEntry : Type 0 where
  pub ip : ℕ
  pub mask : ℕ
  pub hops : ℕ

abbrev pub size_on_wire : ℕ
size_on_wire = 12

unfoldable pub to_bytes : DistanceEntry → List ℕ
to_bytes e = bytes32 (htonl e.ip) ++ bytes32 (htonl e.mask) ++ bytes32 (htonl e.hops)

unfoldable pub all_to_bytes : List DistanceEntry → List ℕ
all_to_bytes [] = []
all_to_bytes (e ∷ l) = to_bytes e ++ all_to_bytes l

-- `distance_vec_to_bytes`: the number of the entries, and they.
unfoldable pub vec_to_bytes : List DistanceEntry → List ℕ
vec_to_bytes l = bytes32 (htonl (length l % u32_mod)) ++ all_to_bytes l

-- The entries of the loop of `resolve_distance_upd`; `none` is a read past the end.
unfoldable pub read_entries : ℕ → List ℕ → Option (List DistanceEntry)
read_entries zero bytes = some []
read_entries (suc n) (i0 ∷ i1 ∷ i2 ∷ i3 ∷ m0 ∷ m1 ∷ m2 ∷ m3 ∷ h0 ∷ h1 ∷ h2 ∷ h3 ∷ rest) =
    elim (read_entries n rest) [
      | none ↦ none
      | some l ↦ some (
          record {
            ip = htonl (word32 i0 i1 i2 i3);
            mask = htonl (word32 m0 m1 m2 m3);
            hops = htonl (word32 h0 h1 h2 h3);
          }
          ∷ l)
    ]
read_entries (suc n) _ = none

-- How the reading of a message ends: a read past its end or an exception, the result -1, or entries.
pub data Reading : Type 0 where
  crashed rejected : Reading
  entries : List DistanceEntry → Reading

-- `(int)num`, the bound of the loop: nothing is read where it is negative.
abbrev pub rounds : ℕ → ℕ
rounds num = if ltb num (2 ^ 31) then num else 0

-- The length test, with its product modulo 2^32, and the entries behind it.
unfoldable pub read_vec : List ℕ → Reading
read_vec (n0 ∷ n1 ∷ n2 ∷ n3 ∷ rest) =
    let num : ℕ = htonl (word32 n0 n1 n2 n3) in
    if ltb (length rest) (num * size_on_wire % u32_mod)
    then rejected
    else elim (read_entries (rounds num) rest) [ none ↦ crashed | some l ↦ entries l ]
read_vec _ = crashed

pub record InRange (e : DistanceEntry) : Type 0 where
  pub ip_in : e.ip < 2 ^ 32
  pub mask_in : e.mask < 2 ^ 32
  pub hops_in : e.hops < 2 ^ 32

read_entries-all_to_bytes :
    (l : List DistanceEntry) (rest : List ℕ)
    → All InRange l
    → read_entries (length l) (all_to_bytes l ++ rest) ≡ some l
unfolding read_entries all_to_bytes to_bytes
read_entries-all_to_bytes [] rest v = refl
read_entries-all_to_bytes (e ∷ l) rest (v, more) = rw (read_entries-all_to_bytes l rest more) (
    simp (
      word32-read,
      htonl-htonl e.ip v.ip_in,
      htonl-htonl e.mask v.mask_in,
      htonl-htonl e.hops v.hops_in,
    ))

length-all_to_bytes : (l : List DistanceEntry) → length (all_to_bytes l) ≡ length l * size_on_wire
unfolding all_to_bytes to_bytes
length-all_to_bytes [] = refl
length-all_to_bytes (e ∷ l) = omega (arith, length-all_to_bytes l)

-- The four bytes of the number, and those of the entries.
pub length-vec_to_bytes :
    (l : List DistanceEntry) → length (vec_to_bytes l) ≡ 4 + length l * size_on_wire
unfolding vec_to_bytes
length-vec_to_bytes l = omega (arith, length-all_to_bytes l)

-- What stands behind a message is not read.
pub read_vec-append :
    (l : List DistanceEntry) (rest : List ℕ)
    → length l * size_on_wire < 2 ^ 32
    → All InRange l
    → read_vec (vec_to_bytes l ++ rest) ≡ entries l
unfolding read_vec vec_to_bytes
read_vec-append l rest small v =
    let fits : length l % u32_mod ≡ length l = omega arith in
    let num : htonl (htonl (length l)) ≡ length l = htonl-htonl (length l) (omega arith) in
    let test : ltb (length (all_to_bytes l ++ rest)) (length l * size_on_wire % u32_mod) ≡ false =
      ground (arith, length-all_to_bytes l, length-append (all_to_bytes l) rest) in
    let all : ltb (length l) (2 ^ 31) ≡ true = ground arith in
    simp (fits, word32-read, num, test, all, read_entries-all_to_bytes l rest v)

-- A receiver reads from a message the entries that it was made from, if their fields are in range and
-- their bytes are fewer than 2^32.
pub read_vec-vec_to_bytes :
    (l : List DistanceEntry)
    → length l * size_on_wire < 2 ^ 32
    → All InRange l
    → read_vec (vec_to_bytes l) ≡ entries l
read_vec-vec_to_bytes l small v =
    subst (λ x. read_vec x ≡ entries l) (append-nil (vec_to_bytes l)) (read_vec-append l [] small v)
