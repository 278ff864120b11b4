-- ===== src/Bytes.antt =====
-- Byte order. The host is little-endian, as on the machines that the stack is built for: a word in
-- memory has its low byte first, and `htons`, `htonl`, `ntohs` and `ntohl` reverse the bytes.
use ns_stack.Base.{ℕ, ◌+◌, ◌*◌, ◌/◌, ◌%◌, ◌^◌, ◌<◌, ◌≡◌, Bool, List, [], ◌∷◌, arith, if◌then◌else◌}

-- The bytes of a word in memory, and the word at two or four bytes.
abbrev pub bytes16 : ℕ → List ℕ
bytes16 w = (w % 256) ∷ (w / 256) ∷ []

abbrev pub bytes32 : ℕ → List ℕ
bytes32 w = (w % 256) ∷ (w / 256 % 256) ∷ (w / 65536 % 256) ∷ (w / 16777216) ∷ []

abbrev pub word16 : ℕ → ℕ → ℕ
word16 a b = a + b * 256

abbrev pub word32 : ℕ → ℕ → ℕ → ℕ → ℕ
word32 a b c d = a + b * 256 + c * 65536 + d * 16777216

unfoldable pub htons : ℕ → ℕ
htons w = word16 (w / 256 % 256) (w % 256)

unfoldable pub htonl : ℕ → ℕ
htonl w = word32 (w / 16777216 % 256) (w / 65536 % 256) (w / 256 % 256) (w % 256)

pub htons-htons : (w : ℕ) → w < 2 ^ 16 → htons (htons w) ≡ w
unfolding htons
htons-htons w h = omega arith

pub htonl-htonl : (w : ℕ) → w < 2 ^ 32 → htonl (htonl w) ≡ w
unfolding htonl
htonl-htonl w h = omega arith

pub htonl-lt : (w : ℕ) → htonl w < 2 ^ 32
unfolding htonl
htonl-lt w = omega arith

pub htons-lt : (w : ℕ) → htons w < 2 ^ 16
unfolding htons
htons-lt w = omega arith

pub word16-read : (w : ℕ) → word16 (w % 256) (w / 256) ≡ w
word16-read w = omega arith

pub word32-read : (w : ℕ) → word32 (w % 256) (w / 256 % 256) (w / 65536 % 256) (w / 16777216) ≡ w
word32-read w = omega arith

-- A one-bit field.
abbrev pub bit : Bool → ℕ
bit b = if b then 1 else 0
