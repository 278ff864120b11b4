-- ===== src/Ring.antt =====
-- src/includes/ringbuffer.h: the class `RingBuffer<T, Capacity>`, an array of `Capacity + 1` cells
-- with a read and a write index. A method that changes `*this` returns the new buffer beside its
-- result. `none` as the result of a bulk operation is a failed `assert`. `memcpy` copies cell by cell.
-- `cap` is the template argument `Capacity`; `size_t` arithmetic is taken mod 2^64.
pub mod Inv
pub mod Window
pub mod Queue
pub mod Refine
pub mod PushAll
pub mod PopAll
pub mod Run
pub mod Blocking
mod Tests
use ns_stack.Base.{
  ℕ, zero, suc, ◌+◌, ◌-◌, ◌%◌, min, Bool, true, false, Option, none, some, List, [], ◌∷◌, ◌++◌, ltb,
  ◌==◌, if◌then◌else◌, length, get_elem?, set, take, drop, replicate, add64, sub64,
}

pub record RingBuffer {ℓ} (A : Type ℓ) : Type ℓ where
  pub buf : List A
  pub next_pop : ℕ
  pub next_push : ℕ

-- `kArraySize`
abbrev pub array_size : ℕ → ℕ
array_size cap = cap + 1

-- The constructor: `memset` fills the array with the zero of `T`.
unfoldable pub init {ℓ} : {A : Type ℓ} → ℕ → A → RingBuffer A
init cap null = record { buf = replicate (array_size cap) null; next_pop = 0; next_push = 0 }

unfoldable pub empty {ℓ} : {A : Type ℓ} → RingBuffer A → Bool
empty r = r.next_pop == r.next_push

-- `memcpy(buf + i, xs, …)`
unfoldable pub copy_at {ℓ} : {A : Type ℓ} → List A → ℕ → List A → List A
copy_at buf i [] = buf
copy_at buf i (x ∷ xs) = copy_at (set buf i x) (suc i) xs

module _ {ℓ} {A : Type ℓ} (cap : ℕ) where
  unfoldable pub full : RingBuffer A → Bool
  full r = add64 r.next_push 1 % array_size cap == r.next_pop

  unfoldable pub size : RingBuffer A → ℕ
  size r = add64 (sub64 r.next_push r.next_pop) (array_size cap) % array_size cap

  unfoldable pub push : RingBuffer A → A → RingBuffer A × Bool
  unfolding full
  push r a = if full r then (r, false) else (
    record r { buf = set r.buf r.next_push a; next_push = add64 r.next_push 1 % array_size cap },
    true,
  )

  unfoldable pub peek : RingBuffer A → Option A
  unfolding empty
  peek r = if empty r then none else get_elem? r.buf r.next_pop

  unfoldable pub pop : RingBuffer A → RingBuffer A × Option A
  unfolding empty
  pop r =
      if empty r
      then (r, none)
      else (record r { next_pop = add64 r.next_pop 1 % array_size cap }, get_elem? r.buf r.next_pop)

  unfoldable pub rest_capacity : RingBuffer A → ℕ
  unfolding size
  rest_capacity r = sub64 cap (size r)

  -- How far a write can go before the buffer is full or the end of the array is reached.
  unfoldable pub one_push_capacity : RingBuffer A → ℕ
  one_push_capacity r =
      if ltb r.next_push r.next_pop
      then sub64 (sub64 r.next_pop 1) r.next_push
      else if r.next_pop == 0
      then sub64 (sub64 (array_size cap) 1) r.next_push
      else sub64 (array_size cap) r.next_push

  unfoldable pub one_pop_capacity : RingBuffer A → ℕ
  one_pop_capacity r =
      if ltb r.next_pop r.next_push
      then sub64 r.next_push r.next_pop
      else sub64 (array_size cap) r.next_pop

  -- The list is the memory at `a`.
  unfoldable pub try_push : RingBuffer A → List A → ℕ → Option (RingBuffer A × ℕ)
  try_push r a len =
      let rem : ℕ = min len (one_push_capacity r) in
      let buf' : List A = copy_at r.buf r.next_push (take rem a) in
      let next : ℕ = add64 r.next_push rem in
      if next == array_size cap
      then (if r.next_pop == 0 then none else some (record r { buf = buf'; next_push = 0 }, rem))
      else some (record r { buf = buf'; next_push = next }, rem)

  -- The loop of `push_all`; `cnt` is its counter, which the source holds to at most two rounds.
  unfoldable pub push_loop : ℕ → RingBuffer A → List A → ℕ → ℕ → Option (RingBuffer A)
  push_loop zero r a rest cnt = none
  push_loop (suc f) r a zero cnt = some r
  push_loop (suc f) r a (suc rest) cnt = elim (try_push r a (suc rest)) [
    | none ↦ none
    | some (r', pushed) ↦ if pushed == 0 then none else elim (ltb 2 (cnt + 1)) [
      | true ↦ none
      | false ↦ push_loop f r' (drop pushed a) (sub64 (suc rest) pushed) (cnt + 1)
    ]
  ]

  unfoldable pub push_all : RingBuffer A → List A → ℕ → Option (RingBuffer A × Bool)
  push_all r a len =
      if ltb (rest_capacity r) len
      then some (r, false)
      else elim (push_loop 4 r a len 0) [ none ↦ none | some r' ↦ some (r', true) ]

  -- The list of the result is what was copied to `a`.
  unfoldable pub try_pop : RingBuffer A → ℕ → RingBuffer A × List A × ℕ
  try_pop r max_len =
      let rem : ℕ = min max_len (one_pop_capacity r) in
      let copied : List A = take rem (drop r.next_pop r.buf) in
      let next : ℕ = add64 r.next_pop rem in
      (record r { next_pop = if next == array_size cap then 0 else next }, copied, rem)

  unfoldable pub pop_loop : ℕ → RingBuffer A → List A → ℕ → ℕ → Option (RingBuffer A × List A)
  pop_loop zero r out rest cnt = none
  pop_loop (suc f) r out zero cnt = some (r, out)
  pop_loop (suc f) r out (suc rest) cnt =
      let (r', copied, popped) = try_pop r (suc rest) in
      if popped == 0 then none else elim (ltb 2 (cnt + 1)) [
        | true ↦ none
        | false ↦ pop_loop f r' (out ++ copied) (sub64 (suc rest) popped) (cnt + 1)
      ]

  -- `pop(T *a, size_t len)`: what was written to `a`, or nothing if fewer than `len` are held.
  unfoldable pub pop_all : RingBuffer A → ℕ → Option (RingBuffer A × Option (List A))
  pop_all r len =
      if ltb (size r) len
      then some (r, none)
      else elim (pop_loop 4 r [] len 0) [ none ↦ none | some (r', out) ↦ some (r', some out) ]
