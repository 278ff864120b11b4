-- ===== src/Ring/PushAll.antt =====
-- `push_all`. Its assertions never fail: a write goes round the end of the array at most once, so
-- the loop makes at most two rounds.
use ns_stack.Base.{
  ℕ, zero, suc, ◌+◌, ◌-◌, ◌≤◌, ◌<◌, ◌≡◌, refl, sym, ap, ◌∙◌, inl, inr, Bool-cases, Bool, true,
  false, Option, some, List, ◌++◌, append_assoc, append-nil, arith, ltb, ◌==◌, if◌then◌else◌,
  length, take, drop, min, length-take, length-drop, take-add, add64, sub64, ◌≢◌,
}
use ns_stack.Ring.{
  RingBuffer, size, copy_at, one_push_capacity, try_push, push_loop, push_all, rest_capacity,
}
use ns_stack.Ring.Inv.{IsValid, size-held, size-le-cap, rest_capacity-add-size}
use ns_stack.Ring.Window.{window, window-copy_at}
use ns_stack.Ring.Queue
use ns_stack.Ring.Refine.{contents, length-contents}

module _ {ℓ} {A : Type ℓ} {cap : ℕ} {r : RingBuffer A} (v : IsValid cap r) where
  -- What one write can hold, in plain numbers.
  one_push_lem : one_push_capacity cap r ≡ (
      if ltb r.next_push r.next_pop
      then r.next_pop - 1 - r.next_push
      else if r.next_pop == 0
      then cap - r.next_push
      else cap + 1 - r.next_push)
  unfolding one_push_capacity
  one_push_lem = ground (arith, v)

module _ {ℓ} {A : Type ℓ} {cap : ℕ} {r : RingBuffer A} (v : IsValid cap r) (a : List A)
    (len : ℕ) where
  -- How many elements one `try_push` takes, and what it leaves.
  abbrev room : ℕ
  room = min len (one_push_capacity cap r)

  after_push : RingBuffer A
  after_push = record r {
    buf = copy_at r.buf r.next_push (take room a);
    next_push = if r.next_push + room == cap + 1 then 0 else r.next_push + room;
  }

  wraps_at_zero : r.next_push + room ≡ cap + 1 → r.next_pop ≢ 0
  wraps_at_zero = ground (arith, v, one_push_lem v)

  try_push_lem : try_push cap r a len ≡ some (after_push, room)
  unfolding try_push after_push
  try_push_lem =
      let e : add64 r.next_push room ≡ r.next_push + room = ground (arith, v, one_push_lem v) in
      rw e (elim (Bool-cases (r.next_push + room == cap + 1)) [
        | inl wrap ↦
            let ne : (r.next_pop == 0) ≡ false = ground (arith, wraps_at_zero) in rw (wrap, ne)
        | inr stay ↦ rw stay
      ])

  module _ (fits : len ≤ length a) (rest : len ≤ cap - size cap r) where
    copied :
        (window
            (copy_at r.buf r.next_push (take room a))
            cap
            r.next_pop
            (size cap r + length (take room a))
          ≡ contents cap r ++ take room a)
        × (length (copy_at r.buf r.next_push (take room a)) ≡ cap + 1)
    copied =
        window-copy_at (take room a) r.buf cap (size cap r) r.next_pop r.next_push v.storage
          v.pop_in (ground (arith, v, one_push_lem v, length-take room a))
          (ground (arith, length-take room a, size-le-cap v)) (ground (arith, v, size-held v))

    after_push-IsValid : IsValid cap after_push
    unfolding after_push
    after_push-IsValid = ground (arith, v, copied.1, one_push_lem v)

    size-after_push : size cap after_push ≡ size cap r + room
    unfolding after_push
    size-after_push =
        ground (arith, v, size-held v, size-held after_push-IsValid, one_push_lem v, wraps_at_zero)

    contents-after_push : contents cap after_push ≡ contents cap r ++ take room a
    unfolding after_push
    contents-after_push =
        ap (window (copy_at r.buf r.next_push (take room a)) cap r.next_pop)
          (ground (arith, size-after_push, length-take room a, one_push_lem v))
        ∙ copied.0

    room_pos : 0 < len → 0 < room
    room_pos = ground (arith, v, one_push_lem v, size-held v)

    -- What one write leaves over fits into the next.
    second_fits : len - room ≤ one_push_capacity cap after_push
    unfolding after_push
    second_fits =
        ground
          (arith, v, one_push_lem v, one_push_lem after_push-IsValid, size-held v, wraps_at_zero)

-- The loop `o` ended without a failed assertion, and appended the first `n` elements at `a`.
record Appended {ℓ} {A : Type ℓ} (cap : ℕ) (r : RingBuffer A) (a : List A) (n : ℕ)
    (o : Option (RingBuffer A)) : Type ℓ where
  after : RingBuffer A
  ends : o ≡ some after
  valid : IsValid cap after
  appended : contents cap after ≡ contents cap r ++ take n a

module _ {ℓ} {A : Type ℓ} {cap : ℕ} where
  -- One round of the loop, with elements left.
  push_loop_step :
      {r : RingBuffer A} (v : IsValid cap r) (a : List A) (n f cnt : ℕ)
      → suc n ≤ length a
      → suc n ≤ cap - size cap r
      → cnt ≤ 1
      → push_loop cap (suc f) r a (suc n) cnt
        ≡ push_loop cap f
            (after_push v a (suc n))
            (drop (room v a (suc n)) a)
            (suc n - room v a (suc n))
            (cnt + 1)
  unfolding push_loop
  push_loop_step {r} v a n f cnt fits rest few =
      let pos : (room v a (suc n) == 0) ≡ false = ground (arith, room_pos v a (suc n) fits rest) in
      let low : ltb 2 (cnt + 1) ≡ false = ground arith in
      let left : sub64 (suc n) (room v a (suc n)) ≡ suc n - room v a (suc n) = ground (arith, v) in
      rw (try_push_lem v a (suc n), push_loop) (rw (pos, low, left))

  push_once :
      {r : RingBuffer A} (v : IsValid cap r) (a : List A) (n f cnt : ℕ)
      → n ≤ length a
      → n ≤ cap - size cap r
      → n ≤ one_push_capacity cap r
      → cnt ≤ 1
      → Appended cap r a n (push_loop cap (suc (suc f)) r a n cnt)
  unfolding push_loop
  push_once {r} v a zero f cnt fits rest one few = record {
    after = r;
    ends = refl;
    valid = v;
    appended = sym (append-nil _);
  }
  push_once {r} v a (suc n) f cnt fits rest one few =
      let all : room v a (suc n) ≡ suc n = omega arith in
      let none_left : suc n - room v a (suc n) ≡ 0 = omega arith in
      record {
        after = after_push v a (suc n);
        ends = push_loop_step v a n (suc f) cnt fits rest few ∙ rw none_left;
        valid = after_push-IsValid v a (suc n) fits rest;
        appended =
            contents-after_push v a (suc n) fits rest ∙ ap (λ m. contents cap r ++ take m a) all;
      }

  push_twice :
      {r : RingBuffer A} (v : IsValid cap r) (a : List A) (n : ℕ)
      → n ≤ length a
      → n ≤ cap - size cap r
      → Appended cap r a n (push_loop cap 4 r a n 0)
  push_twice {r} v a zero fits rest = push_once v a zero 2 0 fits rest (omega arith) (omega arith)
  push_twice {r} v a (suc n) fits rest = record {
    after = second.after;
    ends = push_loop_step v a n 3 0 fits rest (omega arith) ∙ second.ends;
    valid = second.valid;
    appended =
        second.appended
        ∙ ap (λ l. l ++ take left (drop m a)) (contents-after_push v a (suc n) fits rest)
        ∙ append_assoc (contents cap r) (take m a) (take left (drop m a))
        ∙ ap (◌++◌ (contents cap r))
            (take-add m left a ∙ ap (λ k. take k a) {y = suc n} (omega arith));
  }
    where
      m : ℕ
      m = room v a (suc n)

      left : ℕ
      left = suc n - m

      second :
          Appended cap
            (after_push v a (suc n))
            (drop m a)
            left
            (push_loop cap 3 (after_push v a (suc n)) (drop m a) left 1)
      second =
          push_once (after_push-IsValid v a (suc n) fits rest) (drop m a) left 1 1
            (omega (arith, length-drop m a)) (omega (arith, size-after_push v a (suc n) fits rest))
            (second_fits v a (suc n) fits rest) (omega arith)

module _ {ℓ} {A : Type ℓ} {cap : ℕ} {r : RingBuffer A} (v : IsValid cap r) where
  -- `push_all` of the first `len` elements at `a` never fails an assertion. It refuses exactly when
  -- they do not fit, and otherwise appends them all, in order.
  pub push_all_refines :
      (a : List A) (len : ℕ)
      → len ≤ length a
      → (r' : RingBuffer A) × (done : Bool) × (push_all cap r a len ≡ some (r', done))
        × IsValid cap r'
        × ((contents cap r', done) ≡ Queue.push_all cap (contents cap r) a len)
  unfolding push_all
  push_all_refines a len fits = elim (Bool-cases (ltb (rest_capacity cap r) len)) [
    | inl e ↦ (r, false, rw e, v, rw (spec true e))
    | inr e ↦
        let p : Appended cap r a len (push_loop cap 4 r a len 0) =
          push_twice v a len fits (ground (arith, rest_capacity-add-size v)) in
        (p.after, true, rw (e, p.ends), p.valid, rw (spec false e, p.appended))
  ]
    where
      spec :
          (b : Bool)
          → ltb (rest_capacity cap r) len ≡ b
          → ltb (cap - length (contents cap r)) len ≡ b
      spec b e =
          let same : cap - size cap r ≡ rest_capacity cap r =
            omega (arith, rest_capacity-add-size v) in
          rw (length-contents v, same) e
