-- ===== src/Ring/PopAll.antt =====
-- `pop(T *a, size_t len)`. Its assertions never fail: a read goes round the end of the array at most
-- once, so the loop makes at most two rounds.
use ns_stack.Base.{
  ℕ, zero, suc, ◌+◌, ◌-◌, ◌≤◌, ◌<◌, ◌≡◌, refl, sym, ap, ◌∙◌, inl, inr, Bool-cases, Bool, true,
  false, Option, none, some, List, [], ◌++◌, append_assoc, append-nil, arith, ltb, ◌==◌,
  if◌then◌else◌, length, take, drop, min, length-take, length-drop, take-append, length-append,
  drop-append, add64, sub64,
}
use ns_stack.Ring.{RingBuffer, size, one_pop_capacity, try_pop, pop_loop, pop_all}
use ns_stack.Ring.Inv.{IsValid, size-held, size-le-cap}
use ns_stack.Ring.Window.{window, window-split}
use ns_stack.Ring.Queue
use ns_stack.Ring.Refine.{contents, length-contents}

module _ {ℓ} {A : Type ℓ} {cap : ℕ} {r : RingBuffer A} (v : IsValid cap r) where
  -- What one read can take, in plain numbers.
  one_pop_lem :
      one_pop_capacity cap r
      ≡ (if ltb r.next_pop r.next_push then r.next_push - r.next_pop else cap + 1 - r.next_pop)
  unfolding one_pop_capacity
  one_pop_lem = ground (arith, v)

module _ {ℓ} {A : Type ℓ} {cap : ℕ} {r : RingBuffer A} (v : IsValid cap r) (len : ℕ) where
  -- How many elements one `try_pop` takes, which ones, and what it leaves.
  abbrev share : ℕ
  share = min len (one_pop_capacity cap r)

  abbrev batch : List A
  batch = take share (drop r.next_pop r.buf)

  after_pop : RingBuffer A
  after_pop = record r {
    next_pop = if r.next_pop + share == cap + 1 then 0 else r.next_pop + share;
  }

  try_pop_lem : try_pop cap r len ≡ (after_pop, batch, share)
  unfolding try_pop after_pop
  try_pop_lem =
      let e : add64 r.next_pop share ≡ r.next_pop + share = ground (arith, v, one_pop_lem v) in rw e

  after_pop-IsValid : IsValid cap after_pop
  unfolding after_pop
  after_pop-IsValid = ground (arith, v, one_pop_lem v)

  module _ (rest : len ≤ size cap r) where
    size-after_pop : size cap after_pop + share ≡ size cap r
    unfolding after_pop
    size-after_pop = ground (arith, v, size-held v, size-held after_pop-IsValid, one_pop_lem v)

    share_pos : 0 < len → 0 < share
    share_pos = ground (arith, v, one_pop_lem v, size-held v)

    -- What one read leaves over comes with the next.
    second_share : len - share ≤ one_pop_capacity cap after_pop
    unfolding after_pop
    second_share = ground (arith, v, one_pop_lem v, one_pop_lem after_pop-IsValid, size-held v)

    contents-after_pop : contents cap r ≡ batch ++ contents cap after_pop
    unfolding after_pop
    contents-after_pop =
        ap (window r.buf cap r.next_pop) (omega (arith, size-after_pop))
        ∙ window-split r.buf cap share r.next_pop after_pop.next_pop (size cap after_pop) v.storage
            v.pop_in (ground (arith, v, one_pop_lem v))

-- The loop `o` ended without a failed assertion, took the first `n` elements off the buffer, and
-- added them to those already read.
record Taken {ℓ} {A : Type ℓ} (cap : ℕ) (r : RingBuffer A) (out : List A) (n : ℕ)
    (o : Option (RingBuffer A × List A)) : Type ℓ where
  after : RingBuffer A
  got : List A
  ends : o ≡ some (after, out ++ got)
  valid : IsValid cap after
  count : length got ≡ n
  split : contents cap r ≡ got ++ contents cap after

module _ {ℓ} {A : Type ℓ} {cap : ℕ} where
  -- One round of the loop, with elements left to read.
  pop_loop_step :
      {r : RingBuffer A} (v : IsValid cap r) (out : List A) (n f cnt : ℕ)
      → suc n ≤ size cap r
      → cnt ≤ 1
      → pop_loop cap (suc f) r out (suc n) cnt
        ≡ pop_loop cap f
            (after_pop v (suc n))
            (out ++ batch v (suc n))
            (suc n - share v (suc n))
            (cnt + 1)
  unfolding pop_loop
  pop_loop_step {r} v out n f cnt rest few =
      let pos : (share v (suc n) == 0) ≡ false = ground (arith, share_pos v (suc n) rest) in
      let low : ltb 2 (cnt + 1) ≡ false = ground arith in
      let left : sub64 (suc n) (share v (suc n)) ≡ suc n - share v (suc n) =
        ground (arith, v, size-le-cap v) in
      rw (try_pop_lem v (suc n), pop_loop) (rw (pos, low, try_pop_lem v (suc n), left))

  length-batch :
      {r : RingBuffer A} (v : IsValid cap r) (n : ℕ)
      → n ≤ size cap r
      → length (batch v n) ≡ share v n
  length-batch {r} v n rest = ground (
    arith,
    v,
    length-take (share v n) (drop r.next_pop r.buf),
    length-drop r.next_pop r.buf,
    one_pop_lem v,
  )

  pop_once :
      {r : RingBuffer A} (v : IsValid cap r) (out : List A) (n f cnt : ℕ)
      → n ≤ size cap r
      → n ≤ one_pop_capacity cap r
      → cnt ≤ 1
      → Taken cap r out n (pop_loop cap (suc (suc f)) r out n cnt)
  unfolding pop_loop
  pop_once {r} v out zero f cnt rest one few = record {
    after = r;
    got = [];
    ends = rw append-nil;
    valid = v;
    count = refl;
    split = refl;
  }
  pop_once {r} v out (suc n) f cnt rest one few =
      let none_left : suc n - share v (suc n) ≡ 0 = omega arith in
      record {
        after = after_pop v (suc n);
        got = batch v (suc n);
        ends = pop_loop_step v out n (suc f) cnt rest few ∙ rw none_left;
        valid = after_pop-IsValid v (suc n);
        count = omega (arith, length-batch v (suc n) rest);
        split = contents-after_pop v (suc n) rest;
      }

  pop_twice :
      {r : RingBuffer A} (v : IsValid cap r) (n : ℕ)
      → n ≤ size cap r
      → Taken cap r [] n (pop_loop cap 4 r [] n 0)
  pop_twice {r} v zero rest = pop_once v [] zero 2 0 rest (omega arith) (omega arith)
  pop_twice {r} v (suc n) rest = record {
    after = second.after;
    got = first ++ second.got;
    ends = pop_loop_step v [] n 3 0 rest (omega arith) ∙ second.ends;
    valid = second.valid;
    count =
        omega (arith, length-append first second.got, length-batch v (suc n) rest, second.count);
    split =
        contents-after_pop v (suc n) rest
        ∙ ap (◌++◌ first) second.split
        ∙ sym (append_assoc first second.got (contents cap second.after));
  }
    where
      first : List A
      first = batch v (suc n)

      second :
          Taken cap
            (after_pop v (suc n))
            first
            (suc n - share v (suc n))
            (pop_loop cap 3 (after_pop v (suc n)) first (suc n - share v (suc n)) 1)
      second =
          pop_once (after_pop-IsValid v (suc n)) first (suc n - share v (suc n)) 1 1
            (omega (arith, size-after_pop v (suc n) rest)) (second_share v (suc n) rest)
            (omega arith)

module _ {ℓ} {A : Type ℓ} {cap : ℕ} {r : RingBuffer A} (v : IsValid cap r) where
  -- `pop` of `len` elements never fails an assertion. It gives nothing exactly when fewer are held,
  -- and otherwise takes the oldest `len` off, in order.
  pub pop_all_refines :
      (len : ℕ)
      → (r' : RingBuffer A) × (out : Option (List A)) × (pop_all cap r len ≡ some (r', out))
        × IsValid cap r'
        × ((contents cap r', out) ≡ Queue.pop_all (contents cap r) len)
  unfolding pop_all
  pop_all_refines len = elim (Bool-cases (ltb (size cap r) len)) [
    | inl e ↦ (r, none, rw e, v, rw (spec true e))
    | inr e ↦
        let p : Taken cap r [] len (pop_loop cap 4 r [] len 0) = pop_twice v len (ground arith) in
        (p.after, some p.got, rw (e, p.ends), p.valid, rw (spec false e, p.split) (halves p))
  ]
    where
      spec : (b : Bool) → ltb (size cap r) len ≡ b → ltb (length (contents cap r)) len ≡ b
      spec b e = rw (length-contents v) e

      halves :
          (p : Taken cap r [] len (pop_loop cap 4 r [] len 0))
          → ◌≡◌ {A = List A × Option (List A)}
              (contents cap p.after, some p.got)
              (
                drop len (p.got ++ contents cap p.after),
                some (take len (p.got ++ contents cap p.after)),
              )
      halves p = rw (
        ← p.count,
        drop-append p.got (contents cap p.after),
        take-append p.got (contents cap p.after),
      )
