-- ===== src/Ring/Refine.antt =====
-- A valid ring buffer behaves as the queue of its contents, under the methods on one element.
use ns_stack.Base.{
  ℕ, suc, ◌+◌, ◌-◌, ◌<◌, ◌^◌, ◌≡◌, refl, sym, ap, ◌∙◌, ◌≢◌, inl, inr, Bool-cases, Bool, true, false,
  Option, some, [], ◌∷◌, ◌++◌, arith, leb, length, set, length-set, length-replicate, get_elem?,
}
use ns_stack.Ring.{RingBuffer, init, empty, full, size, push, peek, pop, copy_at}
use ns_stack.Ring.Inv.{
  IsValid, size-held, empty_iff, full_iff, next_index, next_index_lem, size-le-cap,
}
use ns_stack.Ring.Window.{window, length-window, window-copy_at, drop_further}
use ns_stack.Ring.Queue
use ns_stack.Ring.Queue.{Queue}

abbrev pub contents {ℓ} : {A : Type ℓ} → ℕ → RingBuffer A → Queue A
contents c r = window r.buf c r.next_pop (size c r)

-- The constructor gives a valid and empty buffer.
pub init-IsValid {ℓ} :
    {A : Type ℓ} (c : ℕ) (null : A)
    → c < 2 ^ 31
    → IsValid c (init c null) × (contents c (init c null) ≡ [])
unfolding init
init-IsValid c null small = (valid, ap (window _ c 0) (size-held valid))
  where
    valid : IsValid c (init c null)
    valid = record {
      storage = length-replicate (c + 1) null;
      small = small;
      pop_in = omega arith;
      push_in = omega arith;
    }

module _ {ℓ} {A : Type ℓ} {cap : ℕ} {r : RingBuffer A} (v : IsValid cap r) where
  pub length-contents : length (contents cap r) ≡ size cap r
  length-contents = length-window r.buf cap r.next_pop (size cap r) v.storage v.pop_in

  -- The buffer after a push that is not refused.
  pushed : A → RingBuffer A
  pushed a = record r { buf = set r.buf r.next_push a; next_push = next_index cap r.next_push }

  pushed-IsValid : (a : A) → IsValid cap (pushed a)
  unfolding pushed
  pushed-IsValid a = ground (arith, length-set r.buf r.next_push a)

  push-full : (a : A) → full cap r ≡ true → push cap r a ≡ (r, false)
  unfolding push
  push-full a e = rw e

  push-room : (a : A) → full cap r ≡ false → push cap r a ≡ (pushed a, true)
  unfolding push pushed
  push-room a e = rw (e, next_index_lem cap r.next_push v.small v.push_in)

  contents-pushed :
      (a : A) → full cap r ≡ false → contents cap (pushed a) ≡ contents cap r ++ (a ∷ [])
  unfolding pushed copy_at
  contents-pushed a e =
      ap (window (set r.buf r.next_push a) cap r.next_pop)
        (ground (arith, size-held v, size-held (pushed-IsValid a), full_iff v))
      ∙ (window-copy_at (a ∷ []) r.buf cap (size cap r) r.next_pop r.next_push v.storage v.pop_in
          (ground (arith, v)) (ground (arith, size-le-cap v, full_iff v))
          (ground (arith, size-held v))).0

  -- The test of the specification.
  test : (b : Bool) → leb cap (size cap r) ≡ b → leb cap (length (contents cap r)) ≡ b
  test b e = rw length-contents e

  -- `push` refuses exactly when the queue is full, and otherwise appends the element.
  pub push_refines :
      (a : A)
      → let (r', done) = push cap r a in
        IsValid cap r' × ((contents cap r', done) ≡ Queue.push cap (contents cap r) a)
  push_refines a = elim (Bool-cases (full cap r)) [
    | inl e ↦ rw (push-full a e) (v, rw (test true (ground (arith, full_iff v))))
    | inr e ↦ rw (push-room a e) (
      pushed-IsValid a,
      rw (contents-pushed a e, test false (ground (arith, full_iff v, size-le-cap v))),
    )
  ]

  -- The oldest element, if there is one.
  first :
      size cap r ≢ 0
      → (a : A) × (get_elem? r.buf r.next_pop ≡ some a)
        × (contents cap r ≡ a ∷ window r.buf cap (next_index cap r.next_pop) (size cap r - 1))
  first ne =
      let (a, at, _) = drop_further r.buf r.next_pop (omega (arith, v)) in
      let n : size cap r ≡ suc (size cap r - 1) = omega arith in
      (a, at, ap (window r.buf cap r.next_pop) n ∙ rw at)

  -- `peek` gives the oldest element, and nothing exactly when the queue is empty.
  pub peek_refines : peek cap r ≡ Queue.peek (contents cap r)
  unfolding peek
  peek_refines = elim (Bool-cases (empty r)) [
    | inl e ↦ rw (e, (empty_iff v).0 e)
    | inr e ↦ let (a, at, c) = first (ground (arith, empty_iff v)) in rw (e, at, c)
  ]

  popped : RingBuffer A
  popped = record r { next_pop = next_index cap r.next_pop }

  popped-IsValid : IsValid cap popped
  unfolding popped
  popped-IsValid = ground (arith, v)

  -- `pop` takes the oldest element off, and gives nothing exactly when the queue is empty.
  pub pop_refines :
      let (r', out) = pop cap r in
      IsValid cap r' × ((contents cap r', out) ≡ Queue.pop (contents cap r))
  unfolding pop popped
  pop_refines = elim (Bool-cases (empty r)) [
    | inl e ↦ rw (e, (empty_iff v).0 e) (v, refl)
    | inr e ↦
        let (a, at, c) = first (ground (arith, empty_iff v)) in
        rw (e, at, c, next_index_lem cap r.next_pop v.small v.pop_in)
          (
            popped-IsValid,
            ap (λ n. (window r.buf cap (next_index cap r.next_pop) n, some a))
                (ground (arith, size-held v, size-held popped-IsValid, empty_iff v)),
          )
  ]

module _ {ℓ} {A : Type ℓ} {cap : ℕ} {r : RingBuffer A} (v : IsValid cap r) where
  split_queue :
      (q : Queue A)
      → contents cap r ≡ q
      → length q ≢ 0
      → (a : A) × ((pop cap r).1 ≡ some a) × (contents cap r ≡ a ∷ contents cap (pop cap r).0)
  split_queue [] e ne = absurd (ne refl)
  split_queue (a ∷ q) e ne =
      let both : ◌≡◌ {A = Queue A × Option A} (contents cap (pop cap r).0, (pop cap r).1)
          (q, some a) =
        (pop_refines v).1 ∙ ap Queue.pop e in
      (a, ap (λ p. p.1) both, e ∙ ap (λ p. a ∷ p.0) (sym both))

  -- A pop of a buffer that is not empty gives the first element of its contents.
  pub pop_oldest :
      empty r ≡ false
      → (a : A) × ((pop cap r).1 ≡ some a) × (contents cap r ≡ a ∷ contents cap (pop cap r).0)
  pop_oldest e = split_queue (contents cap r) refl (ground (arith, length-contents v, empty_iff v))
