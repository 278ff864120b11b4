-- ===== src/Ring/Run.antt =====
-- Any sequence of calls on a ring buffer, against the same calls on the bounded queue.
use ns_stack.Base.{ℕ, ◌-◌, ◌≡◌, refl, ap, Bool, Option, none, some, List, [], ◌∷◌, arith, length}
use ns_stack.Ring.{RingBuffer, push, peek, pop, push_all, pop_all, rest_capacity}
use ns_stack.Ring.Inv.{IsValid, rest_capacity-add-size}
use ns_stack.Ring.Queue
use ns_stack.Ring.Queue.{Queue}
use ns_stack.Ring.Refine.{contents, length-contents, push_refines, peek_refines, pop_refines}
use ns_stack.Ring.PushAll.{push_all_refines}
use ns_stack.Ring.PopAll.{pop_all_refines}

-- A call of a method; `put_all` passes an array with its length.
pub data Op {ℓ} (A : Type ℓ) : Type ℓ where
  put : A → Op A
  put_all : List A → Op A
  look get free : Op A
  get_all : ℕ → Op A

pub data Reply {ℓ} (A : Type ℓ) : Type ℓ where
  done : Bool → Reply A
  item : Option A → Reply A
  items : Option (List A) → Reply A
  count : ℕ → Reply A

module _ {ℓ} {A : Type ℓ} (cap : ℕ) where
  -- `none` is a failed assertion.
  unfoldable pub step : RingBuffer A → Op A → Option (RingBuffer A × Reply A)
  step r (put a) = let (r', b) = push cap r a in some (r', done b)
  step r (put_all xs) = elim (push_all cap r xs (length xs)) [
    | none ↦ none
    | some (r', b) ↦ some (r', done b)
  ]
  step r look = some (r, item (peek cap r))
  step r get = let (r', o) = pop cap r in some (r', item o)
  step r free = some (r, count (rest_capacity cap r))
  step r (get_all n) = elim (pop_all cap r n) [ none ↦ none | some (r', o) ↦ some (r', items o) ]

  unfoldable pub run : RingBuffer A → List (Op A) → Option (List (Reply A))
  run r [] = some []
  run r (op ∷ ops) = elim (step r op) [
    | none ↦ none
    | some (r', reply) ↦ elim (run r' ops) [ none ↦ none | some rest ↦ some (reply ∷ rest) ]
  ]

  unfoldable pub queue_step : Queue A → Op A → Queue A × Reply A
  queue_step q (put a) = let (q', b) = Queue.push cap q a in (q', done b)
  queue_step q (put_all xs) = let (q', b) = Queue.push_all cap q xs (length xs) in (q', done b)
  queue_step q look = (q, item (Queue.peek q))
  queue_step q get = let (q', o) = Queue.pop q in (q', item o)
  queue_step q free = (q, count (cap - length q))
  queue_step q (get_all n) = let (q', o) = Queue.pop_all q n in (q', items o)

  unfoldable pub queue_run : Queue A → List (Op A) → List (Reply A)
  queue_run q [] = []
  queue_run q (op ∷ ops) = let (q', reply) = queue_step q op in reply ∷ queue_run q' ops

-- One call on a valid buffer fails no assertion, and does what the queue does.
record Steps {ℓ} {A : Type ℓ} (cap : ℕ) (r : RingBuffer A) (op : Op A) : Type ℓ where
  after : RingBuffer A
  reply : Reply A
  ends : step cap r op ≡ some (after, reply)
  valid : IsValid cap after
  same :
      ◌≡◌ {A = Queue A × Reply A} (contents cap after, reply) (queue_step cap (contents cap r) op)

module _ {ℓ} {A : Type ℓ} {cap : ℕ} where
  step_refines : {r : RingBuffer A} → IsValid cap r → (op : Op A) → Steps cap r op
  unfolding step queue_step
  step_refines {r} v (put a) =
      let (w, e) = push_refines v a in
      record {
        after = (push cap r a).0;
        reply = done (push cap r a).1;
        ends = refl;
        valid = w;
        same = ap (λ p. (p.0, done p.1)) e;
      }
  step_refines {r} v (put_all xs) =
      let (r', b, e, w, q) = push_all_refines v xs (length xs) (omega arith) in
      record {
        after = r';
        reply = done b;
        ends = rw (e, step);
        valid = w;
        same = ap (λ p. (p.0, done p.1)) q;
      }
  step_refines {r} v look = record {
    after = r;
    reply = item (peek cap r);
    ends = refl;
    valid = v;
    same = rw (peek_refines v);
  }
  step_refines {r} v get =
      let (w, e) = pop_refines v in
      record {
        after = (pop cap r).0;
        reply = item (pop cap r).1;
        ends = refl;
        valid = w;
        same = ap (λ p. (p.0, item p.1)) e;
      }
  step_refines {r} v free = record {
    after = r;
    reply = count (rest_capacity cap r);
    ends = refl;
    valid = v;
    same =
        ap (λ n. (contents cap r, count n))
          (omega (arith, length-contents v, rest_capacity-add-size v));
  }
  step_refines {r} v (get_all n) =
      let (r', o, e, w, q) = pop_all_refines v n in
      record {
        after = r';
        reply = items o;
        ends = rw (e, step);
        valid = w;
        same = ap (λ p. (p.0, items p.1)) q;
      }

  -- No sequence of calls tells a valid ring buffer from the bounded queue of its contents, and none
  -- fails an assertion.
  pub run_refines :
      (ops : List (Op A)) {r : RingBuffer A}
      → IsValid cap r
      → run cap r ops ≡ some (queue_run cap (contents cap r) ops)
  unfolding run queue_run
  run_refines [] v = refl
  run_refines (op ∷ ops) {r} v =
      let s : Steps cap r op = step_refines v op in
      rw (s.ends, run) (rw (run_refines ops s.valid, ← s.same))
