-- ===== src/Ring/Tests.antt =====
-- A ring buffer of capacity 3 whose contents come round the end of its array, and the theorems at it.
use ns_stack.Base.{ℕ, zero, suc, ◌≡◌, refl, arith, some, List, [], ◌∷◌}
use ns_stack.Ring.{RingBuffer, size}
use ns_stack.Ring.Inv.{IsValid}
use ns_stack.Ring.Refine.{contents}
use ns_stack.Ring.Run.{Op, put, put_all, look, get, get_all, free, run, queue_run, run_refines}
use ns_stack.Ring.Blocking
use ns_stack.Ring.Blocking.{PushEnds, PopEnds, push-PushEnds, pop-PopEnds}

abbrev round : RingBuffer ℕ
round = record { buf = 6 ∷ 0 ∷ 0 ∷ 5 ∷ []; next_pop = 3; next_push = 1 }

round-IsValid : IsValid 3 round
round-IsValid = record {
  storage = refl;
  small = omega arith;
  pop_in = omega arith;
  push_in = omega arith;
}

round-contents : contents 3 round ≡ 5 ∷ 6 ∷ []
unfolding size
round-contents = refl

abbrev calls : List (Op ℕ)
calls = put_all (7 ∷ 8 ∷ []) ∷ put 9 ∷ look ∷ get ∷ put_all (1 ∷ []) ∷ free ∷ get_all 3 ∷ []

run_refines_example : run 3 round calls ≡ some (queue_run 3 (contents 3 round) calls)
run_refines_example = run_refines calls round-IsValid

abbrev full_up : RingBuffer ℕ
full_up = record { buf = 6 ∷ 7 ∷ 0 ∷ 5 ∷ []; next_pop = 3; next_push = 2 }

full_up-IsValid : IsValid 3 full_up
full_up-IsValid = record {
  storage = refl;
  small = omega arith;
  pop_in = omega arith;
  push_in = omega arith;
}

-- Another thread that takes an element during the second wait.
abbrev drains : ℕ → RingBuffer ℕ → RingBuffer ℕ
drains (suc zero) r = round
drains _ r = r

drains-IsValid : (i : ℕ) (r : RingBuffer ℕ) → IsValid 3 r → IsValid 3 (drains i r)
drains-IsValid (suc zero) r v = round-IsValid
drains-IsValid _ r v = v

push-PushEnds_example : PushEnds 3 drains 3 0 full_up 9 (Blocking.push 3 drains full_up 9)
push-PushEnds_example = push-PushEnds drains drains-IsValid 9 full_up-IsValid

pop-PopEnds_example : PopEnds 3 drains 3 0 round (Blocking.pop 3 drains round)
pop-PopEnds_example = pop-PopEnds drains drains-IsValid round-IsValid
