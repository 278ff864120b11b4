-- ===== src/Arp/Fits.antt =====
-- What the table of src/arp.cc, its outstanding requests and the waiting threads say of an address.
use ns_stack.Base.{
  ℕ, zero, suc, ◌+◌, ◌≤◌, ◌<◌, ◌≡◌, ◌≢◌, refl, sym, subst, ◌∙◌, inl, inr, Bool, true, false, ◌&&◌,
  Option, none, some, List, [], ◌∷◌, arith, ◌==◌, if◌then◌else◌, Bool-cases, get_elem?, ==_iff,
  lookup, put, remove, put_cases, remove_cases, lookup-remove,
}
use mathlib.Core.Option.{some-injective}
use ns_stack.Arp.{Arp, claimed, drop_request}
use ns_stack.Arp.Threads.{Waiter, or_else, leave}
use ns_stack.Bytes.{bit}

-- Whether a thread waits for its own request for the address.
unfoldable pub own_for : ℕ → Waiter → ℕ
own_for ip w = bit (w.own && ip == w.ip)

-- How many threads wait for requests of their own for the address.
unfoldable pub owners : ℕ → List Waiter → ℕ
unfolding own_for
owners ip [] = 0
owners ip (w ∷ ws) = own_for ip w + owners ip ws

-- What the table, the outstanding requests and the number of threads with a request of their own say
-- of one address.
unfoldable pub Fits : Option (List ℕ) → Option ℕ → ℕ → Type 0
Fits none none n = n ≡ 0
Fits none (some cv) n = n ≡ 1
Fits (some mac) none n = n ≤ 1
Fits (some mac) (some cv) n = n < 0

unfoldable pub FitsAt : ℕ → Arp → List Waiter → Type 0
unfolding Fits owners lookup
FitsAt ip s ws = Fits (lookup ◌==◌ ip s.cache) (lookup ◌==◌ ip s.outstanding) (owners ip ws)

unfoldable pub IsSound : Arp → List Waiter → Type 0
unfolding FitsAt
IsSound s ws = (ip : ℕ) → FitsAt ip s ws

-- An address whose table entry, request and threads are as they were.
pub like :
    (c c' : Option (List ℕ)) (o o' : Option ℕ) (n n' : ℕ)
    → c' ≡ c
    → o' ≡ o
    → n' ≡ n
    → Fits c o n
    → Fits c' o' n'
like c c' o o' n n' p q r f = rw (p, q, r) f

pub owners-leave :
    (ip n : ℕ) (ws : List Waiter) (w : Waiter)
    → get_elem? ws n ≡ some w
    → owners ip ws ≡ own_for ip w + owners ip (leave n ws)
unfolding owners leave
owners-leave ip n [] w e = absurd (cc e)
owners-leave ip zero (v ∷ ws) w e =
    subst (λ x. own_for ip v + owners ip ws ≡ own_for ip x + owners ip ws) (some-injective _ _ e)
      refl
owners-leave ip (suc n) (v ∷ ws) w e = omega (arith, owners-leave ip n ws w e)

pub Fits-out :
    (c : Option (List ℕ)) (o : Option ℕ) (n cv : ℕ)
    → Fits c o n
    → o ≡ some cv
    → (c ≡ none) × (n ≡ 1)
unfolding Fits
Fits-out none none n cv f e = absurd (cc e)
Fits-out none (some v) n cv f e = (refl, f)
Fits-out (some mac) none n cv f e = absurd (cc e)
Fits-out (some mac) (some v) n cv f e = absurd (omega (arith, f))

pub Fits-le : (c : Option (List ℕ)) (o : Option ℕ) (n : ℕ) → Fits c o n → n ≤ 1
unfolding Fits
Fits-le none none n f = omega (arith, f)
Fits-le none (some v) n f = omega (arith, f)
Fits-le (some mac) none n f = f
Fits-le (some mac) (some v) n f = omega (arith, f)

pub Fits-less :
    (c : Option (List ℕ)) (o : Option ℕ) (n k : ℕ) (mac : List ℕ)
    → c ≡ some mac
    → k ≤ n
    → Fits c o n
    → Fits c o k
unfolding Fits
Fits-less none o n k mac e l f = absurd (cc e)
Fits-less (some mac) none n k m e l f = omega (arith, l, f)
Fits-less (some mac) (some v) n k m e l f = absurd (omega (arith, f))

-- The thread with the request gives up.
pub Fits-given_up :
    (c : Option (List ℕ)) (o : Option ℕ) (n k : ℕ)
    → c ≡ none
    → n ≡ 1 + k
    → Fits c o n
    → Fits c none k
unfolding Fits
Fits-given_up none none n k e l f = absurd (omega (arith, l, f))
Fits-given_up none (some v) n k e l f = omega (arith, l, f)
Fits-given_up (some mac) o n k e l f = absurd (cc e)

pub Fits-heard :
    (c : Option (List ℕ)) (n : ℕ) (mac : List ℕ) → n ≤ 1 → Fits (or_else c (some mac)) none n
unfolding Fits or_else
Fits-heard none n mac h = h
Fits-heard (some m) n mac h = h

-- A request that is taken back at once.
pub taken_back :
    (ip j cv : ℕ) (m : List (ℕ × ℕ))
    → lookup ◌==◌ ip m ≡ none
    → lookup ◌==◌ j (remove ◌==◌ ip (put ◌==◌ ip cv m)) ≡ lookup ◌==◌ j m
taken_back ip j cv m e = elim (remove_cases ◌==◌ ==_iff ip j (put ◌==◌ ip cv m)) [
  | inl y ↦ y.1 ∙ sym (subst (λ i. lookup ◌==◌ i m ≡ none) (sym y.0) e)
  | inr n ↦
      n.1 ∙ (elim (put_cases ◌==◌ ==_iff ip j cv m) [ inl y ↦ absurd (n.0 y.0) | inr k ↦ k.1 ])
]

pub claimed_out :
    (ip j : ℕ) (t : Arp) (o : Option ℕ)
    → lookup ◌==◌ ip t.outstanding ≡ o
    → lookup ◌==◌ j (claimed ip t o).0.outstanding
      ≡ (if j == ip then none else lookup ◌==◌ j t.outstanding)
unfolding claimed drop_request
claimed_out ip j t none e = elim (Bool-cases (j == ip)) [
  | inl y ↦ rw y (subst (λ i. lookup ◌==◌ i t.outstanding ≡ none) (sym ((==_iff j ip).0 y)) e)
  | inr n ↦ rw n refl
]
claimed_out ip j t (some cv) e = lookup-remove ◌==◌ ==_iff ip j t.outstanding

pub Fits-new :
    (c : Option (List ℕ)) (o : Option ℕ) (n cv : ℕ) → c ≡ none → o ≡ some cv → n ≡ 1 → Fits c o n
unfolding Fits
Fits-new c o n cv p q r = rw (p, q, r) refl

pub Fits-none :
    (c : Option (List ℕ)) (o : Option ℕ) (n : ℕ) → c ≡ none → o ≡ none → Fits c o n → n ≡ 0
unfolding Fits
Fits-none none none n p q f = f
Fits-none none (some cv) n p q f = absurd (cc q)
Fits-none (some mac) o n p q f = absurd (cc p)

module _ (ip : ℕ) (w : Waiter) where
  pub own_for_other : ip ≢ w.ip → own_for ip w ≡ 0
  unfolding own_for
  own_for_other ne = elim (Bool-cases (ip == w.ip)) [
    | inl y ↦ absurd (ne ((==_iff _ _).0 y))
    | inr n ↦ go w.own (ip == w.ip) n
  ]
    where
      go : (a b : Bool) → b ≡ false → bit (a && b) ≡ 0
      go true b e = rw e refl
      go false b e = refl

  pub own_for_joined : w.own ≡ false → own_for ip w ≡ 0
  unfolding own_for
  own_for_joined e = rw e refl

  pub own_for_own : w.own ≡ true → ip ≡ w.ip → own_for ip w ≡ 1
  unfolding own_for
  own_for_own e q = rw (e, (==_iff _ _).1 q) refl
