-- ===== src/Tcp/Table/Keep.antt =====
-- The changes that the operations on the tables are made of keep the tables consistent.
use mathlib.Core.Option.{some-injective}
use ns_stack.Base.{
  ℕ, ◌≡◌, ◌≢◌, refl, sym, ap, subst, ◌∙◌, ◌⊎◌, inl, inr, none, some, List, [], ◌∷◌, ◌++◌, leb, ◌==◌,
  Bool-cases, length, All, ==_iff, lookup, remove, put_cases, remove_cases, All-map, All-append,
}
use ns_stack.Tcp.{Tcb}
use ns_stack.Tcp.Table.{
  SocketPair, same_pair, pair_of, Tables, find_active, find_orphaned, block_at, put_block,
  add_block, enqueue, orphan_limit,
}
use ns_stack.Tcp.Table.Consistent.{
  Points, Orphan, pending, Distinct, IsConsistent, same_pair_iff, block_at-put, block_at-put_ne,
  get_elem?-append, get_elem?-append_here, block_at-lt,
}

-- The block at `j` keeps its ends.
Kept : Tables → Tables → ℕ → Type 0
Kept t u j =
    (d : Tcb)
    → block_at t j ≡ some d
    → (d' : Tcb) × (block_at u j ≡ some d') × (pair_of d' ≡ pair_of d)

Points-Kept : (t u : Tables) (j : ℕ) (p : SocketPair) → Kept t u j → Points t j p → Points u j p
unfolding Kept
Points-Kept t u j p k (d, at, e) = let (d', at', e') = k d at in (d', at', e' ∙ e)

Orphan-Kept :
    (t u : Tables) (j : ℕ)
    → Kept t u j
    → ((p : SocketPair) → find_orphaned t p ≡ some j → find_orphaned u p ≡ some j)
    → Orphan t j
    → Orphan u j
unfolding Kept
Orphan-Kept t u j k f (d, at, o) =
    let (d', at', e') = k d at in (d', at', f (pair_of d') (ap (find_orphaned t) e' ∙ o))

-- A block is replaced by one with the same ends.
module _ (t : Tables) (i : ℕ) (b u : Tcb) (at : block_at t i ≡ some b)
    (ends : pair_of u ≡ pair_of b) where
  put-Kept : (j : ℕ) → Kept t (put_block t i (some u)) j
  unfolding Kept
  put-Kept j d e = elim (Bool-cases (i == j)) [
    | inl y ↦
        let here : i ≡ j = (==_iff i j).0 y in
        let d_is : b ≡ d = some-injective _ _ (sym at ∙ (ap (block_at t) here ∙ e)) in
        (
          u,
          subst (λ k. block_at (put_block t i (some u)) k ≡ some u) here
              (block_at-put t i b (some u) at),
          ends ∙ ap pair_of d_is,
        )
    | inr n ↦ (d, block_at-put_ne t i j (some u) (λ h. cc (n, (==_iff i j).1 h)) ∙ e, refl)
  ]

  pub put-IsConsistent : IsConsistent t → IsConsistent (put_block t i (some u))
  unfolding find_active find_orphaned put_block
  put-IsConsistent v = record {
    active_in = λ p j e. Points-Kept t _ j p (put-Kept j) (v.active_in p j e);
    orphaned_in = λ p j e. Points-Kept t _ j p (put-Kept j) (v.orphaned_in p j e);
    apart = v.apart;
    queued =
        All-map (Orphan t) (Orphan _) (pending t) (λ j. Orphan-Kept t _ j (put-Kept j) (λ p e. e))
          v.queued;
    once = v.once;
  }

-- `active_tcb_map` gets a new block.
module _ (t : Tables) (p : SocketPair) (b : Tcb) (own : pair_of b ≡ p)
    (new : find_active t p ≡ none) (new' : find_orphaned t p ≡ none) where
  add-Kept : (j : ℕ) → Kept t (add_block t p b) j
  unfolding Kept block_at add_block
  add-Kept j d e =
      (d, rw (block_at, get_elem?-append t.heap (some b ∷ []) j (block_at-lt t j d e)) e, refl)

  add_here : block_at (add_block t p b) (length t.heap) ≡ some b
  unfolding block_at add_block
  add_here = rw (block_at, get_elem?-append_here t.heap (some b)) refl

  pub add-IsConsistent : IsConsistent t → IsConsistent (add_block t p b)
  unfolding find_active find_orphaned add_block
  add-IsConsistent v = record {
    active_in = λ q j e. elim (put_cases same_pair same_pair_iff p q (length t.heap) t.active) [
      | inl (same, at) ↦
          let j_is : length t.heap ≡ j = some-injective _ _ (sym at ∙ e) in
          (b, subst (λ k. block_at (add_block t p b) k ≡ some b) j_is add_here, own ∙ sym same)
      | inr (other, at) ↦ Points-Kept t _ j q (add-Kept j) (v.active_in q j (sym at ∙ e))
    ];
    orphaned_in = λ q j e. Points-Kept t _ j q (add-Kept j) (v.orphaned_in q j e);
    apart = λ q j e. elim (put_cases same_pair same_pair_iff p q (length t.heap) t.active) [
      | inl (same, at) ↦ ap (find_orphaned t) same ∙ new'
      | inr (other, at) ↦ v.apart q j (sym at ∙ e)
    ];
    queued =
        All-map (Orphan t) (Orphan _) (pending t) (λ j. Orphan-Kept t _ j (add-Kept j) (λ p e. e))
          v.queued;
    once = v.once;
  }

-- `active_tcb_map` loses an entry.
pub remove-IsConsistent :
    (t : Tables) (p : SocketPair)
    → IsConsistent t
    → IsConsistent (record t { active = remove same_pair p t.active })
unfolding find_active find_orphaned block_at
remove-IsConsistent t p v = record {
  active_in = λ q j e. v.active_in q j (still q j e);
  orphaned_in = v.orphaned_in;
  apart = λ q j e. v.apart q j (still q j e);
  queued = v.queued;
  once = v.once;
}
  where
    still :
        (q : SocketPair) (j : ℕ)
        → lookup same_pair q (remove same_pair p t.active) ≡ some j
        → lookup same_pair q t.active ≡ some j
    still q j e = elim (remove_cases same_pair same_pair_iff p q t.active) [
      | inl (same, at) ↦ cc
      | inr (other, at) ↦ sym at ∙ e
    ]

Distinct-snoc :
    (xs : List ℕ) (i : ℕ) → Distinct xs → All (λ y. y ≢ i) xs → Distinct (xs ++ (i ∷ []))
Distinct-snoc [] i d h = (tt, tt)
Distinct-snoc (x ∷ xs) i d h =
    (All-append (λ y. x ≢ y) xs (i ∷ []) d.0 (h.0, tt), Distinct-snoc xs i d.1 h.1)

-- A queue that may have been given one more block, if it had room.
enqueue_cases : (q : List ℕ) (i : ℕ) → (enqueue q i ≡ q) ⊎ (enqueue q i ≡ q ++ (i ∷ []))
enqueue_cases q i = elim (Bool-cases (leb orphan_limit (length q))) [
  | inl full ↦ inl (rw (enqueue, full) refl)
  | inr room ↦ inr (rw (enqueue, room) refl)
]

pub enqueue-All : (P : ℕ → Type 0) (q : List ℕ) (i : ℕ) → All P q → P i → All P (enqueue q i)
enqueue-All P q i h k = elim (enqueue_cases q i) [
  | inl e ↦ subst (All P) (sym e) h
  | inr e ↦ subst (All P) (sym e) (All-append P q (i ∷ []) h (k, tt))
]

pub enqueue-Distinct :
    (q : List ℕ) (i : ℕ) → Distinct q → All (λ y. y ≢ i) q → Distinct (enqueue q i)
enqueue-Distinct q i d h = elim (enqueue_cases q i) [
  | inl e ↦ subst Distinct (sym e) d
  | inr e ↦ subst Distinct (sym e) (Distinct-snoc q i d h)
]
