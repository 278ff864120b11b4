-- ===== src/Tcp/Table/Delete.antt =====
-- The recycler deletes a block that is closed.
use mathlib.Core.Option.{some-injective}
use ns_stack.Base.{
  ℕ, ◌≡◌, ◌≢◌, sym, ap, subst, ◌∙◌, inl, inr, none, some, All, remove, remove_cases, All-map,
  All-both,
}
use ns_stack.Tcp.{Tcb}
use ns_stack.Tcp.Table.{
  SocketPair, same_pair, pair_of, Tables, find_active, find_orphaned, block_at, put_block,
}
use ns_stack.Tcp.Table.Consistent.{
  Points, Orphan, with_hand, Distinct, IsConsistent, same_pair_iff, block_at-put_ne,
}

clash : {k : ℕ} → some k ≢ none
clash e = cc

-- The tables without the block.
abbrev pub deleted : Tables → ℕ → Tcb → Tables
deleted t i b = record (put_block t i none) {
  orphaned = remove same_pair (pair_of b) t.orphaned;
  hand = none;
}

module _ (t : Tables) (i : ℕ) (b : Tcb) (held : t.hand ≡ some i) (at : block_at t i ≡ some b)
    (v : IsConsistent t) where
  held_orphans : All (Orphan t) (with_hand (some i) t.queue)
  held_orphans = subst (λ o. All (Orphan t) (with_hand o t.queue)) held v.queued

  held_distinct : Distinct (with_hand (some i) t.queue)
  held_distinct = subst (λ o. Distinct (with_hand o t.queue)) held v.once

  mine : find_orphaned t (pair_of b) ≡ some i
  mine =
      let (d, e, o) = held_orphans.0 in
      subst (λ x. find_orphaned t (pair_of x) ≡ some i) (some-injective _ _ (sym e ∙ at)) o

  still_there :
      (j : ℕ) (d : Tcb) → i ≢ j → block_at t j ≡ some d → block_at (deleted t i b) j ≡ some d
  unfolding block_at
  still_there j d ne e = block_at-put_ne t i j none ne ∙ e

  Points-deleted : (j : ℕ) (p : SocketPair) → i ≢ j → Points t j p → Points (deleted t i b) j p
  Points-deleted j p ne (d, e, o) = (d, still_there j d ne e, o)

  unfiled :
      (p : SocketPair) (j : ℕ)
      → find_orphaned (deleted t i b) p ≡ some j
      → (find_orphaned t p ≡ some j) × (p ≢ pair_of b)
  unfolding find_orphaned
  unfiled p j e = elim (remove_cases same_pair same_pair_iff (pair_of b) p t.orphaned) [
    | inl (same, now) ↦ absurd (clash (sym e ∙ now))
    | inr (other, now) ↦ (sym now ∙ e, other)
  ]

  other_orphan : (j : ℕ) → Orphan t j → i ≢ j → Orphan (deleted t i b) j
  unfolding find_orphaned
  other_orphan j (d, e, o) ne = (
    d,
    still_there j d ne e,
    elim (remove_cases same_pair same_pair_iff (pair_of b) (pair_of d) t.orphaned) [
      | inl (same, now) ↦
          absurd (ne (some-injective _ _ (sym mine ∙ (ap (find_orphaned t) (sym same) ∙ o))))
      | inr (other, now) ↦ now ∙ o
    ],
  )

  own_pair : (j : ℕ) (p : SocketPair) → i ≡ j → Points t j p → pair_of b ≡ p
  own_pair j p same (d, e, own) =
      ap pair_of (some-injective _ _ (sym at ∙ (ap (block_at t) same ∙ e))) ∙ own

  not_active : (p : SocketPair) (j : ℕ) → find_active t p ≡ some j → i ≢ j
  not_active p j e same =
      let ours : pair_of b ≡ p = own_pair j p same (v.active_in p j e) in
      clash (sym mine ∙ (ap (find_orphaned t) ours ∙ v.apart p j e))

  not_orphaned : (p : SocketPair) (j : ℕ) → find_orphaned t p ≡ some j → p ≢ pair_of b → i ≢ j
  not_orphaned p j e other same = other (sym (own_pair j p same (v.orphaned_in p j e)))

  pub deleted-IsConsistent : IsConsistent (deleted t i b)
  unfolding find_active find_orphaned put_block
  deleted-IsConsistent = record {
    active_in = λ p j e. Points-deleted j p (not_active p j e) (v.active_in p j e);
    orphaned_in = λ p j e.
        let (old, other) = unfiled p j e in
        Points-deleted j p (not_orphaned p j old other) (v.orphaned_in p j old);
    apart = λ p j e. elim (remove_cases same_pair same_pair_iff (pair_of b) p t.orphaned) [
      | inl (same, now) ↦ now
      | inr (other, now) ↦ now ∙ v.apart p j e
    ];
    queued =
        All-map (λ j. Orphan t j × (i ≢ j)) (Orphan (deleted t i b)) t.queue
          (λ j x. other_orphan j x.0 x.1)
          (All-both (Orphan t) (λ j. i ≢ j) t.queue held_orphans.1 held_distinct.0);
    once = held_distinct.1;
  }
