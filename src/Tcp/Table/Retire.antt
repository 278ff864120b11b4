-- ===== src/Tcp/Table/Retire.antt =====
-- `_tcp_close` hands a block to the recycler, which puts it back as long as it is not closed.
use mathlib.Core.Option.{some-injective}
use ns_stack.Base.{
  ℕ, ◌≡◌, ◌≢◌, refl, sym, ap, subst, ◌∙◌, inl, inr, Option, none, some, List, All, put, put_cases,
  All-map,
}
use ns_stack.Tcp.{Tcb}
use ns_stack.Tcp.Table.{same_pair, pair_of, Tables, find_active, find_orphaned, block_at, enqueue}
use ns_stack.Tcp.Table.Consistent.{Orphan, with_hand, Distinct, IsConsistent, same_pair_iff}
use ns_stack.Tcp.Table.Keep.{enqueue-All, enqueue-Distinct}

-- What `_tcp_close` does to the tables at its end.
abbrev pub retired : Tables → ℕ → Tcb → Tables
retired t i b = record t {
  orphaned = put same_pair (pair_of b) i t.orphaned;
  queue = enqueue t.queue i;
}

clash : {k : ℕ} → some k ≢ none
clash e = cc

module _ (t : Tables) (i : ℕ) (b : Tcb) (at : block_at t i ≡ some b)
    (idle : find_active t (pair_of b) ≡ none) (free : find_orphaned t (pair_of b) ≡ none) where
  retired_orphan : (j : ℕ) → Orphan t j → Orphan (retired t i b) j × (j ≢ i)
  unfolding find_orphaned block_at
  retired_orphan j (d, e, o) =
      elim (put_cases same_pair same_pair_iff (pair_of b) (pair_of d) i t.orphaned) [
        | inl (same, now) ↦ absurd (clash (sym o ∙ (ap (find_orphaned t) same ∙ free)))
        | inr (other, now) ↦ (
          (d, e, now ∙ o),
          λ h. other (ap pair_of (some-injective _ _ (sym e ∙ (ap (block_at t) h ∙ at)))),
        )
      ]

  here_orphan : Orphan (retired t i b) i
  unfolding find_orphaned block_at
  here_orphan = (
    b,
    at,
    elim (put_cases same_pair same_pair_iff (pair_of b) (pair_of b) i t.orphaned) [
      | inl (same, now) ↦ now
      | inr (other, now) ↦ absurd (other refl)
    ],
  )

  enqueued :
      (q : List ℕ)
      → All (Orphan t) q
      → Distinct q
      → All (Orphan (retired t i b)) (enqueue q i) × Distinct (enqueue q i)
  enqueued q o d =
      let both = All-map (Orphan t) (λ j. Orphan (retired t i b) j × (j ≢ i)) q retired_orphan o in
      (
        enqueue-All (Orphan (retired t i b)) q i (All-map _ _ q (λ j x. x.0) both) here_orphan,
        enqueue-Distinct q i d (All-map _ _ q (λ j x. x.1) both),
      )

  waiting :
      (o : Option ℕ) (q : List ℕ)
      → All (Orphan t) (with_hand o q)
      → Distinct (with_hand o q)
      → All (Orphan (retired t i b)) (with_hand o (enqueue q i))
        × Distinct (with_hand o (enqueue q i))
  waiting none q h d = enqueued q h d
  waiting (some k) q h d =
      let (k_in, k_ne) = retired_orphan k h.0 in
      let (rest, apart) = enqueued q h.1 d.1 in
      ((k_in, rest), (enqueue-All (λ y. k ≢ y) q i d.0 k_ne, apart))

  pub retired-IsConsistent : IsConsistent t → IsConsistent (retired t i b)
  unfolding find_active find_orphaned block_at
  retired-IsConsistent v = record {
    active_in = v.active_in;
    orphaned_in = λ q j e. elim (put_cases same_pair same_pair_iff (pair_of b) q i t.orphaned) [
      | inl (same, now) ↦
          let i_is : i ≡ j = some-injective _ _ (sym now ∙ e) in
          (b, subst (λ k. block_at t k ≡ some b) i_is at, sym same)
      | inr (other, now) ↦ v.orphaned_in q j (sym now ∙ e)
    ];
    apart = λ q j e. elim (put_cases same_pair same_pair_iff (pair_of b) q i t.orphaned) [
      | inl (same, now) ↦ absurd (clash (sym e ∙ (ap (find_active t) same ∙ idle)))
      | inr (other, now) ↦ now ∙ v.apart q j e
    ];
    queued = (waiting t.hand t.queue v.queued v.once).0;
    once = (waiting t.hand t.queue v.queued v.once).1;
  }

-- The recycler puts back a block that is not closed yet.
pub requeued-IsConsistent :
    (t : Tables) (i : ℕ)
    → t.hand ≡ some i
    → IsConsistent t
    → IsConsistent (record t { queue = enqueue t.queue i; hand = none })
unfolding find_active find_orphaned block_at
requeued-IsConsistent t i h v =
    let q : All (Orphan t) (with_hand (some i) t.queue) =
      subst (λ o. All (Orphan t) (with_hand o t.queue)) h v.queued in
    let d : Distinct (with_hand (some i) t.queue) =
      subst (λ o. Distinct (with_hand o t.queue)) h v.once in
    record {
      active_in = v.active_in;
      orphaned_in = v.orphaned_in;
      apart = v.apart;
      queued = enqueue-All (Orphan t) t.queue i q.1 q.0;
      once =
          enqueue-Distinct t.queue i d.1
            (All-map (λ y. i ≢ y) (λ y. y ≢ i) t.queue (λ y ne e. ne (sym e)) d.0);
    }
