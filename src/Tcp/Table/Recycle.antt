-- ===== src/Tcp/Table/Recycle.antt =====
-- Closing a block and the steps of the recycler keep the tables consistent.
use mathlib.Core.Option.{some-injective}
use ns_stack.Base.{
  ℕ, ◌≡◌, refl, ap, subst, ◌∙◌, inl, inr, Option, none, some, List, [], ◌∷◌, All, remove,
  remove_cases,
}
use ns_stack.Tcp.{Config, State, close, Tcb, Env, Status, ok, fail, Out}
use ns_stack.Tcp.User
use ns_stack.Tcp.User.{tcp_send, tcp_receive}
use ns_stack.Tcp.Table.{
  same_pair, pair_of, Tables, find_active, find_orphaned, block_at, put_block, Done, closed,
  close_at, tcp_close,
}
use ns_stack.Tcp.Table.Step.{recycler_takes, recycler_settles, settled, settle_block}
use ns_stack.Tcp.Table.Ends.{SameEnds, tcp_close-SameEnds}
use ns_stack.Tcp.Table.Consistent.{
  IsConsistent, Orphan, Distinct, with_hand, same_pair_iff, block_at-put,
}
use ns_stack.Tcp.Table.Keep.{put-IsConsistent, remove-IsConsistent}
use ns_stack.Tcp.Table.Retire.{retired-IsConsistent, requeued-IsConsistent}
use ns_stack.Tcp.Table.Delete.{deleted-IsConsistent}
use ns_stack.Tcp.Table.Incoming.{SameEnds-pair}

module _ (c : Config) (env : Env) (t : Tables) (v : IsConsistent t) where
  -- `_tcp_close` on a block that no longer is in `active_tcb_map`.
  closed-IsConsistent :
      (i : ℕ) (b : Tcb) (o : Out) (s : Status)
      → block_at t i ≡ some b
      → SameEnds b o.tcb
      → find_active t (pair_of b) ≡ none
      → find_orphaned t (pair_of b) ≡ none
      → IsConsistent (closed t i o s).tables
  unfolding closed put_block find_active find_orphaned
  closed-IsConsistent i b o fail at ends idle free =
      put-IsConsistent t i b o.tcb at (SameEnds-pair b o.tcb ends) v
  closed-IsConsistent i b o ok at ends idle free =
      let own = SameEnds-pair b o.tcb ends in
      retired-IsConsistent (put_block t i (some o.tcb)) i o.tcb (block_at-put t i b (some o.tcb) at)
        (ap (find_active t) own ∙ idle) (ap (find_orphaned t) own ∙ free)
        (put-IsConsistent t i b o.tcb at own v)

-- A block is closed while no block is filed under its ends in `orphaned_tcb_map`.
module _ (c : Config) (env : Env) (t : Tables) (i : ℕ) (b : Tcb) (v : IsConsistent t)
    (at : block_at t i ≡ some b) (free : find_orphaned t (pair_of b) ≡ none) where
  without : Tables
  without = record t { active = remove same_pair (pair_of b) t.active }

  gone : find_active without (pair_of b) ≡ none
  unfolding without find_active
  gone = elim (remove_cases same_pair same_pair_iff (pair_of b) (pair_of b) t.active) [
    | inl (same, now) ↦ now
    | inr (other, now) ↦ absurd (other refl)
  ]

  close_at-IsConsistent :
      (x : Option Out) (d : Done)
      → User.tcp_close c env b ≡ x
      → elim x [ none ↦ none | some o ↦ some (closed without i o o.status) ] ≡ some d
      → IsConsistent d.tables
  unfolding without find_orphaned block_at
  close_at-IsConsistent none d q e = cc
  close_at-IsConsistent (some o) d q e =
      subst (λ x. IsConsistent x.tables) (some-injective _ _ e)
        (closed-IsConsistent c env without (remove-IsConsistent t (pair_of b) v) i b o o.status at
          (tcp_close-SameEnds c env b o q) gone free)

  pub tcp_close-IsConsistent : (d : Done) → tcp_close c env t i ≡ some d → IsConsistent d.tables
  unfolding tcp_close close_at without
  tcp_close-IsConsistent d e =
      close_at-IsConsistent (User.tcp_close c env b) d refl (rw (tcp_close, at, close_at) at e)

taken-IsConsistent :
    (t : Tables) (i : ℕ) (q : List ℕ)
    → t.hand ≡ none
    → t.queue ≡ i ∷ q
    → IsConsistent t
    → IsConsistent (record t { queue = q; hand = some i })
unfolding find_active find_orphaned block_at
taken-IsConsistent t i q h e v = record {
  active_in = v.active_in;
  orphaned_in = v.orphaned_in;
  apart = v.apart;
  queued = subst (All (Orphan t)) e (subst (λ o. All (Orphan t) (with_hand o t.queue)) h v.queued);
  once = subst Distinct e (subst (λ o. Distinct (with_hand o t.queue)) h v.once);
}

pub recycler_takes-IsConsistent : (t : Tables) → IsConsistent t → IsConsistent (recycler_takes t)
unfolding recycler_takes
recycler_takes-IsConsistent t v = go t.hand t.queue refl refl
  where
    go :
        (o : Option ℕ) (q : List ℕ)
        → t.hand ≡ o
        → t.queue ≡ q
        → IsConsistent (elim o [
          | some i ↦ t
          | none ↦ elim q [ [] ↦ t | i ∷ q' ↦ record t { queue = q'; hand = some i } ]
        ])
    go (some i) q h e = v
    go none [] h e = v
    go none (i ∷ q) h e = taken-IsConsistent t i q h e v

module _ (t : Tables) (i : ℕ) (v : IsConsistent t) (held : t.hand ≡ some i) where
  settled-IsConsistent :
      (b : Tcb) (s : State) → block_at t i ≡ some b → IsConsistent (settled t i b s)
  unfolding settled
  settled-IsConsistent b close at = deleted-IsConsistent t i b held at v
  settled-IsConsistent b s at = requeued-IsConsistent t i held v

  pub held_there : (b : Tcb) × (block_at t i ≡ some b)
  held_there =
      let q : All (Orphan t) (with_hand (some i) t.queue) =
        subst (λ o. All (Orphan t) (with_hand o t.queue)) held v.queued in
      (q.0.0, q.0.1)

  settle_block-IsConsistent :
      (x : Option Tcb) (u : Tables)
      → block_at t i ≡ x
      → settle_block t i x ≡ some u
      → IsConsistent u
  settle_block-IsConsistent none u q e = cc
  settle_block-IsConsistent (some b) u q e =
      subst IsConsistent (some-injective _ _ e) (settled-IsConsistent b b.state q)

pub recycler_settles-IsConsistent :
    (t u : Tables) → IsConsistent t → recycler_settles t ≡ some u → IsConsistent u
unfolding recycler_settles
recycler_settles-IsConsistent t u v e = go t.hand refl e
  where
    go :
        (o : Option ℕ)
        → t.hand ≡ o
        → elim o [ none ↦ some t | some i ↦ settle_block t i (block_at t i) ] ≡ some u
        → IsConsistent u
    go none h e = subst IsConsistent (some-injective _ _ e) v
    go (some i) h e = settle_block-IsConsistent t i v h (block_at t i) u refl e
