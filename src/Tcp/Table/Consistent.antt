-- ===== src/Tcp/Table/Consistent.antt =====
-- The tables agree with the blocks: what keeps the pointers of src/pnx_tcp.cc from dangling.
use mathlib.Core.Option.{some-injective}
use ns_stack.Base.{
  ℕ, zero, suc, ◌<◌, ◌≡◌, ◌≢◌, refl, sym, ap, ◌∙◌, ◌↔◌, true, Option, none, some, List, [], ◌∷◌,
  ◌++◌, arith, length, get_elem?, All, get_elem?-set_self, get_elem?-set_ne,
}
use ns_stack.Tcp.{Tcb}
use ns_stack.Tcp.Table.{
  SocketPair, same_pair, pair_of, Tables, find_active, find_orphaned, block_at, put_block,
}

SocketPair-ext :
    (p q : SocketPair)
    → p.local.addr ≡ q.local.addr
    → p.remote.addr ≡ q.remote.addr
    → p.local.port ≡ q.local.port
    → p.remote.port ≡ q.remote.port
    → p ≡ q
SocketPair-ext p q a b d e = ground (arith, a, b, d, e)

pub same_pair_iff : (p q : SocketPair) → (same_pair p q ≡ true) ↔ (p ≡ q)
unfolding same_pair
same_pair_iff p q = (λ h. ground arith, λ e. rw e (ground arith))

-- The block at `i` is there, and its ends are those of `p`.
abbrev pub Points : Tables → ℕ → SocketPair → Type 0
Points t i p = (b : Tcb) × (block_at t i ≡ some b) × (pair_of b ≡ p)

-- The block at `i` is there, and `orphaned_tcb_map` has it.
abbrev pub Orphan : Tables → ℕ → Type 0
Orphan t i = (b : Tcb) × (block_at t i ≡ some b) × (find_orphaned t (pair_of b) ≡ some i)

-- The blocks that the recycler still has to delete.
abbrev pub with_hand : Option ℕ → List ℕ → List ℕ
with_hand none q = q
with_hand (some i) q = i ∷ q

abbrev pub pending : Tables → List ℕ
pending t = with_hand t.hand t.queue

abbrev pub Distinct : List ℕ → Type 0
Distinct [] = Unit
Distinct (x ∷ xs) = All (λ y. x ≢ y) xs × Distinct xs

-- Both maps lead to blocks with the ends that they are filed under, never both for the same ends, and
-- the recycler has each of its blocks once.
pub record IsConsistent (t : Tables) : Type 0 where
  pub active_in : (p : SocketPair) (i : ℕ) → find_active t p ≡ some i → Points t i p
  pub orphaned_in : (p : SocketPair) (i : ℕ) → find_orphaned t p ≡ some i → Points t i p
  pub apart : (p : SocketPair) (i : ℕ) → find_active t p ≡ some i → find_orphaned t p ≡ none
  pub queued : All (Orphan t) (pending t)
  pub once : Distinct (pending t)

-- A block is filed under one pair only.
pub active_once :
    (t : Tables) (p q : SocketPair) (i : ℕ)
    → IsConsistent t
    → find_active t p ≡ some i
    → find_active t q ≡ some i
    → p ≡ q
active_once t p q i v x y =
    let (b, at, e) = v.active_in p i x in
    let (d, at', e') = v.active_in q i y in
    let same : b ≡ d = some-injective _ _ (sym at ∙ at') in sym e ∙ (ap pair_of same ∙ e')

get_elem?-lt : {A : Type 0} (l : List A) (i : ℕ) (a : A) → get_elem? l i ≡ some a → i < length l
get_elem?-lt [] i a e = cc
get_elem?-lt (x ∷ l) zero a e = omega arith
get_elem?-lt (x ∷ l) (suc i) a e = omega (arith, get_elem?-lt l i a e)

pub get_elem?-append :
    {A : Type 0} (l m : List A) (i : ℕ) → i < length l → get_elem? (l ++ m) i ≡ get_elem? l i
get_elem?-append [] m i h = absurd (omega arith)
get_elem?-append (x ∷ l) m zero h = refl
get_elem?-append (x ∷ l) m (suc i) h = get_elem?-append l m i (omega arith)

pub get_elem?-append_here :
    {A : Type 0} (l : List A) (a : A) → get_elem? (l ++ (a ∷ [])) (length l) ≡ some a
get_elem?-append_here [] a = refl
get_elem?-append_here (x ∷ l) a = get_elem?-append_here l a

-- A pointer to a block is an index of the heap.
pub block_at-lt : (t : Tables) (i : ℕ) (b : Tcb) → block_at t i ≡ some b → i < length t.heap
unfolding block_at
block_at-lt t i b e = go (get_elem? t.heap i) refl e
  where
    go :
        (o : Option (Option Tcb))
        → get_elem? t.heap i ≡ o
        → elim o [ none ↦ none | some s ↦ s ] ≡ some b
        → i < length t.heap
    go none q e = cc
    go (some s) q e = get_elem?-lt t.heap i s q

pub block_at-put :
    (t : Tables) (i : ℕ) (b : Tcb) (o : Option Tcb)
    → block_at t i ≡ some b
    → block_at (put_block t i o) i ≡ o
unfolding block_at put_block
block_at-put t i b o e = rw (block_at, get_elem?-set_self t.heap i o (block_at-lt t i b e)) refl

pub block_at-put_ne :
    (t : Tables) (i j : ℕ) (o : Option Tcb) → i ≢ j → block_at (put_block t i o) j ≡ block_at t j
unfolding block_at put_block
block_at-put_ne t i j o ne = rw (block_at, get_elem?-set_ne t.heap o ne) refl
