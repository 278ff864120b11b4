-- ===== src/Tcp/Table/Reach.antt =====
-- Everything that happens to the tables of src/pnx_tcp.cc, and that it keeps them consistent. Each event
-- holds `tcp_lock`, so events do not interleave.
use ns_stack.Base.{
  ℕ, ◌≡◌, refl, ◌∙◌, inl, inr, Bool, true, false, Option, none, some, List, [], ◌==◌, if◌then◌else◌,
  Bool-cases, lookup, put, remove,
}
use ns_stack.Segment.{Segment}
use ns_stack.Tcp.{Config, SockAddr, Tcb, Env, Status, ok, fail, Out}
use ns_stack.Tcp.User.{tcp_send, tcp_receive}
use ns_stack.Tcp.Table.{
  SocketPair, pair_of, Tables, find_active, find_orphaned, find_listening, block_at, put_block,
  Opened, tcp_open, register_listening, unregister_listening, Done, is_some, tcp_close,
}
use ns_stack.Tcp.Table.Step.{
  Handled, find_block, tcp_segment_handler, timer_round, recycler_takes, recycler_settles, settled,
  settle_block,
}
use ns_stack.Tcp.Table.Ends.{tcp_send-SameEnds, tcp_receive-SameEnds}
use ns_stack.Tcp.Table.Consistent.{IsConsistent}
use ns_stack.Tcp.Table.Keep.{put-IsConsistent}
use ns_stack.Tcp.Table.Opening.{tcp_open-IsConsistent}
use ns_stack.Tcp.Table.Incoming.{
  SameEnds-pair, tcp_segment_handler-IsConsistent, timer_round-IsConsistent,
}
use ns_stack.Tcp.Table.Recycle.{
  tcp_close-IsConsistent, recycler_takes-IsConsistent, recycler_settles-IsConsistent, held_there,
}

-- What happens to the tables: a call of the socket layer, an incoming segment, a round of a block's
-- timer, or a step of the recycler.
pub data Moves (c : Config) (t : Tables) : Tables → Type 0 where
  opens :
      (env : Env) (rand : ℕ) (local : SockAddr) (remote : Option SockAddr) (syn : Option Segment)
      (o : Opened)
      → tcp_open c env rand t local remote syn ≡ some o
      → Moves c t o.tables
  listens : (sb port : ℕ) → Moves c t (register_listening t sb port).0
  unlistens : (sb port : ℕ) → Moves c t (unregister_listening t sb port).0
  hears :
      (env : Env) (rand : ℕ) (buf : List ℕ) (src dst : ℕ) (h : Handled)
      → tcp_segment_handler c env rand t buf src dst ≡ some h
      → Moves c t h.tables
  ticks : (env : Env) (i : ℕ) (h : Handled) → timer_round c env t i ≡ some h → Moves c t h.tables
  writes :
      (env : Env) (i n : ℕ) (b : Tcb) (bytes : List ℕ) (o : Out)
      → block_at t i ≡ some b
      → tcp_send c env b bytes ≡ some (o, n)
      → Moves c t (put_block t i (some o.tcb))
  reads :
      (i n : ℕ) (b u : Tcb) (bytes : List ℕ)
      → block_at t i ≡ some b
      → tcp_receive c b n ≡ some (u, bytes)
      → Moves c t (put_block t i (some u))
  closes :
      (env : Env) (i : ℕ) (b : Tcb) (d : Done)
      → block_at t i ≡ some b
      → tcp_close c env t i ≡ some d
      → Moves c t d.tables
  takes : Moves c t (recycler_takes t)
  settles : (u : Tables) → recycler_settles t ≡ some u → Moves c t u

-- A close is free if `orphaned_tcb_map` has no block with the ends of the one that is closed.
abbrev pub IsFree : {c : Config} {t u : Tables} → Moves c t u → Type 0
IsFree {t = t} (Moves.closes env i b d at e) = find_orphaned t (pair_of b) ≡ none
IsFree m = Unit

listening-IsConsistent :
    (t : Tables) (l : List (ℕ × ℕ)) → IsConsistent t → IsConsistent (record t { listening = l })
unfolding find_active find_orphaned block_at
listening-IsConsistent t l v = record {
  active_in = v.active_in;
  orphaned_in = v.orphaned_in;
  apart = v.apart;
  queued = v.queued;
  once = v.once;
}

registered :
    (t : Tables) (sb port : ℕ) → IsConsistent t → IsConsistent (register_listening t sb port).0
unfolding register_listening
registered t sb port v = elim (Bool-cases (is_some (find_listening t port))) [
  | inl y ↦ rw y v
  | inr n ↦ rw n (listening-IsConsistent t (put ◌==◌ port sb t.listening) v)
]

unregistered :
    (t : Tables) (sb port : ℕ) → IsConsistent t → IsConsistent (unregister_listening t sb port).0
unfolding unregister_listening
unregistered t sb port v = go (find_listening t port)
  where
    at : Bool → Tables × Status
    at y = if y then (record t { listening = remove ◌==◌ port t.listening }, ok) else (t, fail)

    match : (y : Bool) → IsConsistent (at y).0
    match true = listening-IsConsistent t (remove ◌==◌ port t.listening) v
    match false = v

    go :
        (x : Option ℕ)
        → IsConsistent
            (elim x as (λ z. Tables × Status) [
              | none ↦ (t, fail)
              | some owner ↦ at (owner == sb)
            ]).0
    go none = v
    go (some owner) = match (owner == sb)

pub Moves-IsConsistent :
    {c : Config} {t u : Tables} (m : Moves c t u) → IsFree m → IsConsistent t → IsConsistent u
Moves-IsConsistent {c} {t} m f v = go m f
  where
    go : {u : Tables} (m : Moves c t u) → IsFree m → IsConsistent u
    go (Moves.opens env rand local remote syn o e) f =
        tcp_open-IsConsistent c env rand t v local remote syn o e
    go (Moves.listens sb port) f = registered t sb port v
    go (Moves.unlistens sb port) f = unregistered t sb port v
    go (Moves.hears env rand buf src dst h e) f =
        tcp_segment_handler-IsConsistent c env t v rand buf src dst h e
    go (Moves.ticks env i h e) f = timer_round-IsConsistent c env t v i h e
    go (Moves.writes env i n b bytes o at e) f =
        put-IsConsistent t i b o.tcb at
          (SameEnds-pair b o.tcb (tcp_send-SameEnds c env b bytes o n e)) v
    go (Moves.reads i n b u bytes at e) f =
        put-IsConsistent t i b u at (SameEnds-pair b u (tcp_receive-SameEnds c b u n bytes e)) v
    go (Moves.closes env i b d at e) free = tcp_close-IsConsistent c env t i b v at free d e
    go Moves.takes f = recycler_takes-IsConsistent t v
    go (Moves.settles u e) f = recycler_settles-IsConsistent t u v e

-- The tables of the module before anything happens.
abbrev pub no_tables : Tables
no_tables = record {
  active = [];
  orphaned = [];
  queue = [];
  hand = none;
  listening = [];
  heap = [];
}

no_tables-IsConsistent : IsConsistent no_tables
unfolding find_active find_orphaned lookup
no_tables-IsConsistent = record {
  active_in = λ p i e. cc;
  orphaned_in = λ p i e. cc;
  apart = λ p i e. refl;
  queued = tt;
  once = tt;
}

-- The tables that a run of such events leads to.
pub data Reached (c : Config) : Tables → Type 0 where
  start : Reached c no_tables
  go_on : {t u : Tables} → Reached c t → Moves c t u → Reached c u

-- All closes of a run are free.
abbrev pub ClosesFree : {c : Config} {t : Tables} → Reached c t → Type 0
ClosesFree start = Unit
ClosesFree (go_on r m) = ClosesFree r × IsFree m

-- Whatever sockets, segments, timers and the recycler do, in any order, if no block is closed while
-- `orphaned_tcb_map` has one with its ends (so that none is closed again that waits for the recycler):
-- both maps lead to blocks that are there and have the ends that they are filed under, never to two
-- blocks for the same ends, and the recycler's blocks are there, distinct, and the ones that
-- `orphaned_tcb_map` has.
pub Reached-IsConsistent :
    {c : Config} {t : Tables} (r : Reached c t) → ClosesFree r → IsConsistent t
Reached-IsConsistent start f = no_tables-IsConsistent
Reached-IsConsistent (go_on r m) f = Moves-IsConsistent m f.1 (Reached-IsConsistent r f.0)

-- In any tables that such a run leads to, the recycler never uses a deleted block: if no block is
-- closed while `orphaned_tcb_map` has one with its ends.
pub recycler_settles_total :
    {c : Config} {t : Tables} (r : Reached c t)
    → ClosesFree r
    → (u : Tables) × (recycler_settles t ≡ some u)
unfolding recycler_settles
recycler_settles_total {t = t} r f = go t.hand refl
  where
    v : IsConsistent t
    v = Reached-IsConsistent r f

    go :
        (o : Option ℕ)
        → t.hand ≡ o
        → (u : Tables) × (elim o [ none ↦ some t | some i ↦ settle_block t i (block_at t i) ]
            ≡ some u)
    go none h = (t, refl)
    go (some i) h = let (b, at) = held_there t i v h in (settled t i b b.state, rw (at) refl)

-- In any tables that a run leads to in which no block is closed while `orphaned_tcb_map` has one with
-- its ends, the block that a segment is handed to is there, and its ends are exactly the segment's.
pub find_block-Points :
    {c : Config} {t : Tables} (p : SocketPair) (i : ℕ) (r : Reached c t)
    → ClosesFree r
    → find_block t p ≡ some i
    → (b : Tcb) × (block_at t i ≡ some b) × (pair_of b ≡ p)
unfolding find_block
find_block-Points {t = t} p i r f e = go (find_active t p) refl e
  where
    v : IsConsistent t
    v = Reached-IsConsistent r f

    go :
        (x : Option ℕ)
        → find_active t p ≡ x
        → elim x [ some j ↦ some j | none ↦ find_orphaned t p ] ≡ some i
        → (b : Tcb) × (block_at t i ≡ some b) × (pair_of b ≡ p)
    go (some j) q e = v.active_in p i (q ∙ e)
    go none q e = v.orphaned_in p i e
