-- ===== src/Tcp/Table/Exit.antt =====
-- What the TCP layer of src/pnx_tcp.cc does at exit: `_tcp_close` on every connection that a socket owns.
use ns_stack.Base.{
  ℕ, ◌<◌, ◌≡◌, refl, sym, subst, ◌∙◌, inl, inr, Bool, true, false, Option, none, some, List, [],
  ◌∷◌, ◌++◌, map, ◌==◌, Bool-cases, All, All-map, ==_iff,
}
use mathlib.Core.Option.{some-injective}
use ns_stack.Segment.{Segment, tcphdr_size}
use ns_stack.Tcp.{
  Config, State, close, syn_sent, syn_recv, established, fin_wait1, fin_wait2, closing, time_wait,
  close_wait, last_ack, listen, Tcb, Env, Status, ok, fail, Out, goto, fin_mark,
}
use ns_stack.Tcp.Ready.{IsReady}
use ns_stack.Tcp.User
use ns_stack.Tcp.User.Transmit.{send_ctrl-Keeps}
use ns_stack.Tcp.Connection.Safe.{tcp_close-Ends}
use ns_stack.Tcp.Table.{Tables, block_at, put_block, Done, closed, close_at}
use ns_stack.Tcp.Table.Consistent.{block_at-put, block_at-put_ne}

-- `_tcp_close` on the block at `i`; `none` is a failed assertion or a deleted block.
unfoldable pub close_one : Config → Env → Tables → ℕ → Option Done
unfolding block_at close_at
close_one c env t i = elim (block_at t i) [ none ↦ none | some b ↦ close_at c env t i b ]

-- The loop, with what it has sent.
unfoldable pub close_each : Config → Env → Tables → List ℕ → Option (Tables × List Segment)
unfolding close_one
close_each c env t [] = some (t, [])
close_each c env t (i ∷ is) = elim (close_one c env t i) [
  | none ↦ none
  | some d ↦ elim (close_each c env d.tables is) [
    | none ↦ none
    | some r ↦ some (r.0, d.sent ++ r.1)
  ]
]

-- The connections of `active_tcb_map`, which keeps them.
unfoldable pub close_active : Config → Env → Tables → Option (Tables × List Segment)
unfolding close_each
close_active c env t = close_each c env t (map (λ e. e.1) t.active)

-- The states of a connection that its own side has closed.
unfoldable pub is_over : State → Bool
is_over syn_sent = false
is_over syn_recv = false
is_over established = false
is_over close_wait = false
is_over listen = false
is_over _ = true

-- The connection is closed by its own side, and no assertion on its block fails.
pub record IsOver (c : Config) (b : Tcb) : Type 0 where
  pub ready : IsReady c b
  pub over : is_over b.state ≡ true

-- There is a block with the property at the index.
abbrev pub Holding : (Tcb → Type 0) → Tables → ℕ → Type 0
Holding P t i = (b : Tcb) × (block_at t i ≡ some b) × P b

tcp_close-over :
    (c : Config) (env : Env) (t : Tcb) (o : Out)
    → User.tcp_close c env t ≡ some o
    → is_over o.tcb.state ≡ true
unfolding User.tcp_close is_over
tcp_close-over c env t o e = go t.state refl e
  where
    stays : (s : State) (q : State) → is_over s ≡ true → q ≡ s → is_over q ≡ true
    stays s q h p = subst (λ x. is_over x ≡ true) (sym p) h

    left :
        (p : Tcb) (s : Status)
        → is_over p.state ≡ true
        → some (record { tcb = p; sent = []; status = s }) ≡ some o
        → is_over o.tcb.state ≡ true
    left p s h q = subst (λ x. is_over x.tcb.state ≡ true) (some-injective _ _ q) h

    at : (s : State) → t.state ≡ s → is_over s ≡ true → is_over t.state ≡ true
    at s q h = stays s t.state h q

    go :
        (s : State) → t.state ≡ s → User.close_block c env t s ≡ some o → is_over o.tcb.state ≡ true
    go close q e = left t ok (at close q refl) e
    go fin_wait1 q e = left t ok (at fin_wait1 q refl) e
    go fin_wait2 q e = left t ok (at fin_wait2 q refl) e
    go closing q e = left t ok (at closing q refl) e
    go last_ack q e = left t ok (at last_ack q refl) e
    go time_wait q e = left t ok (at time_wait q refl) e
    go syn_sent q e = left (goto t close) ok refl e
    go listen q e = left (goto t close) ok refl e
    go syn_recv q e =
        stays fin_wait1 _ refl (send_ctrl-Keeps c env (goto t fin_wait1) fin_mark o e).same_state
    go established q e =
        stays fin_wait1 _ refl (send_ctrl-Keeps c env (goto t fin_wait1) fin_mark o e).same_state
    go close_wait q e =
        stays last_ack _ refl (send_ctrl-Keeps c env (goto t last_ack) fin_mark o e).same_state

closed-heap :
    (t : Tables) (i : ℕ) (o : Out) (s : Status) (j : ℕ)
    → block_at (closed t i o s).tables j ≡ block_at (put_block t i (some o.tcb)) j
unfolding closed block_at
closed-heap t i o ok j = refl
closed-heap t i o fail j = refl

module _ (t : Tables) (i : ℕ) (b : Tcb) (o : Out) (at : block_at t i ≡ some b) where
  kept :
      (P : Tcb → Type 0) (s : Status)
      → P o.tcb
      → (j : ℕ) → Holding P t j
      → Holding P (closed t i o s).tables j
  kept P s h j (d, e, p) = elim (Bool-cases (i == j)) [
    | inl y ↦ (
      o.tcb,
      closed-heap t i o s j
          ∙ subst (λ k. block_at (put_block t i (some o.tcb)) k ≡ some o.tcb) ((==_iff i j).0 y)
              (block_at-put t i b (some o.tcb) at),
      h,
    )
    | inr n ↦ (
      d,
      closed-heap t i o s j
          ∙ (block_at-put_ne t i j (some o.tcb) (λ q. cc (n, (==_iff i j).1 q)) ∙ e),
      p,
    )
  ]

  placed : (s : Status) → block_at (closed t i o s).tables i ≡ some o.tcb
  placed s = closed-heap t i o s i ∙ block_at-put t i b (some o.tcb) at

-- A block of the heap is closed, and no other is worse for it.
record Closes (c : Config) (t : Tables) (i : ℕ) (p : Option Done) : Type 0 where
  done : Done
  result : p ≡ some done
  over : Holding (IsOver c) done.tables i
  lives : (j : ℕ) → Holding (IsReady c) t j → Holding (IsReady c) done.tables j
  overs : (j : ℕ) → Holding (IsOver c) t j → Holding (IsOver c) done.tables j

-- What the loop leaves.
pub record ClosesAll (c : Config) (t : Tables) (is : List ℕ) (p : Option (Tables × List Segment))
    : Type 0 where
  pub left : Tables × List Segment
  pub result : p ≡ some left
  pub closed_all : All (Holding (IsOver c) left.0) is
  pub overs : (j : ℕ) → Holding (IsOver c) t j → Holding (IsOver c) left.0 j

module _ (c : Config) (env : Env) (room : tcphdr_size < c.max_segment_size) where
  close_one-Closes :
      (t : Tables) (i : ℕ) → Holding (IsReady c) t i → Closes c t i (close_one c env t i)
  unfolding close_one close_at
  close_one-Closes t i (b, at, ready) =
      let (o, e, ready') = tcp_close-Ends c env room b ready in
      let h : IsOver c o.tcb = record { ready = ready'; over = tcp_close-over c env b o e } in
      record {
        done = closed t i o o.status;
        result = rw (close_one, at, close_at, e) refl;
        over = (o.tcb, placed t i b o at o.status, h);
        lives = kept t i b o at (IsReady c) o.status ready';
        overs = kept t i b o at (IsOver c) o.status h;
      }

  close_each-ClosesAll :
      (t : Tables) (is : List ℕ)
      → All (Holding (IsReady c) t) is
      → ClosesAll c t is (close_each c env t is)
  unfolding close_each
  close_each-ClosesAll t [] h = record {
    left = (t, []);
    result = refl;
    closed_all = tt;
    overs = λ j x. x;
  }
  close_each-ClosesAll t (i ∷ is) (h, hs) =
      let x : Closes c t i (close_one c env t i) = close_one-Closes t i h in
      let y : ClosesAll c x.done.tables is (close_each c env x.done.tables is) =
        close_each-ClosesAll x.done.tables is
          (All-map (Holding (IsReady c) t) (Holding (IsReady c) x.done.tables) is x.lives hs) in
      record {
        left = (y.left.0, x.done.sent ++ y.left.1);
        result = rw (close_each, x.result, y.result) refl;
        closed_all = (y.overs i x.over, y.closed_all);
        overs = λ j z. y.overs j (x.overs j z);
      }

  -- The clean-up at exit closes every connection that a socket owns: no assertion fails on the way, and
  -- in the end each of them is in a state that its own side has closed, from which only the other side's
  -- segments and its timer take it on. No connection that was closed before is opened again. The
  -- blocks of the connections are ready, and a segment has room for more than its header.
  pub close_active-ClosesAll :
      (t : Tables)
      → All (Holding (IsReady c) t) (map (λ e. e.1) t.active)
      → ClosesAll c t (map (λ e. e.1) t.active) (close_active c env t)
  unfolding close_active
  close_active-ClosesAll t h = close_each-ClosesAll t (map (λ e. e.1) t.active) h
