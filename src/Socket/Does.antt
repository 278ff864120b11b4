-- ===== src/Socket/Does.antt =====
-- What the calls do to the list of socket blocks.
use mathlib.Core.Option.{some-injective}
use ns_stack.Base.{
  ℕ, ◌≡◌, refl, sym, ap, subst, ◌∙◌, inl, inr, Bool, true, false, Option, none, some, List, [], ◌∷◌,
  ◌++◌, append-nil, arith, leb, Bool-cases, length, get_elem?, set,
}
use ns_stack.Segment.{Segment}
use ns_stack.Tcp.{Config, SockAddr, Tcb, Env, Status}
use ns_stack.Tcp.Table
use ns_stack.Tcp.Table.{Tables, Done, Opened, tcp_open, block_at}
use ns_stack.Socket.{
  SocketBlock, SocketState, default, active, passive_binded, passive_listening, closed, World,
  bad_fd, Call, returns, put_socket, add_socket, with_block, get_socket_block, accepting_size,
  socket, bind, bind_block, listen, listen_block, connect, connect_block, connected,
}
use ns_stack.Socket.Io.{
  connect_round, accept_round, accept_block, accept_first, accept_candidate, read_round,
  write_round, close, close_block, close_active, close_ended, is_established, close_passive,
}

-- The calls, with their arguments: rounds of the loops where a call waits.
pub data Request : Type 0 where
  opens : Request
  binds : (fd port : ℕ) (whole : Bool) (dev0 : Option ℕ) → Request
  listens : (fd backlog : ℕ) → Request
  connects : (rand : ℕ × ℕ) (fd : ℕ) (remote : SockAddr) (whole : Bool) (dev0 : Option ℕ) → Request
  connects_on accepts closes : (fd : ℕ) → Request
  reads : (fd n : ℕ) → Request
  writes : (fd : ℕ) (bytes : List ℕ) (before : ℕ) → Request

unfoldable pub perform : Config → Env → World → Request → Option Call
perform c env w opens = socket w
perform c env w (binds fd port whole dev0) = bind w fd port whole dev0
perform c env w (listens fd backlog) = listen w fd backlog
perform c env w (connects rand fd remote whole dev0) = connect c env rand w fd remote whole dev0
perform c env w (connects_on fd) = connect_round w fd
perform c env w (accepts fd) = accept_round w fd
perform c env w (closes fd) = close c env w fd
perform c env w (reads fd n) = read_round c w fd n
perform c env w (writes fd bytes before) = write_round c env w fd bytes before

-- The moves of a socket.
pub data Edge : SocketState → SocketState → Type 0 where
  stays : {s : SocketState} → Edge s s
  is_bound : Edge default passive_binded
  connects : Edge default active
  listens : Edge passive_binded passive_listening
  shuts : Edge active closed
  shuts_bound : Edge passive_binded closed
  shuts_listening : Edge passive_listening closed

-- What a call does to the list of blocks: one block changes, or none, and new ones may follow.
pub data Does (bs cs : List SocketBlock) : Type 0 where
  same : cs ≡ bs → Does bs cs
  adds : (more : List SocketBlock) → cs ≡ bs ++ more → Does bs cs
  updates :
      (i : ℕ) (sb sb' : SocketBlock) (more : List SocketBlock)
      → get_elem? bs i ≡ some sb
      → Edge sb.state sb'.state
      → cs ≡ set bs i sb' ++ more
      → Does bs cs

blocks_of : {a k : Call} → some a ≡ some k → k.world.blocks ≡ a.world.blocks
blocks_of e = ap (λ x. x.world.blocks) (sym (some-injective _ _ e))

-- A call on a descriptor does what it does to the block.
pub with_block-Does :
    (w : World) (fd : ℕ) (f : ℕ → SocketBlock → Option Call) (k : Call)
    → ((i : ℕ) (sb : SocketBlock)
        → get_elem? w.blocks i ≡ some sb
        → f i sb ≡ some k
        → Does w.blocks k.world.blocks)
    → with_block w fd f ≡ some k
    → Does w.blocks k.world.blocks
unfolding with_block
with_block-Does w fd f k each e = on_index (get_socket_block w fd) e
  where
    on_block :
        (i : ℕ) (o : Option SocketBlock)
        → get_elem? w.blocks i ≡ o
        → elim o [ none ↦ none | some sb ↦ f i sb ] ≡ some k
        → Does w.blocks k.world.blocks
    on_block i none q e = cc
    on_block i (some sb) q e = each i sb q e

    on_index :
        (o : Option ℕ)
        → elim o [
          | none ↦ returns w bad_fd
          | some i ↦ elim (get_elem? w.blocks i) [ none ↦ none | some sb ↦ f i sb ]
        ]
          ≡ some k
        → Does w.blocks k.world.blocks
    on_index none e = same (ground arith)
    on_index (some i) e = on_block i (get_elem? w.blocks i) refl e

module _ (w : World) (i : ℕ) (sb : SocketBlock) (k : Call)
    (at : get_elem? w.blocks i ≡ some sb) where
  -- The block gets another state, along an edge.
  to :
      (s s' : SocketState) (sb' : SocketBlock)
      → sb.state ≡ s
      → sb'.state ≡ s'
      → Edge s s'
      → k.world.blocks ≡ set w.blocks i sb'
      → Does w.blocks k.world.blocks
  to s s' sb' p q edge e =
      updates i sb sb' [] at (subst (λ x. Edge x sb'.state) (sym p) (subst (Edge s) (sym q) edge))
        (e ∙ sym (append-nil (set w.blocks i sb')))

  pub bind_block-Does :
      (port : ℕ) (whole : Bool) (dev0 : Option ℕ) (s : SocketState)
      → sb.state ≡ s
      → bind_block w port whole dev0 i sb s ≡ some k
      → Does w.blocks k.world.blocks
  unfolding bind_block put_socket
  bind_block-Does port true (some ip) default p e =
      to default passive_binded _ p refl Edge.is_bound (blocks_of e)
  bind_block-Does port false (some ip) default p e = same (ground arith)
  bind_block-Does port whole none default p e = same (ground arith)
  bind_block-Does port whole dev0 s p e = same (ground arith)

  pub listen_block-Does :
      (backlog : ℕ) (s : SocketState)
      → sb.state ≡ s
      → listen_block w backlog i sb s ≡ some k
      → Does w.blocks k.world.blocks
  unfolding listen_block put_socket
  listen_block-Does backlog passive_binded p e =
      to passive_binded passive_listening _ p refl Edge.listens (blocks_of e)
  listen_block-Does backlog s p e = same (ground arith)

  connected-Does :
      (addr : SockAddr) (o : Option Opened)
      → sb.state ≡ default
      → connected w i sb addr o ≡ some k
      → Does w.blocks k.world.blocks
  unfolding put_socket
  connected-Does addr none p e = cc
  connected-Does addr (some o) p e = to default active _ p refl Edge.connects (blocks_of e)

  pub connect_block-Does :
      (c : Config) (env : Env) (rand : ℕ × ℕ) (remote : SockAddr) (whole : Bool) (dev0 : Option ℕ)
      (s : SocketState)
      → sb.state ≡ s
      → connect_block c env rand w remote whole dev0 i sb s ≡ some k
      → Does w.blocks k.world.blocks
  unfolding connect_block
  connect_block-Does c env rand remote true (some ip) default p e = connected-Does _ _ p e
  connect_block-Does c env rand remote false (some ip) default p e = same (ground arith)
  connect_block-Does c env rand remote whole none default p e = same (ground arith)
  connect_block-Does c env rand remote whole dev0 s p e = same (ground arith)

  -- The block changes, and keeps its state.
  within :
      (sb' : SocketBlock) (more : List SocketBlock)
      → sb'.state ≡ sb.state
      → k.world.blocks ≡ set w.blocks i sb' ++ more
      → Does w.blocks k.world.blocks
  within sb' more q e = updates i sb sb' more at (subst (Edge sb.state) (sym q) Edge.stays) e

  accept_candidate-Does :
      (t : ℕ) (q : List ℕ) (b : Tcb)
      → accept_candidate w i sb t q b ≡ some k
      → Does w.blocks k.world.blocks
  unfolding accept_candidate put_socket add_socket
  accept_candidate-Does t q b e = elim (Bool-cases (is_established b.state)) [
    | inl y ↦ within _ _ refl (blocks_of (rw (accept_candidate, y) at e))
    | inr n ↦ elim (Bool-cases (leb accepting_size (length q))) [
      | inl full ↦ cc (rw (accept_candidate, n, full) at e)
      | inr room ↦
          within _ [] refl
            (blocks_of (rw (accept_candidate, n, room) at e) ∙ sym (append-nil (set w.blocks i _)))
    ]
  ]

  pub accept_block-Does :
      (s : SocketState) → accept_block w i sb s ≡ some k → Does w.blocks k.world.blocks
  unfolding accept_block
  accept_block-Does passive_listening e = first sb.accepting e
    where
      on_block :
          (t : ℕ) (q : List ℕ) (o : Option Tcb)
          → elim o [ none ↦ none | some b ↦ accept_candidate w i sb t q b ] ≡ some k
          → Does w.blocks k.world.blocks
      on_block t q none e = cc
      on_block t q (some b) e = accept_candidate-Does t q b e

      first : (q : List ℕ) → accept_first w i sb q ≡ some k → Does w.blocks k.world.blocks
      first [] e = same (ground arith)
      first (t ∷ q) e = on_block t q (block_at w.tables t) e
  accept_block-Does s e = same (ground arith)

  close_active-Does :
      (o : Option Done)
      → sb.state ≡ active
      → close_active w i sb o ≡ some k
      → Does w.blocks k.world.blocks
  unfolding put_socket
  close_active-Does none p e = cc
  close_active-Does (some d) p e = go d.status e
    where
      go : (s : Status) → close_ended w i sb d s ≡ some k → Does w.blocks k.world.blocks
      go Status.fail e = same (ground arith)
      go Status.ok e = to active closed _ p refl Edge.shuts (blocks_of e)

  close_passive-Does :
      (s : SocketState) (o : Option (Tables × List Segment))
      → sb.state ≡ s
      → Edge s closed
      → close_passive w i sb o ≡ some k
      → Does w.blocks k.world.blocks
  unfolding put_socket
  close_passive-Does s none p edge e = cc
  close_passive-Does s (some (t, sent)) p edge e = to s closed _ p refl edge (blocks_of e)

  pub close_block-Does :
      (c : Config) (env : Env) (s : SocketState)
      → sb.state ≡ s
      → close_block c env w i sb s ≡ some k
      → Does w.blocks k.world.blocks
  unfolding close_block
  close_block-Does c env active p e = go sb.tcb e
    where
      go :
          (o : Option ℕ)
          → elim o [ none ↦ none | some t ↦ close_active w i sb (Table.tcp_close c env w.tables t) ]
            ≡ some k
          → Does w.blocks k.world.blocks
      go none e = cc
      go (some t) e = close_active-Does (Table.tcp_close c env w.tables t) p e
  close_block-Does c env passive_binded p e =
      close_passive-Does passive_binded _ p Edge.shuts_bound e
  close_block-Does c env passive_listening p e =
      close_passive-Does passive_listening _ p Edge.shuts_listening e
  close_block-Does c env s p e = same (ground arith)
