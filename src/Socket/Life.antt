-- ===== src/Socket/Life.antt =====
-- The states of a socket, over any call.
use mathlib.Core.Option.{some-injective}
use ns_stack.Base.{
  ℕ, zero, suc, ◌<◌, ◌≡◌, refl, sym, ap, subst, ◌∙◌, inl, inr, Bool, true, false, if◌then◌else◌,
  Option, none, some, List, [], ◌∷◌, ◌++◌, arith, ◌==◌, Bool-cases, length, get_elem?, set, drop,
  take, ==_iff, get_elem?-set_self, get_elem?-set_ne,
}
use ns_stack.Tcp.{Config, Tcb, Env, Out}
use ns_stack.Tcp.User.{tcp_send, tcp_receive}
use ns_stack.Tcp.Table.{block_at}
use ns_stack.Socket.{
  SocketBlock, SocketState, active, World, Call, value, failed, returns, add_socket, socket, bind,
  listen, connect,
}
use ns_stack.Socket.Io.{
  on_conn, connect_round, accept_round, read_round, read_block, read_done, write_round, write_block,
  write_done, close, as_int,
}
use ns_stack.Socket.Does.{
  Request, opens, binds, listens, connects, connects_on, accepts, closes, reads, writes, perform,
  Edge, stays, Does, same, adds, updates, with_block-Does, bind_block-Does, listen_block-Does,
  connect_block-Does, accept_block-Does, close_block-Does,
}

on_conn-same :
    (w : World) (sb : SocketBlock) (f : ℕ → Tcb → Option Call) (k : Call)
    → ((t : ℕ) (b : Tcb) → f t b ≡ some k → k.world.blocks ≡ w.blocks)
    → on_conn w sb f ≡ some k
    → k.world.blocks ≡ w.blocks
unfolding on_conn
on_conn-same w sb f k each e = on_tcb sb.tcb e
  where
    on_block :
        (t : ℕ) (o : Option Tcb)
        → elim o [ none ↦ none | some b ↦ f t b ] ≡ some k
        → k.world.blocks ≡ w.blocks
    on_block t none e = cc
    on_block t (some b) e = each t b e

    on_tcb :
        (o : Option ℕ)
        → elim o [
          | none ↦ none
          | some t ↦ elim (block_at w.tables t) [ none ↦ none | some b ↦ f t b ]
        ]
          ≡ some k
        → k.world.blocks ≡ w.blocks
    on_tcb none e = cc
    on_tcb (some t) e = on_block t (block_at w.tables t) e

read_done-same :
    (w : World) (t : ℕ) (b : Tcb) (o : Option (Tcb × List ℕ)) (k : Call)
    → read_done w t b o ≡ some k
    → k.world.blocks ≡ w.blocks
read_done-same w t b none k e = cc
read_done-same w t b (some (u, [])) k e = ground arith
read_done-same w t b (some (u, x ∷ bytes)) k e = ground arith

write_done-same :
    (w : World) (t total asked before : ℕ) (o : Option (Out × ℕ)) (k : Call)
    → write_done w t total asked before o ≡ some k
    → k.world.blocks ≡ w.blocks
write_done-same w t total asked before none k e = cc
write_done-same w t total asked before (some (o, n)) k e = ground arith

read_block-same :
    (c : Config) (w : World) (n : ℕ) (sb : SocketBlock) (s : SocketState) (k : Call)
    → read_block c w n sb s ≡ some k
    → k.world.blocks ≡ w.blocks
unfolding read_block
read_block-same c w n sb active k e = on_conn-same w sb _ k (λ t b. go t b (as_int n)) e
  where
    go :
        (t : ℕ) (b : Tcb) (o : Option ℕ)
        → elim o [ none ↦ none | some len ↦ read_done w t b (tcp_receive c b len) ] ≡ some k
        → k.world.blocks ≡ w.blocks
    go t b none e = cc
    go t b (some len) e = read_done-same w t b (tcp_receive c b len) k e
read_block-same c w n sb s k e = ground arith

write_block-same :
    (c : Config) (env : Env) (w : World) (bytes : List ℕ) (before : ℕ) (sb : SocketBlock)
    (s : SocketState) (k : Call)
    → write_block c env w bytes before sb s ≡ some k
    → k.world.blocks ≡ w.blocks
unfolding write_block
write_block-same c env w bytes before sb active k e = go (as_int (length bytes)) e
  where
    ends :
        (asked : ℕ) (b : Bool)
        → (if b
            then returns w (value (length bytes))
            else on_conn w sb (λ t b.
              write_done w t
                (length bytes)
                asked
                before
                (tcp_send c env b (drop before (take asked bytes)))))
          ≡ some k
        → k.world.blocks ≡ w.blocks
    ends asked true e = ground arith
    ends asked false e =
        on_conn-same w sb _ k
          (λ t b.
            write_done-same w t (length bytes) asked before
              (tcp_send c env b (drop before (take asked bytes))) k)
          e

    go :
        (o : Option ℕ)
        → elim o [
          | none ↦ on_conn w sb (λ t b. returns w failed)
          | some asked ↦
              if asked == before
              then returns w (value (length bytes))
              else on_conn w sb (λ t b.
                write_done w t
                  (length bytes)
                  asked
                  before
                  (tcp_send c env b (drop before (take asked bytes))))
        ]
          ≡ some k
        → k.world.blocks ≡ w.blocks
    go none e = on_conn-same w sb _ k (λ t b e. ground arith) e
    go (some asked) e = ends asked (asked == before) e
write_block-same c env w bytes before sb s k e = ground arith

perform-Does :
    (c : Config) (env : Env) (w : World) (r : Request) (k : Call)
    → perform c env w r ≡ some k
    → Does w.blocks k.world.blocks
unfolding perform socket add_socket bind listen connect connect_round accept_round read_round
    write_round close
perform-Does c env w opens k e = adds _ (ap (λ x. x.world.blocks) (sym (some-injective _ _ e)))
perform-Does c env w (binds fd port whole dev0) k e =
    with_block-Does w fd _ k (λ i sb at. bind_block-Does w i sb k at port whole dev0 sb.state refl)
      e
perform-Does c env w (listens fd backlog) k e =
    with_block-Does w fd _ k
      (λ i sb at e. elim (Bool-cases (backlog == 0)) [
        | inl y ↦ same (ground arith)
        | inr n ↦ listen_block-Does w i sb k at backlog sb.state refl (rw n at e)
      ])
      e
perform-Does c env w (connects rand fd remote whole dev0) k e =
    with_block-Does w fd _ k
      (λ i sb at. connect_block-Does w i sb k at c env rand remote whole dev0 sb.state refl) e
perform-Does c env w (connects_on fd) k e =
    with_block-Does w fd _ k (λ i sb at e. same (on_conn-same w sb _ k (λ t b e. ground arith) e)) e
perform-Does c env w (accepts fd) k e =
    with_block-Does w fd _ k (λ i sb at. accept_block-Does w i sb k at sb.state) e
perform-Does c env w (closes fd) k e =
    with_block-Does w fd _ k (λ i sb at. close_block-Does w i sb k at c env sb.state refl) e
perform-Does c env w (reads fd n) k e =
    with_block-Does w fd _ k (λ i sb at e. same (read_block-same c w n sb sb.state k e)) e
perform-Does c env w (writes fd bytes before) k e =
    with_block-Does w fd _ k
      (λ i sb at e. same (write_block-same c env w bytes before sb sb.state k e)) e

get_elem?-append_left :
    (bs more : List SocketBlock) (j : ℕ) (sb : SocketBlock)
    → get_elem? bs j ≡ some sb
    → get_elem? (bs ++ more) j ≡ some sb
get_elem?-append_left [] more j sb e = cc
get_elem?-append_left (x ∷ bs) more zero sb e = e
get_elem?-append_left (x ∷ bs) more (suc j) sb e = get_elem?-append_left bs more j sb e

get_elem?-lt :
    (bs : List SocketBlock) (j : ℕ) (sb : SocketBlock) → get_elem? bs j ≡ some sb → j < length bs
get_elem?-lt [] j sb e = cc
get_elem?-lt (x ∷ bs) zero sb e = omega arith
get_elem?-lt (x ∷ bs) (suc j) sb e = omega (arith, get_elem?-lt bs j sb e)

-- The block at `j` is still there, and has made one move at most.
Moved : List SocketBlock → ℕ → SocketBlock → Type 0
Moved cs j sb = (sb' : SocketBlock) × (get_elem? cs j ≡ some sb') × Edge sb.state sb'.state

Does-Moved :
    (bs cs : List SocketBlock) (j : ℕ) (sb : SocketBlock)
    → get_elem? bs j ≡ some sb
    → Does bs cs
    → Moved cs j sb
unfolding Moved
Does-Moved bs cs j sb at (same e) = (sb, ap (λ l. get_elem? l j) e ∙ at, stays)
Does-Moved bs cs j sb at (adds more e) =
    (sb, ap (λ l. get_elem? l j) e ∙ get_elem?-append_left bs more j sb at, stays)
Does-Moved bs cs j sb at (updates i old new more here edge e) = elim (Bool-cases (i == j)) [
  | inl y ↦
      let at_j : i ≡ j = (==_iff i j).0 y in
      let old_is : old ≡ sb = some-injective _ _ (sym here ∙ (ap (get_elem? bs) at_j ∙ at)) in
      (
        new,
        ap (λ l. get_elem? l j) e
            ∙ get_elem?-append_left (set bs i new) more j new (
                subst (λ n. get_elem? (set bs i new) n ≡ some new) at_j
                  (get_elem?-set_self bs i new (get_elem?-lt bs i old here))),
        subst (λ x. Edge x.state new.state) old_is edge,
      )
  | inr n ↦ (
    sb,
    ap (λ l. get_elem? l j) e
        ∙ get_elem?-append_left (set bs i new) more j sb
            (get_elem?-set_ne bs new (λ h. cc (n, (==_iff i j).1 h)) ∙ at),
    stays,
  )
]

-- A call, or a round of one that waits, leaves every socket block in its place, with its state as it
-- was or one move further: from DEFAULT to bound or to active, from bound to listening, and from any
-- of these but DEFAULT to CLOSED, which is final.
pub perform-Edge :
    (c : Config) (env : Env) (w : World) (r : Request) (k : Call) (j : ℕ) (sb : SocketBlock)
    → perform c env w r ≡ some k
    → get_elem? w.blocks j ≡ some sb
    → (sb' : SocketBlock) × (get_elem? k.world.blocks j ≡ some sb') × Edge sb.state sb'.state
unfolding Moved
perform-Edge c env w r k j sb e at =
    Does-Moved w.blocks k.world.blocks j sb at (perform-Does c env w r k e)
