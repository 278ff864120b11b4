-- ===== src/Socket/Hear.antt =====
-- An incoming segment, from `tcp_segment_handler` of src/pnx_tcp.cc to the listening socket that is told
-- of a new connection.
use mathlib.Core.Option.{some-injective}
use ns_stack.Base.{
  ℕ, zero, suc, ◌<◌, ◌≡◌, refl, sym, ap, subst, ◌∙◌, ◌⊎◌, inl, inr, Option, none, some, List, [],
  ◌∷◌, arith, leb, ◌==◌, Bool-cases, length, get_elem?, set, ==_iff, get_elem?-set_self,
  get_elem?-set_ne,
}
use ns_stack.Ring.Queue
use ns_stack.Segment.{Segment}
use ns_stack.Tcp.{Config, Env, Status}
use ns_stack.Tcp.Table.Step.{Handled, tcp_segment_handler}
use ns_stack.Socket.{
  SocketBlock, SocketState, passive_listening, World, value, Call, put_socket, accepting_size,
}
use ns_stack.Socket.Io.{recv_new, socket_recv_new_tcp_conn, with_tables}

-- The result of `socket_recv_new_tcp_conn` is not looked at.
abbrev pub told : List Segment → Option (World × Status) → Option Call
told sent none = none
told sent (some (w, s)) = some (record { world = w; sent = sent; data_read = []; ret = value 0 })

abbrev pub given : World → List Segment → Option (ℕ × ℕ) → Option Call
given w sent none = some (record { world = w; sent = sent; data_read = []; ret = value 0 })
given w sent (some (i, t)) = told sent (socket_recv_new_tcp_conn w i t)

abbrev pub heard : World → Option Handled → Option Call
heard w none = none
heard w (some h) = given (with_tables w h.tables) h.sent h.fresh

unfoldable pub hear : Config → Env → ℕ → World → List ℕ → ℕ → ℕ → Option Call
hear c env rand w buf src dst = heard w (tcp_segment_handler c env rand w.tables buf src dst)

-- A socket before and after: all is as it was, or it listens, had fewer connections waiting than its
-- backlog, and has one more at the end.
pub data Told (sb sb' : SocketBlock) : Type 0 where
  same : sb' ≡ sb → Told sb sb'
  more :
      (t : ℕ)
      → sb.state ≡ passive_listening
      → length sb.accepting < sb.backlog
      → sb' ≡ record sb { accepting = (Queue.push accepting_size sb.accepting t).0 }
      → Told sb sb'

recv_new-Told :
    (w : World) (i : ℕ) (sb : SocketBlock) (t : ℕ) (s : SocketState)
    → sb.state ≡ s
    → ((recv_new w i sb t s).0 ≡ w)
      ⊎ ((sb' : SocketBlock) × ((recv_new w i sb t s).0 ≡ put_socket w i sb') × Told sb sb')
unfolding recv_new
recv_new-Told w i sb t passive_listening p =
    elim (Bool-cases (leb sb.backlog (length sb.accepting))) [
      | inl full ↦ inl (rw full refl)
      | inr room ↦ inr (
        record sb { accepting = (Queue.push accepting_size sb.accepting t).0 },
        rw room refl,
        Told.more t p (ground (arith, room)) refl,
      )
    ]
recv_new-Told w i sb t s p = inl refl

get_elem?-lt :
    (bs : List SocketBlock) (j : ℕ) (sb : SocketBlock) → get_elem? bs j ≡ some sb → j < length bs
get_elem?-lt [] j sb e = cc
get_elem?-lt (x ∷ bs) zero sb e = omega arith
get_elem?-lt (x ∷ bs) (suc j) sb e = omega (arith, get_elem?-lt bs j sb e)

module _ (j : ℕ) (sb : SocketBlock) where
  Stays : World → Type 0
  Stays w = (sb' : SocketBlock) × (get_elem? w.blocks j ≡ some sb') × Told sb sb'

  put-Stays :
      (w : World) (i : ℕ) (old new : SocketBlock)
      → get_elem? w.blocks j ≡ some sb
      → get_elem? w.blocks i ≡ some old
      → Told old new
      → Stays (put_socket w i new)
  unfolding Stays put_socket
  put-Stays w i old new at here x = elim (Bool-cases (i == j)) [
    | inl y ↦
        let at_j : i ≡ j = (==_iff i j).0 y in
        let old_is : old ≡ sb =
          some-injective _ _ (sym here ∙ (ap (get_elem? w.blocks) at_j ∙ at)) in
        (
          new,
          subst (λ n. get_elem? (set w.blocks i new) n ≡ some new) at_j
              (get_elem?-set_self w.blocks i new (get_elem?-lt w.blocks i old here)),
          subst (λ z. Told z new) old_is x,
        )
    | inr n ↦
        (sb, get_elem?-set_ne w.blocks new (λ h. cc (n, (==_iff i j).1 h)) ∙ at, Told.same refl)
  ]

  told-Stays :
      (w : World) (i t : ℕ) (sent : List Segment) (k : Call)
      → get_elem? w.blocks j ≡ some sb
      → told sent (socket_recv_new_tcp_conn w i t) ≡ some k
      → Stays k.world
  unfolding Stays socket_recv_new_tcp_conn
  told-Stays w i t sent k at e = go (get_elem? w.blocks i) refl e
    where
      go :
          (o : Option SocketBlock)
          → get_elem? w.blocks i ≡ o
          → told sent (elim o [ none ↦ none | some old ↦ some (recv_new w i old t old.state) ])
            ≡ some k
          → Stays k.world
      go none q e = cc
      go (some old) q e =
          subst Stays (ap (λ x. x.world) (some-injective _ _ e))
            (elim (recv_new-Told w i old t old.state refl) [
              | inl unchanged ↦ subst Stays (sym unchanged) (sb, at, Told.same refl)
              | inr (new, put, x) ↦ subst Stays (sym put) (put-Stays w i old new at q x)
            ])

  heard-Stays :
      (w : World) (o : Option Handled) (k : Call)
      → get_elem? w.blocks j ≡ some sb
      → heard w o ≡ some k
      → Stays k.world
  unfolding Stays
  heard-Stays w none k at e = cc
  heard-Stays w (some h) k at e = go h.fresh e
    where
      go : (f : Option (ℕ × ℕ)) → given (with_tables w h.tables) h.sent f ≡ some k → Stays k.world
      go none e = subst Stays (ap (λ x. x.world) (some-injective _ _ e)) (sb, at, Told.same refl)
      go (some (i, t)) e = told-Stays (with_tables w h.tables) i t h.sent k at e

-- An incoming segment leaves every socket block in its place and as it was, but for one that listens
-- and has fewer connections waiting than its backlog, to whose queue one more is pushed.
pub hear-Told :
    (c : Config) (env : Env) (rand : ℕ) (w : World) (buf : List ℕ) (src dst : ℕ) (k : Call) (j : ℕ)
    (sb : SocketBlock)
    → hear c env rand w buf src dst ≡ some k
    → get_elem? w.blocks j ≡ some sb
    → (sb' : SocketBlock) × (get_elem? k.world.blocks j ≡ some sb') × Told sb sb'
unfolding hear Stays
hear-Told c env rand w buf src dst k j sb e at =
    heard-Stays j sb w (tcp_segment_handler c env rand w.tables buf src dst) k at e
