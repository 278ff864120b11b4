-- ===== src/Tcp/Table/Opening.antt =====
-- `_tcp_open` keeps the tables consistent.
use mathlib.Core.Option.{some-injective}
use ns_stack.Base.{
  ℕ, ◌≡◌, refl, ap₂, subst, ◌∙◌, inl, inr, Bool, false, Option, none, some, arith, Bool-cases,
}
use ns_stack.Segment.{Segment}
use ns_stack.Tcp.{Config, SockAddr, close, Tcb, Env, Status, ok, fail, Out, goto, syn_mark}
use ns_stack.Tcp.Send.{send_ctrl}
use ns_stack.Tcp.User.Transmit.{send_ctrl-Keeps}
use ns_stack.Tcp.Table.{
  SocketPair, pair_of, Tables, find_active, find_orphaned, Opened, opened, open_sent, open_new,
  open_pair, tcp_open, init_tcb, refused, is_some,
}
use ns_stack.Tcp.Table.Consistent.{IsConsistent}
use ns_stack.Tcp.Table.Keep.{add-IsConsistent}

init_tcb-pair :
    (c : Config) (rand : ℕ) (p : SocketPair) (syn : Option Segment) (b : Tcb)
    → init_tcb c rand p syn ≡ some b
    → pair_of b ≡ p
unfolding init_tcb
init_tcb-pair c rand p none b e = ground arith
init_tcb-pair c rand p (some syn) b e = ground arith

module _ (c : Config) (env : Env) (t : Tables) (p : SocketPair) (passive : Bool)
    (new : find_active t p ≡ none) (new' : find_orphaned t p ≡ none) (v : IsConsistent t) where
  opened-IsConsistent :
      (o : Out) (s : Status) → pair_of o.tcb ≡ p → IsConsistent (opened t p passive o s).tables
  unfolding opened
  opened-IsConsistent o ok own = add-IsConsistent t p o.tcb own new new' v
  opened-IsConsistent o fail own = add-IsConsistent t p (goto o.tcb close) own new new' v

  open_sent-IsConsistent :
      (b : Tcb) (x : Option Out) (o : Opened)
      → pair_of b ≡ p
      → send_ctrl c env b syn_mark ≡ x
      → open_sent t p passive x ≡ some o
      → IsConsistent o.tables
  open_sent-IsConsistent b none o own q e = cc
  open_sent-IsConsistent b (some out) o own q e =
      let k = send_ctrl-Keeps c env b syn_mark out q in
      let pairs : pair_of out.tcb ≡ p =
        ap₂ (λ l r. record { local = l; remote = r }) k.same_local k.same_remote ∙ own in
      subst (λ x. IsConsistent x.tables) (some-injective _ _ e)
        (opened-IsConsistent out out.status pairs)

none_of : {A : Type 0} (o : Option A) → is_some o ≡ false → o ≡ none
none_of none e = refl
none_of (some a) e = cc

module _ (c : Config) (env : Env) (rand : ℕ) (t : Tables) (v : IsConsistent t) where
  open_new-IsConsistent :
      (p : SocketPair) (syn : Option Segment) (x : Option Tcb) (o : Opened)
      → find_active t p ≡ none
      → find_orphaned t p ≡ none
      → init_tcb c rand p syn ≡ x
      → open_new c env t p (is_some syn) x ≡ some o
      → IsConsistent o.tables
  open_new-IsConsistent p syn none o n n' q e = cc
  open_new-IsConsistent p syn (some b) o n n' q e =
      open_sent-IsConsistent c env t p (is_some syn) n n' v b (send_ctrl c env b syn_mark) o
        (init_tcb-pair c rand p syn b q) refl e

  refused-IsConsistent : (o : Opened) → some (refused t) ≡ some o → IsConsistent o.tables
  refused-IsConsistent o e = subst (λ x. IsConsistent x.tables) (some-injective _ _ e) v

  open_pair-IsConsistent :
      (p : SocketPair) (syn : Option Segment) (o : Opened)
      → open_pair c env rand t p syn ≡ some o
      → IsConsistent o.tables
  unfolding open_pair
  open_pair-IsConsistent p syn o e = elim (Bool-cases (is_some (find_active t p))) [
    | inl y ↦ refused-IsConsistent o (rw y at e)
    | inr n ↦ elim (Bool-cases (is_some (find_orphaned t p))) [
      | inl y ↦ refused-IsConsistent o (rw (n, y) at e)
      | inr n' ↦
          open_new-IsConsistent p syn (init_tcb c rand p syn) o (none_of (find_active t p) n)
            (none_of (find_orphaned t p) n') refl (rw (n, n') at e)
    ]
  ]

  pub tcp_open-IsConsistent :
      (local : SockAddr) (remote : Option SockAddr) (syn : Option Segment) (o : Opened)
      → tcp_open c env rand t local remote syn ≡ some o
      → IsConsistent o.tables
  unfolding tcp_open
  tcp_open-IsConsistent local (some remote) syn o e = open_pair-IsConsistent _ syn o e
  tcp_open-IsConsistent local none (some syn) o e = open_pair-IsConsistent _ (some syn) o e
  tcp_open-IsConsistent local none none o e = cc
