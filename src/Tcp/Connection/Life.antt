-- ===== src/Tcp/Connection/Life.antt =====
-- The life of a connection: which states the events of `step` lead to, and that it only moves forward.
use ns_stack.Base.{ℕ, ◌<◌, ◌≡◌, refl, sym, subst, ◌⊎◌, inl, inr, Option, none, some, List, arith}
use mathlib.Core.Option.{some-injective}
use ns_stack.Segment.{Segment}
use ns_stack.Tcp.{
  Config, State, established, syn_sent, syn_recv, fin_wait1, fin_wait2, time_wait, close,
  close_wait, last_ack, listen, closing, Tcb, Env, Out, goto, fin_mark,
}
use ns_stack.Tcp.User.{tcp_send, tcp_close, tcp_receive, close_block}
use ns_stack.Tcp.User.Transmit.{send_ctrl-Keeps, tcp_send_recv}
use ns_stack.Tcp.Timer.{tcp_timer}
use ns_stack.Tcp.Timer.Retransmit.{tcp_timer-Ticks}
use ns_stack.Tcp.Handle.{handle}
use ns_stack.Tcp.Handle.States.{Arrival, handle-Arrival}
use ns_stack.Tcp.Connection.{
  Event, arrive, tick, write, read, shut, Step, step, Run, here, next, of_out, of_read, of_write,
}

-- The transitions of RFC 793, with the one to CLOSED that the timer makes from any state.
pub data Edge : State → State → Type 0 where
  arrives : {a b : State} → Arrival a b → Edge a b
  expires : {a : State} → Edge a close
  shuts : Edge established fin_wait1
  shuts_early : Edge syn_recv fin_wait1
  shuts_last : Edge close_wait last_ack
  abandons : Edge syn_sent close
  stops_listening : Edge listen close

stay_at : {a b : State} → b ≡ a → Edge a b
stay_at {a} e = subst (Edge a) (sym e) (Edge.arrives Arrival.stay)

leads : {a b x : State} → a ≡ x → b ≡ x → Edge x b → Edge a b
leads {b = b} p q e = subst (λ s. Edge s b) (sym p) e

tcp_close-Edge :
    (c : Config) (env : Env) (t : Tcb) (o : Out)
    → tcp_close c env t ≡ some o
    → Edge t.state o.tcb.state
unfolding tcp_close
tcp_close-Edge c env t o e = go t.state refl e
  where
    at : {s u : State} → t.state ≡ s → o.tcb.state ≡ u → Edge s u → Edge t.state o.tcb.state
    at {s} p q x = subst (λ a. Edge a o.tcb.state) (sym p) (subst (Edge s) (sym q) x)

    go : (s : State) → t.state ≡ s → close_block c env t s ≡ some o → Edge t.state o.tcb.state
    go close q h = stay_at (ground arith)
    go fin_wait1 q h = stay_at (ground arith)
    go fin_wait2 q h = stay_at (ground arith)
    go closing q h = stay_at (ground arith)
    go last_ack q h = stay_at (ground arith)
    go time_wait q h = stay_at (ground arith)
    go syn_sent q h = at q (ground arith) Edge.abandons
    go listen q h = at q (ground arith) Edge.stops_listening
    go syn_recv q h =
        at q (ground (arith, send_ctrl-Keeps c env (goto t fin_wait1) fin_mark o)) Edge.shuts_early
    go established q h =
        at q (ground (arith, send_ctrl-Keeps c env (goto t fin_wait1) fin_mark o)) Edge.shuts
    go close_wait q h =
        at q (ground (arith, send_ctrl-Keeps c env (goto t last_ack) fin_mark o)) Edge.shuts_last

module _ (c : Config) (t : Tcb) (s : Step) where
  arrive-Edge :
      (env : Env) (seg : Segment) (p : Option Out)
      → handle c env t seg t.state ≡ p
      → of_out p ≡ some s
      → Edge t.state s.tcb.state
  arrive-Edge env seg none q k = cc
  arrive-Edge env seg (some o) q k =
      subst (λ x. Edge t.state x.tcb.state) (some-injective _ _ k)
        (Edge.arrives (handle-Arrival c env t seg o q))

  tick-Edge :
      (env : Env) (p : Option Out)
      → tcp_timer c env t ≡ p
      → of_out p ≡ some s
      → Edge t.state s.tcb.state
  tick-Edge env none q k = cc
  tick-Edge env (some o) q k =
      subst (λ x. Edge t.state x.tcb.state) (some-injective _ _ k)
        (elim ((tcp_timer-Ticks c env t o q).to_close) [
          | inl same ↦ stay_at same
          | inr gone ↦ subst (Edge t.state) (sym gone) Edge.expires
        ])

  write-Edge :
      (env : Env) (xs : List ℕ) (p : Option (Out × ℕ))
      → tcp_send c env t xs ≡ p
      → of_write p ≡ some s
      → Edge t.state s.tcb.state
  write-Edge env xs none q k = cc
  write-Edge env xs (some (o, n)) q k =
      subst (λ x. Edge t.state x.tcb.state) (some-injective _ _ k)
        (stay_at ((tcp_send_recv c env t xs o n q).1))

  read-Edge : (n : ℕ) → of_read (tcp_receive c t n) ≡ some s → Edge t.state s.tcb.state
  unfolding tcp_receive
  read-Edge n k = stay_at (ground arith)

  shut-Edge :
      (env : Env) (p : Option Out)
      → tcp_close c env t ≡ p
      → of_out p ≡ some s
      → Edge t.state s.tcb.state
  shut-Edge env none q k = cc
  shut-Edge env (some o) q k =
      subst (λ x. Edge t.state x.tcb.state) (some-injective _ _ k) (tcp_close-Edge c env t o q)

  -- Each event moves a connection along at most one edge.
  pub step-Edge : (e : Event) → step c t e ≡ some s → Edge t.state s.tcb.state
  unfolding step
  step-Edge (arrive env seg) h = arrive-Edge env seg (handle c env t seg t.state) refl h
  step-Edge (tick env) h = tick-Edge env (tcp_timer c env t) refl h
  step-Edge (write env xs) h = write-Edge env xs (tcp_send c env t xs) refl h
  step-Edge (read n) h = read-Edge n h
  step-Edge (shut env) h = shut-Edge env (tcp_close c env t) refl h

-- How far a state is from the end.
unfoldable pub stage : State → ℕ
stage listen = 0
stage syn_sent = 1
stage syn_recv = 1
stage established = 2
stage close_wait = 3
stage fin_wait1 = 3
stage fin_wait2 = 4
stage closing = 4
stage last_ack = 4
stage time_wait = 5
stage close = 6

-- From a state to the same one or to a later one.
abbrev pub Onward : State → State → Type 0
Onward a b = (b ≡ a) ⊎ (stage a < stage b)

close-Onward : (a : State) → Onward a close
unfolding stage
close-Onward close = inl refl
close-Onward listen = ground arith
close-Onward syn_sent = ground arith
close-Onward syn_recv = ground arith
close-Onward established = ground arith
close-Onward close_wait = ground arith
close-Onward fin_wait1 = ground arith
close-Onward fin_wait2 = ground arith
close-Onward closing = ground arith
close-Onward last_ack = ground arith
close-Onward time_wait = ground arith

Arrival-Onward : {a b : State} → Arrival a b → Onward a b
unfolding stage
Arrival-Onward Arrival.stay = inl refl
Arrival-Onward Arrival.synack_in = ground arith
Arrival-Onward Arrival.syn_acked = ground arith
Arrival-Onward Arrival.fin_in = ground arith
Arrival-Onward Arrival.fin_acked = ground arith
Arrival-Onward Arrival.fins_crossed = ground arith
Arrival-Onward Arrival.fin_and_ack_in = ground arith
Arrival-Onward Arrival.last_fin_in = ground arith
Arrival-Onward Arrival.crossed_acked = ground arith
Arrival-Onward Arrival.last_acked = ground arith

Edge-Onward : {a b : State} → Edge a b → Onward a b
unfolding stage
Edge-Onward (Edge.arrives x) = Arrival-Onward x
Edge-Onward {a} Edge.expires = close-Onward a
Edge-Onward Edge.shuts = ground arith
Edge-Onward Edge.shuts_early = ground arith
Edge-Onward Edge.shuts_last = ground arith
Edge-Onward Edge.abandons = ground arith
Edge-Onward Edge.stops_listening = ground arith

Onward-trans : {a b d : State} → Onward a b → Onward b d → Onward a d
Onward-trans {a} {b} {d} (inl e) y = subst (λ s. Onward s d) e y
Onward-trans {a} {b} {d} (inr h) (inl e) = inr (subst (λ s. stage a < stage s) (sym e) h)
Onward-trans {a} {b} {d} (inr h) (inr k) = inr (omega arith)

-- Over any run, a connection ends in the state it began in or in a later one: it never goes back, so
-- a closed one stays closed.
pub run-Onward :
    {c : Config} {t u : Tcb} {sent : List Segment} {bytes : List ℕ}
    → Run c t u sent bytes
    → Onward t.state u.state
run-Onward here = inl refl
run-Onward {c} (next {u = u} e s r h) =
    Onward-trans (run-Onward r) (Edge-Onward (step-Edge c u s e h))
