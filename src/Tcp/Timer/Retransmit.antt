-- ===== src/Tcp/Timer/Retransmit.antt =====
-- What the timer does to a connection, and what it sends.
use mathlib.Core.Option.{some-injective}
use ns_stack.Segment.{Segment}
use ns_stack.Base.{
  ◌+◌, ◌-◌, ◌≤◌, ◌<◌, refl, sym, ap, ◌∙◌, Option, none, List, [], ◌∷◌, ◌++◌, length, length-append,
  ◌≡◌, ◌⊎◌, some, arith,
}
use ns_stack.Tcp.{Config, close, Tcb, Env, Out}
use ns_stack.Tcp.Timer.{tcp_timer, check_timeout, retransmit}

-- What a tick leaves: only the bookkeeping of the last segment and the state may change, the latter
-- to CLOSE only.
pub record Ticks (t : Tcb) (o : Out) : Type 0 where
  pub same_recv : o.tcb.recv ≡ t.recv
  pub same_next : o.tcb.send.next ≡ t.send.next
  pub same_unack : o.tcb.send.unack ≡ t.send.unack
  pub same_buf : o.tcb.send.buf ≡ t.send.buf
  pub to_close : (o.tcb.state ≡ t.state) ⊎ (o.tcb.state ≡ close)

check_timeout-Ticks :
    (c : Config) (env : Env) (t : Tcb) (o : Out) → check_timeout c env t ≡ some o → Ticks t o
unfolding check_timeout
check_timeout-Ticks c env t o e = ground arith

pub tcp_timer-Ticks :
    (c : Config) (env : Env) (t : Tcb) (o : Out) → tcp_timer c env t ≡ some o → Ticks t o
unfolding tcp_timer
tcp_timer-Ticks c env t o e = ground (arith, check_timeout-Ticks c env t o)

-- The timer alone, at the times `envs`: the block and everything sent.
unfoldable pub run_timer : Config → List Env → Tcb → Option (Tcb × List Segment)
run_timer c [] t = some (t, [])
run_timer c (env ∷ envs) t = elim (tcp_timer c env t) [
  | none ↦ none
  | some o ↦ elim (run_timer c envs o.tcb) [
    | none ↦ none
    | some (u, sent) ↦ some (u, o.sent ++ sent)
  ]
]

-- One tick sends nothing and keeps the count, or counts the one segment that it sends.
tcp_timer-counts :
    (c : Config) (env : Env) (t : Tcb) (o : Out)
    → tcp_timer c env t ≡ some o
    → ((o.sent ≡ []) × (o.tcb.send.retrans_count ≡ t.send.retrans_count))
      ⊎ ((length o.sent ≡ 1)
          × (t.send.retrans_count < c.max_retrans)
          × (o.tcb.send.retrans_count ≡ t.send.retrans_count + 1))
unfolding tcp_timer check_timeout retransmit
tcp_timer-counts c env t o e = ground arith

-- However often the timer of a connection runs without an answer, it sends at most `kMaxRetrans`
-- segments, less those that it has sent already.
pub run_timer_bound :
    (c : Config) (envs : List Env) (t u : Tcb) (sent : List Segment)
    → run_timer c envs t ≡ some (u, sent)
    → length sent ≤ c.max_retrans - t.send.retrans_count
unfolding run_timer
run_timer_bound c [] t u sent e = ground arith
run_timer_bound c (env ∷ envs) t u sent e =
    go (λ w v more r. run_timer_bound c envs w v more r) (tcp_timer c env t) refl e
  where
    Bounded : Type 0
    Bounded =
        (w v : Tcb) (more : List Segment)
        → run_timer c envs w ≡ some (v, more)
        → length more ≤ c.max_retrans - w.send.retrans_count

    rest_of : Out → Option (Tcb × List Segment) → Option (Tcb × List Segment)
    rest_of o none = none
    rest_of o (some (w, more)) = some (w, o.sent ++ more)

    then_rest :
        Bounded
        → (o : Out) (q : Option (Tcb × List Segment)) → tcp_timer c env t ≡ some o
        → run_timer c envs o.tcb ≡ q
        → rest_of o q ≡ some (u, sent)
        → length sent ≤ c.max_retrans - t.send.retrans_count
    then_rest ih o none p r k = cc
    then_rest ih o (some (w, more)) p r k =
        let few : length more ≤ c.max_retrans - o.tcb.send.retrans_count = ih o.tcb w more r in
        let same : o.sent ++ more ≡ sent = ap (λ x. x.1) (some-injective _ _ k) in
        let sum : length sent ≡ length o.sent + length more =
          sym (ap length same) ∙ length-append o.sent more in
        ground (arith, tcp_timer-counts c env t o p)

    go :
        Bounded
        → (p : Option Out) → tcp_timer c env t ≡ p
        → elim p [ none ↦ none | some o ↦ rest_of o (run_timer c envs o.tcb) ] ≡ some (u, sent)
        → length sent ≤ c.max_retrans - t.send.retrans_count
    go ih none p k = cc
    go ih (some o) p k = then_rest ih o (run_timer c envs o.tcb) p refl k
