-- ===== src/Tcp/Timer/Expire.antt =====
-- A connection that gets no answer comes to its end.
use ns_stack.Base.{
  ℕ, ◌+◌, ◌-◌, ◌^◌, ◌≤◌, ◌<◌, ◌≡◌, ◌≢◌, refl, sym, subst, ◌∙◌, inl, inr, true, false, some, List,
  [], ◌∷◌, ◌++◌, arith, leb, ◌==◌, if◌then◌else◌, Bool-cases, length, sub64,
}
use ns_stack.Bytes.{htonl}
use ns_stack.Segment.{Segment, tcp_checksum, fill_in_tcp_checksum}
use ns_stack.Tcp.{Config, close, time_wait, Tcb, waiting_for_ack, Env, ok, fail, Out, quiet, goto}
use ns_stack.Tcp.Ready.{HasLast}
use ns_stack.Tcp.Timer.{tcp_timer, check_timeout, retransmit, refresh}
use ns_stack.Tcp.Timer.Retransmit.{run_timer}

-- Each time is at least a timeout later than the one before it, and fits a `size_t`.
abbrev pub Spaced : Config → ℕ → List Env → Type 0
Spaced c last [] = Unit
Spaced c last (env ∷ envs) =
    (last + c.timeout ≤ env.now) × (env.now < 2 ^ 64) × Spaced c env.now envs

-- A segment waits for its ACK, and can be sent again.
pub record IsUnanswered (t : Tcb) : Type 0 where
  pub last : HasLast t
  pub waits : waiting_for_ack t.send ≡ true
  pub open_still : t.state ≢ close
  pub not_ending : t.state ≢ time_wait

timer_checks :
    (c : Config) (env : Env) (t : Tcb)
    → t.state ≢ close
    → t.state ≢ time_wait
    → tcp_timer c env t ≡ check_timeout c env t
unfolding tcp_timer
timer_checks c env t a b = ground arith

expired :
    (c : Config) (env : Env) (t : Tcb)
    → IsUnanswered t
    → t.send.last_sent_time + c.timeout ≤ env.now
    → env.now < 2 ^ 64
    → tcp_timer c env t ≡ (
        if leb c.max_retrans t.send.retrans_count
        then quiet (goto t close) ok
        else retransmit env t)
unfolding check_timeout
expired c env t v h k =
    let late : leb c.timeout (sub64 env.now t.send.last_sent_time) ≡ true = ground arith in
    timer_checks c env t v.open_still v.not_ending ∙ rw (check_timeout, v.waits, late) refl

refresh_there :
    (t : Tcb) (seg : Segment)
    → seg.src ≢ 0
    → seg.dst ≢ 0
    → (s : Segment) × (refresh t seg ≡ some s) × (s.src ≡ seg.src) × (s.dst ≡ seg.dst)
unfolding refresh fill_in_tcp_checksum
refresh_there t seg a b =
    let p : (seg.src == 0) ≡ false = ground arith in
    let q : (seg.dst == 0) ≡ false = ground arith in
    let h : Segment = record seg { hdr = record (seg.hdr) { ack_seq = htonl t.recv.next } } in
    (
      record h { hdr = record (h.hdr) { check = tcp_checksum h } },
      rw (refresh, fill_in_tcp_checksum, p, q) refl,
      refl,
      refl,
    )

-- What a retransmission leaves.
record Again (env : Env) (t : Tcb) (o : Out) : Type 0 where
  unanswered : IsUnanswered o.tcb
  counted : o.tcb.send.retrans_count ≡ t.send.retrans_count + 1
  at : o.tcb.send.last_sent_time ≡ env.now

retransmit-Again :
    (env : Env) (t : Tcb) → IsUnanswered t → (o : Out) × (retransmit env t ≡ some o) × Again env t o
unfolding retransmit refresh_there
retransmit-Again env t v =
    let (s, e, a, b) = refresh_there t v.last.seg v.last.src_set v.last.dst_set in
    (
      record {
        tcb = record t {
          send = record (t.send) {
            last_seg = some s;
            last_sent_time = env.now;
            retrans_count = t.send.retrans_count + 1;
          };
        };
        sent = s ∷ [];
        status = if env.sends then ok else fail;
      },
      rw (retransmit, v.last.there, e) refl,
      record {
        unanswered = record {
          last = record {
            seg = s;
            there = refl;
            src_set = λ z. v.last.src_set (sym a ∙ z);
            dst_set = λ z. v.last.dst_set (sym b ∙ z);
          };
          waits = v.waits;
          open_still = v.open_still;
          not_ending = v.not_ending;
        };
        counted = refl;
        at = refl;
      },
    )

-- Nothing more happens to a closed block.
stays_closed :
    (c : Config) (envs : List Env) (t : Tcb) → t.state ≡ close → run_timer c envs t ≡ some (t, [])
unfolding run_timer tcp_timer
stays_closed c [] t e = refl
stays_closed c (env ∷ envs) t e =
    let quietly : tcp_timer c env t ≡ quiet t ok = ground arith in
    rw (run_timer, quietly, stays_closed c envs t e) refl

-- The run of the timer ends with a closed block.
abbrev Closes : Config → List Env → Tcb → Type 0
Closes c envs t =
    (u : Tcb) × (sent : List Segment) × (run_timer c envs t ≡ some (u, sent)) × (u.state ≡ close)

run_on :
    (c : Config) (env : Env) (envs : List Env) (t : Tcb) (o : Out)
    → tcp_timer c env t ≡ some o
    → Closes c envs o.tcb
    → Closes c (env ∷ envs) t
unfolding run_timer
run_on c env envs t o e (u, sent, r, k) = (u, o.sent ++ sent, rw (run_timer, e, r) refl, k)

-- If the timer of a connection that waits for an ACK fires often enough, each time a timeout after the
-- last, no assertion fails and the connection is closed: once for each retransmission that it has
-- left, and once more.
pub run_timer_closes :
    (c : Config) (envs : List Env) (t : Tcb)
    → IsUnanswered t
    → Spaced c t.send.last_sent_time envs
    → c.max_retrans - t.send.retrans_count < length envs
    → (u : Tcb) × (sent : List Segment) × (run_timer c envs t ≡ some (u, sent)) × (u.state ≡ close)
run_timer_closes c [] t v s h = absurd (omega arith)
run_timer_closes c (env ∷ envs) t v s h =
    elim (Bool-cases (leb c.max_retrans t.send.retrans_count)) [
      | inl over ↦
          let e : tcp_timer c env t ≡ quiet (goto t close) ok =
            expired c env t v s.0 s.1 ∙ rw over refl in
          run_on c env envs t (record { tcb = goto t close; sent = []; status = ok }) e
            (goto t close, [], stays_closed c envs (goto t close) refl, refl)
      | inr more ↦
          let (o, r, a) = retransmit-Again env t v in
          let e : tcp_timer c env t ≡ some o = expired c env t v s.0 s.1 ∙ rw more r in
          run_on c env envs t o e (
            run_timer_closes c envs o.tcb a.unanswered (subst (λ n. Spaced c n envs) (sym a.at) s.2)
              (ground (arith, a.counted, more, h)))
    ]
