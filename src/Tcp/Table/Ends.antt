-- ===== src/Tcp/Table/Ends.antt =====
-- No operation on a block changes the addresses at its two ends.
use ns_stack.Base.{ℕ, ◌≡◌, refl, inl, inr, Option, none, some, List, ◌∷◌, arith, Bool-cases}
use ns_stack.Segment.{Segment}
use ns_stack.Tcp.{
  Config, State, established, syn_sent, syn_recv, fin_wait1, fin_wait2, time_wait, close,
  close_wait, last_ack, listen, closing, Tcb, Env, fail, Out, quiet, goto, on_ok, fin_mark,
}
use ns_stack.Tcp.Send.{make_sure_sendback}
use ns_stack.Tcp.Send.Emit.{make_sure_sendback-Keeps}
use ns_stack.Tcp.User.{close_block, tcp_close, queue_bytes, send_in, tcp_send, tcp_receive}
use ns_stack.Tcp.User.Transmit.{send_ctrl-Keeps}
use ns_stack.Tcp.Timer.{tcp_timer, check_timeout, retransmit}
use ns_stack.Tcp.Handle.{
  take_ack, next_in, synced, take_payload, take_fin, acknowledge, fin_crossed, on_syn_recv,
  on_syn_sent, on_established, on_fin_wait1, on_fin_wait2, on_closing, on_last_ack, dispatch,
  out_of_sequence, in_sequence, handle_open, handle,
}

pub record SameEnds (t u : Tcb) : Type 0 where
  pub same_local : u.local ≡ t.local
  pub same_remote : u.remote ≡ t.remote

same : {t : Tcb} → SameEnds t t
same = record { same_local = refl; same_remote = refl }

take_ack-SameEnds : (t : Tcb) (seg : Segment) → SameEnds t (take_ack t seg)
unfolding take_ack
take_ack-SameEnds t seg = ground arith

take_payload-SameEnds :
    (c : Config) (t u : Tcb) (seg : Segment) → take_payload c t seg ≡ some (some u) → SameEnds t u
unfolding take_payload
take_payload-SameEnds c t u seg e = ground arith

module _ (c : Config) (env : Env) (t : Tcb) (seg : Segment) (o : Out) where
  syn_recv_ends : on_syn_recv t seg ≡ some o → SameEnds t o.tcb
  unfolding on_syn_recv
  syn_recv_ends e = ground (arith, take_ack-SameEnds t seg)

  syn_sent_ends : on_syn_sent c env t seg ≡ some o → SameEnds t o.tcb
  unfolding on_syn_sent
  syn_sent_ends e = ground (
    arith,
    take_ack-SameEnds (synced t seg) seg,
    make_sure_sendback-Keeps c env (goto (take_ack (synced t seg) seg) established) o,
  )

  acknowledge_ends : (u : Tcb) → acknowledge c env u seg ≡ some o → SameEnds u o.tcb
  unfolding acknowledge
  acknowledge_ends u e = ground (arith, make_sure_sendback-Keeps c env (take_fin u seg) o)

  ended : Option Tcb → Option Out
  ended none = quiet (take_ack t seg) fail
  ended (some u) = acknowledge c env u seg

  established_ends : on_established c env t seg ≡ some o → SameEnds t o.tcb
  unfolding on_established ended
  established_ends e = go (take_payload c (take_ack t seg) seg) refl e
    where
      go :
          (p : Option (Option Tcb))
          → take_payload c (take_ack t seg) seg ≡ p
          → elim p [ none ↦ none | some q ↦ ended q ] ≡ some o
          → SameEnds t o.tcb
      go none q h = cc
      go (some none) q h = ground (arith, take_ack-SameEnds t seg)
      go (some (some u)) q h = ground (
        arith,
        take_ack-SameEnds t seg,
        take_payload-SameEnds c (take_ack t seg) u seg q,
        acknowledge_ends u,
      )

  crossed_ends :
      (u : Tcb) → on_ok (make_sure_sendback c env u) fin_crossed ≡ some o → SameEnds u o.tcb
  crossed_ends u e = go (make_sure_sendback c env u) refl e
    where
      go :
          (p : Option Out)
          → make_sure_sendback c env u ≡ p
          → on_ok p fin_crossed ≡ some o
          → SameEnds u o.tcb
      go none q h = cc
      go (some o') q h = ground (arith, make_sure_sendback-Keeps c env u o' q)

  fin_wait1_ends : on_fin_wait1 c env t seg ≡ some o → SameEnds t o.tcb
  unfolding on_fin_wait1
  fin_wait1_ends e =
      ground (arith, take_ack-SameEnds t seg, crossed_ends (next_in (take_ack t seg)))

  fin_wait2_ends : on_fin_wait2 c env t seg ≡ some o → SameEnds t o.tcb
  unfolding on_fin_wait2
  fin_wait2_ends e = ground (
    arith,
    take_ack-SameEnds t seg,
    make_sure_sendback-Keeps c env (goto (next_in (take_ack t seg)) time_wait) o,
  )

  out_of_sequence_ends : out_of_sequence c env t seg ≡ some o → SameEnds t o.tcb
  unfolding out_of_sequence
  out_of_sequence_ends e = grind (arith, make_sure_sendback-Keeps, take_ack-SameEnds)

  dispatch-SameEnds : (s : State) → dispatch c env t seg s ≡ some o → SameEnds t o.tcb
  unfolding dispatch on_closing on_last_ack
  dispatch-SameEnds syn_recv e = syn_recv_ends e
  dispatch-SameEnds syn_sent e = syn_sent_ends e
  dispatch-SameEnds established e = established_ends e
  dispatch-SameEnds fin_wait1 e = fin_wait1_ends e
  dispatch-SameEnds fin_wait2 e = fin_wait2_ends e
  dispatch-SameEnds closing e = ground arith
  dispatch-SameEnds last_ack e = ground arith
  dispatch-SameEnds close_wait e = ground arith
  dispatch-SameEnds time_wait e = ground arith
  dispatch-SameEnds close e = ground arith
  dispatch-SameEnds listen e = ground arith

  handle_open-SameEnds : (s : State) → handle_open c env t seg s ≡ some o → SameEnds t o.tcb
  unfolding handle_open
  handle_open-SameEnds s e = elim (Bool-cases (in_sequence t seg s)) [
    | inr out ↦ out_of_sequence_ends (rw out at e)
    | inl in_seq ↦ elim (Bool-cases seg.hdr.ack) [
      | inl acked ↦ dispatch-SameEnds s (ground arith)
      | inr bare ↦ absurd (ground arith)
    ]
  ]

  pub handle-SameEnds : (s : State) → handle c env t seg s ≡ some o → SameEnds t o.tcb
  unfolding handle
  handle-SameEnds close e = ground arith
  handle-SameEnds s e = handle_open-SameEnds s e

pub tcp_timer-SameEnds :
    (c : Config) (env : Env) (t : Tcb) (o : Out) → tcp_timer c env t ≡ some o → SameEnds t o.tcb
unfolding tcp_timer check_timeout retransmit
tcp_timer-SameEnds c env t o e = ground arith

pub tcp_close-SameEnds :
    (c : Config) (env : Env) (t : Tcb) (o : Out) → tcp_close c env t ≡ some o → SameEnds t o.tcb
unfolding tcp_close
tcp_close-SameEnds c env t o e = go t.state e
  where
    go : (s : State) → close_block c env t s ≡ some o → SameEnds t o.tcb
    go syn_recv e = ground (arith, send_ctrl-Keeps c env (goto t fin_wait1) fin_mark o)
    go established e = ground (arith, send_ctrl-Keeps c env (goto t fin_wait1) fin_mark o)
    go close_wait e = ground (arith, send_ctrl-Keeps c env (goto t last_ack) fin_mark o)
    go s e = ground arith

pub tcp_receive-SameEnds :
    (c : Config) (t u : Tcb) (n : ℕ) (bytes : List ℕ)
    → tcp_receive c t n ≡ some (u, bytes)
    → SameEnds t u
unfolding tcp_receive
tcp_receive-SameEnds c t u n bytes e = ground arith

pub tcp_send-SameEnds :
    (c : Config) (env : Env) (t : Tcb) (bytes : List ℕ) (o : Out) (n : ℕ)
    → tcp_send c env t bytes ≡ some (o, n)
    → SameEnds t o.tcb
unfolding tcp_send
tcp_send-SameEnds c env t bytes o n e = go t.state bytes e
  where
    buf_after : List ℕ → Tcb
    buf_after bs = record t {
      send = record (t.send) { buf = (queue_bytes c.send_buffer_size t.send.buf bs 0).0 };
    }

    go : (s : State) (bs : List ℕ) → send_in c env t s bs ≡ some (o, n) → SameEnds t o.tcb
    go established (b ∷ bs) h =
        ground (arith, make_sure_sendback-Keeps c env (buf_after (b ∷ bs)) o)
    go s bs h = ground arith
