-- ===== src/Tcp/User/Transmit.antt =====
-- `tcp_send` and `tcp_close`: the bytes and the mark that they put into the send buffer.
use ns_stack.Base.{
  ℕ, suc, ◌+◌, ◌-◌, ◌<◌, ◌≡◌, ◌≢◌, refl, sym, ap, ◌∙◌, true, false, Bool-cases, inl, inr, some,
  List, [], ◌∷◌, ◌++◌, map, append_assoc, append-nil, arith, length, length-append, take, take-nil,
  min, leb,
}
use ns_stack.Ring
use ns_stack.Ring.{RingBuffer}
use ns_stack.Ring.Inv.{IsValid}
use ns_stack.Ring.Refine.{contents, push_refines}
use ns_stack.Tcp.{
  Config, State, established, syn_sent, syn_recv, fin_wait1, fin_wait2, time_wait, close,
  close_wait, last_ack, listen, closing, Sequence, plain_byte, fin_mark, Tcb, Env, Out, goto,
}
use ns_stack.Tcp.Send.{send_ctrl}
use ns_stack.Tcp.Send.Emit.{Keeps, make_sure_sendback-Keeps}
use ns_stack.Tcp.User.{close_block, tcp_close, queue_bytes, send_in, tcp_send}

-- What the loop of `tcp_send` did: it took the first bytes, as many as the buffer has room for.
pub record Queued (size : ℕ) (r : RingBuffer Sequence) (bytes : List ℕ) (i : ℕ)
    (out : RingBuffer Sequence × ℕ) : Type 0 where
  pub valid : IsValid size out.0
  pub count : out.1 ≡ i + min (length bytes) (size - length (contents size r))
  pub appended :
      contents size out.0
      ≡ contents size r ++ map plain_byte (take (size - length (contents size r)) bytes)

room_left :
    (size : ℕ) (q : List Sequence) (b : ℕ) (bytes : List ℕ) (q' : List Sequence)
    → q' ≡ q ++ (plain_byte b ∷ [])
    → length q < size
    → q' ++ map plain_byte (take (size - length q') bytes)
      ≡ q ++ map plain_byte (take (size - length q) (b ∷ bytes))
room_left size q b bytes q' e h =
    let one : size - length q ≡ suc (size - length q') =
      omega (arith, ap length e, length-append q (plain_byte b ∷ [])) in
    rw one (
      ap (λ l. l ++ map plain_byte (take (size - length q') bytes)) e
      ∙ append_assoc q (plain_byte b ∷ []) _)

-- The loop of `tcp_send` queues as many of the bytes as a valid send buffer has room for, from the
-- first on and in order, behind what it holds, and counts them.
pub queue_bytes-Queued :
    (size : ℕ) (bytes : List ℕ) {r : RingBuffer Sequence} (i : ℕ)
    → IsValid size r
    → Queued size r bytes i (queue_bytes size r bytes i)
unfolding queue_bytes
queue_bytes-Queued size [] {r} i v = record {
  valid = v;
  count = omega arith;
  appended = rw (take-nil (size - length (contents size r))) (sym (append-nil _));
}
queue_bytes-Queued size (b ∷ bytes) {r} i v =
    let (w, p) = push_refines v (plain_byte b) in
    elim (Bool-cases (leb size (length (contents size r)))) [
      | inl full ↦
          let refused : (Ring.push size r (plain_byte b)).1 ≡ false = ap (λ x. x.1) p ∙ rw full in
          rw refused (record {
            valid = v;
            count = ground arith;
            appended =
                let none_left : size - length (contents size r) ≡ 0 = ground arith in
                rw none_left (sym (append-nil _));
          })
      | inr room ↦
          let taken : (Ring.push size r (plain_byte b)).1 ≡ true = ap (λ x. x.1) p ∙ rw room in
          let now : contents size (Ring.push size r (plain_byte b)).0
              ≡ contents size r ++ (plain_byte b ∷ []) =
            ap (λ x. x.0) p ∙ rw room in
          let ih : Queued size (Ring.push size r (plain_byte b)).0 bytes (i + 1)
              (queue_bytes size (Ring.push size r (plain_byte b)).0 bytes (i + 1)) =
            queue_bytes-Queued size bytes (i + 1) w in
          let grown : length (contents size (Ring.push size r (plain_byte b)).0)
              ≡ length (contents size r) + 1 =
            ap length now ∙ length-append (contents size r) (plain_byte b ∷ []) in
          rw taken (record {
            valid = ih.valid;
            count = ground (arith, ih.count);
            appended =
                ih.appended
                ∙ room_left size (contents size r) b bytes
                    (contents size (Ring.push size r (plain_byte b)).0) now (ground arith);
          })
    ]

-- Neither operation changes what was received.
pub send_ctrl-Keeps :
    (c : Config) (env : Env) (t : Tcb) (s : Sequence) (o : Out)
    → send_ctrl c env t s ≡ some o
    → Keeps t o.tcb
unfolding send_ctrl
send_ctrl-Keeps c env t s o e = ground (
  arith,
  make_sure_sendback-Keeps c env
      (record t { send = record (t.send) { buf = (Ring.push c.send_buffer_size t.send.buf s).0 } })
      o,
)

pub tcp_close_recv :
    (c : Config) (env : Env) (t : Tcb) (o : Out)
    → tcp_close c env t ≡ some o
    → (o.tcb.recv ≡ t.recv)
      × (o.tcb.state ≢ established)
      × (o.tcb.state ≢ syn_sent)
      × (o.tcb.state ≢ syn_recv)
unfolding tcp_close
tcp_close_recv c env t o e = go t.state refl e
  where
    go :
        (s : State)
        → t.state ≡ s
        → close_block c env t s ≡ some o
        → (o.tcb.recv ≡ t.recv)
          × (o.tcb.state ≢ established)
          × (o.tcb.state ≢ syn_sent)
          × (o.tcb.state ≢ syn_recv)
    go close q h = ground arith
    go fin_wait1 q h = ground arith
    go fin_wait2 q h = ground arith
    go closing q h = ground arith
    go last_ack q h = ground arith
    go time_wait q h = ground arith
    go syn_sent q h = ground arith
    go listen q h = ground arith
    go syn_recv q h = ground (arith, send_ctrl-Keeps c env (goto t fin_wait1) fin_mark o)
    go established q h = ground (arith, send_ctrl-Keeps c env (goto t fin_wait1) fin_mark o)
    go close_wait q h = ground (arith, send_ctrl-Keeps c env (goto t last_ack) fin_mark o)

pub tcp_send_recv :
    (c : Config) (env : Env) (t : Tcb) (bytes : List ℕ) (o : Out) (n : ℕ)
    → tcp_send c env t bytes ≡ some (o, n)
    → (o.tcb.recv ≡ t.recv) × (o.tcb.state ≡ t.state)
unfolding tcp_send
tcp_send_recv c env t bytes o n e = go t.state bytes e
  where
    buf_after : List ℕ → Tcb
    buf_after bs = record t {
      send = record (t.send) { buf = (queue_bytes c.send_buffer_size t.send.buf bs 0).0 };
    }

    go :
        (s : State) (bs : List ℕ)
        → send_in c env t s bs ≡ some (o, n)
        → (o.tcb.recv ≡ t.recv) × (o.tcb.state ≡ t.state)
    go established [] h = ground arith
    go established (b ∷ rest) h =
        ground (arith, make_sure_sendback-Keeps c env (buf_after (b ∷ rest)) o)
    go s bs h = ground arith
