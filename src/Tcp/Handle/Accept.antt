-- ===== src/Tcp/Handle/Accept.antt =====
-- What an incoming segment does to the receive buffer.
use ns_stack.Base.{
  ℕ, ◌≡◌, ◌≢◌, refl, ap, ◌∙◌, inl, inr, Bool, true, false, Bool-cases, Option, none, some, List,
  ◌++◌, arith, length, take, take_whole, add32,
}
use ns_stack.Ring
use ns_stack.Ring.{RingBuffer}
use ns_stack.Ring.Inv.{IsValid}
use ns_stack.Ring.Queue
use ns_stack.Ring.Refine.{contents}
use ns_stack.Ring.PushAll.{push_all_refines}
use ns_stack.Segment.{Segment, payload_len, len}
use ns_stack.Tcp.{
  Config, State, established, syn_sent, syn_recv, fin_wait1, fin_wait2, time_wait, close,
  close_wait, last_ack, listen, closing, Tcb, Env, Out, fail, quiet, goto, on_ok,
}
use ns_stack.Tcp.Send.{make_sure_sendback}
use ns_stack.Tcp.Send.Emit.{make_sure_sendback-Keeps}
use ns_stack.Tcp.Handle.{
  take_ack, take_payload, take_fin, next_in, on_syn_recv, on_syn_sent, synced, on_established,
  acknowledge, on_fin_wait1, fin_crossed, on_fin_wait2, on_closing, on_last_ack, dispatch,
  out_of_sequence, in_sequence, handle_open, handle,
}

-- The received data of a block, oldest first.
abbrev pub received : Config → Tcb → List ℕ
received c t = contents c.recv_buffer_size t.recv.buf

recv-take_ack : (t : Tcb) (seg : Segment) → (take_ack t seg).recv ≡ t.recv
unfolding take_ack
recv-take_ack t seg = ground arith

payload_len-length : (seg : Segment) → payload_len seg ≡ length seg.payload
unfolding payload_len len
payload_len-length seg = omega arith

-- The payload is appended whole and the next expected number moves past it, or nothing happens.
pub data Takes (c : Config) (t : Tcb) (seg : Segment) (p : Option (Option Tcb)) : Type 0 where
  whole :
      (u : Tcb)
      → IsValid c.recv_buffer_size u.recv.buf
      → received c u ≡ received c t ++ seg.payload
      → u.recv.next ≡ add32 t.recv.next (length seg.payload)
      → (u.state ≡ t.state) × (u.send ≡ t.send) × (u.local ≡ t.local) × (u.remote ≡ t.remote)
      → p ≡ some (some u)
      → Takes c t seg p
  refused : p ≡ some none → Takes c t seg p

appended :
    (cap : ℕ) (q q' a : List ℕ) (n : ℕ)
    → ◌≡◌ {A = List ℕ × Bool} (q', true) (Queue.push_all cap q a n)
    → q' ≡ q ++ take n a
appended cap q q' a n e = ground arith

pub take_payload-Takes :
    (c : Config) (t : Tcb) (seg : Segment)
    → IsValid c.recv_buffer_size t.recv.buf
    → Takes c t seg (take_payload c t seg)
unfolding take_payload
take_payload-Takes c t seg v =
    let (buf', done, e, w, q) =
      push_all_refines v seg.payload (payload_len seg) (omega (arith, payload_len-length seg)) in
    go buf' done e w q
  where
    go :
        (buf' : RingBuffer ℕ) (done : Bool)
        → Ring.push_all c.recv_buffer_size t.recv.buf seg.payload (payload_len seg)
          ≡ some (buf', done)
        → IsValid c.recv_buffer_size buf'
        → ◌≡◌ {A = List ℕ × Bool}
            (contents c.recv_buffer_size buf', done)
            (Queue.push_all c.recv_buffer_size (received c t) seg.payload (payload_len seg))
        → Takes c t seg (take_payload c t seg)
    go buf' false e w q = refused (rw (e, take_payload))
    go buf' true e w q =
        whole
          (record t {
            recv = record (t.recv) { buf = buf'; next = add32 t.recv.next (payload_len seg) };
          })
          w
          (appended c.recv_buffer_size (received c t) (contents c.recv_buffer_size buf') seg.payload
              (payload_len seg) q
            ∙ ap (◌++◌ (received c t))
                (take_whole (payload_len seg) seg.payload (omega (arith, payload_len-length seg))))
          (ap (add32 t.recv.next) (payload_len-length seg)) (refl, refl, refl, refl)
          (rw (e, take_payload))

-- What one incoming segment does: it leaves the receive buffer alone, or it is the expected one of an
-- established connection and its data are appended, once and whole.
pub data Delivers (c : Config) (t : Tcb) (seg : Segment) (o : Out) : Type 0 where
  keeps :
      o.tcb.recv.buf ≡ t.recv.buf
      → (t.state ≡ established → o.tcb.state ≡ established → o.tcb.recv.next ≡ t.recv.next)
      → Delivers c t seg o
  accepts :
      t.state ≡ established
      → seg.hdr.seq ≡ t.recv.next
      → IsValid c.recv_buffer_size o.tcb.recv.buf
      → received c o.tcb ≡ received c t ++ seg.payload
      → (o.tcb.state ≡ established → o.tcb.recv.next ≡ add32 t.recv.next (length seg.payload))
      → Delivers c t seg o

module _ (c : Config) (env : Env) (t : Tcb) (seg : Segment) (o : Out) where
  syn_recv_buf : on_syn_recv t seg ≡ some o → o.tcb.recv.buf ≡ t.recv.buf
  unfolding on_syn_recv
  syn_recv_buf e = ground (arith, recv-take_ack t seg)

  syn_sent_buf : on_syn_sent c env t seg ≡ some o → o.tcb.recv.buf ≡ t.recv.buf
  unfolding on_syn_sent
  syn_sent_buf e = ground (
    arith,
    make_sure_sendback-Keeps c env (goto (take_ack (synced t seg) seg) established) o,
    recv-take_ack (synced t seg) seg,
  )

  crossed_buf :
      (u : Tcb)
      → on_ok (make_sure_sendback c env u) fin_crossed ≡ some o
      → o.tcb.recv.buf ≡ u.recv.buf
  crossed_buf u e = go (make_sure_sendback c env u) refl e
    where
      go :
          (p : Option Out)
          → make_sure_sendback c env u ≡ p
          → on_ok p fin_crossed ≡ some o
          → o.tcb.recv.buf ≡ u.recv.buf
      go none q h = cc
      go (some o') q h = ground (arith, make_sure_sendback-Keeps c env u o' q)

  fin_wait1_buf : on_fin_wait1 c env t seg ≡ some o → o.tcb.recv.buf ≡ t.recv.buf
  unfolding on_fin_wait1
  fin_wait1_buf e = ground (arith, recv-take_ack t seg, crossed_buf (next_in (take_ack t seg)))

  fin_wait2_buf : on_fin_wait2 c env t seg ≡ some o → o.tcb.recv.buf ≡ t.recv.buf
  unfolding on_fin_wait2
  fin_wait2_buf e = ground (
    arith,
    recv-take_ack t seg,
    make_sure_sendback-Keeps c env (goto (next_in (take_ack t seg)) time_wait) o,
  )

  closing_buf : on_closing t seg ≡ some o → o.tcb.recv.buf ≡ t.recv.buf
  unfolding on_closing
  closing_buf e = ground arith

  last_ack_buf : on_last_ack t seg ≡ some o → o.tcb.recv.buf ≡ t.recv.buf
  unfolding on_last_ack
  last_ack_buf e = ground arith

  out_of_sequence_recv : out_of_sequence c env t seg ≡ some o → o.tcb.recv ≡ t.recv
  unfolding out_of_sequence
  out_of_sequence_recv e = go (make_sure_sendback c env (take_ack t seg)) refl e
    where
      go :
          (p : Option Out)
          → make_sure_sendback c env (take_ack t seg) ≡ p
          → elim p [ none ↦ none | some o' ↦ some (record o' { status = fail }) ] ≡ some o
          → o.tcb.recv ≡ t.recv
      go none q h = cc
      go (some o') q h =
          ground (arith, make_sure_sendback-Keeps c env (take_ack t seg) o' q, recv-take_ack t seg)

  acknowledge_recv :
      (u : Tcb)
      → acknowledge c env u seg ≡ some o
      → (o.tcb.recv.buf ≡ u.recv.buf) × (o.tcb.state ≡ established → o.tcb.recv.next ≡ u.recv.next)
  unfolding acknowledge
  acknowledge_recv u e = ground (arith, make_sure_sendback-Keeps c env (take_fin u seg) o)

  ended : Option Tcb → Option Out
  ended none = quiet (take_ack t seg) fail
  ended (some u) = acknowledge c env u seg

  established-Delivers :
      t.state ≡ established
      → seg.hdr.seq ≡ t.recv.next
      → IsValid c.recv_buffer_size t.recv.buf
      → on_established c env t seg ≡ some o
      → Delivers c t seg o
  unfolding on_established ended
  established-Delivers q n v e =
      go (take_payload c (take_ack t seg) seg)
        (take_payload-Takes c (take_ack t seg) seg (rw (recv-take_ack t seg) v)) e
    where
      go :
          (p : Option (Option Tcb))
          → Takes c (take_ack t seg) seg p
          → elim p [ none ↦ none | some taken ↦ ended taken ] ≡ some o
          → Delivers c t seg o
      go p (refused r) h =
          let same : quiet (take_ack t seg) fail ≡ some o = rw r at h in
          keeps (ground (arith, recv-take_ack t seg)) (ground (arith, recv-take_ack t seg))
      go p (whole u w a m k r) h =
          let done : acknowledge c env u seg ≡ some o = rw r at h in
          let (b, x) = acknowledge_recv u done in
          accepts q n (rw b w) (rw b (rw (recv-take_ack t seg) at a))
            (λ st. x st ∙ (rw (recv-take_ack t seg) at m))

  dispatch-Delivers :
      (s : State)
      → t.state ≡ s
      → seg.hdr.seq ≡ t.recv.next
      → IsValid c.recv_buffer_size t.recv.buf
      → dispatch c env t seg s ≡ some o
      → Delivers c t seg o
  unfolding dispatch
  dispatch-Delivers syn_recv q n v e = keeps (syn_recv_buf e) (ground arith)
  dispatch-Delivers syn_sent q n v e = keeps (syn_sent_buf e) (ground arith)
  dispatch-Delivers established q n v e = established-Delivers q n v e
  dispatch-Delivers fin_wait1 q n v e = keeps (fin_wait1_buf e) (ground arith)
  dispatch-Delivers fin_wait2 q n v e = keeps (fin_wait2_buf e) (ground arith)
  dispatch-Delivers closing q n v e = keeps (closing_buf e) (ground arith)
  dispatch-Delivers last_ack q n v e = keeps (last_ack_buf e) (ground arith)
  dispatch-Delivers close_wait q n v e = keeps (ground arith) (ground arith)
  dispatch-Delivers time_wait q n v e = keeps (ground arith) (ground arith)
  dispatch-Delivers close q n v e = keeps (ground arith) (ground arith)
  dispatch-Delivers listen q n v e = keeps (ground arith) (ground arith)

  in_sequence_lem :
      (s : State) → s ≢ syn_sent → in_sequence t seg s ≡ true → seg.hdr.seq ≡ t.recv.next
  in_sequence_lem syn_sent ne e = absurd (ne refl)
  in_sequence_lem s ne e = ground arith

  handle_open-Delivers :
      (s : State)
      → s ≢ syn_sent
      → t.state ≡ s
      → IsValid c.recv_buffer_size t.recv.buf
      → handle_open c env t seg s ≡ some o
      → Delivers c t seg o
  unfolding handle_open
  handle_open-Delivers s ne q v e = elim (Bool-cases (in_sequence t seg s)) [
    | inr out ↦
        let keep : o.tcb.recv ≡ t.recv = out_of_sequence_recv (ground arith) in
        keeps (ground arith) (ground arith)
    | inl inseq ↦ dispatch-Delivers s q (in_sequence_lem s ne inseq) v (ground arith)
  ]

  states :
      (s : State)
      → t.state ≡ s
      → IsValid c.recv_buffer_size t.recv.buf
      → handle c env t seg s ≡ some o
      → Delivers c t seg o
  unfolding handle handle_open dispatch
  states close q v e = keeps (ground arith) (ground arith)
  states syn_sent q v e = keeps (syn_sent_buf (ground arith)) (ground arith)
  states s q v e = handle_open-Delivers s (λ h. cc) q v e

  -- An incoming segment leaves the receive buffer alone, or it is the next one of an established
  -- connection and its data are appended once and whole. The receive buffer is valid.
  pub handle-Delivers :
      IsValid c.recv_buffer_size t.recv.buf
      → handle c env t seg t.state ≡ some o
      → Delivers c t seg o
  handle-Delivers v e = states t.state refl v e
