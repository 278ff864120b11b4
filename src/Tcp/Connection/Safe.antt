-- ===== src/Tcp/Connection/Safe.antt =====
-- No event of a connection fails an assertion of src/pnx_tcp.cc, whatever came before it.
use ns_stack.Base.{
  ℕ, ◌<◌, ◌≡◌, ◌≢◌, refl, ap, true, false, Bool-cases, inl, inr, Option, none, some, List, [], ◌∷◌,
  arith, leb, ◌*◌, ◌+◌, sub64, if◌then◌else◌, ◌==◌,
}
use ns_stack.Ring
use ns_stack.Ring.{RingBuffer}
use ns_stack.Ring.Refine.{push_refines}
use ns_stack.Bytes.{htonl}
use ns_stack.Segment.{Segment, tcphdr_size, fill_in_tcp_checksum, tcp_checksum}
use ns_stack.Tcp.{
  Config, State, established, syn_sent, syn_recv, fin_wait1, fin_wait2, time_wait, close,
  close_wait, last_ack, listen, closing, Tcb, Sequence, fin_mark, waiting_for_ack, Env, Out, ok,
  fail, quiet, goto,
}
use ns_stack.Tcp.Send.{send_ctrl, make_sure_sendback}
use ns_stack.Tcp.Ready.{
  HasLast, IsReady, Ends, quiet-Ends, if-Ends, alike-IsReady, queued-IsReady, closed-IsReady,
  sendback-Ends,
}
use ns_stack.Tcp.User.{tcp_send, tcp_close, close_block, send_in, queue_bytes}
use ns_stack.Tcp.User.Receive.{Reads, tcp_receive-Reads}
use ns_stack.Tcp.User.Transmit.{queue_bytes-Queued}
use ns_stack.Tcp.Timer.{tcp_timer, check_timeout, retransmit, refresh}
use ns_stack.Tcp.Handle.Total.{handle-Ends}
use ns_stack.Tcp.Connection.{
  Event, arrive, tick, write, read, shut, Step, step, of_out, of_read, of_write,
}

-- The segments that arrive have their ACK bit set.
abbrev pub Acked : Event → Type 0
Acked (arrive env seg) = seg.hdr.ack ≡ true
Acked _ = Unit

-- The segment that is sent again.
abbrev refreshed : Tcb → Segment → Segment
refreshed t seg =
    let s : Segment = record seg { hdr = record (seg.hdr) { ack_seq = htonl t.recv.next } } in
    record s { hdr = record (s.hdr) { check = tcp_checksum s } }

refresh-refreshed : (t : Tcb) (x : HasLast t) → refresh t x.seg ≡ some (refreshed t x.seg)
unfolding refresh fill_in_tcp_checksum
refresh-refreshed t x =
    let a : (x.seg.src == 0) ≡ false = ground (arith, x.src_set) in
    let b : (x.seg.dst == 0) ≡ false = ground (arith, x.dst_set) in rw (a, b)

abbrev resent : Env → Tcb → Segment → Tcb
resent env t seg = record t {
  send = record (t.send) {
    last_seg = some seg;
    last_sent_time = env.now;
    retrans_count = t.send.retrans_count + 1;
  };
}

module _ (c : Config) (env : Env) (room : tcphdr_size < c.max_segment_size) (t : Tcb)
    (r : IsReady c t) where
  pub send_ctrl-Ends : (s : Sequence) → Ends c (send_ctrl c env t s)
  unfolding send_ctrl
  send_ctrl-Ends s =
      if-Ends (Ring.push c.send_buffer_size t.send.buf s).1
        (sendback-Ends c env room _ (queued-IsReady c t r _ (push_refines r.sends s).0))
        (quiet-Ends t fail r)

  retransmit-Ends : HasLast t → Ends c (retransmit env t)
  unfolding retransmit
  retransmit-Ends x =
      let seg' : Segment = refreshed t x.seg in
      (
        record {
          tcb = resent env t seg';
          sent = seg' ∷ [];
          status = if env.sends then ok else fail;
        },
        ground (arith, x.there, refresh-refreshed t x),
        record {
          sends = r.sends;
          receives = r.receives;
          addresses = r.addresses;
          last =
              λ n w. record { seg = seg'; there = refl; src_set = x.src_set; dst_set = x.dst_set };
        },
      )

  check_timeout-Ends : t.state ≢ close → Ends c (check_timeout c env t)
  unfolding check_timeout
  check_timeout-Ends n = elim (Bool-cases (waiting_for_ack t.send)) [
    | inl busy ↦ rw busy (
        if-Ends (leb c.timeout (sub64 env.now t.send.last_sent_time))
          (if-Ends (leb c.max_retrans t.send.retrans_count) (quiet-Ends _ ok (closed-IsReady c t r))
            (retransmit-Ends (r.last n busy)))
          (quiet-Ends t ok r))
    | inr idle ↦ rw idle (quiet-Ends t ok r)
  ]

  tcp_timer-Ends : Ends c (tcp_timer c env t)
  unfolding tcp_timer
  tcp_timer-Ends = go t.state refl
    where
      go :
          (s : State)
          → t.state ≡ s
          → Ends c (elim s [
            | close ↦ quiet t ok
            | time_wait ↦
                if leb (2 * c.msl) (sub64 env.now t.send.last_sent_time)
                then quiet (goto t close) ok
                else quiet t ok
            | _ ↦ check_timeout c env t
          ])
      go close q = quiet-Ends t ok r
      go time_wait q =
          if-Ends (leb (2 * c.msl) (sub64 env.now t.send.last_sent_time))
            (quiet-Ends (goto t close) ok (closed-IsReady c t r)) (quiet-Ends t ok r)
      go s q = check_timeout-Ends (ground arith)

module _ (c : Config) (env : Env) (room : tcphdr_size < c.max_segment_size) (t : Tcb)
    (r : IsReady c t) where
  pub tcp_close-Ends : Ends c (tcp_close c env t)
  unfolding tcp_close
  tcp_close-Ends = go t.state refl
    where
      shuts : (s : State) → t.state ≢ close → Ends c (send_ctrl c env (goto t s) fin_mark)
      shuts s n =
          send_ctrl-Ends c env room (goto t s)
            (alike-IsReady c t r (goto t s) n r.receives refl refl refl) fin_mark

      go : (s : State) → t.state ≡ s → Ends c (close_block c env t s)
      go close q = quiet-Ends t ok r
      go fin_wait1 q = quiet-Ends t ok r
      go fin_wait2 q = quiet-Ends t ok r
      go closing q = quiet-Ends t ok r
      go last_ack q = quiet-Ends t ok r
      go time_wait q = quiet-Ends t ok r
      go syn_sent q = quiet-Ends (goto t close) ok (closed-IsReady c t r)
      go listen q = quiet-Ends (goto t close) ok (closed-IsReady c t r)
      go syn_recv q = shuts fin_wait1 (ground arith)
      go established q = shuts fin_wait1 (ground arith)
      go close_wait q = shuts last_ack (ground arith)

  -- The write gives a result, and leaves a ready block.
  abbrev Writes : Option (Out × ℕ) → Type 0
  Writes p = (o : Out) × (n : ℕ) × (p ≡ some (o, n)) × IsReady c o.tcb

  refuses : Writes (some (record { tcb = t; sent = []; status = fail }, 0))
  refuses = (record { tcb = t; sent = []; status = fail }, 0, refl, r)

  tcp_send-Writes : (bytes : List ℕ) → Writes (tcp_send c env t bytes)
  unfolding tcp_send
  tcp_send-Writes bytes = go t.state bytes
    where
      queued :
          (b : ℕ) (bs : List ℕ)
          → Ends c (
              make_sure_sendback c env (record t {
                send = record (t.send) {
                  buf = (queue_bytes c.send_buffer_size t.send.buf (b ∷ bs) 0).0;
                };
              }))
          → Writes (send_in c env t established (b ∷ bs))
      queued b bs (o, e, w) =
          (o, (queue_bytes c.send_buffer_size t.send.buf (b ∷ bs) 0).1, rw (e, send_in), w)

      go : (s : State) (bs : List ℕ) → Writes (send_in c env t s bs)
      go established [] = (record { tcb = t; sent = []; status = ok }, 0, refl, r)
      go established (b ∷ bs) = queued b bs (
          sendback-Ends c env room _ (
            queued-IsReady c t r _
              ((queue_bytes-Queued c.send_buffer_size (b ∷ bs) 0 r.sends).valid)))
      go s bs = refuses

-- A step gives a result, and leaves a ready block.
abbrev pub Goes : Config → Option Step → Type 0
Goes c p = (s : Step) × (p ≡ some s) × IsReady c s.tcb

-- The events one after the other, as far as no assertion fails.
unfoldable pub steps : Config → Tcb → List Event → Option Tcb
steps c t [] = some t
steps c t (e ∷ es) = elim (step c t e) [ none ↦ none | some s ↦ steps c s.tcb es ]

abbrev pub AllAcked : List Event → Type 0
AllAcked [] = Unit
AllAcked (e ∷ es) = Acked e × AllAcked es

module _ (c : Config) (room : tcphdr_size < c.max_segment_size) where
  out-Goes : (p : Option Out) → Ends c p → Goes c (of_out p)
  out-Goes p (o, e, w) = (_, ap of_out e, w)

  -- A ready connection takes any event, if a segment that arrives has its ACK bit set: no assertion
  -- fails, and the connection is ready again.
  pub step-Goes : (t : Tcb) (e : Event) → IsReady c t → Acked e → Goes c (step c t e)
  unfolding step
  step-Goes t (arrive env seg) r a = out-Goes _ (handle-Ends c env room t seg r a)
  step-Goes t (tick env) r a = out-Goes _ (tcp_timer-Ends c env room t r)
  step-Goes t (write env bytes) r a =
      let (o, n, e, w) = tcp_send-Writes c env room t r bytes in (_, ap of_write e, w)
  step-Goes t (read n) r a =
      let x : Reads c t n = tcp_receive-Reads c t n r.receives in
      (
        _,
        ap of_read x.ends,
        record {
          sends = r.sends;
          receives = x.valid;
          addresses = r.addresses;
          last = λ m w.
              let y : HasLast t = r.last m w in
              record { seg = y.seg; there = y.there; src_set = y.src_set; dst_set = y.dst_set };
        },
      )
  step-Goes t (shut env) r a = out-Goes _ (tcp_close-Ends c env room t r)

  -- No sequence of events makes a ready connection fail an assertion, if the segments that arrive
  -- have their ACK bit set and a segment has room for data, and it ends ready.
  pub steps_total :
      (es : List Event) (t : Tcb)
      → IsReady c t
      → AllAcked es
      → (u : Tcb) × (steps c t es ≡ some u) × IsReady c u
  unfolding steps
  steps_total [] t r a = (t, refl, r)
  steps_total (e ∷ es) t r (a, more) =
      let (s, p, w) = step-Goes t e r a in
      let (u, q, x) = steps_total es s.tcb w more in (u, rw (p, steps) q, x)
