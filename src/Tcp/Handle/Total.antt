-- ===== src/Tcp/Handle/Total.antt =====
-- No segment that has its ACK bit set makes a handler fail an assertion.
use ns_stack.Base.{
  ◌<◌, ◌↔◌, ◌≡◌, ◌≢◌, refl, sym, subst, inl, inr, Bool, true, false, Bool-cases, Option, none,
  if◌then◌else◌, some, arith, ltb, ◌==◌, ◌&&◌, ◌||◌, not, add32,
}
use ns_stack.Ring
use ns_stack.Ring.{RingBuffer}
use ns_stack.Ring.Inv.{IsValid}
use ns_stack.Segment.{Segment, tcphdr_size, have_payload, len}
use ns_stack.Tcp.{
  Config, State, established, syn_sent, syn_recv, fin_wait1, fin_wait2, time_wait, close,
  close_wait, last_ack, listen, closing, Tcb, waiting_for_ack, Env, Out, goto, ok, fail, on_ok,
  then_ok,
}
use ns_stack.Tcp.Send.{make_sure_sendback}
use ns_stack.Tcp.Send.Emit.{make_sure_sendback-Keeps}
use ns_stack.Tcp.Handle.{
  handle, handle_open, dispatch, take_ack, next_in, synced, on_syn_sent, on_syn_recv, take_payload,
  take_fin, acknowledge, on_established, on_fin_wait1, on_fin_wait2, on_closing, on_last_ack,
  out_of_sequence, in_sequence, fin_crossed,
}
use ns_stack.Tcp.Handle.Accept.{Takes, whole, refused, take_payload-Takes}
use ns_stack.Tcp.Ready.{HasLast, IsReady, Ends, quiet-Ends, if-Ends, alike-IsReady, sendback-Ends}

module _ (c : Config) (t : Tcb) (r : IsReady c t) where
  take_ack-IsReady : (seg : Segment) → IsReady c (take_ack t seg)
  unfolding take_ack
  take_ack-IsReady seg = elim (Bool-cases (ltb t.send.unack seg.hdr.ack_seq)) [
    | inl e ↦ rw e (record {
      sends = r.sends;
      receives = r.receives;
      addresses = r.addresses;
      last = λ n w.
          let x : HasLast t = r.last n (ground arith) in
          record { seg = x.seg; there = x.there; src_set = x.src_set; dst_set = x.dst_set };
    })
    | inr e ↦ rw e r
  ]

take_ack-state : (t : Tcb) (seg : Segment) → (take_ack t seg).state ≡ t.state
unfolding take_ack
take_ack-state t seg = ground arith

module _ (c : Config) (env : Env) (room : tcphdr_size < c.max_segment_size) where
  module _ (t : Tcb) (seg : Segment) (r : IsReady c t) where
    -- The block once the acknowledgement has been taken.
    acked : IsReady c (take_ack t seg)
    acked = take_ack-IsReady c t r seg

    acked_open : t.state ≢ close → (take_ack t seg).state ≢ close
    acked_open n = ground (arith, take_ack-state t seg)

    -- The same in another state, and past another number.
    on_move :
        (u : Tcb)
        → t.state ≢ close
        → u.send ≡ (take_ack t seg).send
        → u.recv.buf ≡ (take_ack t seg).recv.buf
        → u.local ≡ (take_ack t seg).local
        → u.remote ≡ (take_ack t seg).remote
        → IsReady c u
    on_move u n s b l m =
        alike-IsReady c (take_ack t seg) acked u (acked_open n)
          (subst (IsValid _) (sym b) acked.receives) s l m

    syn_recv-Ends : t.state ≢ close → Ends c (on_syn_recv t seg)
    unfolding on_syn_recv
    syn_recv-Ends n =
        if-Ends (not (len seg == tcphdr_size) || seg.hdr.syn || seg.hdr.fin) (quiet-Ends t fail r) (
          if-Ends (not (seg.hdr.ack_seq == t.send.next)) (quiet-Ends t fail r) (
            if-Ends (not (seg.hdr.seq == add32 t.recv.init_seq 1)) (quiet-Ends t fail r) (
              quiet-Ends _ ok (on_move (goto (take_ack t seg) established) n refl refl refl refl))))

    fin_wait2-Ends : t.state ≢ close → Ends c (on_fin_wait2 c env t seg)
    unfolding on_fin_wait2
    fin_wait2-Ends n =
        if-Ends _ (quiet-Ends _ fail acked)
          (sendback-Ends c env room _ (on_move _ n refl refl refl refl))

    fin_taken :
        (u : Tcb)
        → IsReady c u
        → u.state ≢ close
        → (b : Bool) → IsReady c (if b then next_in (goto u close_wait) else u)
    fin_taken u x n true = alike-IsReady c u x _ n x.receives refl refl refl
    fin_taken u x n false = x

    on_ok-Ends :
        (p : Option Out)
        → Ends c p
        → ((o : Out) → p ≡ some o → o.tcb.state ≢ close)
        → Ends c (on_ok p fin_crossed)
    on_ok-Ends p (o, e, w) up = rw e (go o.status)
      where
        moved : IsReady c (fin_crossed o).tcb
        moved = alike-IsReady c o.tcb w (fin_crossed o).tcb (up o e) w.receives refl refl refl

        go : (st : _) → Ends c (some (then_ok fin_crossed st o))
        go ok = (fin_crossed o, refl, moved)
        go fail = (o, refl, w)

    fin_wait1-Ends : t.state ≢ close → Ends c (on_fin_wait1 c env t seg)
    unfolding on_fin_wait1
    fin_wait1-Ends n = if-Ends (have_payload seg) (quiet-Ends _ fail acked) (
        if-Ends seg.hdr.syn (quiet-Ends _ fail acked) (
          if-Ends seg.hdr.fin
            (on_ok-Ends _ (sendback-Ends c env room _ (on_move _ n refl refl refl refl))
              (λ (o : Out) (e : make_sure_sendback c env (next_in (take_ack t seg)) ≡ some o).
                ground (
                  arith,
                  acked_open n,
                  make_sure_sendback-Keeps c env (next_in (take_ack t seg)) o e,
                )))
            (if-Ends
              (Ring.empty (take_ack t seg).send.buf && not (waiting_for_ack (take_ack t seg).send))
              (quiet-Ends _ ok (on_move (goto (take_ack t seg) fin_wait2) n refl refl refl refl))
              (quiet-Ends _ fail acked))))

    closing-Ends : t.state ≢ close → Ends c (on_closing t seg)
    unfolding on_closing
    closing-Ends n = if-Ends _ (quiet-Ends t fail r) (
        if-Ends _ (quiet-Ends t fail r)
          (quiet-Ends _ ok (alike-IsReady c t r (goto t time_wait) n r.receives refl refl refl)))

    last_ack-Ends : Ends c (on_last_ack t seg)
    unfolding on_last_ack
    last_ack-Ends = if-Ends _ (quiet-Ends t fail r) (
        if-Ends _ (quiet-Ends t fail r) (
          quiet-Ends _ ok (record {
            sends = r.sends;
            receives = r.receives;
            addresses = r.addresses;
            last = λ n w. absurd (n refl);
          })))

    syn_sent-Ends : t.state ≢ close → Ends c (on_syn_sent c env t seg)
    unfolding on_syn_sent
    syn_sent-Ends n =
        if-Ends _ (quiet-Ends t fail r)
          (if-Ends _ (quiet-Ends t fail r) (sendback-Ends c env room _ synced_ready))
      where
        base : IsReady c (synced t seg)
        base = alike-IsReady c t r (synced t seg) n r.receives refl refl refl

        synced_open : (take_ack (synced t seg) seg).state ≢ close
        synced_open = ground (arith, take_ack-state (synced t seg) seg)

        synced_ready : IsReady c (goto (take_ack (synced t seg) seg) established)
        synced_ready =
            let a : IsReady c (take_ack (synced t seg) seg) =
              take_ack-IsReady c (synced t seg) base seg in
            alike-IsReady c (take_ack (synced t seg) seg) a _ synced_open a.receives refl refl refl

    established-Ends : t.state ≢ close → Ends c (on_established c env t seg)
    unfolding on_established acknowledge
    established-Ends n = go (take_payload-Takes c (take_ack t seg) seg acked.receives)
      where
        go :
            Takes c (take_ack t seg) seg (take_payload c (take_ack t seg) seg)
            → Ends c (on_established c env t seg)
        go (refused e) = rw (e, on_established) (quiet-Ends _ fail acked)
        go (whole u w a m (st, s, l, k) e) =
            let open_u : u.state ≢ close = ground (arith, acked_open n) in
            let after : IsReady c u =
              alike-IsReady c (take_ack t seg) acked u (acked_open n) w s l k in
            let taken : IsReady c (take_fin u seg) = fin_taken u after open_u seg.hdr.fin in
            rw (e, on_established)
              (if-Ends _ (sendback-Ends c env room _ taken) (quiet-Ends _ ok taken))

    dispatch-Ends : (s : State) → t.state ≡ s → t.state ≢ close → Ends c (dispatch c env t seg s)
    unfolding dispatch
    dispatch-Ends syn_recv q n = syn_recv-Ends n
    dispatch-Ends syn_sent q n = syn_sent-Ends n
    dispatch-Ends established q n = established-Ends n
    dispatch-Ends fin_wait1 q n = fin_wait1-Ends n
    dispatch-Ends fin_wait2 q n = fin_wait2-Ends n
    dispatch-Ends closing q n = closing-Ends n
    dispatch-Ends last_ack q n = last_ack-Ends
    dispatch-Ends close_wait q n = quiet-Ends t fail r
    dispatch-Ends time_wait q n = quiet-Ends t ok r
    dispatch-Ends close q n = quiet-Ends t fail r
    dispatch-Ends listen q n = quiet-Ends t fail r

    out_of_sequence-Ends : Ends c (out_of_sequence c env t seg)
    unfolding out_of_sequence
    out_of_sequence-Ends = go (sendback-Ends c env room (take_ack t seg) acked)
      where
        go :
            Ends c (make_sure_sendback c env (take_ack t seg))
            → Ends c (out_of_sequence c env t seg)
        go (o, e, w) = (record o { status = fail }, rw (e, out_of_sequence), w)

    -- A ready connection takes any segment that has its ACK bit set without failing an assertion, and
    -- is ready again.
    pub handle-Ends : seg.hdr.ack ≡ true → Ends c (handle c env t seg t.state)
    unfolding handle handle_open
    handle-Ends a = states t.state refl
      where
        test : (s : State) → t.state ≡ s → s ≢ close → Ends c (handle_open c env t seg s)
        test s q n =
            if-Ends (in_sequence t seg s)
              (subst (λ b. Ends c (if b then dispatch c env t seg s else none)) (sym a)
                (dispatch-Ends s q (subst (λ x. x ≢ close) (sym q) n)))
              out_of_sequence-Ends

        states : (s : State) → t.state ≡ s → Ends c (handle c env t seg s)
        states close q = quiet-Ends t fail r
        states s q = test s q (ground arith)

    some-not_none : {o : Out} (p : Option Out) → p ≡ some o → p ≡ none → ⊥
    some-not_none p e f = cc

    -- A ready connection fails an assertion on a segment exactly when it is not closed, the segment
    -- is in sequence (or the connection in SYN_SENT), and its ACK bit is not set.
    pub handle-aborts_iff :
        (handle c env t seg t.state ≡ none)
        ↔ ((t.state ≢ close) × (in_sequence t seg t.state ≡ true) × (seg.hdr.ack ≡ false))
    unfolding handle handle_open
    handle-aborts_iff = (forth, λ h. back t.state h)
      where
        back :
            (s : State)
            → (s ≢ close) × (in_sequence t seg s ≡ true) × (seg.hdr.ack ≡ false)
            → handle c env t seg s ≡ none
        back close (n, i, a) = absurd (n refl)
        back syn_sent (n, i, a) = rw a refl
        back s (n, i, a) = rw (i, a) refl

        late :
            (s : State)
            → t.state ≡ s
            → handle c env t seg s ≡ none
            → (s ≢ close) × (in_sequence t seg s ≡ true)
        late close q e = cc
        late syn_sent q e = (λ z. absurd (ground arith), refl)
        late s q e = elim (Bool-cases (in_sequence t seg s)) [
          | inl i ↦ (ground arith, i)
          | inr i ↦
              let (o, p, w) = out_of_sequence-Ends in
              absurd (some-not_none (out_of_sequence c env t seg) p (rw i at e))
        ]

        forth :
            handle c env t seg t.state ≡ none
            → (t.state ≢ close) × (in_sequence t seg t.state ≡ true) × (seg.hdr.ack ≡ false)
        forth e = elim (Bool-cases seg.hdr.ack) [
          | inl a ↦
              let (o, p, w) = handle-Ends a in
              absurd (some-not_none (handle c env t seg t.state) p e)
          | inr a ↦ let (n, i) = late t.state refl e in (n, i, a)
        ]
