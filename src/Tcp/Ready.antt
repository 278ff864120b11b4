-- ===== src/Tcp/Ready.antt =====
-- What keeps the assertions of src/pnx_tcp.cc from failing.
use ns_stack.Base.{
  ◌<◌, ◌≡◌, ◌≢◌, refl, sym, ap, ◌∙◌, subst, Bool, true, false, Option, if◌then◌else◌, some, [],
}
use ns_stack.Ring.{RingBuffer}
use ns_stack.Ring.Inv.{IsValid}
use ns_stack.Segment.{Segment, tcphdr_size}
use ns_stack.Tcp.{Config, close, Tcb, Sequence, waiting_for_ack, Env, Out, quiet, goto}
use ns_stack.Tcp.Send.{make_sure_sendback}
use ns_stack.Tcp.Send.Emit.{HasAddresses, Sends, make_sure_sendback-Sends}

-- The segment that a retransmission would send again is there, with its addresses.
pub record HasLast (t : Tcb) : Type 0 where
  pub seg : Segment
  pub there : t.send.last_seg ≡ some seg
  pub src_set : seg.src ≢ 0
  pub dst_set : seg.dst ≢ 0

-- The rings are valid, the addresses are set, and what waits for its ACK can be sent again.
pub record IsReady (c : Config) (t : Tcb) : Type 0 where
  pub sends : IsValid c.send_buffer_size t.send.buf
  pub receives : IsValid c.recv_buffer_size t.recv.buf
  pub addresses : HasAddresses t
  pub last : t.state ≢ close → waiting_for_ack t.send ≡ true → HasLast t

-- The step ends without a failed assertion, in a ready block.
abbrev pub Ends : Config → Option Out → Type 0
Ends c p = (o : Out) × (p ≡ some o) × IsReady c o.tcb

pub quiet-Ends : {c : Config} (t : Tcb) (st : _) → IsReady c t → Ends c (quiet t st)
quiet-Ends t st r = (record { tcb = t; sent = []; status = st }, refl, r)

-- A step under a test ends if both of its branches do.
pub if-Ends :
    {c : Config} {p q : Option Out} (b : Bool) → Ends c p → Ends c q → Ends c (if b then p else q)
if-Ends true x y = x
if-Ends false x y = y

-- A block in another state, with another receiver.
module _ (c : Config) (t : Tcb) (r : IsReady c t) where
  -- The same sender and ends of the connection, with any valid receive buffer.
  pub alike-IsReady :
      (u : Tcb)
      → t.state ≢ close
      → IsValid c.recv_buffer_size u.recv.buf
      → u.send ≡ t.send
      → u.local ≡ t.local
      → u.remote ≡ t.remote
      → IsReady c u
  alike-IsReady u n v s l m = record {
    sends = subst (λ x. IsValid c.send_buffer_size x.buf) (sym s) r.sends;
    receives = v;
    addresses = rw (l, m) r.addresses;
    last = λ k w.
        let x : HasLast t = r.last n (ap waiting_for_ack (sym s) ∙ w) in
        record { seg = x.seg; there = rw s x.there; src_set = x.src_set; dst_set = x.dst_set };
  }

  -- The same with another send buffer.
  pub queued-IsReady :
      (buf' : RingBuffer Sequence)
      → IsValid c.send_buffer_size buf'
      → IsReady c (record t { send = record (t.send) { buf = buf' } })
  queued-IsReady buf' v = record {
    sends = v;
    receives = r.receives;
    addresses = r.addresses;
    last = λ n w.
        let x : HasLast t = r.last n w in
        record { seg = x.seg; there = x.there; src_set = x.src_set; dst_set = x.dst_set };
  }

  -- Nothing is sent again once the connection is closed.
  pub closed-IsReady : IsReady c (goto t close)
  closed-IsReady = record {
    sends = r.sends;
    receives = r.receives;
    addresses = r.addresses;
    last = λ n w. absurd (n refl);
  }

module _ (c : Config) (env : Env) (room : tcphdr_size < c.max_segment_size) where
  pub sent-IsReady : (t : Tcb) (o : Out) → IsReady c t → Sends c env t o → IsReady c o.tcb
  sent-IsReady t o r (Sends.waits busy e s) = subst (IsReady c) (sym e) r
  sent-IsReady t o r (Sends.only_acks seg idle q e s i) = subst (IsReady c) (sym e) r
  sent-IsReady t o r (Sends.emits d seg acked idle h s i a) = record {
    sends = h.valid;
    receives = subst (λ x. IsValid c.recv_buffer_size x.buf) (sym h.kept.same_recv) r.receives;
    addresses = (
      (λ z. r.addresses.0 (ap (λ x. x.addr) (sym h.kept.same_local) ∙ z)),
      (λ z. r.addresses.1 (ap (λ x. x.addr) (sym h.kept.same_remote) ∙ z)),
    );
    last = λ n w. record {
      seg = seg;
      there = h.remembered;
      src_set = λ z. r.addresses.0 (sym i.addresses.0 ∙ z);
      dst_set = λ z. r.addresses.1 (sym i.addresses.1 ∙ z);
    };
  }

  pub sendback-Ends : (t : Tcb) → IsReady c t → Ends c (make_sure_sendback c env t)
  sendback-Ends t r =
      let (o, e, how) = make_sure_sendback-Sends c env t room r.sends r.addresses in
      (o, e, sent-IsReady t o r how)
