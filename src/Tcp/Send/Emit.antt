-- ===== src/Tcp/Send/Emit.antt =====
-- What sending changes in a control block and what it leaves, on every branch.
use ns_stack.Base.{
  ℕ, ◌<◌, ◌≡◌, ◌≢◌, refl, sym, ap, ◌∙◌, inl, inr, true, false, Bool-cases, Bool, ◌↔◌, ◌+◌, ◌%◌,
  u16_mod, add32, some, List, [], ◌∷◌, ◌==◌, arith, length, if◌then◌else◌,
}
use ns_stack.Ring
use ns_stack.Ring.{RingBuffer}
use ns_stack.Ring.Inv.{IsValid, empty_iff}
use ns_stack.Ring.Refine.{contents, length-contents}
use ns_stack.Tcp.Send.Draw.{Draws, draw-Draws}
use ns_stack.Segment.{Segment, TcpHdr, ntoh, tcp_checksum, fill_in_tcp_checksum, tcphdr_size}
use ns_stack.Bytes.{bit, htons, htonl}
use ns_stack.Tcp.{Config, State, syn_sent, Sequence, Tcb, waiting_for_ack, Env, ok, fail, Out}
use ns_stack.Tcp.Send.{
  base_hdr, close_segment, send_pure_ack, Drawn, after_segment, acks, data_segment, emit_segment,
  send_segment, make_sure_sendback,
}

-- What no sending touches.
pub record Keeps (t u : Tcb) : Type 0 where
  pub same_state : u.state ≡ t.state
  pub same_recv : u.recv ≡ t.recv
  pub same_local : u.local ≡ t.local
  pub same_remote : u.remote ≡ t.remote
  pub same_unack : u.send.unack ≡ t.send.unack
  pub same_init : u.send.init_seq ≡ t.send.init_seq

pub make_sure_sendback-Keeps :
    (c : Config) (env : Env) (t : Tcb) (o : Out)
    → make_sure_sendback c env t ≡ some o
    → Keeps t o.tcb
unfolding make_sure_sendback send_segment send_pure_ack emit_segment after_segment
make_sure_sendback-Keeps c env t o e = ground arith

-- Both addresses are set, as the assertion of `fill_in_tcp_checksum` wants.
abbrev pub HasAddresses : Tcb → Type 0
HasAddresses t = (t.local.addr ≢ 0) × (t.remote.addr ≢ 0)

-- A segment as it leaves: byte order changed, checksum filled in.
unfoldable pub finished : Tcb → TcpHdr → List ℕ → Segment
finished t hdr payload =
    let s : Segment =
      ntoh (record { hdr = hdr; payload = payload; src = t.local.addr; dst = t.remote.addr }) in
    record s { hdr = record (s.hdr) { check = tcp_checksum s } }

close_segment-finished :
    (t : Tcb) (hdr : TcpHdr) (payload : List ℕ)
    → HasAddresses t
    → close_segment t hdr payload ≡ some (finished t hdr payload)
unfolding fill_in_tcp_checksum ntoh finished
close_segment-finished t hdr payload h =
    let a : (t.local.addr == 0) ≡ false = ground arith in
    let b : (t.remote.addr == 0) ≡ false = ground arith in rw (a, b)

-- The header of a segment that carries `d`.
abbrev pub data_hdr : Config → Tcb → Drawn → TcpHdr
data_hdr c t d = record (base_hdr c t) { ack = acks t.state; fin = d.fin; syn = d.syn }

-- A segment of the connection as it leaves, with its header in network byte order.
pub record IsSegment (c : Config) (t : Tcb) (acked fin syn : Bool) (payload : List ℕ)
    (seg : Segment) : Type 0 where
  pub ports : (seg.hdr.source ≡ t.local.port) × (seg.hdr.dest ≡ t.remote.port)
  pub addresses : (seg.src ≡ t.local.addr) × (seg.dst ≡ t.remote.addr)
  pub numbers : (seg.hdr.seq ≡ htonl t.send.next) × (seg.hdr.ack_seq ≡ htonl t.recv.next)
  pub length_words : seg.hdr.doff ≡ 5
  pub flags : (seg.hdr.ack ≡ acked) × (seg.hdr.fin ≡ fin) × (seg.hdr.syn ≡ syn)
  pub no_flags : (seg.hdr.rst ≡ false) × (seg.hdr.psh ≡ false) × (seg.hdr.urg ≡ false)
  pub window : seg.hdr.window ≡ htons (Ring.rest_capacity c.recv_buffer_size t.recv.buf % u16_mod)
  pub carries : seg.payload ≡ payload
  pub checked : seg.hdr.check ≡ tcp_checksum (record seg { hdr = record (seg.hdr) { check = 0 } })

finished-IsSegment :
    (c : Config) (t : Tcb) (acked fin syn : Bool) (payload : List ℕ)
    → IsSegment c t acked fin syn payload
        (finished t (record (base_hdr c t) { ack = acked; fin = fin; syn = syn }) payload)
unfolding finished ntoh base_hdr
finished-IsSegment c t acked fin syn payload = record {
  ports = (refl, refl);
  addresses = (refl, refl);
  numbers = (refl, refl);
  length_words = refl;
  flags = (refl, refl, refl);
  no_flags = (refl, refl, refl);
  window = refl;
  carries = refl;
  checked = refl;
}

-- The block after `seg` was sent with what was drawn from its send buffer.
pub record HasSent (c : Config) (env : Env) (t u : Tcb) (d : Drawn) (seg : Segment) : Type 0 where
  pub kept : Keeps t u
  pub valid : IsValid c.send_buffer_size u.send.buf
  pub taken : Draws c t.send.buf d
  pub left : u.send.buf ≡ d.rest
  pub advanced : u.send.next ≡ add32 t.send.next (length d.payload + bit d.fin + bit d.syn)
  pub remembered : u.send.last_seg ≡ some seg
  pub timed : u.send.last_sent_time ≡ env.now
  pub not_yet_resent : u.send.retrans_count ≡ 0

after_segment-HasSent :
    (c : Config) (env : Env) (t : Tcb) (d : Drawn) (seg : Segment)
    → IsValid c.send_buffer_size d.rest
    → Draws c t.send.buf d
    → HasSent c env t (after_segment env t d seg) d seg
unfolding after_segment
after_segment-HasSent c env t d seg w how = record {
  kept = record {
    same_state = refl;
    same_recv = refl;
    same_local = refl;
    same_remote = refl;
    same_unack = refl;
    same_init = refl;
  };
  valid = w;
  taken = how;
  left = refl;
  advanced = refl;
  remembered = refl;
  timed = refl;
  not_yet_resent = refl;
}

-- How `_tcp_make_sure_sendback` ends. Only an initial SYN is sent without an acknowledgement.
pub data Sends (c : Config) (env : Env) (t : Tcb) (o : Out) : Type 0 where
  waits : waiting_for_ack t.send ≡ true → o.tcb ≡ t → o.sent ≡ [] → Sends c env t o
  only_acks :
      (seg : Segment)
      → waiting_for_ack t.send ≡ false
      → contents c.send_buffer_size t.send.buf ≡ []
      → o.tcb ≡ t
      → o.sent ≡ seg ∷ []
      → IsSegment c t true false false [] seg
      → Sends c env t o
  emits :
      (d : Drawn) (seg : Segment) (acked : Bool)
      → waiting_for_ack t.send ≡ false
      → HasSent c env t o.tcb d seg
      → o.sent ≡ seg ∷ []
      → IsSegment c t acked d.fin d.syn d.payload seg
      → (acked ≡ false) ↔ (t.state ≡ syn_sent)
      → Sends c env t o

acks_iff : (s : State) → (acks s ≡ false) ↔ (s ≡ syn_sent)
acks_iff s = ground arith

module _ (c : Config) (env : Env) (t : Tcb) (room : tcphdr_size < c.max_segment_size)
    (v : IsValid c.send_buffer_size t.send.buf) (h : HasAddresses t) where
  emit-Sends :
      (s : Sequence) (q : List Sequence)
      → waiting_for_ack t.send ≡ false
      → contents c.send_buffer_size t.send.buf ≡ s ∷ q
      → (o : Out) × (emit_segment c env t ≡ some o) × Sends c env t o
  unfolding emit_segment data_segment
  emit-Sends s q idle e =
      let (d, drawn, w, carries) = draw-Draws c s q room v e in
      (
        record {
          tcb = after_segment env t d (finished t (data_hdr c t d) d.payload);
          sent = finished t (data_hdr c t d) d.payload ∷ [];
          status = if env.sends then ok else fail;
        },
        rw (drawn, emit_segment) (rw (close_segment-finished t (data_hdr c t d) d.payload h)),
        emits d (finished t (data_hdr c t d) d.payload) (acks t.state) idle
            (after_segment-HasSent c env t d _ w carries) refl
            (finished-IsSegment c t (acks t.state) d.fin d.syn d.payload) (acks_iff t.state),
      )

  by_queue :
      (q : List Sequence)
      → waiting_for_ack t.send ≡ false
      → contents c.send_buffer_size t.send.buf ≡ q
      → (o : Out) × (send_segment c env t ≡ some o) × Sends c env t o
  unfolding send_segment send_pure_ack base_hdr
  by_queue [] idle e =
      let none_left : Ring.empty t.send.buf ≡ true =
        (empty_iff v).1 (sym (length-contents v) ∙ ap length e) in
      (
        record {
          tcb = t;
          sent = finished t (record (base_hdr c t) { ack = true }) [] ∷ [];
          status = if env.sends then ok else fail;
        },
        rw (idle, none_left)
            (rw (
              close_segment-finished t (record (base_hdr c t) { ack = true }) [] h,
              send_pure_ack,
            )),
        only_acks _ idle e refl refl (finished-IsSegment c t true false false []),
      )
  by_queue (s ∷ q) idle e =
      let some_left : Ring.empty t.send.buf ≡ false =
        ground (arith, empty_iff v, length-contents v, ap length e) in
      let (o, sent, how) = emit-Sends s q idle e in (o, rw (idle, some_left) sent, how)

  -- `_tcp_make_sure_sendback` fails no assertion on a valid send buffer, set addresses and a
  -- segment size above the header's. It does nothing while a segment is unacknowledged, sends a
  -- bare ACK when there is nothing to send, and otherwise sends one segment with the oldest bytes or
  -- the oldest mark of the buffer, which it takes out; the sequence number moves on by what was sent,
  -- the segment is kept for a retransmission and its count and time start anew. All else stays.
  pub make_sure_sendback-Sends : (o : Out) × (make_sure_sendback c env t ≡ some o) × Sends c env t o
  unfolding make_sure_sendback
  make_sure_sendback-Sends = elim (Bool-cases (waiting_for_ack t.send)) [
    | inl busy ↦ (record { tcb = t; sent = []; status = ok }, rw busy, waits busy refl refl)
    | inr idle ↦
        let (o, sent, how) = by_queue (contents c.send_buffer_size t.send.buf) idle refl in
        (o, rw idle sent, how)
  ]
