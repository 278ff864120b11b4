-- ===== src/Tcp/Send.antt =====
-- The sending half of src/pnx_tcp.cc: `_tcp_send_pure_ACK`, `_tcp_send_segment`,
-- `_tcp_make_sure_sendback` and `_tcp_send_ctrl`.
pub mod Draw
pub mod Emit
use ns_stack.Base.{
  ℕ, zero, suc, ◌+◌, ◌-◌, ◌%◌, Bool, true, false, ◌||◌, Option, none, some, List, [], ◌∷◌,
  if◌then◌else◌, length, add32, u16_mod,
}
use ns_stack.Bytes.{bit}
use ns_stack.Ring
use ns_stack.Ring.{RingBuffer}
use ns_stack.Segment.{Segment, TcpHdr, zero_hdr, tcphdr_size, ntoh, fill_in_tcp_checksum}
use ns_stack.Tcp.{
  Config, State, syn_sent, Sequence, is_ctrl, Tcb, waiting_for_ack, Env, Status, ok, fail, Out,
  quiet,
}

-- The call of `ip_send_packet` that ends a function.
abbrev pub hand_over : Env → Tcb → Segment → Option Out
hand_over env t seg =
    some (record { tcb = t; sent = seg ∷ []; status = if env.sends then ok else fail })

-- The header fields that every segment of a connection carries.
unfoldable pub base_hdr : Config → Tcb → TcpHdr
base_hdr c t = record zero_hdr {
  source = t.local.port;
  dest = t.remote.port;
  seq = t.send.next;
  ack_seq = t.recv.next;
  doff = 5;
  window = Ring.rest_capacity c.recv_buffer_size t.recv.buf % u16_mod;
}

abbrev pub close_segment : Tcb → TcpHdr → List ℕ → Option Segment
close_segment t hdr payload =
    fill_in_tcp_checksum
      (ntoh (record { hdr = hdr; payload = payload; src = t.local.addr; dst = t.remote.addr }))

unfoldable pub send_pure_ack : Config → Env → Tcb → Option Out
send_pure_ack c env t = elim (close_segment t (record (base_hdr c t) { ack = true }) []) [
  | none ↦ none
  | some seg ↦ hand_over env t seg
]

-- The loop that fills a segment from the send buffer: up to `room` bytes, until the buffer is empty
-- or a control mark is next. `peek` gives nothing exactly when `empty` holds.
unfoldable pub take_bytes : ℕ → ℕ → RingBuffer Sequence → RingBuffer Sequence × List ℕ
take_bytes size zero r = (r, [])
take_bytes size (suc room) r =
    let (r', bytes) = take_bytes size room (Ring.pop size r).0 in
    elim (Ring.peek size r) [
      | none ↦ (r, [])
      | some s ↦ if is_ctrl s then (r, []) else (r', s.byte ∷ bytes)
    ]

-- What one segment takes from the send buffer.
pub record Drawn : Type 0 where
  pub rest : RingBuffer Sequence
  pub fin : Bool
  pub syn : Bool
  pub payload : List ℕ

-- `none` is `value()` of an empty optional, on an empty buffer.
unfoldable pub draw : Config → RingBuffer Sequence → Option Drawn
draw c r = elim (Ring.peek c.send_buffer_size r) [
  | none ↦ none
  | some s ↦
      if is_ctrl s
      then some (record {
        rest = (Ring.pop c.send_buffer_size r).0;
        fin = s.fin;
        syn = s.syn;
        payload = [];
      })
      else (let (r', bytes) = take_bytes c.send_buffer_size (c.max_segment_size - tcphdr_size) r in
          some (record { rest = r'; fin = false; syn = false; payload = bytes }))
]

-- The block after a segment was built from `d`.
unfoldable pub after_segment : Env → Tcb → Drawn → Segment → Tcb
after_segment env t d seg = record t {
  send = record (t.send) {
    buf = d.rest;
    retrans_count = 0;
    last_sent_time = env.now;
    next = add32 t.send.next (length d.payload + bit d.fin + bit d.syn);
    last_seg = some seg;
  };
}

-- The ACK bit is missing from an initial SYN only.
abbrev pub acks : State → Bool
acks syn_sent = false
acks _ = true

unfoldable pub data_segment : Config → Tcb → Drawn → Option Segment
data_segment c t d =
    close_segment t (record (base_hdr c t) { ack = acks t.state; fin = d.fin; syn = d.syn })
      d.payload

-- The part of `_tcp_send_segment` behind its first test.
unfoldable pub emit_segment : Config → Env → Tcb → Option Out
emit_segment c env t = elim (draw c t.send.buf) [
  | none ↦ none
  | some d ↦ elim (data_segment c t d) [
    | none ↦ none
    | some seg ↦ hand_over env (after_segment env t d seg) seg
  ]
]

unfoldable pub send_segment : Config → Env → Tcb → Option Out
send_segment c env t =
    if waiting_for_ack t.send || Ring.empty t.send.buf
    then send_pure_ack c env t
    else emit_segment c env t

unfoldable pub make_sure_sendback : Config → Env → Tcb → Option Out
make_sure_sendback c env t = if waiting_for_ack t.send then quiet t ok else send_segment c env t

unfoldable pub send_ctrl : Config → Env → Tcb → Sequence → Option Out
send_ctrl c env t ctrl =
    let (buf', done) = Ring.push c.send_buffer_size t.send.buf ctrl in
    if done
    then make_sure_sendback c env (record t { send = record (t.send) { buf = buf' } })
    else quiet t fail
