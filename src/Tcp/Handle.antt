-- ===== src/Tcp/Handle.antt =====
-- The handlers of src/pnx_tcp.cc for a segment that has reached its connection,
-- `_tcp_handle_segment_*`, and the part of `tcp_segment_handler` that chooses among them. The
-- segment's fields are in host order, as `ntoh` leaves them.
pub mod States
pub mod Accept
pub mod Total
use ns_stack.Base.{
  ℕ, zero, suc, ◌+◌, ◌-◌, Bool, true, false, not, ◌&&◌, ◌||◌, Option, none, some, List, [], ◌∷◌,
  ◌==◌, ltb, if◌then◌else◌, add32,
}
use ns_stack.Ring
use ns_stack.Ring.{RingBuffer}
use ns_stack.Segment.{Segment, tcphdr_size, len, have_payload, payload_len, need_to_ack}
use ns_stack.Tcp.{
  Config, State, established, syn_sent, syn_recv, fin_wait1, fin_wait2, time_wait, close,
  close_wait, last_ack, listen, closing, Tcb, waiting_for_ack, Env, Status, ok, fail, Out, quiet,
  goto, on_ok,
}
use ns_stack.Tcp.Send.{make_sure_sendback}

-- `if (ack_seq > unack) unack = ack_seq;`
unfoldable pub take_ack : Tcb → Segment → Tcb
take_ack t seg =
    if ltb t.send.unack seg.hdr.ack_seq
    then record t { send = record (t.send) { unack = seg.hdr.ack_seq } }
    else t

-- `recv.next++`
abbrev pub next_in : Tcb → Tcb
next_in t = record t { recv = record (t.recv) { next = add32 t.recv.next 1 } }

unfoldable pub on_syn_recv : Tcb → Segment → Option Out
on_syn_recv t seg =
    if not (len seg == tcphdr_size) || seg.hdr.syn || seg.hdr.fin
    then quiet t fail
    else if not (seg.hdr.ack_seq == t.send.next)
    then quiet t fail
    else if not (seg.hdr.seq == add32 t.recv.init_seq 1)
    then quiet t fail
    else quiet (goto (take_ack t seg) established) ok

-- The receiver, once the remote's first sequence number is known.
abbrev pub synced : Tcb → Segment → Tcb
synced t seg = record t {
  recv = record (t.recv) { init_seq = seg.hdr.seq; next = add32 seg.hdr.seq 1 };
}

unfoldable pub on_syn_sent : Config → Env → Tcb → Segment → Option Out
on_syn_sent c env t seg =
    if not (len seg == tcphdr_size) || not seg.hdr.syn || not seg.hdr.ack || seg.hdr.fin
    then quiet t fail
    else if not (seg.hdr.ack_seq == add32 t.send.init_seq 1)
    then quiet t fail
    else make_sure_sendback c env (goto (take_ack (synced t seg) seg) established)

-- What `push_all` of the payload leaves: the block with the data taken, or nothing on overflow. The
-- outer `none` is a failed assertion.
unfoldable pub take_payload : Config → Tcb → Segment → Option (Option Tcb)
take_payload c t seg =
    elim (Ring.push_all c.recv_buffer_size t.recv.buf seg.payload (payload_len seg)) [
      | none ↦ none
      | some (buf', done) ↦
          if done
          then some (
              some (record t {
                recv = record (t.recv) { buf = buf'; next = add32 t.recv.next (payload_len seg) };
              }))
          else some none
    ]

abbrev pub take_fin : Tcb → Segment → Tcb
take_fin t seg = if seg.hdr.fin then next_in (goto t close_wait) else t

-- The block after the payload, and the acknowledgement of what needs one.
unfoldable pub acknowledge : Config → Env → Tcb → Segment → Option Out
acknowledge c env t seg =
    if need_to_ack seg then make_sure_sendback c env (take_fin t seg) else quiet (take_fin t seg) ok

unfoldable pub on_established : Config → Env → Tcb → Segment → Option Out
on_established c env t seg = elim (take_payload c (take_ack t seg) seg) [
  | none ↦ none
  | some taken ↦ elim taken [
    | none ↦ quiet (take_ack t seg) fail
    | some t' ↦ acknowledge c env t' seg
  ]
]

-- The remote's FIN has come: is ours acknowledged?
abbrev pub fin_crossed : Out → Out
fin_crossed o = record o {
  tcb = goto o.tcb (if waiting_for_ack o.tcb.send then closing else time_wait);
}

unfoldable pub on_fin_wait1 : Config → Env → Tcb → Segment → Option Out
on_fin_wait1 c env t seg =
    let t1 : Tcb = take_ack t seg in
    if have_payload seg
    then quiet t1 fail
    else if seg.hdr.syn
    then quiet t1 fail
    else if seg.hdr.fin
    then on_ok (make_sure_sendback c env (next_in t1)) fin_crossed
    else if Ring.empty t1.send.buf && not (waiting_for_ack t1.send)
    then quiet (goto t1 fin_wait2) ok
    else quiet t1 fail

unfoldable pub on_fin_wait2 : Config → Env → Tcb → Segment → Option Out
on_fin_wait2 c env t seg =
    let t1 : Tcb = take_ack t seg in
    if have_payload seg || seg.hdr.syn || not seg.hdr.fin
    then quiet t1 fail
    else make_sure_sendback c env (goto (next_in t1) time_wait)

unfoldable pub on_closing : Tcb → Segment → Option Out
on_closing t seg =
    if have_payload seg || seg.hdr.syn || seg.hdr.fin
    then quiet t fail
    else if not (seg.hdr.ack_seq == t.send.next)
    then quiet t fail
    else quiet (goto t time_wait) ok

unfoldable pub on_last_ack : Tcb → Segment → Option Out
on_last_ack t seg =
    if have_payload seg || seg.hdr.syn || seg.hdr.fin
    then quiet t fail
    else if not (seg.hdr.ack_seq == t.send.next)
    then quiet t fail
    else quiet (record (goto t close) { send = record (t.send) { unack = add32 t.send.unack 1 } })
        ok

-- The `switch` at the end of `tcp_segment_handler`.
unfoldable pub dispatch : Config → Env → Tcb → Segment → State → Option Out
dispatch c env t seg syn_recv = on_syn_recv t seg
dispatch c env t seg syn_sent = on_syn_sent c env t seg
dispatch c env t seg established = on_established c env t seg
dispatch c env t seg fin_wait1 = on_fin_wait1 c env t seg
dispatch c env t seg fin_wait2 = on_fin_wait2 c env t seg
dispatch c env t seg close_wait = quiet t fail
dispatch c env t seg closing = on_closing t seg
dispatch c env t seg last_ack = on_last_ack t seg
dispatch c env t seg time_wait = quiet t ok
dispatch c env t seg close = quiet t fail
dispatch c env t seg listen = quiet t fail

-- A segment that is out of sequence brings only its acknowledgement, and the progress so far is sent
-- back. Its result is -1 in any case.
unfoldable pub out_of_sequence : Config → Env → Tcb → Segment → Option Out
out_of_sequence c env t seg = elim (make_sure_sendback c env (take_ack t seg)) [
  | none ↦ none
  | some o ↦ some (record o { status = fail })
]

abbrev pub in_sequence : Tcb → Segment → State → Bool
in_sequence t seg syn_sent = true
in_sequence t seg _ = t.recv.next == seg.hdr.seq

-- A segment without ACK fails the assertion.
unfoldable pub handle_open : Config → Env → Tcb → Segment → State → Option Out
handle_open c env t seg st =
    if in_sequence t seg st
    then (if seg.hdr.ack then dispatch c env t seg st else none)
    else out_of_sequence c env t seg

-- The part of `tcp_segment_handler` behind the search for the connection, whose state is `st`.
unfoldable pub handle : Config → Env → Tcb → Segment → State → Option Out
handle c env t seg close = quiet t fail
handle c env t seg st = handle_open c env t seg st
