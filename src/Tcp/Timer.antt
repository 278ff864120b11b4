-- ===== src/Tcp/Timer.antt =====
-- `_tcp_timer` of src/pnx_tcp.cc: the retransmission of the last segment, and the end of TIME_WAIT.
pub mod Retransmit
pub mod Expire
mod Tests
use ns_stack.Base.{
  ℕ, ◌+◌, ◌*◌, Bool, true, false, Option, none, some, List, [], ◌∷◌, if◌then◌else◌, leb, sub64,
}
use ns_stack.Bytes.{htonl}
use ns_stack.Segment.{Segment, fill_in_tcp_checksum}
use ns_stack.Tcp.{
  Config, State, close, time_wait, Tcb, waiting_for_ack, Env, ok, fail, Out, quiet, goto,
}
use ns_stack.Tcp.Send.{hand_over}

-- The last segment with the acknowledgement brought up to date.
unfoldable pub refresh : Tcb → Segment → Option Segment
refresh t seg =
    fill_in_tcp_checksum (record seg { hdr = record (seg.hdr) { ack_seq = htonl t.recv.next } })

-- `none` is a failed assertion, or the use of a segment that is not there.
unfoldable pub retransmit : Env → Tcb → Option Out
retransmit env t = elim t.send.last_seg [
  | none ↦ none
  | some seg ↦ elim (refresh t seg) [
    | none ↦ none
    | some seg' ↦
        hand_over env
          (record t {
            send = record (t.send) {
              last_seg = some seg';
              last_sent_time = env.now;
              retrans_count = t.send.retrans_count + 1;
            };
          })
          seg'
  ]
]

unfoldable pub check_timeout : Config → Env → Tcb → Option Out
unfolding retransmit
check_timeout c env t =
    if waiting_for_ack t.send
    then (if leb c.timeout (sub64 env.now t.send.last_sent_time)
        then (if leb c.max_retrans t.send.retrans_count
            then quiet (goto t close) ok
            else retransmit env t)
        else quiet t ok)
    else quiet t ok

unfoldable pub tcp_timer : Config → Env → Tcb → Option Out
tcp_timer c env t = elim t.state [
  | close ↦ quiet t ok
  | time_wait ↦
      if leb (2 * c.msl) (sub64 env.now t.send.last_sent_time)
      then quiet (goto t close) ok
      else quiet t ok
  | _ ↦ check_timeout c env t
]
