-- ===== src/Tcp/User.antt =====
-- The operations of src/pnx_tcp.cc that a socket calls on its control block: `tcp_send`,
-- `tcp_receive`, the state tests, and the part of `_tcp_close` that concerns the block.
pub mod Receive
pub mod Transmit
use ns_stack.Base.{
  ℕ, zero, suc, ◌+◌, ◌%◌, min, Bool, true, false, ◌||◌, Option, none, some, List, [], ◌∷◌,
  if◌then◌else◌, length, leb,
}
use ns_stack.Ring
use ns_stack.Ring.{RingBuffer}
use ns_stack.Tcp.{
  Config, State, established, syn_sent, syn_recv, fin_wait1, fin_wait2, time_wait, close,
  close_wait, last_ack, listen, closing, Sequence, plain_byte, fin_mark, Tcb, Env, Status, ok, fail,
  Out, quiet, goto, on_ok,
}
use ns_stack.Tcp.Send.{send_ctrl, make_sure_sendback}

unfoldable pub no_data_incoming_state : State → Bool
no_data_incoming_state close = true
no_data_incoming_state close_wait = true
no_data_incoming_state closing = true
no_data_incoming_state last_ack = true
no_data_incoming_state time_wait = true
no_data_incoming_state _ = false

unfoldable pub can_send : State → Bool
can_send established = true
can_send close_wait = true
can_send _ = false

-- `_tcp_close` up to the handing over to the recycler (Tcp.Table).
unfoldable pub close_block : Config → Env → Tcb → State → Option Out
close_block c env t close = quiet t ok
close_block c env t fin_wait1 = quiet t ok
close_block c env t fin_wait2 = quiet t ok
close_block c env t closing = quiet t ok
close_block c env t last_ack = quiet t ok
close_block c env t time_wait = quiet t ok
close_block c env t syn_sent = quiet (goto t close) ok
close_block c env t listen = quiet (goto t close) ok
close_block c env t syn_recv = send_ctrl c env (goto t fin_wait1) fin_mark
close_block c env t established = send_ctrl c env (goto t fin_wait1) fin_mark
close_block c env t close_wait = send_ctrl c env (goto t last_ack) fin_mark

unfoldable pub tcp_close : Config → Env → Tcb → Option Out
unfolding close_block
tcp_close c env t = close_block c env t t.state

-- The loop of `tcp_send`: how many bytes the buffer took. The list is `buf[i..len)`.
unfoldable pub queue_bytes : ℕ → RingBuffer Sequence → List ℕ → ℕ → RingBuffer Sequence × ℕ
queue_bytes size r [] i = (r, i)
queue_bytes size r (b ∷ bytes) i =
    let (r', done) = Ring.push size r (plain_byte b) in
    let rest = queue_bytes size r' bytes (i + 1) in if done then rest else (r, i)

-- `tcp_send`; the number is the result where the status is `ok`. A negative length is refused by the
-- source, and no list has one.
unfoldable pub send_in : Config → Env → Tcb → State → List ℕ → Option (Out × ℕ)
send_in c env t established [] = some (record { tcb = t; sent = []; status = ok }, 0)
send_in c env t established (b ∷ bs) =
    let (buf', n) = queue_bytes c.send_buffer_size t.send.buf (b ∷ bs) 0 in
    elim (make_sure_sendback c env (record t { send = record (t.send) { buf = buf' } })) [
      | none ↦ none
      | some o ↦ some (o, n)
    ]
send_in c env t _ bytes = some (record { tcb = t; sent = []; status = fail }, 0)

unfoldable pub tcp_send : Config → Env → Tcb → List ℕ → Option (Out × ℕ)
unfolding send_in
tcp_send c env t bytes = send_in c env t t.state bytes

-- `tcp_receive`: the bytes written to the caller's buffer, whose number is the result. `none` is the
-- failed assertion on `pop`.
unfoldable pub tcp_receive : Config → Tcb → ℕ → Option (Tcb × List ℕ)
tcp_receive c t n =
    let count : ℕ = min n (Ring.size c.recv_buffer_size t.recv.buf) in
    elim (Ring.pop_all c.recv_buffer_size t.recv.buf count) [
      | none ↦ none
      | some (buf', out) ↦ elim out [
        | none ↦ none
        | some bytes ↦ some (record t { recv = record (t.recv) { buf = buf' } }, bytes)
      ]
    ]
