-- ===== src/Socket/Io.antt =====
-- The rest of src/pnx_socket.cc: the loops of connect, accept, read and write, round by round, `close`,
-- and the new connections of `socket_recv_new_tcp_conn`.
use ns_stack.Base.{
  ℕ, suc, ◌+◌, ◌%◌, u32_mod, Bool, true, false, Option, none, some, List, [], ◌∷◌, ◌++◌, leb, ◌==◌,
  if◌then◌else◌, length, get_elem?, drop, take,
}
use ns_stack.Ring.Queue
use ns_stack.Segment.{Segment}
use ns_stack.Tcp.{Config, State, established, Tcb, Env, Status, Out}
use ns_stack.Tcp.User.{tcp_send, tcp_receive, no_data_incoming_state, can_send}
use ns_stack.Tcp.Table
use ns_stack.Tcp.Table.{Tables, block_at, put_block, Done, unregister_listening}
use ns_stack.Socket.{
  SocketBlock, SocketState, active, passive_binded, passive_listening, closed, World, Ret, value,
  invalid, failed, waits, Call, returns, put_socket, add_socket, with_block, fresh_block,
  accepting_size,
}

-- A call that needs the connection of an active socket. A null pointer, which `connect` can leave
-- behind, ends the process.
unfoldable pub on_conn : World → SocketBlock → (ℕ → Tcb → Option Call) → Option Call
on_conn w sb f = elim sb.tcb [
  | none ↦ none
  | some t ↦ elim (block_at w.tables t) [ none ↦ none | some b ↦ f t b ]
]

-- A `size_t` as an `int`; `none` is a negative one.
unfoldable pub as_int : ℕ → Option ℕ
as_int n = if leb 2147483648 (n % u32_mod) then none else some (n % u32_mod)

unfoldable pub is_established : State → Bool
is_established established = true
is_established _ = false

-- A round of the wait of `__wrap_connect`.
unfoldable pub connect_round : World → ℕ → Option Call
unfolding on_conn
connect_round w fd =
    with_block w fd
      (λ i sb. on_conn w sb (λ t b. returns w (if is_established b.state then value 0 else waits)))

abbrev pub accepted_block : SocketBlock → ℕ → SocketBlock
accepted_block sb t = record fresh_block { addr = sb.addr; state = active; tcb = some t }

-- A candidate that is not established yet goes to the end; the assertion on this `push` fails if other
-- threads have filled the buffer.
unfoldable pub accept_candidate : World → ℕ → SocketBlock → ℕ → List ℕ → Tcb → Option Call
accept_candidate w i sb t q b =
    if is_established b.state
    then returns (add_socket (put_socket w i (record sb { accepting = q })) (accepted_block sb t))
        (value w.next_fd)
    else (let (q', done) = Queue.push accepting_size q t in
        if done then returns (put_socket w i (record sb { accepting = q' })) waits else none)

abbrev pub accept_first : World → ℕ → SocketBlock → List ℕ → Option Call
accept_first w i sb [] = returns w waits
accept_first w i sb (t ∷ q) = elim (block_at w.tables t) [
  | none ↦ none
  | some b ↦ accept_candidate w i sb t q b
]

unfoldable pub accept_block : World → ℕ → SocketBlock → SocketState → Option Call
unfolding accept_candidate
accept_block w i sb passive_listening = accept_first w i sb sb.accepting
accept_block w i sb _ = returns w invalid

-- A round of the loop of `__wrap_accept`.
unfoldable pub accept_round : World → ℕ → Option Call
unfolding accept_block
accept_round w fd = with_block w fd (λ i sb. accept_block w i sb sb.state)

abbrev pub with_tables : World → Tables → World
with_tables w t = record w { tables = t }

-- The end of a round of `read`: some bytes, the end of the data, or another round.
abbrev pub read_done : World → ℕ → Tcb → Option (Tcb × List ℕ) → Option Call
read_done w t b none = none
read_done w t b (some (u, [])) =
    returns (with_tables w (put_block w.tables t (some u)))
      (if no_data_incoming_state u.state then value 0 else waits)
read_done w t b (some (u, x ∷ bytes)) = some (record {
  world = with_tables w (put_block w.tables t (some u));
  sent = [];
  data_read = x ∷ bytes;
  ret = value (suc (length bytes));
})

-- A negative length fails the assertion of `tcp_receive`.
unfoldable pub read_block : Config → World → ℕ → SocketBlock → SocketState → Option Call
unfolding on_conn as_int
read_block c w n sb active =
    on_conn w sb
      (λ t b. elim (as_int n) [ none ↦ none | some len ↦ read_done w t b (tcp_receive c b len) ])
read_block c w n sb _ = returns w invalid

-- A round of the loop of `__wrap_read`.
unfoldable pub read_round : Config → World → ℕ → ℕ → Option Call
unfolding read_block
read_round c w fd n = with_block w fd (λ i sb. read_block c w n sb sb.state)

-- The end of a round of `write`: `taken` of the `asked` bytes, and whether the call returns.
abbrev pub write_ret : Tcb → ℕ → ℕ → ℕ → ℕ → Status → Ret
write_ret u total asked before taken Status.fail = failed
write_ret u total asked before taken Status.ok =
    if taken == 0
    then (if can_send u.state then waits else value before)
    else if asked == before + taken
    then value total
    else waits

abbrev pub write_done : World → ℕ → ℕ → ℕ → ℕ → Option (Out × ℕ) → Option Call
write_done w t total asked before none = none
write_done w t total asked before (some (o, taken)) = some (record {
  world = with_tables w (put_block w.tables t (some o.tcb));
  sent = o.sent;
  data_read = [];
  ret = write_ret o.tcb total asked before taken o.status;
})

-- `before` of the bytes have been taken in the rounds before. `tcp_send` refuses a negative length.
unfoldable pub write_block :
    Config → Env → World → List ℕ → ℕ → SocketBlock → SocketState → Option Call
unfolding on_conn as_int
write_block c env w bytes before sb active = elim (as_int (length bytes)) [
  | none ↦ on_conn w sb (λ t b. returns w failed)
  | some asked ↦
      if asked == before
      then returns w (value (length bytes))
      else on_conn w sb (λ t b.
        write_done w t (length bytes) asked before
          (tcp_send c env b (drop before (take asked bytes))))
]
write_block c env w bytes before sb _ = returns w invalid

-- A round of the loop of `__wrap_write`.
unfoldable pub write_round : Config → Env → World → ℕ → List ℕ → ℕ → Option Call
unfolding write_block
write_round c env w fd bytes before =
    with_block w fd (λ i sb. write_block c env w bytes before sb sb.state)

abbrev pub close_ended : World → ℕ → SocketBlock → Done → Status → Option Call
close_ended w i sb d Status.fail =
    some (record { world = with_tables w d.tables; sent = d.sent; data_read = []; ret = invalid })
close_ended w i sb d Status.ok = some (record {
  world = with_tables (put_socket w i (record sb { state = closed })) d.tables;
  sent = d.sent;
  data_read = [];
  ret = value 0;
})

abbrev pub close_active : World → ℕ → SocketBlock → Option Done → Option Call
close_active w i sb none = none
close_active w i sb (some d) = close_ended w i sb d d.status

-- The loop that closes the connections that nobody has accepted; failures are ignored.
unfoldable pub close_all : Config → Env → Tables → List ℕ → Option (Tables × List Segment)
close_all c env t [] = some (t, [])
close_all c env t (i ∷ is) = elim (Table.tcp_close c env t i) [
  | none ↦ none
  | some d ↦ elim (close_all c env d.tables is) [
    | none ↦ none
    | some (t', sent) ↦ some (t', d.sent ++ sent)
  ]
]

abbrev pub close_passive : World → ℕ → SocketBlock → Option (Tables × List Segment) → Option Call
close_passive w i sb none = none
close_passive w i sb (some (t, sent)) = some (record {
  world = with_tables (put_socket w i (record sb { state = closed; accepting = [] })) t;
  sent = sent;
  data_read = [];
  ret = value 0;
})

unfoldable pub close_block : Config → Env → World → ℕ → SocketBlock → SocketState → Option Call
unfolding close_all
close_block c env w i sb active = elim sb.tcb [
  | none ↦ none
  | some t ↦ close_active w i sb (Table.tcp_close c env w.tables t)
]
close_block c env w i sb passive_binded =
    close_passive w i sb
      (close_all c env (unregister_listening w.tables i sb.addr.port).0 sb.accepting)
close_block c env w i sb passive_listening =
    close_passive w i sb
      (close_all c env (unregister_listening w.tables i sb.addr.port).0 sb.accepting)
close_block c env w i sb _ = returns w invalid

-- `__wrap_close`
unfoldable pub close : Config → Env → World → ℕ → Option Call
unfolding close_block
close c env w fd = with_block w fd (λ i sb. close_block c env w i sb sb.state)

-- `socket_recv_new_tcp_conn`, on the block that `listening_socket` has.
unfoldable pub recv_new : World → ℕ → SocketBlock → ℕ → SocketState → World × Status
recv_new w i sb t passive_listening =
    if leb sb.backlog (length sb.accepting) then (w, Status.fail) else (
      put_socket w i (record sb { accepting = (Queue.push accepting_size sb.accepting t).0 }),
      Status.ok,
    )
recv_new w i sb t _ = (w, Status.fail)

unfoldable pub socket_recv_new_tcp_conn : World → ℕ → ℕ → Option (World × Status)
unfolding recv_new
socket_recv_new_tcp_conn w i t = elim (get_elem? w.blocks i) [
  | none ↦ none
  | some sb ↦ some (recv_new w i sb t sb.state)
]
