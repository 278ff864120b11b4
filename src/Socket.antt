-- ===== src/Socket.antt =====
-- The calls of src/pnx_socket.cc over the connections of src/pnx_tcp.cc. A `SocketBlock*` is an index of
-- the list of blocks, to which the map gives the descriptor. Descriptors below `kSocketMinFd` go to the
-- system. A call that may wait is the rounds of its loop, between which others run.
pub mod Io
pub mod Does
pub mod Hear
pub mod Life
mod Tests
use ns_stack.Base.{
  ℕ, zero, suc, ◌+◌, ◌-◌, ◌*◌, ◌/◌, ◌%◌, ◌^◌, ◌≤◌, ◌<◌, min, ◌≡◌, ◌≢◌, refl, sym, ap, ap₂, subst,
  ◌∙◌, ◌↔◌, ◌⊎◌, inl, inr, Bool, true, false, not, ◌&&◌, ◌||◌, Option, none, some, List, [], ◌∷◌,
  ◌++◌, map, append-nil, append_assoc, arith, ltb, leb, ◌==◌, if◌then◌else◌, Bool-cases, length,
  get_elem?, set, take, drop, replicate, All, length-append, u16_mod, u32_mod, add16, add32, ==_iff,
  lookup, put, remove,
}
use ns_stack.Ring.Queue
use ns_stack.Segment.{Segment}
use ns_stack.Tcp.{Config, State, established, SockAddr, Tcb, Env, Status, Out}
use ns_stack.Tcp.User.{tcp_send, tcp_receive, no_data_incoming_state, can_send}
use ns_stack.Tcp.Table
use ns_stack.Tcp.Table.{
  Tables, block_at, put_block, Done, Opened, tcp_open, register_listening, unregister_listening,
}

-- `SocketBlock::State`
pub data SocketState : Type 0 where
  default active passive_binded passive_listening closed : SocketState

pub record SocketBlock : Type 0 where
  pub fd : ℕ
  pub addr : SockAddr
  pub state : SocketState
  pub tcb : Option ℕ
  pub accepting : List ℕ
  pub backlog : ℕ

-- The size of `accepting`.
abbrev pub accepting_size : ℕ
accepting_size = 1024

-- `sockets` and `next_fd`, with the blocks, and the tables of the connections.
pub record World : Type 0 where
  pub tables : Tables
  pub blocks : List SocketBlock
  pub sockets : List (ℕ × ℕ)
  pub next_fd : ℕ

-- The result of a call: a number that is not negative, -1 with EBADF, EINVAL or no `errno`, or another
-- round of the loop.
pub data Ret : Type 0 where
  value : ℕ → Ret
  bad_fd invalid failed waits : Ret

-- What a call leaves, sends, gives to the reader, and returns.
pub record Call : Type 0 where
  pub world : World
  pub sent : List Segment
  pub data_read : List ℕ
  pub ret : Ret

abbrev pub returns : World → Ret → Option Call
returns w r = some (record { world = w; sent = []; data_read = []; ret = r })

unfoldable pub put_socket : World → ℕ → SocketBlock → World
put_socket w i sb = record w { blocks = set w.blocks i sb }

-- A new block with its descriptor.
unfoldable pub add_socket : World → SocketBlock → World
add_socket w sb = record w {
  blocks = w.blocks ++ (record sb { fd = w.next_fd } ∷ []);
  sockets = (w.next_fd, length w.blocks) ∷ w.sockets;
  next_fd = w.next_fd + 1;
}

-- `__wrap_socket` for a TCP socket, once the devices are there.
abbrev pub fresh_block : SocketBlock
fresh_block = record {
  fd = 0;
  addr = record { addr = 0; port = 0 };
  state = default;
  tcb = none;
  accepting = [];
  backlog = 0;
}

unfoldable pub socket : World → Option Call
socket w = returns (add_socket w fresh_block) (value w.next_fd)

-- `getSocketBlock`
unfoldable pub get_socket_block : World → ℕ → Option ℕ
get_socket_block w fd = lookup ◌==◌ fd w.sockets

-- A call on a descriptor. `none` is a pointer to no block.
unfoldable pub with_block : World → ℕ → (ℕ → SocketBlock → Option Call) → Option Call
with_block w fd f = elim (get_socket_block w fd) [
  | none ↦ returns w bad_fd
  | some i ↦ elim (get_elem? w.blocks i) [ none ↦ none | some sb ↦ f i sb ]
]

-- The address of device 0, or no device.
unfoldable pub bind_block :
    World → ℕ → Bool → Option ℕ → ℕ → SocketBlock → SocketState → Option Call
bind_block w port whole (some ip) i sb default =
    if whole
    then returns
        (put_socket w i
          (record sb { addr = record { addr = ip; port = port }; state = passive_binded }))
        (value 0)
    else returns w invalid
bind_block w port whole dev0 i sb _ = returns w invalid

-- `__wrap_bind`; `whole` is the test of the address's length.
unfoldable pub bind : World → ℕ → ℕ → Bool → Option ℕ → Option Call
unfolding bind_block
bind w fd port whole dev0 = with_block w fd (λ i sb. bind_block w port whole dev0 i sb sb.state)

-- A block that listens, whether or not its port could be registered.
abbrev pub listening : SocketBlock → ℕ → SocketBlock
listening sb backlog = record sb { state = passive_listening; backlog = backlog }

unfoldable pub listen_block : World → ℕ → ℕ → SocketBlock → SocketState → Option Call
listen_block w backlog i sb passive_binded =
    let (t, status) = register_listening w.tables i sb.addr.port in
    returns (record (put_socket w i (listening sb backlog)) { tables = t })
      (elim status [ Status.ok ↦ value 0 | Status.fail ↦ invalid ])
listen_block w backlog i sb _ = returns w invalid

-- `__wrap_listen`; a backlog that is not positive is 0 here.
unfoldable pub listen : World → ℕ → ℕ → Option Call
unfolding listen_block
listen w fd backlog =
    with_block w fd
      (λ i sb. if backlog == 0 then returns w invalid else listen_block w backlog i sb sb.state)

abbrev pub connecting : SocketBlock → SockAddr → Option ℕ → SocketBlock
connecting sb addr conn = record sb { addr = addr; state = active; tcb = conn }

abbrev pub connected : World → ℕ → SocketBlock → SockAddr → Option Opened → Option Call
connected w i sb addr none = none
connected w i sb addr (some o) = some (record {
  world = record (put_socket w i (connecting sb addr o.conn)) { tables = o.tables };
  sent = o.sent;
  data_read = [];
  ret = elim o.conn [ none ↦ invalid | some t ↦ waits ];
})

-- `__wrap_connect` up to its wait, with two numbers that `rand` gives.
unfoldable pub connect_block :
    Config
    → Env
    → ℕ × ℕ
    → World
    → SockAddr
    → Bool
    → Option ℕ
    → ℕ
    → SocketBlock
    → SocketState
    → Option Call
connect_block c env rand w remote whole (some ip) i sb default =
    let addr : SockAddr = record { addr = ip; port = rand.0 % 10000 + 10000 } in
    if whole
    then connected w i sb addr (tcp_open c env rand.1 w.tables addr (some remote) none)
    else returns w invalid
connect_block c env rand w remote whole dev0 i sb _ = returns w invalid

unfoldable pub connect : Config → Env → ℕ × ℕ → World → ℕ → SockAddr → Bool → Option ℕ → Option Call
unfolding connect_block
connect c env rand w fd remote whole dev0 =
    with_block w fd (λ i sb. connect_block c env rand w remote whole dev0 i sb sb.state)
