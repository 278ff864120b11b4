-- ===== src/Socket/Tests.antt =====
-- A socket that is bound and one that listens, and the theorems on sockets at them.
use ns_stack.Base.{ℕ, List, none, ◌≡◌, refl, true, some, [], ◌∷◌, get_elem?, lookup}
use ns_stack.Tcp.{Config, Env, constants}
use ns_stack.Tcp.Table.Reach.{no_tables}
use ns_stack.Socket.{
  SocketBlock, default, passive_binded, passive_listening, World, value, Call, fresh_block,
  put_socket, with_block, get_socket_block, bind, bind_block,
}
use ns_stack.Tcp.Table.Step.{tcp_segment_handler}
use ns_stack.Socket.Hear.{hear, Told, hear-Told}
use ns_stack.Socket.Does.{Request, binds, perform, Edge}
use ns_stack.Socket.Life.{perform-Edge}

abbrev one_socket : SocketBlock
one_socket = record fresh_block { fd = 1000 }

abbrev bound_socket : SocketBlock
bound_socket = record one_socket {
  addr = record { addr = 16777226; port = 36895 };
  state = passive_binded;
}

abbrev before : World
before = record {
  tables = no_tables;
  blocks = one_socket ∷ [];
  sockets = (1000, 0) ∷ [];
  next_fd = 1001;
}

abbrev bound : Call
bound = record {
  world = record before { blocks = bound_socket ∷ [] };
  sent = [];
  data_read = [];
  ret = value 0;
}

abbrev request : Request
request = binds 1000 36895 true (some 16777226)

abbrev env : Env
env = record { now = 5; sends = true }

it_binds : perform constants env before request ≡ some bound
unfolding perform bind bind_block with_block get_socket_block put_socket lookup
it_binds = refl

perform-Edge_example :
    (sb' : SocketBlock) × (get_elem? (bound_socket ∷ []) 0 ≡ some sb') × Edge default sb'.state
perform-Edge_example = perform-Edge constants env before request bound 0 one_socket it_binds refl

-- A socket that listens on port 80, and the bytes of a SYN to it.
abbrev server : SocketBlock
server = record one_socket {
  addr = record { addr = 1; port = 80 };
  state = passive_listening;
  backlog = 2;
}

abbrev serving : World
serving = record before {
  tables = record no_tables { listening = (80, 0) ∷ [] };
  blocks = server ∷ [];
}

abbrev syn_bytes : List ℕ
syn_bytes = 90 ∷ 0 ∷ 80 ∷ 0 ∷ 0 ∷ 0 ∷ 0 ∷ 7 ∷ 0 ∷ 0 ∷ 0 ∷ 0 ∷ 80 ∷ 2 ∷ 0 ∷ 4 ∷ 2 ∷ 216 ∷ 0 ∷ 0 ∷ []

abbrev small : Config
small = record constants { send_buffer_size = 4; recv_buffer_size = 4 }

heard_syn : Call
heard_syn = elim (hear small env 12345 serving syn_bytes 2 1) [ none ↦ bound | some k ↦ k ]

it_hears : hear small env 12345 serving syn_bytes 2 1 ≡ some heard_syn
unfolding heard_syn hear tcp_segment_handler lookup put_socket ns_stack.Segment.of_bytes
    ns_stack.Segment.fill_in_tcp_checksum ns_stack.Segment.tcp_checksum ns_stack.Checksum.complement
    ns_stack.Checksum.fold ns_stack.Checksum.fold_loop ns_stack.Segment.checksum_sum
    ns_stack.Checksum.add_words ns_stack.Segment.to_bytes ns_stack.Segment.hdr_bytes
    ns_stack.Bytes.htons ns_stack.Bytes.htonl ns_stack.Segment.len
    ns_stack.Tcp.Table.Step.on_segment ns_stack.Segment.ntoh ns_stack.Tcp.Table.Step.on_syn
    ns_stack.Tcp.Table.find_listening ns_stack.Tcp.Table.tcp_open ns_stack.Tcp.Table.open_pair
    ns_stack.Base.put ns_stack.Base.remove ns_stack.Ring.empty ns_stack.Ring.full ns_stack.Ring.init
    ns_stack.Ring.peek ns_stack.Ring.pop ns_stack.Ring.push ns_stack.Ring.size
    ns_stack.Ring.rest_capacity ns_stack.Socket.Io.recv_new
    ns_stack.Socket.Io.socket_recv_new_tcp_conn ns_stack.Tcp.Send.after_segment
    ns_stack.Tcp.Send.base_hdr ns_stack.Tcp.Send.data_segment ns_stack.Tcp.Send.draw
    ns_stack.Tcp.Send.emit_segment ns_stack.Tcp.Send.make_sure_sendback ns_stack.Tcp.Send.send_ctrl
    ns_stack.Tcp.Send.send_segment ns_stack.Tcp.Table.Step.accepted ns_stack.Tcp.Table.add_block
    ns_stack.Tcp.Table.block_at ns_stack.Tcp.Table.find_active ns_stack.Tcp.Table.find_orphaned
    ns_stack.Tcp.Table.init_tcb ns_stack.Tcp.Table.opened
it_hears = refl

hear-Told_example :
    (sb' : SocketBlock) × (get_elem? heard_syn.world.blocks 0 ≡ some sb') × Told server sb'
hear-Told_example = hear-Told small env 12345 serving syn_bytes 2 1 heard_syn 0 server it_hears refl
