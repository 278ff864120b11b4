-- ===== src/Tcp/Table/Tests.antt =====
-- A connection that is opened and closed, and the theorems on the tables at it.
use ns_stack.Base.{arith, ◌≡◌, refl, true, Option, none, some, [], lookup, put, remove}
use ns_stack.Ring
use ns_stack.Segment.{fill_in_tcp_checksum, ntoh}
use ns_stack.Tcp.{Config, Tcb, Env}
use ns_stack.Tcp.Send.{
  send_ctrl, make_sure_sendback, send_segment, emit_segment, draw, data_segment, after_segment,
}
use ns_stack.Tcp.User
use ns_stack.Tcp.User.{close_block}
use ns_stack.Tcp.Table.{
  SocketPair, same_pair, pair_of, Tables, find_active, find_orphaned, block_at, put_block,
  add_block, Opened, refused, opened, open_pair, tcp_open, init_tcb, Done, ok, closed, close_at,
  tcp_close,
}
use ns_stack.Tcp.Table.Step.{find_block, recycler_takes, recycler_settles, settled}
use ns_stack.Tcp.Table.Consistent.{IsConsistent}
use ns_stack.Tcp.Ready.{IsReady}
use ns_stack.Tcp.Table.Fresh.{open_pair_total}
use ns_stack.Tcp.Table.Reach.{
  Moves, no_tables, Reached, start, go_on, Reached-IsConsistent, recycler_settles_total,
  find_block-Points,
}

abbrev config : Config
config = record {
  send_buffer_size = 4;
  recv_buffer_size = 4;
  max_segment_size = 22;
  timeout = 100;
  msl = 10;
  max_retrans = 3;
}

abbrev env : Env
env = record { now = 5; sends = true }

abbrev pair : SocketPair
pair = record { local = record { addr = 1; port = 80 }; remote = record { addr = 2; port = 90 } }

after_open : Opened
after_open = elim (tcp_open config env 12345 no_tables pair.local (some pair.remote) none) [
  | none ↦ refused no_tables
  | some o ↦ o
]

it_opens : tcp_open config env 12345 no_tables pair.local (some pair.remote) none ≡ some after_open
unfolding after_open tcp_open open_pair opened init_tcb find_active find_orphaned lookup send_ctrl
    make_sure_sendback send_segment emit_segment draw data_segment fill_in_tcp_checksum
    after_segment Ring.push Ring.init Ring.empty Ring.peek ntoh
it_opens = refl

abbrev open-Reached : Reached config after_open.tables
open-Reached =
    go_on start (Moves.opens env 12345 pair.local (some pair.remote) none after_open it_opens)

Reached-IsConsistent_example : IsConsistent after_open.tables
Reached-IsConsistent_example = Reached-IsConsistent open-Reached (tt, tt)

filed : find_block after_open.tables pair ≡ some 0
unfolding after_open tcp_open open_pair opened init_tcb find_active find_orphaned lookup put remove
    add_block send_ctrl make_sure_sendback send_segment emit_segment draw data_segment
    fill_in_tcp_checksum after_segment find_block same_pair Ring.push Ring.init Ring.empty Ring.peek
    ntoh
filed = refl

find_block-Points_example : (b : Tcb) × (block_at after_open.tables 0 ≡ some b) × (pair_of b ≡ pair)
find_block-Points_example = find_block-Points pair 0 open-Reached (tt, tt) filed

-- The block, and the tables once it is closed.
block_here : (b : Tcb) × (block_at after_open.tables 0 ≡ some b) × (pair_of b ≡ pair)
block_here = find_block-Points pair 0 open-Reached (tt, tt) filed

after_close : Done
after_close = elim (tcp_close config env after_open.tables 0) [
  | none ↦ record { tables = no_tables; sent = []; status = ok }
  | some d ↦ d
]

it_closes : tcp_close config env after_open.tables 0 ≡ some after_close
unfolding after_close tcp_close close_at block_at closed close_block after_open tcp_open open_pair
    opened init_tcb find_active find_orphaned lookup put remove add_block send_ctrl
    make_sure_sendback send_segment emit_segment draw data_segment fill_in_tcp_checksum
    after_segment same_pair Ring.push Ring.init Ring.empty Ring.peek ntoh User.tcp_close
it_closes = refl

unclosed : find_orphaned after_open.tables (pair_of block_here.0) ≡ none
unfolding after_open tcp_open open_pair opened init_tcb find_active find_orphaned lookup put remove
    add_block send_ctrl make_sure_sendback send_segment emit_segment draw data_segment
    fill_in_tcp_checksum after_segment same_pair Ring.push Ring.init Ring.empty Ring.peek ntoh
unclosed = refl

abbrev close-Reached : Reached config after_close.tables
close-Reached =
    go_on open-Reached (Moves.closes env 0 block_here.0 after_close block_here.1 it_closes)

recycler_settles_total_example :
    (u : Tables) × (recycler_settles (recycler_takes after_close.tables) ≡ some u)
recycler_settles_total_example =
    recycler_settles_total (go_on close-Reached Moves.takes) (((tt, tt), unclosed), tt)

-- A second close queues the block again, and the recycler uses it after it was deleted.
closed_twice : Option Tables
closed_twice = elim (tcp_close config env after_close.tables 0) [
  | none ↦ some no_tables
  | some d ↦ elim (recycler_settles (recycler_takes d.tables)) [
    | none ↦ some no_tables
    | some u ↦ recycler_settles (recycler_takes u)
  ]
]

deleted_is_used : closed_twice ≡ none
unfolding closed_twice recycler_settles recycler_takes after_close tcp_close close_at block_at
    closed close_block after_open tcp_open open_pair opened init_tcb find_active find_orphaned
    lookup put remove add_block send_ctrl make_sure_sendback send_segment emit_segment draw
    data_segment fill_in_tcp_checksum after_segment same_pair Ring.push Ring.init Ring.empty
    Ring.peek ntoh User.tcp_close settled put_block
deleted_is_used = refl

open_pair_total_example :
    (o : Opened) × (open_pair config env 12345 no_tables pair none ≡ some o)
    × ((b : Tcb) × (block_at o.tables 0 ≡ some b)
        × IsReady config b
        × (find_active o.tables pair ≡ some 0))
unfolding find_active find_orphaned lookup
open_pair_total_example =
    open_pair_total config env 12345 no_tables pair none
      (record { send_small = omega arith; recv_small = omega arith; room = omega arith })
      (λ e. ground arith) (λ e. ground arith) tt refl refl
