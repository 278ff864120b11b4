-- ===== src/Tcp/Tests.antt =====
-- A small connection, and the theorems of the TCP layer at it.
use ns_stack.Base.{ℕ, ◌≡◌, ◌≢◌, ◌↔◌, refl, true, false, none, some, List, [], ◌∷◌, arith}
use ns_stack.Ring
use ns_stack.Ring.{RingBuffer}
use ns_stack.Ring.Inv.{IsValid}
use ns_stack.Tcp.Ready.{IsReady}
use ns_stack.Tcp.Table.{Tables, block_at, pair_of}
use ns_stack.Tcp.Table.Exit.{ClosesAll, close_active, close_active-ClosesAll}
use ns_stack.Tcp.Send.Emit.{Sends, make_sure_sendback-Sends}
use ns_stack.Tcp.User.Receive.{Reads, tcp_receive-Reads}
use ns_stack.Tcp.Timer.{tcp_timer, check_timeout, retransmit, refresh}
use ns_stack.Tcp.Timer.Retransmit.{run_timer}
use ns_stack.Tcp.Handle.States.{Arrival, handle-Arrival}
use ns_stack.Tcp.Handle.Accept.{Delivers, handle-Delivers}
use ns_stack.Tcp.Handle.Total.{handle-aborts_iff}
use ns_stack.Tcp.Connection.Stream.{FromStream, Follows, run-Follows}
use ns_stack.Tcp.Connection.Life.{Onward, run-Onward}
use ns_stack.Tcp.Connection.Safe.{steps, steps_total}
use ns_stack.Ring.Refine.{init-IsValid, contents}
use ns_stack.Segment.{Segment, zero_hdr}
use ns_stack.Tcp.{
  Config, Sequence, fin_mark, established, close, fin_wait1, Tcb, plain_byte, Env, Out, ok,
}
use ns_stack.Bytes.{htonl, htons}
use ns_stack.Checksum.{add_words, fold, complement}
use ns_stack.Segment.{
  hdr_bytes, to_bytes, len, checksum_sum, tcp_checksum, fill_in_tcp_checksum, have_payload,
  payload_len, ntoh, need_to_ack,
}
use ns_stack.Tcp.Send.{make_sure_sendback, send_segment, send_pure_ack, base_hdr}
use ns_stack.Tcp.Handle.{
  handle, handle_open, dispatch, on_established, take_ack, take_payload, acknowledge,
}
use ns_stack.Tcp.Connection.{arrive, tick, write, read, shut, Step, step, Run, here, next}

abbrev config : Config
config = record {
  send_buffer_size = 4;
  recv_buffer_size = 4;
  max_segment_size = 22;
  timeout = 100;
  msl = 10;
  max_retrans = 3;
}

abbrev env : Env
env = record { now = 5; sends = true }

abbrev open_block : Tcb
open_block = record {
  state = established;
  passive = false;
  local = record { addr = 1; port = 80 };
  remote = record { addr = 2; port = 90 };
  send = record {
    init_seq = 100;
    next = 101;
    unack = 101;
    buf = Ring.init 4 (plain_byte 0);
    last_seg = none;
    retrans_count = 0;
    last_sent_time = 0;
  };
  recv = record { init_seq = 200; next = 201; buf = Ring.init 4 0 };
}

abbrev two_bytes : Segment
two_bytes = record {
  hdr = record zero_hdr { seq = 201; ack_seq = 101; ack = true };
  payload = 7 ∷ 8 ∷ [];
  src = 2;
  dst = 1;
}

-- The same block with the bytes, and the acknowledgement that it sends.
abbrev arrived_out : Out
arrived_out = record {
  tcb = record open_block {
    recv = record {
      init_seq = 200;
      next = 203;
      buf = record { buf = 7 ∷ 8 ∷ 0 ∷ 0 ∷ 0 ∷ []; next_pop = 0; next_push = 2 };
    };
  };
  sent =
      record {
        hdr = record zero_hdr {
          source = 80;
          dest = 90;
          seq = 1694498816;
          ack_seq = 3405774848;
          doff = 5;
          ack = true;
          window = 512;
          check = 41729;
        };
        payload = [];
        src = 1;
        dst = 2;
      }
      ∷ [];
  status = ok;
}

handle-arrived : handle config env open_block two_bytes established ≡ some arrived_out
unfolding handle handle_open dispatch on_established take_ack take_payload acknowledge htonl htons
    add_words fold complement hdr_bytes to_bytes len checksum_sum tcp_checksum fill_in_tcp_checksum
    have_payload payload_len ntoh need_to_ack make_sure_sendback send_segment send_pure_ack base_hdr
    Ring.init Ring.push_all Ring.push_loop Ring.rest_capacity Ring.size Ring.empty Ring.copy_at
    Ring.one_push_capacity Ring.try_push
handle-arrived = refl

abbrev arrived : Step
arrived = record { tcb = arrived_out.tcb; sent = arrived_out.sent; read = [] }

step-arrived : step config open_block (arrive env two_bytes) ≡ some arrived
unfolding step
step-arrived = rw handle-arrived

abbrev one_event : Run config open_block arrived.tcb arrived.sent []
one_event = next (arrive env two_bytes) arrived here step-arrived

abbrev stream : List ℕ
stream = 7 ∷ 8 ∷ 9 ∷ []

empty_ring : IsValid 4 (Ring.init {A = ℕ} 4 0) × (contents {A = ℕ} 4 (Ring.init 4 0) ≡ [])
empty_ring = init-IsValid 4 0 (omega arith)

empty_queue :
    IsValid 4 (Ring.init 4 (plain_byte 0)) × (contents 4 (Ring.init 4 (plain_byte 0)) ≡ [])
empty_queue = init-IsValid 4 (plain_byte 0) (omega arith)

open_block-Follows : Follows config 201 stream [] open_block
open_block-Follows = record {
  valid = empty_ring.0;
  count = 0;
  prefix = empty_ring.1;
  fits = omega arith;
  expected = λ s. refl;
  opened = ground arith;
}

two_bytes_ring : IsValid 4 (arrived_out.tcb.recv.buf)
two_bytes_ring = record {
  storage = refl;
  small = omega arith;
  pop_in = omega arith;
  push_in = omega arith;
}

two_bytes-FromStream : FromStream 201 stream two_bytes
two_bytes-FromStream k e = let z : k ≡ 0 = omega arith in rw z (omega arith, refl)

run-Follows_example : Follows config 201 stream [] arrived.tcb
run-Follows_example =
    run-Follows config 201 stream (omega arith) one_event (tt, two_bytes-FromStream)
      open_block-Follows

run-Onward_example : Onward established established
run-Onward_example = run-Onward one_event

open_block-IsReady : IsReady config open_block
open_block-IsReady = record {
  sends = empty_queue.0;
  receives = empty_ring.0;
  addresses = (ground arith, ground arith);
  last = λ n h. cc;
}

steps_total_example :
    (u : Tcb) × (steps config open_block
        (arrive env two_bytes ∷ read 4 ∷ write env (1 ∷ 2 ∷ 3 ∷ []) ∷ tick env ∷ shut env ∷ [])
      ≡ some u)
    × IsReady config u
steps_total_example =
    steps_total config (omega arith)
      (arrive env two_bytes ∷ read 4 ∷ write env (1 ∷ 2 ∷ 3 ∷ []) ∷ tick env ∷ shut env ∷ [])
      open_block open_block-IsReady (refl, (tt, (tt, (tt, (tt, tt)))))

abbrev bare : Segment
bare = record two_bytes { hdr = record (two_bytes.hdr) { ack = false } }

handle-aborts_iff_example :
    (handle config env open_block bare established ≡ none)
    ↔ ((established ≢ close) × (true ≡ true) × (false ≡ false))
handle-aborts_iff_example =
    handle-aborts_iff config env (omega arith) open_block bare open_block-IsReady

handle-Arrival_example : Arrival established established
handle-Arrival_example = handle-Arrival config env open_block two_bytes arrived_out handle-arrived

handle-Delivers_example : Delivers config open_block two_bytes arrived_out
handle-Delivers_example =
    handle-Delivers config env open_block two_bytes arrived_out empty_ring.0 handle-arrived

tcp_receive-Reads_example : Reads config arrived_out.tcb 3
tcp_receive-Reads_example = tcp_receive-Reads config arrived_out.tcb 3 two_bytes_ring

abbrev full_ring : RingBuffer Sequence
full_ring = record {
  buf = plain_byte 1 ∷ plain_byte 2 ∷ plain_byte 3 ∷ fin_mark ∷ plain_byte 0 ∷ [];
  next_pop = 0;
  next_push = 4;
}

full_ring-IsValid : IsValid 4 full_ring
full_ring-IsValid = record {
  storage = refl;
  small = omega arith;
  pop_in = omega arith;
  push_in = omega arith;
}

full_ring-contents :
    contents 4 full_ring ≡ plain_byte 1 ∷ plain_byte 2 ∷ plain_byte 3 ∷ fin_mark ∷ []
unfolding Ring.size
full_ring-contents = refl

abbrev writing : Tcb
writing = record open_block { send = record (open_block.send) { buf = full_ring } }

make_sure_sendback-Sends_example :
    (o : Out) × (make_sure_sendback config env writing ≡ some o) × Sends config env writing o
make_sure_sendback-Sends_example =
    make_sure_sendback-Sends config env writing (omega arith) full_ring-IsValid
      (ground arith, ground arith)

-- A FIN of the small connection, in network byte order.
abbrev fin_seg : Segment
fin_seg = record {
  hdr = record zero_hdr {
    source = 80;
    dest = 90;
    seq = 1694498816;
    ack_seq = 3372220416;
    doff = 5;
    fin = true;
    ack = true;
    window = 1024;
    check = 41473;
  };
  payload = [];
  src = 1;
  dst = 2;
}

-- A block that waits for the answer to a FIN that it sent.
abbrev waiting : Tcb
waiting = record open_block {
  state = fin_wait1;
  send = record (open_block.send) { next = 102; last_seg = some fin_seg };
}

abbrev at_times : List ℕ → List Env
at_times [] = []
at_times (n ∷ ns) = record { now = n; sends = true } ∷ at_times ns

-- Three times again, and then it is given up.
abbrev given_up : Tcb
given_up = record waiting {
  state = close;
  send = record (waiting.send) { retrans_count = 3; last_sent_time = 1300 };
}

run_timer-given_up :
    run_timer config (at_times (1000 ∷ 1050 ∷ 1200 ∷ 1300 ∷ 1400 ∷ [])) waiting
    ≡ some (given_up, fin_seg ∷ fin_seg ∷ fin_seg ∷ [])
unfolding run_timer tcp_timer check_timeout retransmit refresh htonl htons add_words fold complement
    hdr_bytes to_bytes len checksum_sum tcp_checksum fill_in_tcp_checksum Ring.init
run_timer-given_up = refl

-- The connection in the tables, when the program ends.
abbrev at_end : Tables
at_end = record {
  heap = some open_block ∷ [];
  active = (pair_of open_block, 0) ∷ [];
  orphaned = [];
  queue = [];
  hand = none;
  listening = [];
}

close_active-ClosesAll_example : ClosesAll config at_end (0 ∷ []) (close_active config env at_end)
unfolding block_at
close_active-ClosesAll_example =
    close_active-ClosesAll config env (omega arith) at_end
      ((open_block, refl, open_block-IsReady), tt)
