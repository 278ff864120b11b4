-- ===== src/Tcp/Table/Step.antt =====
-- What reaches the tables of src/pnx_tcp.cc from below and from its threads: `tcp_segment_handler`, the
-- timers, and the recycler.
use ns_stack.Base.{
  ℕ, not, ◌&&◌, Option, none, some, List, [], ◌∷◌, ltb, ◌==◌, if◌then◌else◌, length, remove,
}
use ns_stack.Segment
use ns_stack.Segment.{Segment, tcphdr_size, fill_in_tcp_checksum, ntoh}
use ns_stack.Tcp.{Config, State, close, syn_recv, Tcb, Env, Status, ok, fail, Out}
use ns_stack.Tcp.Handle
use ns_stack.Tcp.Timer
use ns_stack.Tcp.Table.{
  SocketPair, same_pair, pair_of, Tables, find_active, find_orphaned, find_listening, block_at,
  put_block, Opened, tcp_open, enqueue,
}

-- What `tcp_segment_handler` leaves and sends, the new connection that it gives to
-- `socket_recv_new_tcp_conn` with the socket, and the result.
pub record Handled : Type 0 where
  pub tables : Tables
  pub sent : List Segment
  pub fresh : Option (ℕ × ℕ)
  pub status : Status

abbrev pub ignored : Tables → Option Handled
ignored t = some (record { tables = t; sent = []; fresh = none; status = fail })

-- After an operation on the block at `i`.
abbrev pub stored : Tables → ℕ → Option Out → Option Handled
stored t i none = none
stored t i (some o) =
    some (record {
      tables = put_block t i (some o.tcb);
      sent = o.sent;
      fresh = none;
      status = o.status;
    })

-- `tuple4`
abbrev pub tuple_of : Segment → SocketPair
tuple_of seg = record {
  local = record { addr = seg.dst; port = seg.hdr.dest };
  remote = record { addr = seg.src; port = seg.hdr.source };
}

-- The new block is one that waits for the ACK of the SYN, or an assertion fails.
unfoldable pub accepted : ℕ → Opened → Option Handled
accepted sb o = elim o.conn [
  | none ↦ some (record { tables = o.tables; sent = o.sent; fresh = none; status = fail })
  | some i ↦ elim (block_at o.tables i) [
    | none ↦ none
    | some b ↦ elim b.state [
      | syn_recv ↦
          some (record { tables = o.tables; sent = o.sent; fresh = some (sb, i); status = ok })
      | _ ↦ none
    ]
  ]
]

unfoldable pub on_syn : Config → Env → ℕ → Tables → Segment → Option Handled
on_syn c env rand t seg = elim (find_listening t seg.hdr.dest) [
  | none ↦ ignored t
  | some sb ↦
      elim (tcp_open c env rand t (tuple_of seg).local (some (tuple_of seg).remote) (some seg)) [
        | none ↦ none
        | some o ↦ accepted sb o
      ]
]

-- The block that a segment is for.
unfoldable pub find_block : Tables → SocketPair → Option ℕ
find_block t p = elim (find_active t p) [ some i ↦ some i | none ↦ find_orphaned t p ]

unfoldable pub to_block : Config → Env → Tables → Segment → Option Handled
to_block c env t seg = elim (find_block t (tuple_of seg)) [
  | none ↦ ignored t
  | some i ↦ elim (block_at t i) [
    | none ↦ none
    | some b ↦ stored t i (Handle.handle c env b seg b.state)
  ]
]

-- `tcp_segment_handler` behind the checks of the length and the checksum.
unfoldable pub on_segment : Config → Env → ℕ → Tables → Segment → Option Handled
on_segment c env rand t seg =
    if seg.hdr.syn && not seg.hdr.ack then on_syn c env rand t seg else to_block c env t seg

-- The comparison of the checksums. The fields of the segment after `fill_in_tcp_checksum` are those
-- before it but for the checksum.
abbrev pub compared : Config → Env → ℕ → Tables → Segment → Option Segment → Option Handled
compared c env rand t seg none = none
compared c env rand t seg (some seg') =
    if seg'.hdr.check == seg.hdr.check then on_segment c env rand t (ntoh seg') else ignored t

abbrev pub constructed : Config → Env → ℕ → Tables → Option Segment → Option Handled
constructed c env rand t none = none
constructed c env rand t (some seg) = compared c env rand t seg (fill_in_tcp_checksum seg)

unfoldable pub tcp_segment_handler : Config → Env → ℕ → Tables → List ℕ → ℕ → ℕ → Option Handled
tcp_segment_handler c env rand t buf src dst =
    if ltb (length buf) tcphdr_size
    then ignored t
    else constructed c env rand t (Segment.of_bytes buf src dst)

-- One round of the timer thread of the block at `i`.
unfoldable pub timer_round : Config → Env → Tables → ℕ → Option Handled
timer_round c env t i = elim (block_at t i) [
  | none ↦ none
  | some b ↦ stored t i (Timer.tcp_timer c env b)
]

-- The recycler's loop takes a block in one step and settles it in another: other threads run between
-- them. A pop of an empty queue changes nothing.
unfoldable pub recycler_takes : Tables → Tables
recycler_takes t = elim t.hand [
  | some i ↦ t
  | none ↦ elim t.queue [ [] ↦ t | i ∷ q ↦ record t { queue = q; hand = some i } ]
]

unfoldable pub settled : Tables → ℕ → Tcb → State → Tables
settled t i b close = record (put_block t i none) {
  orphaned = remove same_pair (pair_of b) t.orphaned;
  hand = none;
}
settled t i b _ = record t { queue = enqueue t.queue i; hand = none }

abbrev pub settle_block : Tables → ℕ → Option Tcb → Option Tables
settle_block t i none = none
settle_block t i (some b) = some (settled t i b b.state)

-- `none` is the use of a deleted block.
unfoldable pub recycler_settles : Tables → Option Tables
recycler_settles t = elim t.hand [ none ↦ some t | some i ↦ settle_block t i (block_at t i) ]
