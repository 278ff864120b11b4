-- ===== src/Tcp/Table.antt =====
-- The tables of src/pnx_tcp.cc and what works on them: `_init_TCB`, `_tcp_open`, the listening sockets,
-- `tcp_close` with the recycler, and `tcp_segment_handler`. A `TCB*` is an index into the heap, which
-- keeps `none` for a block that was deleted; a `SocketBlock*` is a number.
pub mod Step
pub mod Arrive
pub mod Exit
pub mod Ends
pub mod Consistent
pub mod Keep
pub mod Retire
pub mod Delete
pub mod Opening
pub mod Fresh
pub mod Incoming
pub mod Recycle
pub mod Reach
mod Tests
use ns_stack.Base.{
  ℕ, zero, suc, ◌+◌, ◌-◌, ◌*◌, ◌/◌, ◌%◌, ◌^◌, ◌≤◌, ◌<◌, min, ◌≡◌, ◌≢◌, refl, sym, ap, ap₂, subst,
  ◌∙◌, ◌↔◌, ◌⊎◌, inl, inr, Bool, true, false, not, ◌&&◌, ◌||◌, Option, none, some, List, [], ◌∷◌,
  ◌++◌, map, append-nil, append_assoc, arith, ltb, leb, ◌==◌, if◌then◌else◌, Bool-cases, length,
  get_elem?, set, take, drop, replicate, All, length-append, u16_mod, u32_mod, add16, add32, lookup,
  put, remove,
}
use ns_stack.Ring
use ns_stack.Ring.Queue
use ns_stack.Segment
use ns_stack.Segment.{Segment, tcphdr_size, fill_in_tcp_checksum, ntoh}
use ns_stack.Tcp.{
  Config, State, close, syn_sent, syn_recv, SockAddr, plain_byte, syn_mark, Tcb, Env, Status, ok,
  fail, Out, goto,
}
use ns_stack.Tcp.Send.{send_ctrl}
use ns_stack.Tcp.User
use ns_stack.Tcp.Handle

pub record SocketPair : Type 0 where
  pub local : SockAddr
  pub remote : SockAddr

-- `operator==` of `SocketPair`
unfoldable pub same_pair : SocketPair → SocketPair → Bool
same_pair p q =
    p.local.addr == q.local.addr
    && (p.remote.addr == q.remote.addr
        && (p.local.port == q.local.port && p.remote.port == q.remote.port))

abbrev pub pair_of : Tcb → SocketPair
pair_of b = record { local = b.local; remote = b.remote }

-- `active_tcb_map`, `orphaned_tcb_map`, `orphaned_tcb` with the block that the recycler holds,
-- `listening_socket`, and the blocks.
pub record Tables : Type 0 where
  pub active : List (SocketPair × ℕ)
  pub orphaned : List (SocketPair × ℕ)
  pub queue : List ℕ
  pub hand : Option ℕ
  pub listening : List (ℕ × ℕ)
  pub heap : List (Option Tcb)

-- The size of `orphaned_tcb`.
abbrev pub orphan_limit : ℕ
orphan_limit = 100

unfoldable pub find_active : Tables → SocketPair → Option ℕ
find_active t p = lookup same_pair p t.active

unfoldable pub find_orphaned : Tables → SocketPair → Option ℕ
find_orphaned t p = lookup same_pair p t.orphaned

unfoldable pub find_listening : Tables → ℕ → Option ℕ
find_listening t port = lookup ◌==◌ port t.listening

-- `none` is a pointer to no block, or to one that was deleted.
unfoldable pub block_at : Tables → ℕ → Option Tcb
block_at t i = elim (get_elem? t.heap i) [ none ↦ none | some o ↦ o ]

unfoldable pub put_block : Tables → ℕ → Option Tcb → Tables
put_block t i o = record t { heap = set t.heap i o }

-- `_init_TCB`, with the number that `rand` gives. `none` is the failed assertion on the SYN.
abbrev pub blank : Config → ℕ → State → Bool → SocketPair → ℕ → ℕ → Tcb
blank c seq state passive p their_seq next = record {
  state = state;
  passive = passive;
  local = p.local;
  remote = p.remote;
  send = record {
    init_seq = seq;
    next = seq;
    unack = seq;
    buf = Ring.init c.send_buffer_size (plain_byte 0);
    last_seg = none;
    retrans_count = 0;
    last_sent_time = 0;
  };
  recv = record { init_seq = their_seq; next = next; buf = Ring.init c.recv_buffer_size 0 };
}

unfoldable pub init_tcb : Config → ℕ → SocketPair → Option Segment → Option Tcb
init_tcb c rand p none = some (blank c (rand % 10000) syn_sent false p 0 0)
init_tcb c rand p (some syn) =
    if syn.hdr.syn
    then some (blank c (rand % 10000) syn_recv true p syn.hdr.seq (add32 syn.hdr.seq 1))
    else none

-- What an operation leaves and sends, and its result.
pub record Done : Type 0 where
  pub tables : Tables
  pub sent : List Segment
  pub status : Status

-- What `_tcp_open` leaves and sends, and the block; `none` is a null pointer.
pub record Opened : Type 0 where
  pub tables : Tables
  pub sent : List Segment
  pub conn : Option ℕ

abbrev pub refused : Tables → Opened
refused t = record { tables = t; sent = []; conn = none }

-- `new TCB()` and its entry in `active_tcb_map`.
unfoldable pub add_block : Tables → SocketPair → Tcb → Tables
add_block t p b = record t {
  active = put same_pair p (length t.heap) t.active;
  heap = t.heap ++ (some b ∷ []);
}

-- The end of `_tcp_open`, after the SYN was handed over. The block of a failed active open stays in
-- `active_tcb_map`.
unfoldable pub opened : Tables → SocketPair → Bool → Out → Status → Opened
opened t p passive o ok = record {
  tables = add_block t p o.tcb;
  sent = o.sent;
  conn = some (length t.heap);
}
opened t p passive o fail = record {
  tables = add_block t p (goto o.tcb close);
  sent = o.sent;
  conn = if passive then some (length t.heap) else none;
}

abbrev pub is_some {ℓ} : {A : Type ℓ} → Option A → Bool
is_some none = false
is_some (some a) = true

abbrev pub open_sent : Tables → SocketPair → Bool → Option Out → Option Opened
open_sent t p passive none = none
open_sent t p passive (some o) = some (opened t p passive o o.status)

abbrev pub open_new : Config → Env → Tables → SocketPair → Bool → Option Tcb → Option Opened
open_new c env t p passive none = none
open_new c env t p passive (some b) = open_sent t p passive (send_ctrl c env b syn_mark)

-- `_tcp_open`, once the remote address is known.
unfoldable pub open_pair : Config → Env → ℕ → Tables → SocketPair → Option Segment → Option Opened
open_pair c env rand t p syn =
    if is_some (find_active t p)
    then some (refused t)
    else if is_some (find_orphaned t p)
    then some (refused t)
    else open_new c env t p (is_some syn) (init_tcb c rand p syn)

-- `_tcp_open`. With neither a remote address nor a SYN an assertion fails.
unfoldable pub tcp_open :
    Config → Env → ℕ → Tables → SockAddr → Option SockAddr → Option Segment → Option Opened
tcp_open c env rand t local (some remote) syn =
    open_pair c env rand t (record { local = local; remote = remote }) syn
tcp_open c env rand t local none (some syn) =
    open_pair c env rand t
      (record { local = local; remote = record { addr = syn.src; port = syn.hdr.source } })
      (some syn)
tcp_open c env rand t local none none = none

unfoldable pub register_listening : Tables → ℕ → ℕ → Tables × Status
register_listening t sb port =
    if is_some (find_listening t port)
    then (t, fail)
    else (record t { listening = put ◌==◌ port sb t.listening }, ok)

unfoldable pub unregister_listening : Tables → ℕ → ℕ → Tables × Status
unregister_listening t sb port = elim (find_listening t port) [
  | none ↦ (t, fail)
  | some owner ↦
      if owner == sb then (record t { listening = remove ◌==◌ port t.listening }, ok) else (t, fail)
]

-- A push on `orphaned_tcb`, whose result is ignored.
abbrev pub enqueue : List ℕ → ℕ → List ℕ
enqueue q i = (Queue.push orphan_limit q i).0

-- The end of `_tcp_close`: only a block that was closed without a failure goes to the recycler.
unfoldable pub closed : Tables → ℕ → Out → Status → Done
closed t i o fail = record { tables = put_block t i (some o.tcb); sent = o.sent; status = fail }
closed t i o ok = record {
  tables = record (put_block t i (some o.tcb)) {
    orphaned = put same_pair (pair_of o.tcb) i t.orphaned;
    queue = enqueue t.queue i;
  };
  sent = o.sent;
  status = ok;
}

-- `_tcp_close`; `none` is a failed assertion or a deleted block.
unfoldable pub close_at : Config → Env → Tables → ℕ → Tcb → Option Done
close_at c env t i b = elim (User.tcp_close c env b) [
  | none ↦ none
  | some o ↦ some (closed t i o o.status)
]

unfoldable pub tcp_close : Config → Env → Tables → ℕ → Option Done
tcp_close c env t i = elim (block_at t i) [
  | none ↦ none
  | some b ↦ close_at c env (record t { active = remove same_pair (pair_of b) t.active }) i b
]
