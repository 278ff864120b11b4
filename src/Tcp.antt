-- ===== src/Tcp.antt =====
-- The state of the TCP layer: src/includes/pnx_tcp_tcb.h, the constants of
-- src/includes/pnx_tcp_const.h, and what an operation on one control block gives.
pub mod Send
pub mod Ready
pub mod User
pub mod Timer
pub mod Handle
pub mod Table
pub mod Connection
mod Tests
use ns_stack.Base.{ℕ, ◌+◌, ◌*◌, ◌^◌, Bool, true, false, ◌||◌, Option, none, some, List, [], ltb}
use ns_stack.Ring
use ns_stack.Ring.{RingBuffer}
use ns_stack.Segment.{Segment}

-- The constants, as a value: the operations and the theorems hold for any sizes.
pub record Config : Type 0 where
  pub send_buffer_size : ℕ
  pub recv_buffer_size : ℕ
  pub max_segment_size : ℕ
  pub timeout : ℕ
  pub msl : ℕ
  pub max_retrans : ℕ

-- The values that the stack is built with; times are in microseconds.
abbrev pub constants : Config
constants = record {
  send_buffer_size = 2 ^ 20;
  recv_buffer_size = 2 ^ 20;
  max_segment_size = 1024;
  timeout = 100_000;
  msl = 1_000_000;
  max_retrans = 100;
}

-- The states of <netinet/tcp.h>.
pub data State : Type 0 where
  established syn_sent syn_recv fin_wait1 fin_wait2 time_wait close close_wait : State
  last_ack listen closing : State

-- `struct sockaddr_in`: the address and the port, in network byte order.
pub record SockAddr : Type 0 where
  pub addr : ℕ
  pub port : ℕ

-- An element of the send buffer: a byte of data, or a control bit if one is set.
pub record Sequence : Type 0 where
  pub syn : Bool
  pub fin : Bool
  pub byte : ℕ

abbrev pub is_ctrl : Sequence → Bool
is_ctrl s = s.syn || s.fin

abbrev pub plain_byte : ℕ → Sequence
plain_byte b = record { syn = false; fin = false; byte = b }

abbrev pub syn_mark : Sequence
syn_mark = record { syn = true; fin = false; byte = 0 }

abbrev pub fin_mark : Sequence
fin_mark = record { syn = false; fin = true; byte = 0 }

-- `last_seg` is `none` for the empty segment that the constructor makes.
pub record Sender : Type 0 where
  pub init_seq : ℕ
  pub next : ℕ
  pub unack : ℕ
  pub buf : RingBuffer Sequence
  pub last_seg : Option Segment
  pub retrans_count : ℕ
  pub last_sent_time : ℕ

abbrev pub waiting_for_ack : Sender → Bool
waiting_for_ack s = ltb s.unack s.next

pub record Receiver : Type 0 where
  pub init_seq : ℕ
  pub next : ℕ
  pub buf : RingBuffer ℕ

-- `TCB`, less its timer thread.
pub record Tcb : Type 0 where
  pub state : State
  pub passive : Bool
  pub local : SockAddr
  pub remote : SockAddr
  pub send : Sender
  pub recv : Receiver

-- What an operation asks of its surroundings: the clock, and whether `ip_send_packet` returns 0.
pub record Env : Type 0 where
  pub now : ℕ
  pub sends : Bool

-- The results 0 and -1.
pub data Status : Type 0 where
  ok fail : Status

-- The block after an operation, the segments handed to `ip_send_packet`, and the result.
pub record Out : Type 0 where
  pub tcb : Tcb
  pub sent : List Segment
  pub status : Status

-- A return without sending.
abbrev pub quiet : Tcb → Status → Option Out
quiet t st = some (record { tcb = t; sent = []; status = st })

-- `none` is a failed assertion. What follows a step that returned 0; a failure is passed on.
abbrev pub then_ok : (Out → Out) → Status → Out → Out
then_ok f ok o = f o
then_ok f fail o = o

abbrev pub on_ok : Option Out → (Out → Out) → Option Out
on_ok none f = none
on_ok (some o) f = some (then_ok f o.status o)

abbrev pub goto : Tcb → State → Tcb
goto t st = record t { state = st }
