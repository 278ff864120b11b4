-- ===== src/Tcp/Connection.antt =====
-- One connection between its creation and its recycling: any sequence of incoming segments, timer
-- ticks and calls of the socket layer. Each holds `tcp_lock` throughout, so they do not interleave.
pub mod Stream
pub mod Life
pub mod Safe
use ns_stack.Base.{ℕ, ◌≡◌, Option, none, some, List, [], ◌∷◌, ◌++◌}
use ns_stack.Segment.{Segment}
use ns_stack.Tcp.{Config, Tcb, Env, Out}
use ns_stack.Tcp.User.{tcp_close, tcp_send, tcp_receive}
use ns_stack.Tcp.Timer.{tcp_timer}
use ns_stack.Tcp.Handle.{handle}

pub data Event : Type 0 where
  arrive : Env → Segment → Event
  tick : Env → Event
  write : Env → List ℕ → Event
  read : ℕ → Event
  shut : Env → Event

-- What an event leaves, sends, and gives to the reader.
pub record Step : Type 0 where
  pub tcb : Tcb
  pub sent : List Segment
  pub read : List ℕ

abbrev of_out : Option Out → Option Step
of_out none = none
of_out (some o) = some (record { tcb = o.tcb; sent = o.sent; read = [] })

abbrev of_write : Option (Out × ℕ) → Option Step
of_write none = none
of_write (some (o, n)) = some (record { tcb = o.tcb; sent = o.sent; read = [] })

abbrev of_read : Option (Tcb × List ℕ) → Option Step
of_read none = none
of_read (some (t, bytes)) = some (record { tcb = t; sent = []; read = bytes })

-- `none` is a failed assertion.
unfoldable pub step : Config → Tcb → Event → Option Step
step c t (arrive env seg) = of_out (handle c env t seg t.state)
step c t (tick env) = of_out (tcp_timer c env t)
step c t (write env bytes) = of_write (tcp_send c env t bytes)
step c t (read n) = of_read (tcp_receive c t n)
step c t (shut env) = of_out (tcp_close c env t)

-- The steps of a run, with everything that was sent and read, in order.
pub data Run (c : Config) (t : Tcb) : Tcb → List Segment → List ℕ → Type 0 where
  here : Run c t t [] []
  next :
      {u : Tcb} {sent : List Segment} {bytes : List ℕ} (e : Event) (s : Step)
      → Run c t u sent bytes
      → step c u e ≡ some s
      → Run c t s.tcb (sent ++ s.sent) (bytes ++ s.read)
