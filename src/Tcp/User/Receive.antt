-- ===== src/Tcp/User/Receive.antt =====
-- `tcp_receive`: what it gives to the caller, and what it leaves.
use ns_stack.Base.{ℕ, ◌≤◌, ◌≡◌, sym, ap, ◌∙◌, Option, some, List, arith, length, take, drop, min}
use ns_stack.Ring
use ns_stack.Ring.{RingBuffer}
use ns_stack.Ring.Inv.{IsValid}
use ns_stack.Ring.Queue
use ns_stack.Ring.Refine.{contents, length-contents}
use ns_stack.Ring.PopAll.{pop_all_refines}
use ns_stack.Tcp.{Config, Tcb}
use ns_stack.Tcp.User.{tcp_receive}
use ns_stack.Tcp.Handle.Accept.{received}

-- The block with another receive buffer.
abbrev pub with_recv_buf : Tcb → RingBuffer ℕ → Tcb
with_recv_buf t buf' = record t { recv = record (t.recv) { buf = buf' } }

-- `tcp_receive` of `n` bytes.
pub record Reads (c : Config) (t : Tcb) (n : ℕ) : Type 0 where
  pub rest : RingBuffer ℕ
  pub valid : IsValid c.recv_buffer_size rest
  pub ends :
      tcp_receive c t n
      ≡ some (with_recv_buf t rest, take (min n (length (received c t))) (received c t))
  pub left : contents c.recv_buffer_size rest ≡ drop (min n (length (received c t))) (received c t)

enough :
    (q q' : List ℕ) (n : ℕ) (out : Option (List ℕ))
    → n ≤ length q
    → ◌≡◌ {A = List ℕ × Option (List ℕ)} (q', out) (Queue.pop_all q n)
    → (q' ≡ drop n q) × (out ≡ some (take n q))
enough q q' n out h e = ground arith

-- `tcp_receive` on a valid receive buffer never fails its assertion: it takes the oldest received
-- bytes, as many as are asked for and held, and leaves the others.
pub tcp_receive-Reads :
    (c : Config) (t : Tcb) (n : ℕ) → IsValid c.recv_buffer_size t.recv.buf → Reads c t n
unfolding tcp_receive
tcp_receive-Reads c t n v =
    let same : Ring.size c.recv_buffer_size t.recv.buf ≡ length (received c t) =
      sym (length-contents v) in
    let (rest, out, e, w, q) =
      pop_all_refines v (min n (Ring.size c.recv_buffer_size t.recv.buf)) in
    let (left, got) =
      enough (received c t) (contents c.recv_buffer_size rest)
        (min n (Ring.size c.recv_buffer_size t.recv.buf)) out (omega (arith, length-contents v))
        q in
    record {
      rest = rest;
      valid = w;
      ends =
          rw (e, tcp_receive) (rw got)
          ∙ ap (λ m. some (with_recv_buf t rest, take (min n m) (received c t))) same;
      left = left ∙ ap (λ m. drop (min n m) (received c t)) same;
    }
