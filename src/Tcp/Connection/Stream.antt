-- ===== src/Tcp/Connection/Stream.antt =====
-- The receiver's promise: whatever arrives, repeated, early, late or lost, the reader gets a prefix
-- of the remote's byte stream.
use ns_stack.Base.{
  ℕ, ◌+◌, ◌≤◌, ◌<◌, ◌^◌, ◌≡◌, ◌≢◌, refl, sym, ap, ◌∙◌, subst, Option, none, some, List, [], ◌++◌,
  append-nil, append_assoc, arith, length, take, drop, take-add, take-append-drop, min, add32,
}
use ns_stack.Ring.{RingBuffer}
use mathlib.Core.Option.{some-injective}
use ns_stack.Ring.Inv.{IsValid}
use ns_stack.Ring.Refine.{contents}
use ns_stack.Segment.{Segment}
use ns_stack.Tcp.{Config, established, syn_sent, syn_recv, Tcb, Env, Out}
use ns_stack.Tcp.User.{tcp_send, tcp_close, tcp_receive}
use ns_stack.Tcp.User.Receive.{Reads, with_recv_buf, tcp_receive-Reads}
use ns_stack.Tcp.User.Transmit.{tcp_close_recv, tcp_send_recv}
use ns_stack.Tcp.Timer.{tcp_timer}
use ns_stack.Tcp.Timer.Retransmit.{Ticks, tcp_timer-Ticks}
use ns_stack.Tcp.Handle.{handle}
use ns_stack.Tcp.Handle.States.{Arrival-opened, handle-Arrival}
use ns_stack.Tcp.Handle.Accept.{received, Delivers, handle-Delivers}
use ns_stack.Tcp.Connection.{
  Event, arrive, tick, write, read, shut, Step, step, Run, here, next, of_out, of_read, of_write,
}

-- The data of a segment are what the remote's stream holds from its sequence number on. `base` is
-- the sequence number of the stream's first byte.
abbrev pub FromStream : ℕ → List ℕ → Segment → Type 0
FromStream base stream seg =
    (k : ℕ)
    → seg.hdr.seq ≡ base + k
    → (k + length seg.payload ≤ length stream)
      × (seg.payload ≡ take (length seg.payload) (drop k stream))

-- The events that bring such segments; the others are unrestricted.
abbrev pub Faithful : ℕ → List ℕ → Event → Type 0
Faithful base stream (arrive env seg) = FromStream base stream seg
Faithful base stream _ = Unit

-- `bytes` have been read: with the receive buffer they are the first `count` bytes of the stream,
-- and an established connection expects the byte after those.
pub record Follows (c : Config) (base : ℕ) (stream bytes : List ℕ) (t : Tcb) : Type 0 where
  pub valid : IsValid c.recv_buffer_size t.recv.buf
  pub count : ℕ
  pub prefix : bytes ++ received c t ≡ take count stream
  pub fits : count ≤ length stream
  pub expected : t.state ≡ established → t.recv.next ≡ base + count
  pub opened : (t.state ≢ syn_sent) × (t.state ≢ syn_recv)

module _ (c : Config) (base : ℕ) (stream : List ℕ) (small : base + length stream < 2 ^ 32) where
  -- A step that leaves the receiver alone, and does not open the connection anew.
  keeps-Follows :
      (bytes : List ℕ) (t u : Tcb)
      → Follows c base stream bytes t
      → u.recv.buf ≡ t.recv.buf
      → (u.state ≡ established → (t.state ≡ established) × (u.recv.next ≡ t.recv.next))
      → (u.state ≢ syn_sent) × (u.state ≢ syn_recv)
      → Follows c base stream (bytes ++ []) u
  keeps-Follows bytes t u f b e o = record {
    valid = rw b f.valid;
    count = f.count;
    prefix = rw (append-nil, b) f.prefix;
    fits = f.fits;
    expected = λ st. (e st).1 ∙ f.expected (e st).0;
    opened = o;
  }

  accepts-Follows :
      (bytes : List ℕ) (t : Tcb) (seg : Segment) (o : Out)
      → Follows c base stream bytes t
      → FromStream base stream seg
      → t.state ≡ established
      → seg.hdr.seq ≡ t.recv.next
      → IsValid c.recv_buffer_size o.tcb.recv.buf
      → received c o.tcb ≡ received c t ++ seg.payload
      → (o.tcb.state ≡ established → o.tcb.recv.next ≡ add32 t.recv.next (length seg.payload))
      → (o.tcb.state ≢ syn_sent) × (o.tcb.state ≢ syn_recv)
      → Follows c base stream (bytes ++ []) o.tcb
  accepts-Follows bytes t seg o f from est seq v a n opened =
      let (fits, piece) = from f.count (seq ∙ f.expected est) in
      record {
        valid = v;
        count = f.count + length seg.payload;
        prefix =
            rw (append-nil, a)
              (sym (append_assoc bytes (received c t) seg.payload)
                ∙ ap (λ l. l ++ seg.payload) f.prefix
                ∙ ap (◌++◌ (take f.count stream)) piece
                ∙ take-add f.count (length seg.payload) stream);
        fits = fits;
        expected = λ st. n st ∙ omega (arith, f.expected est);
        opened = opened;
      }

  arrive-Follows :
      (bytes : List ℕ) (env : Env) (t : Tcb) (seg : Segment) (o : Out)
      → Follows c base stream bytes t
      → FromStream base stream seg
      → handle c env t seg t.state ≡ some o
      → Follows c base stream (bytes ++ []) o.tcb
  arrive-Follows bytes env t seg o f from e = go (handle-Delivers c env t seg o f.valid e)
    where
      go : Delivers c t seg o → Follows c base stream (bytes ++ []) o.tcb
      go (Delivers.keeps b n) =
          let (opened, back) = Arrival-opened (handle-Arrival c env t seg o e) f.opened in
          keeps-Follows bytes t o.tcb f b (λ st. (back st, n (back st) st)) opened
      go (Delivers.accepts est seq v a n) =
          let (opened, back) = Arrival-opened (handle-Arrival c env t seg o e) f.opened in
          accepts-Follows bytes t seg o f from est seq v a n opened

  read-Follows :
      (bytes : List ℕ) (t : Tcb) (n : ℕ)
      → Follows c base stream bytes t
      → (rest : RingBuffer ℕ) × (out : List ℕ) × (tcp_receive c t n
          ≡ some (with_recv_buf t rest, out))
        × Follows c base stream (bytes ++ out) (with_recv_buf t rest)
  read-Follows bytes t n f =
      let r : Reads c t n = tcp_receive-Reads c t n f.valid in
      let m : ℕ = min n (length (received c t)) in
      (
        r.rest,
        take m (received c t),
        r.ends,
        record {
          valid = r.valid;
          count = f.count;
          prefix =
              append_assoc bytes (take m (received c t)) (contents c.recv_buffer_size r.rest)
              ∙ ap (λ l. bytes ++ (take m (received c t) ++ l)) r.left
              ∙ ap (◌++◌ bytes) (take-append-drop m (received c t))
              ∙ f.prefix;
          fits = f.fits;
          expected = f.expected;
          opened = f.opened;
        },
      )

  step-Follows :
      (bytes : List ℕ) (t : Tcb) (e : Event) (s : Step)
      → Follows c base stream bytes t
      → Faithful base stream e
      → step c t e ≡ some s
      → Follows c base stream (bytes ++ s.read) s.tcb
  unfolding step
  step-Follows bytes t (arrive env seg) s f from h = go (handle c env t seg t.state) refl h
    where
      go :
          (p : Option Out)
          → handle c env t seg t.state ≡ p
          → of_out p ≡ some s
          → Follows c base stream (bytes ++ s.read) s.tcb
      go none q k = cc
      go (some o) q k =
          subst (λ x. Follows c base stream (bytes ++ x.read) x.tcb) (some-injective _ _ k)
            (arrive-Follows bytes env t seg o f from q)
  step-Follows bytes t (tick env) s f from h = go (tcp_timer c env t) refl h
    where
      go :
          (p : Option Out)
          → tcp_timer c env t ≡ p
          → of_out p ≡ some s
          → Follows c base stream (bytes ++ s.read) s.tcb
      go none q k = cc
      go (some o) q k =
          let x : Ticks t o = tcp_timer-Ticks c env t o q in
          subst (λ y. Follows c base stream (bytes ++ y.read) y.tcb) (some-injective _ _ k)
            (keeps-Follows bytes t o.tcb f (ap (λ y. y.buf) x.same_recv)
              (ground (arith, x.same_recv, x.to_close)) (ground (arith, x.to_close, f.opened)))
  step-Follows bytes t (write env xs) s f from h = go (tcp_send c env t xs) refl h
    where
      go :
          (p : Option (Out × ℕ))
          → tcp_send c env t xs ≡ p
          → of_write p ≡ some s
          → Follows c base stream (bytes ++ s.read) s.tcb
      go none q k = cc
      go (some (o, n)) q k =
          let (r, st) = tcp_send_recv c env t xs o n q in
          subst (λ y. Follows c base stream (bytes ++ y.read) y.tcb) (some-injective _ _ k)
            (keeps-Follows bytes t o.tcb f (ap (λ y. y.buf) r) (ground arith)
              (ground (arith, f.opened)))
  step-Follows bytes t (read n) s f from h =
      let (rest, out, e, g) = read-Follows bytes t n f in
      subst (λ y. Follows c base stream (bytes ++ y.read) y.tcb)
        (some-injective _ _ (sym (ap of_read e) ∙ h)) g
  step-Follows bytes t (shut env) s f from h = go (tcp_close c env t) refl h
    where
      go :
          (p : Option Out)
          → tcp_close c env t ≡ p
          → of_out p ≡ some s
          → Follows c base stream (bytes ++ s.read) s.tcb
      go none q k = cc
      go (some o) q k =
          let (r, ne, a, b) = tcp_close_recv c env t o q in
          subst (λ y. Follows c base stream (bytes ++ y.read) y.tcb) (some-injective _ _ k)
            (keeps-Follows bytes t o.tcb f (ap (λ y. y.buf) r) (λ st. absurd (ne st)) (a, b))

  -- The events of a run, each of which is faithful to the stream.
  abbrev pub AllFaithful :
      {t u : Tcb} {sent : List Segment} {bytes : List ℕ} → Run c t u sent bytes → Type 0
  AllFaithful here = Unit
  AllFaithful (next e s r h) = AllFaithful r × Faithful base stream e

  -- Over any run of a connection past its opening, the bytes read from it, followed by those in its
  -- receive buffer, are a prefix of the remote's stream, if every segment that arrives carries what
  -- the stream holds at its sequence number and these numbers do not wrap.
  pub run-Follows :
      {t u : Tcb} {sent : List Segment} {bytes : List ℕ} (r : Run c t u sent bytes)
      → AllFaithful r
      → Follows c base stream [] t
      → Follows c base stream bytes u
  run-Follows here a f = f
  run-Follows (next {u = u} {bytes = bytes} e s r h) (a, from) f =
      step-Follows bytes u e s (run-Follows r a f) from h
