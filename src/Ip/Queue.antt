-- ===== src/Ip/Queue.antt =====
-- `ip_send_packet` of src/pnx_ip.cc: the buffer between its callers and the thread that sends. A push
-- that times out is tried again by the caller's loop, and a pop by the thread's.
use ns_stack.Base.{
  ℕ, ◌≡◌, sym, ap, ap₂, ◌∙◌, Bool, true, false, Option, none, some, List, [], ◌∷◌, ◌++◌, map,
  append_assoc, arith, leb, if◌then◌else◌, length,
}
use mathlib.Core.Option.{some-injective}
use mathlib.Core.List.{map-append}
use ns_stack.Ring
use ns_stack.Ring.{RingBuffer}
use ns_stack.Ring.Inv.{IsValid}
use ns_stack.Ring.Queue
use ns_stack.Ring.Refine.{contents, init-IsValid, push_refines, pop_refines}
use ns_stack.Ip
use ns_stack.Ip.{Host, Sent}

-- The arguments of a call.
pub record Task : Type 0 where
  pub src : ℕ
  pub dest : ℕ
  pub proto : ℕ
  pub buf : List ℕ

-- The capacity of `ip_sending_buffer`.
abbrev pub sending_size : ℕ
sending_size = 100

-- A task that the thread has taken, with what `_ip_send_packet` made of it.
pub record Served : Type 0 where
  pub task : Task
  pub result : Option Sent

-- The buffer, the tasks whose call has returned 0, and those that the thread has taken.
pub record Sending : Type 0 where
  pub buffer : RingBuffer Task
  pub accepted : List Task
  pub served : List Served

abbrev pub no_task : Task
no_task = record { src = 0; dest = 0; proto = 0; buf = [] }

unfoldable pub idle : Sending
idle = record { buffer = Ring.init sending_size no_task; accepted = []; served = [] }

-- A caller's push, or a round of the thread's loop on a host as it is then.
pub data Event : Type 0 where
  call : Task → Event
  round : Host → Event

abbrev pub after_push : Sending → Task → RingBuffer Task × Bool → Sending
after_push s task (r, true) = record s { buffer = r; accepted = s.accepted ++ (task ∷ []) }
after_push s task (r, false) = s

abbrev pub after_pop : Sending → Host → RingBuffer Task × Option Task → Sending
after_pop s h (r, none) = s
after_pop s h (r, some k) = record s {
  buffer = r;
  served =
      s.served
      ++ (record { task = k; result = Ip.ip_send_packet h k.src k.dest k.proto k.buf } ∷ []);
}

unfoldable pub step : Sending → Event → Sending
step s (call task) = after_push s task (Ring.push sending_size s.buffer task)
step s (round h) = after_pop s h (Ring.pop sending_size s.buffer)

unfoldable pub run : Sending → List Event → Sending
unfolding step
run s [] = s
run s (e ∷ es) = run (step s e) es

-- Nothing is lost, doubled or overtaken between the callers and the thread.
pub record InOrder (s : Sending) : Type 0 where
  pub valid : IsValid sending_size s.buffer
  pub order : map (λ x. x.task) s.served ++ contents sending_size s.buffer ≡ s.accepted

push-InOrder :
    (s : Sending) (task : Task) (p : RingBuffer Task × Bool)
    → InOrder s
    → IsValid sending_size p.0
    → (contents sending_size p.0, p.1)
      ≡ Queue.push sending_size (contents sending_size s.buffer) task
    → InOrder (after_push s task p)
push-InOrder s task (r, false) o v e = o
push-InOrder s task (r, true) o v e = record {
  valid = v;
  order =
      ap (λ l. map (λ x. x.task) s.served ++ l) (grown (contents sending_size s.buffer) e)
      ∙ (sym
            (append_assoc (map (λ x. x.task) s.served) (contents sending_size s.buffer) (task ∷ []))
          ∙ ap (λ l. l ++ (task ∷ [])) o.order);
}
  where
    grown :
        (q : List Task)
        → (contents sending_size r, true) ≡ Queue.push sending_size q task
        → contents sending_size r ≡ q ++ (task ∷ [])
    grown q e = go (leb sending_size (length q)) e
      where
        go :
            (b : Bool)
            → ◌≡◌ {A = List Task × Bool}
                (contents sending_size r, true)
                (if b then (q, false) else (q ++ (task ∷ []), true))
            → contents sending_size r ≡ q ++ (task ∷ [])
        go true e = absurd (cc (ap (λ x. x.1) e))
        go false e = ap (λ x. x.0) e

pop-InOrder :
    (s : Sending) (h : Host) (p : RingBuffer Task × Option Task)
    → InOrder s
    → IsValid sending_size p.0
    → (contents sending_size p.0, p.1) ≡ Queue.pop (contents sending_size s.buffer)
    → InOrder (after_pop s h p)
pop-InOrder s h (r, none) o v e = o
pop-InOrder s h (r, some k) o v e = record {
  valid = v;
  order = moved (contents sending_size s.buffer) o.order e;
}
  where
    moved :
        (q : List Task)
        → map (λ x. x.task) s.served ++ q ≡ s.accepted
        → (contents sending_size r, some k) ≡ Queue.pop q
        → map
              (λ x. x.task)
              (s.served
                ++ (record { task = k; result = Ip.ip_send_packet h k.src k.dest k.proto k.buf }
                    ∷ []))
            ++ contents sending_size r
          ≡ s.accepted
    moved [] order e = absurd (cc (ap (λ x. x.1) e))
    moved (x ∷ q) order e =
        let front : List Task = map (λ z. z.task) s.served in
        ap (λ l. l ++ contents sending_size r) (map-append (λ z. z.task) s.served _)
        ∙ (append_assoc front (k ∷ []) (contents sending_size r)
            ∙ (ap₂ (λ z l. front ++ (z ∷ l)) (some-injective k x (ap (λ z. z.1) e))
                  (ap (λ z. z.0) e)
                ∙ order))

step-InOrder : (s : Sending) (e : Event) → InOrder s → InOrder (step s e)
unfolding step
step-InOrder s (call task) o =
    let p = push_refines o.valid task in
    push-InOrder s task (Ring.push sending_size s.buffer task) o p.0 p.1
step-InOrder s (round h) o =
    let p = pop_refines o.valid in pop-InOrder s h (Ring.pop sending_size s.buffer) o p.0 p.1

run_from : (s : Sending) (es : List Event) → InOrder s → InOrder (run s es)
unfolding run
run_from s [] o = o
run_from s (e ∷ es) o = run_from (step s e) es (step-InOrder s e o)

idle-InOrder : InOrder idle
unfolding idle
idle-InOrder =
    let (v, e) = init-IsValid sending_size no_task (omega arith) in record { valid = v; order = e }

-- From an empty buffer on, in any order of the calls of `ip_send_packet` and the rounds of the sending
-- thread: the packets that the thread has given to `_ip_send_packet`, followed by those in the buffer,
-- are the packets whose calls have returned 0, in the order of the calls; and the buffer is valid.
pub run-InOrder : (es : List Event) → InOrder (run idle es)
run-InOrder es = run_from idle es idle-InOrder
