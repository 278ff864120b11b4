-- ===== src/Tcp/Send/Draw.antt =====
-- What one segment takes from the send buffer: the data at its front, up to the first control mark.
use ns_stack.Base.{
  ℕ, zero, suc, ◌+◌, ◌-◌, ◌≤◌, ◌<◌, ◌≡◌, refl, sym, ap, ap₂, ◌∙◌, subst, ◌⊎◌, inl, inr, true, false,
  Bool-cases, some, List, [], ◌∷◌, ◌++◌, map, arith, length,
}
use ns_stack.Ring
use ns_stack.Ring.{RingBuffer}
use ns_stack.Ring.Inv.{IsValid}
use ns_stack.Ring.Queue
use ns_stack.Ring.Refine.{contents, peek_refines, pop_refines}
use ns_stack.Segment.{tcphdr_size}
use ns_stack.Tcp.{Config, Sequence, is_ctrl, plain_byte}
use ns_stack.Tcp.Send.{take_bytes, Drawn, draw}

-- The data stops here: the queue is empty or a control mark is next.
abbrev pub Stops : List Sequence → Type 0
Stops [] = Unit
Stops (s ∷ q) = is_ctrl s ≡ true

plain_lem : (s : Sequence) → is_ctrl s ≡ false → s ≡ plain_byte s.byte
plain_lem s h = ground arith

-- What `take_bytes` took and left.
pub record Took (size room : ℕ) (r : RingBuffer Sequence) (out : RingBuffer Sequence × List ℕ)
    : Type 0 where
  pub valid : IsValid size out.0
  pub split : contents size r ≡ map plain_byte out.1 ++ contents size out.0
  pub few : length out.1 ≤ room
  pub most : (length out.1 ≡ room) ⊎ Stops (contents size out.0)

module _ {size : ℕ} where
  -- The queue behind a ring, at its front.
  front :
      {r : RingBuffer Sequence} (v : IsValid size r) (q : List Sequence)
      → contents size r ≡ q
      → (Ring.peek size r ≡ Queue.peek q)
        × IsValid size (Ring.pop size r).0
        × (contents size (Ring.pop size r).0 ≡ (Queue.pop q).0)
  front v q e =
      let (w, p) = pop_refines v in
      (peek_refines v ∙ ap Queue.peek e, w, ap (λ x. x.0) p ∙ ap (λ x. (Queue.pop x).0) e)

  nothing_taken :
      (room : ℕ) {r : RingBuffer Sequence} (q : List Sequence)
      → IsValid size r
      → contents size r ≡ q
      → Stops q
      → Took size room r (r, [])
  nothing_taken room q v e s = record {
    valid = v;
    split = refl;
    few = omega arith;
    most = inr (subst Stops (sym e) s);
  }

  take_bytes-Took :
      (room : ℕ) {r : RingBuffer Sequence} (q : List Sequence)
      → IsValid size r
      → contents size r ≡ q
      → Took size room r (take_bytes size room r)
  unfolding take_bytes
  take_bytes-Took zero q v e = record {
    valid = v;
    split = refl;
    few = omega arith;
    most = inl refl;
  }
  take_bytes-Took (suc room) [] v e =
      let (p, w, c) = front v [] e in rw (p, take_bytes) (nothing_taken (suc room) [] v e tt)
  take_bytes-Took (suc room) {r} (s ∷ q) v e =
      let (p, w, c) = front v (s ∷ q) e in
      elim (Bool-cases (is_ctrl s)) [
        | inl ctrl ↦ rw (p, take_bytes) (rw ctrl (nothing_taken (suc room) (s ∷ q) v e ctrl))
        | inr data_byte ↦
            let ih : Took size room (Ring.pop size r).0 (take_bytes size room (Ring.pop size r).0) =
              take_bytes-Took room q w c in
            rw (p, take_bytes)
              (rw data_byte (record {
                valid = ih.valid;
                split = e ∙ ap₂ ◌∷◌ (plain_lem s data_byte) (sym c ∙ ih.split);
                few = omega (arith, ih.few);
                most = ground (arith, ih.most);
              }))
      ]

-- One segment carries either a control mark alone, or data: as much as fits, up to a control mark.
pub data Draws (c : Config) (r : RingBuffer Sequence) (d : Drawn) : Type 0 where
  control :
      (s : Sequence)
      → is_ctrl s ≡ true
      → contents c.send_buffer_size r ≡ s ∷ contents c.send_buffer_size d.rest
      → d.payload ≡ []
      → (d.fin ≡ s.fin) × (d.syn ≡ s.syn)
      → Draws c r d
  bytes :
      contents c.send_buffer_size r ≡ map plain_byte d.payload ++ contents c.send_buffer_size d.rest
      → (0 < length d.payload) × (length d.payload + tcphdr_size ≤ c.max_segment_size)
      → (length d.payload + tcphdr_size ≡ c.max_segment_size)
        ⊎ Stops (contents c.send_buffer_size d.rest)
      → (d.fin ≡ false) × (d.syn ≡ false)
      → Draws c r d

-- A payload was taken, since the front of the queue is data.
some_taken :
    (size room : ℕ) {r : RingBuffer Sequence} (s : Sequence) (q : List Sequence)
    (out : RingBuffer Sequence × List ℕ)
    → contents size r ≡ s ∷ q
    → is_ctrl s ≡ false
    → 0 < room
    → Took size room r out
    → 0 < length out.1
some_taken size room s q (r', []) e plain pos took = elim (took.most) [
  | inl full ↦ omega arith
  | inr stops ↦ absurd (cc (subst Stops (sym took.split ∙ e) stops))
]
some_taken size room s q (r', b ∷ bs) e plain pos took = omega arith

-- Filling a segment from a valid send buffer that is not empty succeeds and keeps the buffer valid.
-- It takes one control mark alone, or at least one of the oldest bytes, up to the segment size or
-- the next mark.
pub draw-Draws :
    (c : Config) {r : RingBuffer Sequence} (s : Sequence) (q : List Sequence)
    → tcphdr_size < c.max_segment_size
    → IsValid c.send_buffer_size r
    → contents c.send_buffer_size r ≡ s ∷ q
    → (d : Drawn) × (draw c r ≡ some d) × IsValid c.send_buffer_size d.rest × Draws c r d
unfolding draw
draw-Draws c {r} s q room v e =
    let (p, w, front_rest) = front v (s ∷ q) e in
    elim (Bool-cases (is_ctrl s)) [
      | inl ctrl ↦ (
        record { rest = (Ring.pop c.send_buffer_size r).0; fin = s.fin; syn = s.syn; payload = [] },
        rw (p, draw) (rw ctrl),
        w,
        control s ctrl (e ∙ ap (◌∷◌ s) (sym front_rest)) refl (refl, refl),
      )
      | inr plain ↦
          let n : ℕ = c.max_segment_size - tcphdr_size in
          let out : RingBuffer Sequence × List ℕ = take_bytes c.send_buffer_size n r in
          let took : Took c.send_buffer_size n r out = take_bytes-Took n (s ∷ q) v e in
          (
            record { rest = out.0; fin = false; syn = false; payload = out.1 },
            rw (p, draw) (rw plain),
            took.valid,
            bytes took.split
                (
                  some_taken c.send_buffer_size n s q out e plain (omega arith) took,
                  omega (arith, took.few),
                )
                (ground (arith, took.most)) (refl, refl),
          )
    ]
