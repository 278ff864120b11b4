-- ===== src/Tcp/Table/Incoming.antt =====
-- Incoming segments and timers keep the tables consistent.
use mathlib.Core.Option.{some-injective}
use ns_stack.Base.{
  ℕ, ◌≡◌, refl, sym, ap₂, subst, inl, inr, not, ◌&&◌, Option, none, some, List, arith, ltb, ◌==◌,
  Bool-cases, length,
}
use ns_stack.Segment
use ns_stack.Segment.{Segment, tcphdr_size, fill_in_tcp_checksum, ntoh}
use ns_stack.Tcp.{Config, Tcb, Env, Out}
use ns_stack.Tcp.Timer
use ns_stack.Tcp.Handle
use ns_stack.Tcp.Table.{pair_of, Tables, find_listening, block_at, Opened, tcp_open}
use ns_stack.Tcp.Table.Step.{
  Handled, ignored, compared, constructed, stored, tuple_of, accepted, on_syn, find_block, to_block,
  on_segment, tcp_segment_handler, timer_round,
}
use ns_stack.Tcp.Table.Ends.{SameEnds, handle-SameEnds, tcp_timer-SameEnds}
use ns_stack.Tcp.Table.Consistent.{IsConsistent}
use ns_stack.Tcp.Table.Keep.{put-IsConsistent}
use ns_stack.Tcp.Table.Opening.{tcp_open-IsConsistent}

pub SameEnds-pair : (b u : Tcb) → SameEnds b u → pair_of u ≡ pair_of b
SameEnds-pair b u s = ap₂ (λ l r. record { local = l; remote = r }) s.same_local s.same_remote

stored-IsConsistent :
    (t : Tables) (i : ℕ) (b : Tcb) (x : Option Out) (h : Handled)
    → IsConsistent t
    → block_at t i ≡ some b
    → ((o : Out) → x ≡ some o → SameEnds b o.tcb)
    → stored t i x ≡ some h
    → IsConsistent h.tables
stored-IsConsistent t i b none h v at ends e = cc
stored-IsConsistent t i b (some o) h v at ends e =
    subst (λ x. IsConsistent x.tables) (some-injective _ _ e)
      (put-IsConsistent t i b o.tcb at (SameEnds-pair b o.tcb (ends o refl)) v)

ignored-IsConsistent :
    (t : Tables) (h : Handled) → IsConsistent t → ignored t ≡ some h → IsConsistent h.tables
ignored-IsConsistent t h v e = subst (λ x. IsConsistent x.tables) (some-injective _ _ e) v

accepted-tables : (sb : ℕ) (o : Opened) (h : Handled) → accepted sb o ≡ some h → h.tables ≡ o.tables
unfolding accepted
accepted-tables sb o h e = ground arith

module _ (c : Config) (env : Env) (t : Tables) (v : IsConsistent t) where
  on_syn-IsConsistent :
      (rand : ℕ) (seg : Segment) (h : Handled)
      → on_syn c env rand t seg ≡ some h
      → IsConsistent h.tables
  unfolding on_syn
  on_syn-IsConsistent rand seg h e = on_listener (find_listening t seg.hdr.dest) e
    where
      opening : Option Opened
      opening = tcp_open c env rand t (tuple_of seg).local (some (tuple_of seg).remote) (some seg)

      on_open :
          (sb : ℕ) (x : Option Opened)
          → opening ≡ x
          → elim x [ none ↦ none | some o ↦ accepted sb o ] ≡ some h
          → IsConsistent h.tables
      on_open sb none q e = cc
      on_open sb (some o) q e =
          subst IsConsistent (sym (accepted-tables sb o h e))
            (tcp_open-IsConsistent c env rand t v _ _ _ o q)

      on_listener :
          (l : Option ℕ)
          → elim l [
            | none ↦ ignored t
            | some sb ↦ elim opening [ none ↦ none | some o ↦ accepted sb o ]
          ]
            ≡ some h
          → IsConsistent h.tables
      on_listener none e = ignored-IsConsistent t h v e
      on_listener (some sb) e = on_open sb opening refl e

  to_block-IsConsistent :
      (seg : Segment) (h : Handled) → to_block c env t seg ≡ some h → IsConsistent h.tables
  unfolding to_block
  to_block-IsConsistent seg h e = on_found (find_block t (tuple_of seg)) e
    where
      handed : Tcb → Option Out
      handed b = Handle.handle c env b seg b.state

      on_block :
          (i : ℕ) (x : Option Tcb)
          → block_at t i ≡ x
          → elim x [ none ↦ none | some b ↦ stored t i (handed b) ] ≡ some h
          → IsConsistent h.tables
      on_block i none q e = cc
      on_block i (some b) q e =
          stored-IsConsistent t i b (handed b) h v q (λ o. handle-SameEnds c env b seg o b.state) e

      on_found :
          (x : Option ℕ)
          → elim x [
            | none ↦ ignored t
            | some i ↦ elim (block_at t i) [ none ↦ none | some b ↦ stored t i (handed b) ]
          ]
            ≡ some h
          → IsConsistent h.tables
      on_found none e = ignored-IsConsistent t h v e
      on_found (some i) e = on_block i (block_at t i) refl e

  on_segment-IsConsistent :
      (rand : ℕ) (seg : Segment) (h : Handled)
      → on_segment c env rand t seg ≡ some h
      → IsConsistent h.tables
  unfolding on_segment
  on_segment-IsConsistent rand seg h e = elim (Bool-cases (seg.hdr.syn && not seg.hdr.ack)) [
    | inl y ↦ on_syn-IsConsistent rand seg h (rw y at e)
    | inr n ↦ to_block-IsConsistent seg h (rw n at e)
  ]

  compared-IsConsistent :
      (rand : ℕ) (seg : Segment) (x : Option Segment) (h : Handled)
      → compared c env rand t seg x ≡ some h
      → IsConsistent h.tables
  compared-IsConsistent rand seg none h e = cc
  compared-IsConsistent rand seg (some s) h e = elim (Bool-cases (s.hdr.check == seg.hdr.check)) [
    | inl y ↦ on_segment-IsConsistent rand (ntoh s) h (rw y at e)
    | inr n ↦ ignored-IsConsistent t h v (rw n at e)
  ]

  constructed-IsConsistent :
      (rand : ℕ) (x : Option Segment) (h : Handled)
      → constructed c env rand t x ≡ some h
      → IsConsistent h.tables
  constructed-IsConsistent rand none h e = cc
  constructed-IsConsistent rand (some seg) h e =
      compared-IsConsistent rand seg (fill_in_tcp_checksum seg) h e

  pub tcp_segment_handler-IsConsistent :
      (rand : ℕ) (buf : List ℕ) (src dst : ℕ) (h : Handled)
      → tcp_segment_handler c env rand t buf src dst ≡ some h
      → IsConsistent h.tables
  unfolding tcp_segment_handler
  tcp_segment_handler-IsConsistent rand buf src dst h e =
      elim (Bool-cases (ltb (length buf) tcphdr_size)) [
        | inl y ↦ ignored-IsConsistent t h v (rw y at e)
        | inr n ↦ constructed-IsConsistent rand (Segment.of_bytes buf src dst) h (rw n at e)
      ]

  pub timer_round-IsConsistent :
      (i : ℕ) (h : Handled) → timer_round c env t i ≡ some h → IsConsistent h.tables
  unfolding timer_round
  timer_round-IsConsistent i h e = go (block_at t i) refl e
    where
      go :
          (x : Option Tcb)
          → block_at t i ≡ x
          → elim x [ none ↦ none | some b ↦ stored t i (Timer.tcp_timer c env b) ] ≡ some h
          → IsConsistent h.tables
      go none q e = cc
      go (some b) q e =
          stored-IsConsistent t i b (Timer.tcp_timer c env b) h v q (tcp_timer-SameEnds c env b) e
