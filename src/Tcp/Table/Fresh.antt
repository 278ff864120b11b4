-- ===== src/Tcp/Table/Fresh.antt =====
-- A connection that is opened is one that the theorems on a single connection hold of.
use ns_stack.Base.{
  ℕ, ◌%◌, ◌^◌, ◌<◌, ◌≡◌, ◌≢◌, refl, sym, subst, inl, inr, Bool, true, false, Option, none, some,
  arith, ltb, length, add32, lookup, put, put_cases,
}
use ns_stack.Ring.Refine.{init-IsValid}
use ns_stack.Segment.{Segment, tcphdr_size}
use ns_stack.Tcp.{
  Config, State, close, syn_sent, syn_recv, Tcb, Env, Status, ok, fail, Out, goto, plain_byte,
  syn_mark,
}
use ns_stack.Tcp.Ready.{IsReady, closed-IsReady}
use ns_stack.Tcp.Connection.Safe.{send_ctrl-Ends}
use ns_stack.Tcp.Table.{
  SocketPair, same_pair, Tables, find_active, find_orphaned, block_at, add_block, Opened, opened,
  open_pair, init_tcb, is_some, blank,
}
use ns_stack.Tcp.Table.Consistent.{same_pair_iff, get_elem?-append_here}

-- The sizes of the buffers and of a segment make sense.
pub record IsSized (c : Config) : Type 0 where
  pub send_small : c.send_buffer_size < 2 ^ 31
  pub recv_small : c.recv_buffer_size < 2 ^ 31
  pub room : tcphdr_size < c.max_segment_size

-- The segment that opens a connection passively is a SYN.
abbrev pub IsSyn : Option Segment → Type 0
IsSyn none = Unit
IsSyn (some s) = s.hdr.syn ≡ true

nothing_waits : (n : ℕ) → ltb n n ≢ true
nothing_waits n e = ground arith

blank-IsReady :
    (c : Config) (seq : ℕ) (st : State) (passive : Bool) (p : SocketPair) (their_seq next : ℕ)
    → IsSized c
    → p.local.addr ≢ 0
    → p.remote.addr ≢ 0
    → IsReady c (blank c seq st passive p their_seq next)
blank-IsReady c seq st passive p their_seq next z l r = record {
  sends = (init-IsValid c.send_buffer_size (plain_byte 0) z.send_small).0;
  receives = (init-IsValid c.recv_buffer_size 0 z.recv_small).0;
  addresses = (l, r);
  last = λ n h. absurd (nothing_waits seq h);
}

init_tcb-IsReady :
    (c : Config) (rand : ℕ) (p : SocketPair) (syn : Option Segment)
    → IsSized c
    → p.local.addr ≢ 0
    → p.remote.addr ≢ 0
    → IsSyn syn
    → (b : Tcb) × (init_tcb c rand p syn ≡ some b) × IsReady c b
unfolding init_tcb
init_tcb-IsReady c rand p none z l r s = (
  blank c (rand % 10000) syn_sent false p 0 0,
  refl,
  blank-IsReady c (rand % 10000) syn_sent false p 0 0 z l r,
)
init_tcb-IsReady c rand p (some syn) z l r s = (
  blank c (rand % 10000) syn_recv true p syn.hdr.seq (add32 syn.hdr.seq 1),
  rw (init_tcb, s) refl,
  blank-IsReady c (rand % 10000) syn_recv true p syn.hdr.seq (add32 syn.hdr.seq 1) z l r,
)

-- The new block at the end of the heap is ready, and filed under the pair.
abbrev pub Opens : Config → Tables → SocketPair → Opened → Type 0
Opens c t p o =
    (b : Tcb) × (block_at o.tables (length t.heap) ≡ some b)
    × IsReady c b
    × (find_active o.tables p ≡ some (length t.heap))

add_block-Opens :
    (c : Config) (t : Tables) (p : SocketPair) (b : Tcb) (o : Opened)
    → o.tables ≡ add_block t p b
    → IsReady c b
    → Opens c t p o
unfolding block_at add_block find_active
add_block-Opens c t p b o e r =
    subst
      (λ x.
        (d : Tcb) × (block_at x (length t.heap) ≡ some d)
        × IsReady c d
        × (find_active x p ≡ some (length t.heap)))
      (sym e) (b, rw (block_at, get_elem?-append_here t.heap (some b)) refl, r, filed)
  where
    filed : lookup same_pair p (put same_pair p (length t.heap) t.active) ≡ some (length t.heap)
    filed = elim (put_cases same_pair same_pair_iff p p (length t.heap) t.active) [
      | inl (same, at) ↦ at
      | inr (other, at) ↦ absurd (other refl)
    ]

opened-Opens :
    (c : Config) (t : Tables) (p : SocketPair) (passive : Bool) (o : Out) (s : Status)
    → IsReady c o.tcb
    → Opens c t p (opened t p passive o s)
unfolding opened
opened-Opens c t p passive o ok r = add_block-Opens c t p o.tcb (opened t p passive o ok) refl r
opened-Opens c t p passive o fail r =
    add_block-Opens c t p (goto o.tcb close) (opened t p passive o fail) refl
      (closed-IsReady c o.tcb r)

-- Opening a connection for a pair that neither map has fails no assertion, and leaves under the pair a
-- new block that is ready: by `steps_total`, no sequence of events makes it fail one. The sizes make
-- sense, the addresses are set, and a passive open is for a SYN.
pub open_pair_total :
    (c : Config) (env : Env) (rand : ℕ) (t : Tables) (p : SocketPair) (syn : Option Segment)
    → IsSized c
    → p.local.addr ≢ 0
    → p.remote.addr ≢ 0
    → IsSyn syn
    → find_active t p ≡ none
    → find_orphaned t p ≡ none
    → (o : Opened) × (open_pair c env rand t p syn ≡ some o)
      × ((b : Tcb) × (block_at o.tables (length t.heap) ≡ some b)
          × IsReady c b
          × (find_active o.tables p ≡ some (length t.heap)))
unfolding open_pair
open_pair_total c env rand t p syn z l r s n n' =
    let (b, e, ready) = init_tcb-IsReady c rand p syn z l r s in
    let (o, e', ready') = send_ctrl-Ends c env z.room b ready syn_mark in
    (
      opened t p (is_some syn) o o.status,
      rw (open_pair, n, n', e, e') refl,
      opened-Opens c t p (is_some syn) o o.status ready',
    )
