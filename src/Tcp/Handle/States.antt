-- ===== src/Tcp/Handle/States.antt =====
-- The state machine of a connection: which states an incoming segment can lead to.
use ns_stack.Base.{
  ◌≡◌, ◌≢◌, refl, sym, ◌∙◌, subst, ◌⊎◌, inl, inr, Bool-cases, Option, none, some, arith,
}
use ns_stack.Segment.{Segment}
use ns_stack.Tcp.{
  Config, State, established, syn_sent, syn_recv, fin_wait1, fin_wait2, time_wait, close,
  close_wait, last_ack, listen, closing, Tcb, Env, Out, fail, quiet, goto, on_ok,
}
use ns_stack.Tcp.Send.{make_sure_sendback}
use ns_stack.Tcp.Send.Emit.{make_sure_sendback-Keeps}
use ns_stack.Tcp.Handle.{
  handle_open, take_ack, take_payload, take_fin, next_in, on_syn_recv, on_syn_sent, on_established,
  on_fin_wait1, on_fin_wait2, acknowledge, synced, fin_crossed, on_closing, on_last_ack, dispatch,
  out_of_sequence, in_sequence, handle,
}

-- The transitions of RFC 793 that an incoming segment can cause; `stay` for a segment that is
-- dropped, or that changes no state.
pub data Arrival : State → State → Type 0 where
  stay : {s : State} → Arrival s s
  synack_in : Arrival syn_sent established
  syn_acked : Arrival syn_recv established
  fin_in : Arrival established close_wait
  fin_acked : Arrival fin_wait1 fin_wait2
  fins_crossed : Arrival fin_wait1 closing
  fin_and_ack_in : Arrival fin_wait1 time_wait
  last_fin_in : Arrival fin_wait2 time_wait
  crossed_acked : Arrival closing time_wait
  last_acked : Arrival last_ack close

to : {s a b : State} → (b ≡ s) ⊎ (b ≡ a) → Arrival s a → Arrival s b
to {s} (inl e) x = subst (Arrival s) (sym e) stay
to {s} (inr e) x = subst (Arrival s) (sym e) x

same : {s a b : State} → a ≡ s → b ≡ a → Arrival s b
same {s} p q = subst (Arrival s) (sym (q ∙ p)) stay

state-take_ack : (t : Tcb) (seg : Segment) → (take_ack t seg).state ≡ t.state
unfolding take_ack
state-take_ack t seg = ground arith

state-take_payload :
    (c : Config) (t : Tcb) (seg : Segment) (u : Tcb)
    → take_payload c t seg ≡ some (some u)
    → u.state ≡ t.state
unfolding take_payload
state-take_payload c t seg u e = ground arith

module _ (c : Config) (env : Env) (t : Tcb) (seg : Segment) (o : Out) where
  syn_recv_to : on_syn_recv t seg ≡ some o → (o.tcb.state ≡ t.state) ⊎ (o.tcb.state ≡ established)
  unfolding on_syn_recv
  syn_recv_to e = ground arith

  syn_sent_to :
      on_syn_sent c env t seg ≡ some o → (o.tcb.state ≡ t.state) ⊎ (o.tcb.state ≡ established)
  unfolding on_syn_sent
  syn_sent_to e =
      ground
        (arith, make_sure_sendback-Keeps c env (goto (take_ack (synced t seg) seg) established) o)

  acknowledge_to :
      (u : Tcb)
      → acknowledge c env u seg ≡ some o
      → (o.tcb.state ≡ u.state) ⊎ (o.tcb.state ≡ close_wait)
  unfolding acknowledge
  acknowledge_to u e = ground (arith, make_sure_sendback-Keeps c env (take_fin u seg) o)

  -- The two ends of the handler.
  ended : Option Tcb → Option Out
  ended none = quiet (take_ack t seg) fail
  ended (some u) = acknowledge c env u seg

  established_to :
      on_established c env t seg ≡ some o → (o.tcb.state ≡ t.state) ⊎ (o.tcb.state ≡ close_wait)
  unfolding on_established ended
  established_to e = go (take_payload c (take_ack t seg) seg) refl e
    where
      go :
          (p : Option (Option Tcb))
          → take_payload c (take_ack t seg) seg ≡ p
          → elim p [ none ↦ none | some q ↦ ended q ] ≡ some o
          → (o.tcb.state ≡ t.state) ⊎ (o.tcb.state ≡ close_wait)
      go none q h = cc
      go (some none) q h = ground (arith, state-take_ack t seg)
      go (some (some u)) q h = ground (
        arith,
        state-take_ack t seg,
        state-take_payload c (take_ack t seg) seg u q,
        acknowledge_to u,
      )

  crossed_to :
      (u : Tcb)
      → on_ok (make_sure_sendback c env u) fin_crossed ≡ some o
      → (o.tcb.state ≡ u.state) ⊎ (o.tcb.state ≡ closing) ⊎ (o.tcb.state ≡ time_wait)
  crossed_to u e = go (make_sure_sendback c env u) refl e
    where
      go :
          (p : Option Out)
          → make_sure_sendback c env u ≡ p
          → on_ok p fin_crossed ≡ some o
          → (o.tcb.state ≡ u.state) ⊎ (o.tcb.state ≡ closing) ⊎ (o.tcb.state ≡ time_wait)
      go none q h = cc
      go (some o') q h = ground (arith, make_sure_sendback-Keeps c env u o' q)

  fin_wait1_to :
      on_fin_wait1 c env t seg ≡ some o
      → (o.tcb.state ≡ t.state)
        ⊎ (o.tcb.state ≡ closing)
        ⊎ (o.tcb.state ≡ time_wait)
        ⊎ (o.tcb.state ≡ fin_wait2)
  unfolding on_fin_wait1
  fin_wait1_to e = ground (arith, state-take_ack t seg, crossed_to (next_in (take_ack t seg)))

  fin_wait2_to :
      on_fin_wait2 c env t seg ≡ some o → (o.tcb.state ≡ t.state) ⊎ (o.tcb.state ≡ time_wait)
  unfolding on_fin_wait2
  fin_wait2_to e = grind (arith, make_sure_sendback-Keeps, state-take_ack)

  closing_to : on_closing t seg ≡ some o → (o.tcb.state ≡ t.state) ⊎ (o.tcb.state ≡ time_wait)
  unfolding on_closing
  closing_to e = ground arith

  last_ack_to : on_last_ack t seg ≡ some o → (o.tcb.state ≡ t.state) ⊎ (o.tcb.state ≡ close)
  unfolding on_last_ack
  last_ack_to e = ground arith

  out_of_sequence_to : out_of_sequence c env t seg ≡ some o → o.tcb.state ≡ t.state
  unfolding out_of_sequence
  out_of_sequence_to e = grind (arith, make_sure_sendback-Keeps, state-take_ack)

four_ways :
    {b : State}
    → (b ≡ fin_wait1) ⊎ (b ≡ closing) ⊎ (b ≡ time_wait) ⊎ (b ≡ fin_wait2)
    → Arrival fin_wait1 b
four_ways (inl e) = subst (Arrival fin_wait1) (sym e) stay
four_ways (inr (inl e)) = subst (Arrival fin_wait1) (sym e) fins_crossed
four_ways (inr (inr (inl e))) = subst (Arrival fin_wait1) (sym e) fin_and_ack_in
four_ways (inr (inr (inr e))) = subst (Arrival fin_wait1) (sym e) fin_acked

module _ (c : Config) (env : Env) (t : Tcb) (seg : Segment) (o : Out) where
  dispatch-Arrival :
      (s : State) → t.state ≡ s → dispatch c env t seg s ≡ some o → Arrival s o.tcb.state
  unfolding dispatch
  dispatch-Arrival syn_recv q e = to (ground (arith, syn_recv_to c env t seg o e)) syn_acked
  dispatch-Arrival syn_sent q e = to (ground (arith, syn_sent_to c env t seg o e)) synack_in
  dispatch-Arrival established q e = to (ground (arith, established_to c env t seg o e)) fin_in
  dispatch-Arrival fin_wait1 q e = four_ways (ground (arith, fin_wait1_to c env t seg o e))
  dispatch-Arrival fin_wait2 q e = to (ground (arith, fin_wait2_to c env t seg o e)) last_fin_in
  dispatch-Arrival closing q e = to (ground (arith, closing_to c env t seg o e)) crossed_acked
  dispatch-Arrival last_ack q e = to (ground (arith, last_ack_to c env t seg o e)) last_acked
  dispatch-Arrival close_wait q e = same q (ground arith)
  dispatch-Arrival time_wait q e = same q (ground arith)
  dispatch-Arrival close q e = same q (ground arith)
  dispatch-Arrival listen q e = same q (ground arith)

  handle_open-Arrival :
      (s : State) → t.state ≡ s → handle_open c env t seg s ≡ some o → Arrival s o.tcb.state
  unfolding handle_open
  handle_open-Arrival s q e = elim (Bool-cases (in_sequence t seg s)) [
    | inr out ↦ same q (out_of_sequence_to c env t seg o (rw out at e))
    | inl in_seq ↦ elim (Bool-cases seg.hdr.ack) [
      | inl acked ↦ dispatch-Arrival s q (ground arith)
      | inr bare ↦ absurd (ground arith)
    ]
  ]

  states : (s : State) → t.state ≡ s → handle c env t seg s ≡ some o → Arrival s o.tcb.state
  unfolding handle
  states close q e = same q (ground arith)
  states s q e = handle_open-Arrival s q e

  -- An incoming segment moves a connection along a transition of RFC 793, or leaves its state.
  pub handle-Arrival : handle c env t seg t.state ≡ some o → Arrival t.state o.tcb.state
  handle-Arrival e = states t.state refl e

-- Once past its opening, a connection does not come back to it, nor to ESTABLISHED from elsewhere.
pub Arrival-opened :
    {a b : State}
    → Arrival a b
    → (a ≢ syn_sent) × (a ≢ syn_recv)
    → ((b ≢ syn_sent) × (b ≢ syn_recv)) × (b ≡ established → a ≡ established)
Arrival-opened stay p = (p, λ e. e)
Arrival-opened synack_in p = absurd (p.0 refl)
Arrival-opened syn_acked p = absurd (p.1 refl)
Arrival-opened fin_in p = ground arith
Arrival-opened fin_acked p = ground arith
Arrival-opened fins_crossed p = ground arith
Arrival-opened fin_and_ack_in p = ground arith
Arrival-opened last_fin_in p = ground arith
Arrival-opened crossed_acked p = ground arith
Arrival-opened last_acked p = ground arith
