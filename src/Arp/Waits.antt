-- ===== src/Arp/Waits.antt =====
-- The requests of src/arp.cc that are outstanding, and the threads that wait for them.
use ns_stack.Base.{
  ℕ, ◌+◌, ◌≡◌, refl, sym, ap, ap₂, subst, ◌∙◌, inl, inr, Bool, true, false, ◌||◌, Option, none,
  some, List, [], ◌∷◌, arith, ◌==◌, if◌then◌else◌, Bool-cases, get_elem?, drop, ==_iff, lookup,
  put_cases, remove_cases,
}
use ns_stack.Device.{Device, device_at}
use ns_stack.Arp.{
  Arp, Asked, Heard, answered, joined, claimed, overread, unknown, op_of, sender_of, ArpSender,
  emplace, requesting, request_frame, add_request, drop_request, ask, arp_query, wait_over,
  on_reply, on_request, on_message, arp_handler, arpop_reply, arpop_request,
}
use ns_stack.Arp.Threads.{
  System, Waiter, Event, query, over, recv, start, step, run, or_else, waiting, leave,
}
use ns_stack.Arp.Cache.{lookup-emplace, or_else-none, claimed_cache}
use ns_stack.Bytes.{htons}
use ns_stack.Arp.Fits.{
  own_for, owners, Fits, FitsAt, IsSound, like, owners-leave, Fits-le, Fits-less, Fits-given_up,
  Fits-heard, taken_back, claimed_out, Fits-new, Fits-none, own_for_other, own_for_joined,
  own_for_own,
}

module _ (s : Arp) (ws : List Waiter) (h : IsSound s ws) where
  requesting-IsSound :
      (ip : ℕ) (o : Option (List ℕ))
      → lookup ◌==◌ ip s.cache ≡ none
      → lookup ◌==◌ ip s.outstanding ≡ none
      → IsSound (requesting s ip o).0 (waiting ip (requesting s ip o).1 ws)
  unfolding IsSound FitsAt requesting add_request drop_request waiting
  requesting-IsSound ip none c e =
      λ j. like _ _ _ _ _ _ refl (taken_back ip j s.next_cv s.outstanding e) refl (h j)
  requesting-IsSound ip (some frame) c e = λ j.
      elim (put_cases ◌==◌ ==_iff ip j s.next_cv s.outstanding)
        as (λ _. FitsAt j (add_request ip s) (mine ∷ ws)) [
          | inl y ↦
              let unseen : lookup ◌==◌ j s.cache ≡ none =
                subst (λ i. lookup ◌==◌ i s.cache ≡ none) (sym y.0) c in
              let unasked : lookup ◌==◌ j s.outstanding ≡ none =
                subst (λ i. lookup ◌==◌ i s.outstanding ≡ none) (sym y.0) e in
              Fits-new _ _ _ s.next_cv unseen y.1 (
                ap₂ (λ a b. a + b) (own_for_own j mine refl y.0)
                  (Fits-none _ _ _ unseen unasked (h j)))
          | inr n ↦ like _ _ _ _ _ _ refl n.1 (omega (arith, own_for_other j mine n.0)) (h j)
        ]
    where
      mine : Waiter
      mine = record { ip = ip; cv = s.next_cv; own = true }

  over-IsSound :
      (n : ℕ) (w : Waiter)
      → get_elem? ws n ≡ some w
      → IsSound (wait_over s w.ip w.own).0 (leave n ws)
  unfolding IsSound FitsAt wait_over drop_request
  over-IsSound n w at =
      λ j. go j (lookup ◌==◌ w.ip s.cache) refl w.own refl (owners-leave j n ws w at)
    where
      go :
          (j : ℕ) (o : Option (List ℕ))
          → lookup ◌==◌ w.ip s.cache ≡ o
          → (own : Bool) → w.own ≡ own
          → owners j ws ≡ own_for j w + owners j (leave n ws)
          → FitsAt j
              (elim o as (λ _. Arp × Option (List ℕ)) [
                | some mac ↦ (s, some mac)
                | none ↦ (if own then drop_request w.ip s else s, none)
              ]).0
              (leave n ws)
      go j (some mac) e own q l = elim (Bool-cases (j == w.ip)) [
        | inl y ↦
            Fits-less _ _ _ _ mac
              (subst (λ i. lookup ◌==◌ i s.cache ≡ some mac) (sym ((==_iff _ _).0 y)) e)
              (omega (arith, l)) (h j)
        | inr n ↦
            like _ _ _ _ _ _ refl refl
              (omega (arith, l, own_for_other j w (λ x. cc (n, (==_iff _ _).1 x)))) (h j)
      ]
      go j none e false q l =
          like _ _ _ _ _ _ refl refl (omega (arith, l, own_for_joined j w q)) (h j)
      go j none e true q l = elim (remove_cases ◌==◌ ==_iff w.ip j s.outstanding) [
        | inl y ↦ like _ _ _ _ _ _ refl y.1 refl (
            Fits-given_up _ _ _ _ (subst (λ i. lookup ◌==◌ i s.cache ≡ none) (sym y.0) e)
              (omega (arith, l, own_for_own j w q y.0)) (h j))
        | inr k ↦ like _ _ _ _ _ _ refl k.1 (omega (arith, l, own_for_other j w k.0)) (h j)
      ]

  reply-IsSound : (ip : ℕ) (mac : List ℕ) → IsSound (on_reply s ip mac).0 ws
  unfolding IsSound FitsAt on_reply
  reply-IsSound ip mac = λ j.
      let t : Arp = record s { cache = emplace ip mac s.cache } in
      let o : Option ℕ = lookup ◌==◌ ip s.outstanding in
      let out : lookup ◌==◌ j (claimed ip t o).0.outstanding
          ≡ (if j == ip then none else lookup ◌==◌ j s.outstanding) =
        claimed_out ip j t o refl in
      let table : lookup ◌==◌ j (claimed ip t o).0.cache
          ≡ or_else (lookup ◌==◌ j s.cache) (if j == ip then some mac else none) =
        ap (lookup ◌==◌ j) (claimed_cache t ip t o) ∙ lookup-emplace ip j mac s.cache in
      go j (j == ip) table out
    where
      go :
          (j : ℕ) (b : Bool) {c : Option (List ℕ)} {o : Option ℕ}
          → c ≡ or_else (lookup ◌==◌ j s.cache) (if b then some mac else none)
          → o ≡ (if b then none else lookup ◌==◌ j s.outstanding)
          → Fits c o (owners j ws)
      go j true p q = like _ _ _ _ _ _ p q refl (Fits-heard _ _ mac (Fits-le _ _ _ (h j)))
      go j false p q = like _ _ _ _ _ _ (p ∙ or_else-none _) q refl (h j)

joined-IsSound :
    (s : Arp) (ws : List Waiter) (w : Waiter) → w.own ≡ false → IsSound s ws → IsSound s (w ∷ ws)
unfolding IsSound FitsAt owners
joined-IsSound s ws w e h =
    λ j. like _ _ _ _ _ _ refl refl (omega (arith, own_for_joined j w e)) (h j)

query-IsSound :
    (devs : List Device) (pcap : Bool) (s : Arp) (ws : List Waiter) (id ip : ℕ)
    → IsSound s ws
    → IsSound (arp_query devs pcap s id ip).0 (waiting ip (arp_query devs pcap s id ip).1 ws)
unfolding arp_query waiting ask
query-IsSound devs pcap s ws id ip h =
    go (lookup ◌==◌ ip s.cache) refl (lookup ◌==◌ ip s.outstanding) refl (device_at devs id)
  where
    go :
        (a : Option (List ℕ))
        → lookup ◌==◌ ip s.cache ≡ a
        → (b : Option ℕ) → lookup ◌==◌ ip s.outstanding ≡ b
        → (d : Option Device)
        → let r : Arp × Asked = elim a as (λ _. Arp × Asked) [
          | some mac ↦ (s, answered mac)
          | none ↦ elim b as (λ _. Arp × Asked) [
            | some cv ↦ (s, joined cv)
            | none ↦ ask devs pcap s id ip d
          ]
        ] in
          IsSound r.0 (waiting ip r.1 ws)
    go (some mac) p b q d = h
    go none p (some cv) q d = joined-IsSound s ws _ refl h
    go none p none q none = h
    go none p none q (some d) = requesting-IsSound s ws h ip (request_frame devs pcap id d ip) p q

handler-IsSound :
    (devs : List Device) (pcap : Bool) (s : Arp) (ws : List Waiter) (id : ℕ) (frame : List ℕ)
    → IsSound s ws
    → IsSound (arp_handler devs pcap s id frame).0 ws
unfolding arp_handler on_message
handler-IsSound devs pcap s ws id frame h = go (op_of (drop 14 frame)) (sender_of (drop 14 frame))
  where
    either :
        (b c : Bool) (p : ArpSender) (r : Heard)
        → IsSound (if b then on_reply s p.spa p.sha else if c then (s, r) else (s, unknown)).0 ws
    either true c p r = reply-IsSound s ws h p.spa p.sha
    either false true p r = h
    either false false p r = h

    unread :
        (b : Bool)
        → let r : Arp × Heard = if b then (s, overread) else (s, unknown) in IsSound r.0 ws
    unread true = h
    unread false = h

    go :
        (o : Option ℕ) (p : Option ArpSender)
        → IsSound
            (elim o as (λ _. Arp × Heard) [
              | none ↦ (s, overread)
              | some op ↦ on_message devs pcap s id op p
            ]).0
            ws
    go none p = h
    go (some op) none = unread (op == htons arpop_reply || op == htons arpop_request)
    go (some op) (some p) =
        either (op == htons arpop_reply) (op == htons arpop_request) p (on_request devs pcap id p)

step-IsSound :
    (devs : List Device) (y : System) (e : Event)
    → IsSound y.arp y.waiters
    → IsSound (step devs y e).arp (step devs y e).waiters
unfolding step
step-IsSound devs y (query id ip pcap) h = query-IsSound devs pcap y.arp y.waiters id ip h
step-IsSound devs y (over n) h = go (get_elem? y.waiters n) refl
  where
    go :
        (o : Option Waiter)
        → get_elem? y.waiters n ≡ o
        → let z : System = elim o as (λ _. System) [
          | none ↦ y
          | some w ↦ record { arp = (wait_over y.arp w.ip w.own).0; waiters = leave n y.waiters }
        ] in
          IsSound z.arp z.waiters
    go none e = h
    go (some w) e = over-IsSound y.arp y.waiters h n w e
step-IsSound devs y (recv id frame pcap) h = handler-IsSound devs pcap y.arp y.waiters id frame h

-- What holds of the table, the requests and the threads holds after any further events.
run_from :
    (devs : List Device) (y : System) (es : List Event)
    → IsSound y.arp y.waiters
    → IsSound (run devs y es).arp (run devs y es).waiters
unfolding run
run_from devs y [] h = h
run_from devs y (e ∷ es) h = run_from devs (step devs y e) es (step-IsSound devs y e h)

start-IsSound : IsSound start.arp start.waiters
unfolding IsSound FitsAt start Fits owners lookup
start-IsSound j = refl

-- After any events that begin with an empty table, in any order and on any frames, each address fits:
-- while a request for it is outstanding, the table does not have it and exactly one thread waits for a
-- request of its own; when none is outstanding and the table does not have it, no thread does; and two
-- threads never wait for requests of their own for one address.
pub run-IsSound :
    (devs : List Device) (es : List Event)
    → IsSound (run devs start es).arp (run devs start es).waiters
run-IsSound devs es = run_from devs start es start-IsSound
