-- ===== src/Arp/Cache.antt =====
-- What the table of src/arp.cc holds: for each address, the first reply that was heard.
use ns_stack.Base.{
  ℕ, ◌≡◌, ◌≢◌, refl, sym, ap, subst, ◌∙◌, inl, inr, Bool, true, false, ◌&&◌, ◌||◌, Option, none,
  some, List, [], ◌∷◌, arith, ◌==◌, if◌then◌else◌, Bool-cases, get_elem?, drop, ==_iff, lookup, put,
  lookup-put,
}
use ns_stack.Device.{Device, device_at}
use ns_stack.Arp.{
  Arp, Asked, Heard, answered, joined, claimed, on_request, overread, unknown, arpop_request, op_of,
  sender_of, ArpSender, emplace, requesting, request_frame, add_request, drop_request, ask,
  arp_query, wait_over, on_reply, on_message, arp_handler, arpop_reply,
}
use ns_stack.Arp.Threads.{
  leave, System, Waiter, Event, query, over, recv, start, step, run, reply_by, reply_in, reply_from,
  first_reply, or_else,
}
use ns_stack.Bytes.{htons}

pub or_else-none : (o : Option (List ℕ)) → or_else o none ≡ o
unfolding or_else
or_else-none none = refl
or_else-none (some mac) = refl

or_else_assoc : (a b c : Option (List ℕ)) → or_else (or_else a b) c ≡ or_else a (or_else b c)
unfolding or_else
or_else_assoc none b c = refl
or_else_assoc (some mac) b c = refl

pub lookup-emplace :
    (ip j : ℕ) (mac : List ℕ) (m : List (ℕ × List ℕ))
    → lookup ◌==◌ j (emplace ip mac m)
      ≡ or_else (lookup ◌==◌ j m) (if j == ip then some mac else none)
unfolding emplace or_else
lookup-emplace ip j mac m = go (lookup ◌==◌ ip m) refl
  where
    keep :
        (b : Bool) (o : Option (List ℕ))
        → (b ≡ true → o ≢ none)
        → o ≡ or_else o (if b then some mac else none)
    keep b (some x) h = refl
    keep true none h = absurd (h refl refl)
    keep false none h = refl

    go :
        (o : Option (List ℕ))
        → lookup ◌==◌ ip m ≡ o
        → lookup ◌==◌ j (elim o [ none ↦ put ◌==◌ ip mac m | some _ ↦ m ])
          ≡ or_else (lookup ◌==◌ j m) (if j == ip then some mac else none)
    go none q = elim (Bool-cases (j == ip)) [
      | inl y ↦
          let at : lookup ◌==◌ j m ≡ none =
            subst (λ i. lookup ◌==◌ i m ≡ none) (sym ((==_iff j ip).0 y)) q in
          rw (lookup-put ◌==◌ ==_iff ip j mac m, y, at) refl
      | inr n ↦ rw (lookup-put ◌==◌ ==_iff ip j mac m, n) (sym (or_else-none _))
    ]
    go (some x) q = keep (j == ip) (lookup ◌==◌ j m) (λ y e.
        let at : lookup ◌==◌ j m ≡ some x =
          subst (λ i. lookup ◌==◌ i m ≡ some x) (sym ((==_iff j ip).0 y)) q in
        cc (at, e))

module _ (s : Arp) (ip : ℕ) where
  requesting_cache : (o : Option (List ℕ)) → (requesting s ip o).0.cache ≡ s.cache
  unfolding requesting add_request drop_request
  requesting_cache none = refl
  requesting_cache (some frame) = refl

  ask_cache :
      (devs : List Device) (pcap : Bool) (id : ℕ) (o : Option Device)
      → (ask devs pcap s id ip o).0.cache ≡ s.cache
  unfolding ask
  ask_cache devs pcap id none = refl
  ask_cache devs pcap id (some d) = requesting_cache (request_frame devs pcap id d ip)

  query_cache :
      (devs : List Device) (pcap : Bool) (id : ℕ) → (arp_query devs pcap s id ip).0.cache ≡ s.cache
  unfolding arp_query
  query_cache devs pcap id = go (lookup ◌==◌ ip s.cache) (lookup ◌==◌ ip s.outstanding)
    where
      go :
          (a : Option (List ℕ)) (b : Option ℕ)
          → (elim a as (λ _. Arp × Asked) [
            | some mac ↦ (s, answered mac)
            | none ↦ elim b as (λ _. Arp × Asked) [
              | some cv ↦ (s, joined cv)
              | none ↦ ask devs pcap s id ip (device_at devs id)
            ]
          ]).0.cache
            ≡ s.cache
      go (some mac) b = refl
      go none (some cv) = refl
      go none none = ask_cache devs pcap id (device_at devs id)

  over_cache : (own : Bool) → (wait_over s ip own).0.cache ≡ s.cache
  unfolding wait_over drop_request
  over_cache own = go (lookup ◌==◌ ip s.cache) own
    where
      go :
          (o : Option (List ℕ)) (own : Bool)
          → (elim o as (λ _. Arp × Option (List ℕ)) [
            | some mac ↦ (s, some mac)
            | none ↦ (if own then drop_request ip s else s, none)
          ]).0.cache
            ≡ s.cache
      go (some mac) own = refl
      go none true = refl
      go none false = refl

  pub claimed_cache : (t : Arp) (o : Option ℕ) → (claimed ip t o).0.cache ≡ t.cache
  unfolding claimed drop_request
  claimed_cache t none = refl
  claimed_cache t (some cv) = refl

  reply_cache :
      (j : ℕ) (mac : List ℕ)
      → lookup ◌==◌ j (on_reply s ip mac).0.cache
        ≡ or_else (lookup ◌==◌ j s.cache) (if j == ip then some mac else none)
  unfolding on_reply
  reply_cache j mac =
      ap (lookup ◌==◌ j) (claimed_cache _ (lookup ◌==◌ ip s.outstanding))
      ∙ lookup-emplace ip j mac s.cache

module _ (devs : List Device) (pcap : Bool) (s : Arp) (id ip : ℕ) where
  message_cache :
      (op : ℕ) (o : Option ArpSender)
      → lookup ◌==◌ ip (on_message devs pcap s id op o).0.cache
        ≡ or_else (lookup ◌==◌ ip s.cache) (reply_by ip (some op) o)
  unfolding on_message reply_by
  message_cache op none = go (op == htons arpop_reply || op == htons arpop_request)
    where
      go :
          (b : Bool)
          → let r : Arp × Heard = if b then (s, overread) else (s, unknown) in
            lookup ◌==◌ ip r.0.cache ≡ or_else (lookup ◌==◌ ip s.cache) none
      go true = sym (or_else-none _)
      go false = sym (or_else-none _)
  message_cache op (some p) =
      go (op == htons arpop_reply) (op == htons arpop_request) (on_request devs pcap id p)
    where
      go :
          (b c : Bool) (r : Heard)
          → lookup ◌==◌ ip
              (if b then on_reply s p.spa p.sha else if c then (s, r) else (s, unknown)).0.cache
            ≡ or_else (lookup ◌==◌ ip s.cache) (if b && ip == p.spa then some p.sha else none)
      go true c r = reply_cache s p.spa ip p.sha
      go false true r = sym (or_else-none _)
      go false false r = sym (or_else-none _)

  handler_cache :
      (frame : List ℕ)
      → lookup ◌==◌ ip (arp_handler devs pcap s id frame).0.cache
        ≡ or_else (lookup ◌==◌ ip s.cache) (reply_in ip frame)
  unfolding arp_handler reply_in reply_by
  handler_cache frame = go (op_of (drop 14 frame)) (sender_of (drop 14 frame))
    where
      go :
          (o : Option ℕ) (p : Option ArpSender)
          → lookup ◌==◌ ip
              (elim o as (λ _. Arp × Heard) [
                | none ↦ (s, overread)
                | some op ↦ on_message devs pcap s id op p
              ]).0.cache
            ≡ or_else (lookup ◌==◌ ip s.cache) (reply_by ip o p)
      go none p = sym (or_else-none _)
      go (some op) p = message_cache op p

step_cache :
    (devs : List Device) (y : System) (e : Event) (ip : ℕ)
    → lookup ◌==◌ ip (step devs y e).arp.cache
      ≡ or_else (lookup ◌==◌ ip y.arp.cache) (reply_from ip e)
unfolding step reply_from
step_cache devs y (query id j pcap) ip =
    ap (lookup ◌==◌ ip) (query_cache y.arp j devs pcap id) ∙ sym (or_else-none _)
step_cache devs y (over n) ip = go (get_elem? y.waiters n)
  where
    go :
        (o : Option Waiter)
        → lookup ◌==◌ ip
            (elim o as (λ _. System) [
              | none ↦ y
              | some w ↦ record {
                arp = (wait_over y.arp w.ip w.own).0;
                waiters = leave n y.waiters;
              }
            ]).arp.cache
          ≡ or_else (lookup ◌==◌ ip y.arp.cache) none
    go none = sym (or_else-none _)
    go (some w) = ap (lookup ◌==◌ ip) (over_cache y.arp w.ip w.own) ∙ sym (or_else-none _)
step_cache devs y (recv id frame pcap) ip = handler_cache devs pcap y.arp id ip frame

pub run_cache :
    (devs : List Device) (y : System) (es : List Event) (ip : ℕ)
    → lookup ◌==◌ ip (run devs y es).arp.cache
      ≡ or_else (lookup ◌==◌ ip y.arp.cache) (first_reply ip es)
unfolding run first_reply
run_cache devs y [] ip = sym (or_else-none _)
run_cache devs y (e ∷ es) ip =
    run_cache devs (step devs y e) es ip
    ∙ (ap (λ o. or_else o (first_reply ip es)) (step_cache devs y e ip)
        ∙ or_else_assoc (lookup ◌==◌ ip y.arp.cache) (reply_from ip e) (first_reply ip es))

-- A table that was empty holds for every address what the first reply from it said.
pub cache-first_reply :
    (devs : List Device) (es : List Event) (ip : ℕ)
    → lookup ◌==◌ ip (run devs start es).arp.cache ≡ first_reply ip es
unfolding start or_else lookup
cache-first_reply devs es ip = run_cache devs start es ip

pub wait_over_result :
    (s : Arp) (ip : ℕ) (own : Bool) → (wait_over s ip own).1 ≡ lookup ◌==◌ ip s.cache
unfolding wait_over
wait_over_result s ip own = ground arith
