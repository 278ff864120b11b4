-- ===== src/Arp/First.antt =====
-- `ARPQuery` of src/arp.cc on the table that the replies have left: what it answers, and what a thread
-- that waits gets.
use ns_stack.Base.{ℕ, ◌≡◌, ◌≢◌, sym, ◌∙◌, ◌↔◌, Bool, Option, none, some, List, ◌==◌, lookup}
use ns_stack.Device.{Device, device_at}
use ns_stack.Arp.{
  Arp, Asked, answered, joined, requesting, request_frame, ask, arp_query, wait_over,
}
use ns_stack.Arp.Threads.{System, Event, start, run, first_reply}
use ns_stack.Arp.Cache.{cache-first_reply, wait_over_result}

module _ (devs : List Device) (pcap : Bool) (s : Arp) (id ip : ℕ) (mac : List ℕ) where
  requesting_unanswered : (o : Option (List ℕ)) → (requesting s ip o).1 ≢ answered mac
  unfolding requesting
  requesting_unanswered none e = cc
  requesting_unanswered (some frame) e = cc

  ask_unanswered : (o : Option Device) → (ask devs pcap s id ip o).1 ≢ answered mac
  unfolding ask
  ask_unanswered none e = cc
  ask_unanswered (some d) e = requesting_unanswered (request_frame devs pcap id d ip) e

  query_answered :
      ((arp_query devs pcap s id ip).1 ≡ answered mac) ↔ (lookup ◌==◌ ip s.cache ≡ some mac)
  unfolding arp_query
  query_answered = go (lookup ◌==◌ ip s.cache) (lookup ◌==◌ ip s.outstanding)
    where
      go :
          (a : Option (List ℕ)) (b : Option ℕ)
          → ((elim a as (λ _. Arp × Asked) [
            | some m ↦ (s, answered m)
            | none ↦ elim b as (λ _. Arp × Asked) [
              | some cv ↦ (s, joined cv)
              | none ↦ ask devs pcap s id ip (device_at devs id)
            ]
          ]).1
              ≡ answered mac)
            ↔ (a ≡ some mac)
      go (some m) b = ((λ e. cc), (λ e. cc))
      go none (some cv) = ((λ e. cc), (λ e. cc))
      go none none = ((λ e. absurd (ask_unanswered (device_at devs id) e)), (λ e. cc))

-- After any events that begin with an empty table, in any order and on any frames, `ARPQuery` answers
-- at once with an Ethernet address exactly if the first reply heard from the IP address gave it, and a
-- thread whose wait for the address ends then gets what the first reply gave, or fails if there is
-- none. Later replies change nothing.
pub arp_query-First :
    (devs : List Device) (es : List Event) (pcap : Bool) (id ip : ℕ) (own : Bool) (mac : List ℕ)
    → (((arp_query devs pcap (run devs start es).arp id ip).1 ≡ answered mac)
        ↔ (first_reply ip es ≡ some mac))
      × ((wait_over (run devs start es).arp ip own).1 ≡ first_reply ip es)
arp_query-First devs es pcap id ip own mac =
    let y : System = run devs start es in
    let c : lookup ◌==◌ ip y.arp.cache ≡ first_reply ip es = cache-first_reply devs es ip in
    let q = query_answered devs pcap y.arp id ip mac in
    (((λ a. sym c ∙ q.0 a), (λ f. q.1 (c ∙ f))), wait_over_result y.arp ip own ∙ c)
