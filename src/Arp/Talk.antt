-- ===== src/Arp/Talk.antt =====
-- Two hosts on a wire: the request of the one, the reply of the other, and what the first then knows.
use ns_stack.Base.{
  ℕ, ◌≡◌, refl, sym, ap, ap₂, ◌∙◌, Bool, true, Option, none, some, List, [], ◌∷◌, ◌++◌, ◌==◌,
  ==_iff, lookup, lookup-put,
}
use ns_stack.Device.{Device, device_at}
use ns_stack.Frame.{Upper, frame_bytes, frame_handler, ethertype_arp, broadcast}
use ns_stack.Frame.Wire.{IsMac, six}
use ns_stack.Arp.{
  Arp, EtherArp, requested, replied, notified, ArpSender, to_bytes, message, request, reply,
  request_frame, add_request, arp_query, wait_over, arp_handler, arpop_reply,
}
use ns_stack.Arp.Threads.{
  System, Event, query, recv, step, run, or_else, reply_from, reply_by, reply_in, first_reply,
}
use ns_stack.Arp.Cache.{run_cache, wait_over_result}
use ns_stack.Arp.Exchange.{
  sender, Reads, Requested, handed_over, can_send, arp_query-Requested, heard_request, heard_reply,
}
use ns_stack.Bytes.{htons}

-- What comes of a request that a host of the wire gets: the frame is handed to `ARPHandler`, which
-- sends a reply and leaves the table as it was; the reply's frame is handed to the first host's
-- `ARPHandler`, which notifies the thread; and a thread of that host whose wait for the address is
-- over has the Ethernet address, whatever happened in between and behind.
pub record Resolves (a b : List Device) (y : System) (t : Arp) (id from ip cv : ℕ)
    (frame mac : List ℕ) : Type 0 where
  pub dispatched : frame_handler frame ≡ Upper.arp frame
  pub answer : List ℕ
  pub answers : arp_handler b true t from frame ≡ (t, replied answer)
  pub returns : frame_handler answer ≡ Upper.arp answer
  pub wakes :
      (pcap : Bool)
      → (arp_handler a pcap (step a y (query id ip true)).arp id answer).1 ≡ notified cv
  pub known :
      (es later : List Event) (pcap own : Bool)
      → first_reply ip es ≡ none
      → (wait_over
          (run a (step a y (query id ip true)) (es ++ (recv id answer pcap ∷ later))).arp
          ip
          own).1
        ≡ some mac

first_reply-append :
    (ip : ℕ) (es r : List Event)
    → first_reply ip es ≡ none
    → first_reply ip (es ++ r) ≡ first_reply ip r
unfolding first_reply or_else
first_reply-append ip [] r h = refl
first_reply-append ip (e ∷ es) r h = go (reply_from ip e) (first_reply-append ip es r) h
  where
    go :
        (o : Option (List ℕ))
        → (first_reply ip es ≡ none → first_reply ip (es ++ r) ≡ first_reply ip r)
        → or_else o (first_reply ip es) ≡ none
        → or_else o (first_reply ip (es ++ r)) ≡ first_reply ip r
    go none ih h = ih h
    go (some mac) ih h = absurd (cc h)

-- The reply of the host with the address.
reply_in-some :
    (ip : ℕ) (frame : List ℕ) (p : ArpSender)
    → p.spa ≡ ip
    → Reads frame (htons arpop_reply) p
    → reply_in ip frame ≡ some p.sha
unfolding reply_in reply_by htons
reply_in-some ip frame p from e =
    let same : ip == p.spa ≡ true = (==_iff _ _).1 (sym from) in
    rw (reply_in, e.0, e.1, reply_by, same) refl

by_reply :
    (id ip : ℕ) (frame : List ℕ) (pcap : Bool) (later : List Event) (mac : List ℕ)
    → reply_in ip frame ≡ some mac
    → first_reply ip (recv id frame pcap ∷ later) ≡ some mac
unfolding first_reply reply_from or_else
by_reply id ip frame pcap later mac e = ap (λ o. or_else o (first_reply ip later)) e

added : (ip : ℕ) (s : Arp) → lookup ◌==◌ ip (add_request ip s).outstanding ≡ some s.next_cv
unfolding add_request
added ip s =
    let same : ip == ip ≡ true = (==_iff ip ip).1 refl in
    lookup-put ◌==◌ ==_iff ip ip s.next_cv s.outstanding ∙ rw same refl

-- A thread that asks for the address of a host on the wire gets it: its request goes out, and if no
-- other reply from the address comes before the host's own, the request is resolved by it. The first
-- host's device and the other's have Ethernet addresses.
pub arp_query-Resolves :
    (a b : List Device) (y : System) (t : Arp) (id from ip cv : ℕ) (frame : List ℕ) (d : Device)
    → ((c : Device) → device_at a id ≡ some c → IsMac c.mac)
    → device_at b from ≡ some d
    → IsMac d.mac
    → d.ip ≡ ip
    → (arp_query a true y.arp id ip).1 ≡ requested cv frame
    → Resolves a b y t id from ip cv frame d.mac
unfolding request reply message request_frame step or_else first_reply reply_from add_request
arp_query-Resolves a b y t id from ip cv frame d macs at dm own e =
    let q : Requested a y.arp (arp_query a true y.arp id ip).0 id ip cv frame =
      arp_query-Requested a y.arp id ip cv frame e in
    let c : Device = q.dev in
    let cm : IsMac c.mac = macs c q.at in
    let p : EtherArp = request c ip in
    let there =
      handed_over a p broadcast id c (six 255 255 255 255 255 255) q.at cm cm (six 0 0 0 0 0 0)
        frame q.sent in
    let answer : List ℕ = frame_bytes c.mac d.mac ethertype_arp (to_bytes (reply d (sender p))) in
    let back =
      handed_over b (reply d (sender p)) c.mac from d cm at dm dm cm answer
        (can_send b (reply d (sender p)) c.mac from d cm at dm dm cm) in
    let after : (step a y (query id ip true)).arp ≡ add_request ip y.arp = q.recorded in
    record {
      dispatched = there.0;
      answer = answer;
      answers = heard_request b t from d (sender p) frame at dm cm there.1;
      returns = back.0;
      wakes = λ pcap.
          heard_reply a pcap (step a y (query id ip true)).arp id ip cv
            (sender (reply d (sender p))) answer own back.1
            (ap (λ s. lookup ◌==◌ ip s.outstanding) after ∙ (added ip y.arp ∙ ap some q.number));
      known = λ es later pcap own_wait none_before.
          wait_over_result _ ip own_wait
          ∙ (run_cache a (step a y (query id ip true)) (es ++ (recv id answer pcap ∷ later)) ip
              ∙ ap₂ or_else (ap (λ s. lookup ◌==◌ ip s.cache) after ∙ q.unseen) (
                  first_reply-append ip es (recv id answer pcap ∷ later) none_before
                  ∙ by_reply id ip answer pcap later d.mac
                      (reply_in-some ip answer (sender (reply d (sender p))) own back.1)));
    }
