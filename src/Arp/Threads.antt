-- ===== src/Arp/Threads.antt =====
-- The threads that share the table of src/arp.cc: what they do to it, one stretch under `arp_mutex_`
-- after another, in any order.
use ns_stack.Base.{
  ℕ, zero, suc, Bool, true, false, ◌&&◌, Option, none, some, List, [], ◌∷◌, ◌==◌, if◌then◌else◌,
  get_elem?, drop,
}
use ns_stack.Device.{Device}
use ns_stack.Arp.{
  Arp, Asked, joined, requested, arp_query, arp_handler, wait_over, op_of, sender_of, ArpSender,
  arpop_reply,
}
use ns_stack.Bytes.{htons}

-- A thread that waits in `ARPQuery`, for a request of its own or of another.
pub record Waiter : Type 0 where
  pub ip : ℕ
  pub cv : ℕ
  pub own : Bool

pub record System : Type 0 where
  pub arp : Arp
  pub waiters : List Waiter

unfoldable pub start : System
start = record { arp = record { cache = []; outstanding = []; next_cv = 0 }; waiters = [] }

-- A thread calls `ARPQuery`, the wait of one is over, or a device calls `ARPHandler`. A frame goes out
-- if `pcap` says so.
pub data Event : Type 0 where
  query : (id ip : ℕ) → (pcap : Bool) → Event
  over : (thread : ℕ) → Event
  recv : (id : ℕ) → (frame : List ℕ) → (pcap : Bool) → Event

unfoldable pub waiting : ℕ → Asked → List Waiter → List Waiter
waiting ip (joined cv) ws = record { ip = ip; cv = cv; own = false } ∷ ws
waiting ip (requested cv frame) ws = record { ip = ip; cv = cv; own = true } ∷ ws
waiting ip _ ws = ws

unfoldable pub leave : ℕ → List Waiter → List Waiter
leave n [] = []
leave zero (w ∷ ws) = ws
leave (suc n) (w ∷ ws) = w ∷ leave n ws

unfoldable pub step : List Device → System → Event → System
unfolding waiting leave arp_query arp_handler wait_over
step devs y (query id ip pcap) =
    let r : Arp × Asked = arp_query devs pcap y.arp id ip in
    record { arp = r.0; waiters = waiting ip r.1 y.waiters }
step devs y (over n) = elim (get_elem? y.waiters n) [
  | none ↦ y
  | some w ↦ record { arp = (wait_over y.arp w.ip w.own).0; waiters = leave n y.waiters }
]
step devs y (recv id frame pcap) = record y { arp = (arp_handler devs pcap y.arp id frame).0 }

unfoldable pub run : List Device → System → List Event → System
unfolding step
run devs y [] = y
run devs y (e ∷ es) = run devs (step devs y e) es

-- The address that a frame gives for an IP address, if it is a reply from it.
unfoldable pub reply_by : ℕ → Option ℕ → Option ArpSender → Option (List ℕ)
reply_by ip (some op) (some p) = if op == htons arpop_reply && ip == p.spa then some p.sha else none
reply_by ip _ _ = none

unfoldable pub reply_in : ℕ → List ℕ → Option (List ℕ)
unfolding op_of sender_of reply_by
reply_in ip frame = reply_by ip (op_of (drop 14 frame)) (sender_of (drop 14 frame))

unfoldable pub reply_from : ℕ → Event → Option (List ℕ)
unfolding reply_in
reply_from ip (query _ _ _) = none
reply_from ip (over _) = none
reply_from ip (recv _ frame _) = reply_in ip frame

unfoldable pub or_else : Option (List ℕ) → Option (List ℕ) → Option (List ℕ)
or_else (some mac) o = some mac
or_else none o = o

-- The first reply among the events.
unfoldable pub first_reply : ℕ → List Event → Option (List ℕ)
unfolding reply_from or_else
first_reply ip [] = none
first_reply ip (e ∷ es) = or_else (reply_from ip e) (first_reply ip es)
