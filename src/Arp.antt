-- ===== src/Arp.antt =====
-- src/arp.cc: the table of Ethernet addresses, `ARPQuery` and `ARPHandler`, each stretch that holds
-- `arp_mutex_` as one step. `struct ether_arp` is that of <netinet/if_ether.h>.
pub mod Wire
pub mod Threads
pub mod Cache
pub mod First
pub mod Fits
pub mod Waits
pub mod Exchange
pub mod Talk
mod Tests
use ns_stack.Base.{
  ℕ, zero, suc, ◌+◌, ◌-◌, ◌*◌, ◌/◌, ◌%◌, ◌^◌, ◌≤◌, ◌<◌, min, ◌≡◌, ◌≢◌, refl, sym, ap, ap₂, subst,
  ◌∙◌, ◌↔◌, ◌⊎◌, inl, inr, Bool, true, false, not, ◌&&◌, ◌||◌, Option, none, some, List, [], ◌∷◌,
  ◌++◌, map, append-nil, append_assoc, arith, ltb, leb, ◌==◌, if◌then◌else◌, Bool-cases, length,
  get_elem?, set, take, drop, replicate, All, length-append, u16_mod, u32_mod, add16, add32, ==_iff,
  lookup, put, remove,
}
use ns_stack.Bytes.{bytes16, bytes32, word16, word32, htons}
use ns_stack.Device.{Device, device_at}
use ns_stack.Frame.{ethertype_ip, ethertype_arp, broadcast, send_frame}

abbrev pub arphrd_ether : ℕ
arphrd_ether = 1

abbrev pub arpop_request : ℕ
arpop_request = 1

abbrev pub arpop_reply : ℕ
arpop_reply = 2

-- `struct ether_arp` as it stands in memory.
pub record EtherArp : Type 0 where
  pub hrd : ℕ
  pub pro : ℕ
  pub hln : ℕ
  pub pln : ℕ
  pub op : ℕ
  pub sha : List ℕ
  pub spa : ℕ
  pub tha : List ℕ
  pub tpa : ℕ

unfoldable pub to_bytes : EtherArp → List ℕ
to_bytes p =
    bytes16 p.hrd
    ++ (bytes16 p.pro
        ++ (p.hln
            ∷ p.pln
            ∷ (bytes16 p.op ++ (p.sha ++ (bytes32 p.spa ++ (p.tha ++ bytes32 p.tpa))))))

-- What `ARPHandler` reads of the overlay on the payload of a frame, up to `arp_spa`; `arp_tpa` is read
-- for the log only. `none` is a read past the end of the frame.
unfoldable pub op_of : List ℕ → Option ℕ
op_of (h0 ∷ h1 ∷ p0 ∷ p1 ∷ hln ∷ pln ∷ o0 ∷ o1 ∷ rest) = some (word16 o0 o1)
op_of _ = none

pub record ArpSender : Type 0 where
  pub sha : List ℕ
  pub spa : ℕ

unfoldable pub sender_of : List ℕ → Option ArpSender
sender_of
      (h0 ∷ h1 ∷ p0 ∷ p1 ∷ hln ∷ pln ∷ o0 ∷ o1 ∷ a ∷ b ∷ c ∷ d ∷ e ∷ f ∷ s0 ∷ s1 ∷ s2 ∷ s3 ∷ rest) =
    some (record { sha = a ∷ b ∷ c ∷ d ∷ e ∷ f ∷ []; spa = word32 s0 s1 s2 s3 })
sender_of _ = none

-- The message of an operation, from a device.
unfoldable pub message : ℕ → Device → List ℕ → ℕ → EtherArp
message op d tha tpa = record {
  hrd = htons arphrd_ether;
  pro = htons ethertype_ip;
  hln = 6;
  pln = 4;
  op = htons op;
  sha = d.mac;
  spa = d.ip;
  tha = tha;
  tpa = tpa;
}

unfoldable pub request : Device → ℕ → EtherArp
unfolding message
request d ip = message arpop_request d (0 ∷ 0 ∷ 0 ∷ 0 ∷ 0 ∷ 0 ∷ []) ip

unfoldable pub reply : Device → ArpSender → EtherArp
unfolding message
reply d p = message arpop_reply d p.sha p.spa

-- `cache_` and `outstanding_requests_`. A condition variable is its number, and `next_cv` numbers the
-- next one that is made.
pub record Arp : Type 0 where
  pub cache : List (ℕ × List ℕ)
  pub outstanding : List (ℕ × ℕ)
  pub next_cv : ℕ

-- `unordered_map::emplace` leaves an entry that is there as it is.
unfoldable pub emplace : ℕ → List ℕ → List (ℕ × List ℕ) → List (ℕ × List ℕ)
unfolding lookup put
emplace ip mac m = elim (lookup ◌==◌ ip m) [ none ↦ put ◌==◌ ip mac m | some _ ↦ m ]

-- What `ARPQuery` comes to, up to its wait: a null `dev_mac`, an address, a frame that could not be
-- sent, the wait on another thread's request, or a request of its own and the wait for its reply.
pub data Asked : Type 0 where
  crashed refused : Asked
  answered : List ℕ → Asked
  joined : ℕ → Asked
  requested : ℕ → List ℕ → Asked

unfoldable pub add_request : ℕ → Arp → Arp
unfolding put
add_request ip s = record s {
  outstanding = put ◌==◌ ip s.next_cv s.outstanding;
  next_cv = s.next_cv + 1;
}

unfoldable pub drop_request : ℕ → Arp → Arp
unfolding remove
drop_request ip s = record s { outstanding = remove ◌==◌ ip s.outstanding }

-- What comes of the request's frame, `none` where `send_frame` or libpcap fails.
unfoldable pub requesting : Arp → ℕ → Option (List ℕ) → Arp × Asked
unfolding add_request drop_request
requesting s ip (some frame) = (add_request ip s, requested s.next_cv frame)
requesting s ip none = (drop_request ip (add_request ip s), refused)

-- `pcap` is whether libpcap takes the frame.
unfoldable pub request_frame : List Device → Bool → ℕ → Device → ℕ → Option (List ℕ)
unfolding send_frame to_bytes request
request_frame devs pcap id d ip =
    if pcap then send_frame devs (to_bytes (request d ip)) ethertype_arp broadcast id else none

unfoldable pub ask : List Device → Bool → Arp → ℕ → ℕ → Option Device → Arp × Asked
unfolding requesting request_frame
ask devs pcap s id ip none = (s, crashed)
ask devs pcap s id ip (some d) = requesting s ip (request_frame devs pcap id d ip)

unfoldable pub arp_query : List Device → Bool → Arp → ℕ → ℕ → Arp × Asked
unfolding lookup ask
arp_query devs pcap s id ip = elim (lookup ◌==◌ ip s.cache) [
  | some mac ↦ (s, answered mac)
  | none ↦ elim (lookup ◌==◌ ip s.outstanding) [
    | some cv ↦ (s, joined cv)
    | none ↦ ask devs pcap s id ip (device_at devs id)
  ]
]

-- The end of the wait, by `wait_for` with its test of the table: the address, or the time-out, at
-- which the thread whose request it was takes the request back.
unfoldable pub wait_over : Arp → ℕ → Bool → Arp × Option (List ℕ)
unfolding lookup drop_request
wait_over s ip own = elim (lookup ◌==◌ ip s.cache) [
  | some mac ↦ (s, some mac)
  | none ↦ (if own then drop_request ip s else s, none)
]

-- What `ARPHandler` comes to: a read past the frame's end, a null `dev_mac`, an operation that is
-- neither, a reply that was not requested, one whose waiting threads are notified, the frame of the
-- reply, or a frame that could not be sent.
pub data Heard : Type 0 where
  overread crashed unknown unrequested unsent : Heard
  notified : ℕ → Heard
  replied : List ℕ → Heard

-- Behind the table's entry: the request, if there is one, is taken out.
unfoldable pub claimed : ℕ → Arp → Option ℕ → Arp × Heard
unfolding drop_request
claimed ip t none = (t, unrequested)
claimed ip t (some cv) = (drop_request ip t, notified cv)

unfoldable pub on_reply : Arp → ℕ → List ℕ → Arp × Heard
unfolding lookup emplace claimed
on_reply s ip mac =
    claimed ip (record s { cache = emplace ip mac s.cache }) (lookup ◌==◌ ip s.outstanding)

unfoldable pub on_request : List Device → Bool → ℕ → ArpSender → Heard
unfolding send_frame to_bytes reply
on_request devs pcap id p = elim (device_at devs id) [
  | none ↦ crashed
  | some d ↦ elim (send_frame devs (to_bytes (reply d p)) ethertype_arp p.sha id) [
    | none ↦ unsent
    | some frame ↦ if pcap then replied frame else unsent
  ]
]

-- A message by its operation; a reply and a request are read up to the sender's addresses.
unfoldable pub on_message : List Device → Bool → Arp → ℕ → ℕ → Option ArpSender → Arp × Heard
unfolding on_reply on_request
on_message devs pcap s id op (some p) =
    if op == htons arpop_reply
    then on_reply s p.spa p.sha
    else if op == htons arpop_request
    then (s, on_request devs pcap id p)
    else (s, unknown)
on_message devs pcap s id op none =
    if op == htons arpop_reply || op == htons arpop_request then (s, overread) else (s, unknown)

-- `ARPHandler`, whose payload stands behind the 14 bytes of the frame's header.
unfoldable pub arp_handler : List Device → Bool → Arp → ℕ → List ℕ → Arp × Heard
unfolding op_of sender_of on_message
arp_handler devs pcap s id frame = elim (op_of (drop 14 frame)) [
  | none ↦ (s, overread)
  | some op ↦ on_message devs pcap s id op (sender_of (drop 14 frame))
]
