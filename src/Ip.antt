-- ===== src/Ip.antt =====
-- src/pnx_ip.cc: the header of an IP packet, its checks, `_ip_send_packet` and `ip_packet_handler`.
-- What `ARPQuery` gives is a function of the device and the address, and no frame is refused by
-- libpcap.
pub mod Header
pub mod Journey
pub mod Delivery
pub mod Integrity
pub mod Queue
pub mod Sample
mod Tests
use ns_stack.Base.{
  ℕ, zero, suc, ◌+◌, ◌-◌, ◌*◌, ◌/◌, ◌%◌, ◌^◌, ◌≤◌, ◌<◌, min, ◌≡◌, ◌≢◌, refl, sym, ap, ap₂, subst,
  ◌∙◌, ◌↔◌, ◌⊎◌, inl, inr, Bool, true, false, not, ◌&&◌, ◌||◌, Option, none, some, List, [], ◌∷◌,
  ◌++◌, map, append-nil, append_assoc, arith, ltb, leb, ◌==◌, if◌then◌else◌, Bool-cases, length,
  get_elem?, set, take, drop, replicate, All, length-append, u16_mod, u32_mod, add16, add32, ==_iff,
}
use ns_stack.Bytes.{bytes16, bytes32, word16, word32, htons}
use ns_stack.Checksum.{add_words, fold, complement}
use ns_stack.Routing.{RoutingEntry, Sorting, get_next_hop}
use ns_stack.Device.{Device, device_at}
use ns_stack.Frame.{ethertype_ip, ether_max_len, send_frame}

-- `struct iphdr` as it stands in memory, with the bytes behind it.
pub record Packet : Type 0 where
  pub ihl : ℕ
  pub version : ℕ
  pub tos : ℕ
  pub tot_len : ℕ
  pub id : ℕ
  pub frag_off : ℕ
  pub ttl : ℕ
  pub protocol : ℕ
  pub check : ℕ
  pub saddr : ℕ
  pub daddr : ℕ
  pub rest : List ℕ

abbrev pub iphdr_size : ℕ
iphdr_size = 20

unfoldable pub to_bytes : Packet → List ℕ
to_bytes p =
    (p.ihl + 16 * p.version)
    ∷ p.tos
    ∷ (bytes16 p.tot_len
        ++ (bytes16 p.id
            ++ (bytes16 p.frag_off
                ++ (p.ttl
                    ∷ p.protocol
                    ∷ (bytes16 p.check ++ (bytes32 p.saddr ++ (bytes32 p.daddr ++ p.rest)))))))

-- The overlay on a buffer; `none` is a buffer without room for a header, which is read past its end.
unfoldable pub of_bytes : List ℕ → Option Packet
of_bytes
      (v ∷ tos ∷ l0 ∷ l1 ∷ i0 ∷ i1 ∷ f0 ∷ f1 ∷ ttl ∷ proto ∷ c0 ∷ c1 ∷ s0 ∷ s1 ∷ s2 ∷ s3 ∷ d0 ∷ d1
        ∷ d2 ∷ d3 ∷ rest) =
    some (record {
      ihl = v % 16;
      version = v / 16;
      tos = tos;
      tot_len = word16 l0 l1;
      id = word16 i0 i1;
      frag_off = word16 f0 f1;
      ttl = ttl;
      protocol = proto;
      check = word16 c0 c1;
      saddr = word32 s0 s1 s2 s3;
      daddr = word32 d0 d1 d2 d3;
      rest = rest;
    })
of_bytes _ = none

-- The bytes that the header says it has, with the checksum field as 0.
abbrev pub summed : Packet → List ℕ
summed p = take (p.ihl * 4) (to_bytes (record p { check = 0 }))

unfoldable pub calc_iphd_checksum : Packet → ℕ
calc_iphd_checksum p = complement (fold (add_words 0 (summed p)))

unfoldable pub verify_iphd_checksum : Packet → Bool
unfolding calc_iphd_checksum
verify_iphd_checksum p = p.check == calc_iphd_checksum p

abbrev pub with_checksum : Packet → Packet
with_checksum p = record p { check = calc_iphd_checksum p }

-- A host as the IP layer sees it.
pub record Host : Type 0 where
  pub sorting : Sorting
  pub devs : List Device
  pub static : List RoutingEntry
  pub dynamic : List RoutingEntry
  pub arp_query : ℕ → ℕ → Option (List ℕ)

abbrev pub route : Host → ℕ → Option ℕ × ℕ
route h dest = get_next_hop h.sorting h.static h.dynamic dest

-- The header that `_ip_send_packet` fills in, with the payload.
unfoldable pub new_packet : ℕ → ℕ → ℕ → List ℕ → Packet
new_packet src dest proto buf = with_checksum (record {
  ihl = 5;
  version = 4;
  tos = 0;
  tot_len = htons (iphdr_size + length buf);
  id = 0;
  frag_off = 0;
  ttl = 64;
  protocol = proto;
  check = 0;
  saddr = src;
  daddr = dest;
  rest = buf;
})

-- The device that a frame goes out on, the frame, and the packet in it. `none` is the result -1.
pub record Sent : Type 0 where
  pub device : ℕ
  pub frame : List ℕ
  pub packet : Packet

unfoldable pub transmit : Host → ℕ → List ℕ → Packet → List ℕ → Option Sent
transmit h id mac p bytes = elim (send_frame h.devs bytes ethertype_ip mac id) [
  | none ↦ none
  | some frame ↦ some (record { device = id; frame = frame; packet = p })
]

-- `_ip_send_packet`
unfoldable pub ip_send_packet : Host → ℕ → ℕ → ℕ → List ℕ → Option Sent
ip_send_packet h src dest proto buf =
    let (dev, hop) = route h dest in
    elim dev [
      | none ↦ none
      | some id ↦ elim (h.arp_query id hop) [
        | none ↦ none
        | some mac ↦
            let p : Packet = new_packet src dest proto buf in
            if ltb (ether_max_len - iphdr_size) (length buf)
            then none
            else transmit h id mac p (take (htons p.tot_len) (to_bytes p))
      ]
    ]

-- How `ip_packet_handler` ends: a read past the end of the packet or of the device table, a packet
-- that is dropped with -1, one that is given to `tcp_segment_handler`, or one that goes on.
pub data Handled : Type 0 where
  crashed dropped : Handled
  delivered : List ℕ → ℕ → ℕ → Handled
  forwarded : Sent → Handled

-- The checks at the beginning.
unfoldable pub passes_checks : Packet → Bool
unfolding verify_iphd_checksum
passes_checks p =
    verify_iphd_checksum p && ((p.version == 4) && (not (ltb p.ihl 5) && not (p.ttl == 0)))

-- The packet as it is sent on.
unfoldable pub aged : Packet → Packet
aged p = with_checksum (record p { ttl = p.ttl - 1 })

unfoldable pub forward : Host → ℕ → ℕ → Packet → Handled
forward h id hop p = if p.ttl - 1 == 0 then dropped else elim (h.arp_query id hop) [
  | none ↦ dropped
  | some mac ↦ elim (transmit h id mac (aged p) (to_bytes (aged p))) [
    | none ↦ dropped
    | some s ↦ forwarded s
  ]
]

unfoldable pub handle : Host → Packet → Handled
handle h p =
    if ltb (iphdr_size + length p.rest) (p.ihl * 4)
    then crashed
    else if not (passes_checks p)
    then dropped
    else (let (dev, hop) = route h p.daddr in
        elim dev [
          | none ↦ dropped
          | some id ↦ elim (device_at h.devs id) [
            | none ↦ crashed
            | some d ↦
                if d.ip == p.daddr
                then delivered (drop (p.ihl * 4) (to_bytes p)) p.saddr p.daddr
                else forward h id hop p
          ]
        ])

unfoldable pub ip_packet_handler : Host → List ℕ → Handled
unfolding handle
ip_packet_handler h bytes = elim (of_bytes bytes) [ none ↦ crashed | some p ↦ handle h p ]
