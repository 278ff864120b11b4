-- ===== src/Ip/Delivery.antt =====
-- The payload that comes out at the end is the one that `ip_send_packet` was given.
use ns_stack.Base.{
  ℕ, ◌+◌, ◌-◌, ◌*◌, ◌^◌, ◌≤◌, ◌<◌, ◌≡◌, refl, sym, subst, ◌∙◌, inl, inr, true, false, Option, none,
  some, List, arith, ltb, ◌==◌, if◌then◌else◌, Bool-cases, length, take, drop, All, take_whole,
  ==_iff,
}
use ns_stack.Bytes.{htons, htons-htons, htons-lt}
use ns_stack.Device.{Device, device_at}
use ns_stack.Frame.{ether_max_len}
use ns_stack.Checksum.Sum.{IsByte}
use ns_stack.Ip.{
  Packet, Host, Sent, delivered, to_bytes, aged, passes_checks, transmit, handle, route, new_packet,
  ip_send_packet, iphdr_size,
}
use ns_stack.Ip.Header.{InRange, with_checksum-InRange, verify-with_checksum, aged-InRange}
use ns_stack.Ip.Journey.{IsWired, Carries, receive, receive-Carries, transmit-Carries}

-- A packet without options, with the addresses and the payload.
pub record Holds (src dest : ℕ) (buf : List ℕ) (p : Packet) : Type 0 where
  pub in_range : InRange p
  pub ihl_is : p.ihl ≡ 5
  pub from : p.saddr ≡ src
  pub to : p.daddr ≡ dest
  pub payload : p.rest ≡ buf

module _ (src dest : ℕ) (buf : List ℕ) where
  pub Holds-aged : (p : Packet) → Holds src dest buf p → Holds src dest buf (aged p)
  unfolding aged
  Holds-aged p o = record {
    in_range = aged-InRange p o.in_range;
    ihl_is = o.ihl_is;
    from = o.from;
    to = o.to;
    payload = o.payload;
  }

  pub Holds-new_packet :
      (proto : ℕ)
      → src < 2 ^ 32
      → dest < 2 ^ 32
      → proto < 256
      → All IsByte buf
      → Holds src dest buf (new_packet src dest proto buf)
  unfolding new_packet
  Holds-new_packet proto hs hd hp bytes = record {
    in_range = with_checksum-InRange _ (record {
      ihl_in = omega arith;
      version_in = omega arith;
      tos_in = omega arith;
      tot_len_in = htons-lt _;
      id_in = omega arith;
      frag_off_in = omega arith;
      ttl_in = omega arith;
      protocol_in = hp;
      check_in = omega arith;
      saddr_in = hs;
      daddr_in = hd;
      rest_in = bytes;
    });
    ihl_is = refl;
    from = refl;
    to = refl;
    payload = refl;
  }

  behind : (p : Packet) → Holds src dest buf p → drop (p.ihl * 4) (to_bytes p) ≡ buf
  unfolding to_bytes
  behind p o = simp (o.ihl_is, o.payload)

length-to_bytes : (p : Packet) → length (to_bytes p) ≡ 20 + length p.rest
unfolding to_bytes
length-to_bytes p = omega arith

whole :
    (src dest proto : ℕ) (buf : List ℕ)
    → length buf ≤ 65515
    → take
        (htons (new_packet src dest proto buf).tot_len)
        (to_bytes (new_packet src dest proto buf))
      ≡ to_bytes (new_packet src dest proto buf)
unfolding new_packet
whole src dest proto buf h =
    let p : Packet = new_packet src dest proto buf in
    take_whole (htons p.tot_len) (to_bytes p)
      (omega (arith, length-to_bytes p, htons-htons (20 + length buf) (omega (arith, h)), h))

-- The frame that `ip_send_packet` makes carries the whole packet.
pub ip_send_packet-Carries :
    (h : Host) (src dest proto : ℕ) (buf : List ℕ) (s : Sent)
    → IsWired h
    → ip_send_packet h src dest proto buf ≡ some s
    → Carries s.frame (to_bytes (new_packet src dest proto buf))
unfolding ip_send_packet
ip_send_packet-Carries h src dest proto buf s w e = on_route (route h dest).0 refl e
  where
    p : Packet
    p = new_packet src dest proto buf

    on_mac :
        (id : ℕ) (mac : List ℕ)
        → h.arp_query id (route h dest).1 ≡ some mac
        → (if ltb (ether_max_len - iphdr_size) (length buf)
            then none
            else transmit h id mac p (take (htons p.tot_len) (to_bytes p)))
          ≡ some s
        → Carries s.frame (to_bytes p)
    on_mac id mac a e = elim (Bool-cases (ltb (ether_max_len - iphdr_size) (length buf))) [
      | inl big ↦ cc (rw big at e)
      | inr fits ↦
          let short : length buf ≤ 65515 = ground (arith, fits) in
          (transmit-Carries h w id (route h dest).1 mac p (to_bytes p) s a
            (rw (fits, whole src dest proto buf short) at e)).0
    ]

    on_arp :
        (id : ℕ) (o : Option (List ℕ))
        → h.arp_query id (route h dest).1 ≡ o
        → elim o [
          | none ↦ none
          | some mac ↦
              if ltb (ether_max_len - iphdr_size) (length buf)
              then none
              else transmit h id mac p (take (htons p.tot_len) (to_bytes p))
        ]
          ≡ some s
        → Carries s.frame (to_bytes p)
    on_arp id none q e = cc
    on_arp id (some mac) q e = on_mac id mac q e

    on_route :
        (o : Option ℕ)
        → (route h dest).0 ≡ o
        → elim o [
          | none ↦ none
          | some id ↦ elim (h.arp_query id (route h dest).1) [
            | none ↦ none
            | some mac ↦
                if ltb (ether_max_len - iphdr_size) (length buf)
                then none
                else transmit h id mac p (take (htons p.tot_len) (to_bytes p))
          ]
        ]
          ≡ some s
        → Carries s.frame (to_bytes p)
    on_route none q e = cc
    on_route (some id) q e = on_arp id (h.arp_query id (route h dest).1) refl e

passes-new_packet :
    (src dest proto : ℕ) (buf : List ℕ) → passes_checks (new_packet src dest proto buf) ≡ true
unfolding passes_checks new_packet
passes-new_packet src dest proto buf = rw (verify-with_checksum _) refl

-- The device that the host's routes give for the address has the address.
pub record IsFor (h : Host) (dest : ℕ) : Type 0 where
  pub id : ℕ
  pub dev : Device
  pub routed : (route h dest).0 ≡ some id
  pub at : device_at h.devs id ≡ some dev
  pub own : dev.ip ≡ dest

pub up :
    (src dest : ℕ) (buf : List ℕ) (p : Packet)
    → Holds src dest buf p
    → delivered (drop (p.ihl * 4) (to_bytes p)) p.saddr p.daddr ≡ delivered buf src dest
up src dest buf p o = simp (o.from, o.to, behind src dest buf p o)

handle_for :
    (h : Host) (src dest : ℕ) (buf : List ℕ) (p : Packet)
    → IsFor h dest
    → Holds src dest buf p
    → passes_checks p ≡ true
    → handle h p ≡ delivered buf src dest
unfolding handle
handle_for h src dest buf p f o ok =
    let long : ltb (iphdr_size + length p.rest) (p.ihl * 4) ≡ false = ground (arith, o.ihl_is) in
    let routed : (route h p.daddr).0 ≡ some f.id =
      subst (λ x. (route h x).0 ≡ some f.id) (sym o.to) f.routed in
    let mine : f.dev.ip == p.daddr ≡ true = (==_iff _ _).1 (f.own ∙ sym o.to) in
    rw (long, ok, routed, f.at, mine) (up src dest buf p o)

-- The frame that `_ip_send_packet` makes is delivered to the transport layer by the host whose own
-- address it is for, with the payload and the addresses as they were given. The sender's ARP and
-- device tables hold Ethernet addresses; the protocol, the addresses and the payload are in range.
pub receive-ip_send_packet :
    (h r : Host) (src dest proto : ℕ) (buf : List ℕ) (s : Sent)
    → IsWired h
    → IsFor r dest
    → src < 2 ^ 32
    → dest < 2 ^ 32
    → proto < 256
    → All IsByte buf
    → ip_send_packet h src dest proto buf ≡ some s
    → receive r s.frame ≡ delivered buf src dest
receive-ip_send_packet h r src dest proto buf s w f hs hd hp bytes e =
    let o = Holds-new_packet src dest buf proto hs hd hp bytes in
    receive-Carries r s.frame (new_packet src dest proto buf) o.in_range
      (ip_send_packet-Carries h src dest proto buf s w e)
    ∙ handle_for r src dest buf (new_packet src dest proto buf) f o
        (passes-new_packet src dest proto buf)
