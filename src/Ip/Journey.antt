-- ===== src/Ip/Journey.antt =====
-- A packet on its way: from `ip_send_packet` over the wire, through the hosts that forward it, to the
-- host that it is for.
use mathlib.Core.Option.{some-injective}
use ns_stack.Base.{
  ℕ, suc, ◌-◌, ◌*◌, ◌≤◌, ◌≡◌, ◌≢◌, refl, sym, subst, ◌∙◌, inl, inr, Bool, true, false, Option, none,
  some, List, [], ◌∷◌, arith, ◌==◌, if◌then◌else◌, Bool-cases, drop, All,
}
use ns_stack.Frame.{ip, frame_handler, send_frame, ethertype_ip}
use ns_stack.Frame.Wire.{IsMac, frame_handler-send_frame, send_frame-device}
use ns_stack.Device.{Device, device_at}
use ns_stack.Ip.{
  Packet, Host, Sent, Handled, crashed, dropped, delivered, forwarded, to_bytes, aged, transmit,
  forward, handle, route, ip_packet_handler,
}
use ns_stack.Ip.Header.{InRange, of_bytes-to_bytes, aged-InRange}

-- A host that gets a frame, by `frame_handler` and `ip_packet_handler`.
unfoldable pub receive : Host → List ℕ → Handled
receive h f = elim (frame_handler f) [ ip bytes ↦ ip_packet_handler h bytes | _ ↦ dropped ]

-- How often a frame is sent on, when each of the hosts gets what the one before it sent.
unfoldable pub forwards : List Host → List ℕ → ℕ
unfolding receive
forwards [] f = 0
forwards (h ∷ hs) f = elim (receive h f) [ forwarded s ↦ suc (forwards hs s.frame) | _ ↦ 0 ]

-- The addresses that ARP and the device table hold are Ethernet addresses.
pub record IsWired (h : Host) : Type 0 where
  pub arp_mac : (id hop : ℕ) (mac : List ℕ) → h.arp_query id hop ≡ some mac → IsMac mac
  pub dev_mac : (id : ℕ) (d : Device) → device_at h.devs id ≡ some d → IsMac d.mac

-- The frame carries the bytes.
abbrev pub Carries : List ℕ → List ℕ → Type 0
Carries f bytes = frame_handler f ≡ ip bytes

dropped-forwarded : (s : Sent) → dropped ≢ forwarded s
dropped-forwarded s e = cc

crashed-forwarded : (s : Sent) → crashed ≢ forwarded s
crashed-forwarded s e = cc

delivered-forwarded : (l : List ℕ) (a b : ℕ) (s : Sent) → delivered l a b ≢ forwarded s
delivered-forwarded l a b s e = cc

pub past_if : (b : Bool) (x y r : Handled) → x ≢ r → (if b then x else y) ≡ r → y ≡ r
past_if true x y r ne e = absurd (ne e)
past_if false x y r ne e = e

sent :
    (o : Option Sent) (s : Sent)
    → elim o [ none ↦ dropped | some t ↦ forwarded t ] ≡ forwarded s
    → o ≡ some s
sent none s e = absurd (dropped-forwarded s e)
sent (some t) s e = cc

module _ (h : Host) (w : IsWired h) where
  pub transmit-Carries :
      (id hop : ℕ) (mac : List ℕ) (p : Packet) (bytes : List ℕ) (s : Sent)
      → h.arp_query id hop ≡ some mac
      → transmit h id mac p bytes ≡ some s
      → Carries s.frame bytes × (s.packet ≡ p)
  unfolding transmit
  transmit-Carries id hop mac p bytes s a e = go (send_frame h.devs bytes ethertype_ip mac id) refl
    where
      go :
          (o : Option (List ℕ))
          → send_frame h.devs bytes ethertype_ip mac id ≡ o
          → Carries s.frame bytes × (s.packet ≡ p)
      go none q = cc (rw (transmit, q) at e)
      go (some f) q =
          let (d, at) = send_frame-device h.devs bytes ethertype_ip mac id f q in
          let s_is : record { device = id; frame = f; packet = p } ≡ s =
            some-injective _ _ (rw (transmit, q) at e) in
          let up : Carries f bytes =
            frame_handler-send_frame h.devs bytes ethertype_ip mac id d f (w.arp_mac id hop mac a)
              at (w.dev_mac id d at) (omega arith) q in
          subst (λ t. Carries t.frame bytes × (t.packet ≡ p)) s_is (up, refl)

  -- What a host sends on is the packet, one hop older.
  pub forward-forwarded :
      (id hop : ℕ) (p : Packet) (s : Sent)
      → forward h id hop p ≡ forwarded s
      → (p.ttl - 1 ≢ 0) × Carries s.frame (to_bytes (aged p)) × (s.packet ≡ aged p)
  unfolding forward
  forward-forwarded id hop p s e = elim (Bool-cases (p.ttl - 1 == 0)) [
    | inl old ↦ absurd (dropped-forwarded s (rw old at e))
    | inr young ↦
        let r = go (h.arp_query id hop) refl (rw young at e) in
        (λ z. ground (arith, young, z), r.0, r.1)
  ]
    where
      onward : List ℕ → Option Sent
      onward mac = transmit h id mac (aged p) (to_bytes (aged p))

      go :
          (o : Option (List ℕ))
          → h.arp_query id hop ≡ o
          → elim o [
            | none ↦ dropped
            | some mac ↦ elim (onward mac) [ none ↦ dropped | some t ↦ forwarded t ]
          ]
            ≡ forwarded s
          → Carries s.frame (to_bytes (aged p)) × (s.packet ≡ aged p)
      go none q r = absurd (dropped-forwarded s r)
      go (some mac) q r =
          transmit-Carries id hop mac (aged p) (to_bytes (aged p)) s q (sent (onward mac) s r)

-- `handle` without its tests.
pub handle-forward :
    (h : Host) (p : Packet) (s : Sent)
    → handle h p ≡ forwarded s
    → (id : ℕ) × (hop : ℕ) × (forward h id hop p ≡ forwarded s)
unfolding handle
handle-forward h p s e =
    let routed =
      past_if _ _ _ (forwarded s) (dropped-forwarded s)
        (past_if _ _ _ (forwarded s) (crashed-forwarded s) e) in
    on_route (route h p.daddr).0 refl routed
  where
    on_device :
        (id : ℕ) (o : Option Device)
        → elim o [
          | none ↦ crashed
          | some d ↦
              if d.ip == p.daddr
              then delivered (drop (p.ihl * 4) (to_bytes p)) p.saddr p.daddr
              else forward h id (route h p.daddr).1 p
        ]
          ≡ forwarded s
        → forward h id (route h p.daddr).1 p ≡ forwarded s
    on_device id none e = absurd (crashed-forwarded s e)
    on_device id (some d) e =
        past_if _ _ _ (forwarded s)
          (delivered-forwarded (drop (p.ihl * 4) (to_bytes p)) p.saddr p.daddr s) e

    on_route :
        (o : Option ℕ)
        → (route h p.daddr).0 ≡ o
        → elim o [
          | none ↦ dropped
          | some id ↦ elim (device_at h.devs id) [
            | none ↦ crashed
            | some d ↦
                if d.ip == p.daddr
                then delivered (drop (p.ihl * 4) (to_bytes p)) p.saddr p.daddr
                else forward h id (route h p.daddr).1 p
          ]
        ]
          ≡ forwarded s
        → (id : ℕ) × (hop : ℕ) × (forward h id hop p ≡ forwarded s)
    on_route none q e = absurd (dropped-forwarded s e)
    on_route (some id) q e = (id, (route h p.daddr).1, on_device id (device_at h.devs id) e)

aged-ttl : (p : Packet) → (aged p).ttl ≡ p.ttl - 1
unfolding aged
aged-ttl p = refl

pub receive-Carries :
    (h : Host) (f : List ℕ) (p : Packet)
    → InRange p
    → Carries f (to_bytes p)
    → receive h f ≡ handle h p
unfolding receive ip_packet_handler
receive-Carries h f p v c = rw (receive, c, ip_packet_handler, of_bytes-to_bytes p v) refl

-- A packet is sent on at most as often as its TTL says, less one, whatever the routing tables of the
-- hosts are: also round a loop of routes it comes to an end. The hosts' ARP and device tables hold
-- Ethernet addresses, and the frame carries a packet whose header's fields are in range.
pub forwards-le :
    (hs : List Host) (f : List ℕ) (p : Packet)
    → All IsWired hs
    → InRange p
    → Carries f (to_bytes p)
    → forwards hs f ≤ p.ttl - 1
unfolding forwards
forwards-le [] f p ws v c = omega arith
forwards-le (h ∷ hs) f p ws v c =
    go (λ g. forwards-le hs g (aged p) ws.1 (aged-InRange p v)) (receive h f) refl
  where
    go :
        ((g : List ℕ) → Carries g (to_bytes (aged p)) → forwards hs g ≤ (aged p).ttl - 1)
        → (r : Handled) → receive h f ≡ r
        → elim r [ forwarded s ↦ suc (forwards hs s.frame) | _ ↦ 0 ] ≤ p.ttl - 1
    go ih crashed q = omega arith
    go ih dropped q = omega arith
    go ih (delivered l a b) q = omega arith
    go ih (forwarded s) q =
        let (id, hop, e) = handle-forward h p s (sym (receive-Carries h f p v c) ∙ q) in
        let (young, g, same) = forward-forwarded h ws.0 id hop p s e in
        omega (arith, young, ih s.frame g, aged-ttl p)
