-- ===== src/Ip/Integrity.antt =====
-- What a host delivers at the end of a packet's way is what the sender gave to `_ip_send_packet`.
use ns_stack.Base.{
  ℕ, ◌*◌, ◌^◌, ◌<◌, ◌≡◌, ◌≢◌, refl, sym, ◌∙◌, Bool, true, false, Option, none, some, List, [], ◌∷◌,
  ◌==◌, if◌then◌else◌, drop, All,
}
use ns_stack.Device.{Device, device_at}
use ns_stack.Checksum.Sum.{IsByte}
use ns_stack.Ip.{
  Packet, Host, Sent, Handled, crashed, dropped, delivered, forwarded, to_bytes, aged, transmit,
  forward, handle, route, new_packet, ip_send_packet,
}
use ns_stack.Ip.Journey.{
  IsWired, Carries, receive, receive-Carries, handle-forward, forward-forwarded, past_if,
}
use ns_stack.Ip.Delivery.{Holds, Holds-aged, Holds-new_packet, ip_send_packet-Carries, up}

-- What comes of a frame when each of the hosts gets what the one before it sent on.
unfoldable pub arrive : List Host → List ℕ → Handled
unfolding receive
arrive [] f = dropped
arrive (h ∷ hs) f = elim (receive h f) [ forwarded s ↦ arrive hs s.frame | r ↦ r ]

module _ (l : List ℕ) (a b : ℕ) where
  dropped-delivered : dropped ≢ delivered l a b
  dropped-delivered e = cc

  crashed-delivered : crashed ≢ delivered l a b
  crashed-delivered e = cc

  forwarded-delivered : (s : Sent) → forwarded s ≢ delivered l a b
  forwarded-delivered s e = cc

  forward-delivered : (h : Host) (id hop : ℕ) (p : Packet) → forward h id hop p ≢ delivered l a b
  unfolding forward
  forward-delivered h id hop p e =
      on_arp (h.arp_query id hop) (past_if _ _ _ (delivered l a b) dropped-delivered e)
    where
      onward : List ℕ → Option Sent
      onward mac = transmit h id mac (aged p) (to_bytes (aged p))

      on_sent :
          (o : Option Sent) → elim o [ none ↦ dropped | some t ↦ forwarded t ] ≢ delivered l a b
      on_sent none e = dropped-delivered e
      on_sent (some t) e = forwarded-delivered t e

      on_arp :
          (o : Option (List ℕ))
          → elim o [
            | none ↦ dropped
            | some mac ↦ elim (onward mac) [ none ↦ dropped | some t ↦ forwarded t ]
          ]
            ≢ delivered l a b
      on_arp none e = dropped-delivered e
      on_arp (some mac) e = on_sent (onward mac) e

  if_delivered :
      (t : Bool) (x y : Handled)
      → y ≢ delivered l a b
      → (if t then x else y) ≡ delivered l a b
      → x ≡ delivered l a b
  if_delivered true x y ne e = e
  if_delivered false x y ne e = absurd (ne e)

  handle-delivered :
      (h : Host) (p : Packet)
      → handle h p ≡ delivered l a b
      → delivered (drop (p.ihl * 4) (to_bytes p)) p.saddr p.daddr ≡ delivered l a b
  unfolding handle
  handle-delivered h p e = on_route (route h p.daddr).0 (
      past_if _ _ _ (delivered l a b) dropped-delivered
        (past_if _ _ _ (delivered l a b) crashed-delivered e))
    where
      up_here : Handled
      up_here = delivered (drop (p.ihl * 4) (to_bytes p)) p.saddr p.daddr

      on_device :
          (id : ℕ) (o : Option Device)
          → elim o [
            | none ↦ crashed
            | some d ↦ if d.ip == p.daddr then up_here else forward h id (route h p.daddr).1 p
          ]
            ≡ delivered l a b
          → up_here ≡ delivered l a b
      on_device id none e = absurd (crashed-delivered e)
      on_device id (some d) e = if_delivered _ _ _ (forward-delivered h id (route h p.daddr).1 p) e

      on_route :
          (o : Option ℕ)
          → elim o [
            | none ↦ dropped
            | some id ↦ elim (device_at h.devs id) [
              | none ↦ crashed
              | some d ↦ if d.ip == p.daddr then up_here else forward h id (route h p.daddr).1 p
            ]
          ]
            ≡ delivered l a b
          → up_here ≡ delivered l a b
      on_route none e = absurd (dropped-delivered e)
      on_route (some id) e = on_device id (device_at h.devs id) e

arrive-Holds :
    (hs : List Host) (f : List ℕ) (src dest : ℕ) (buf : List ℕ) (p : Packet) (l : List ℕ) (a b : ℕ)
    → All IsWired hs
    → Holds src dest buf p
    → Carries f (to_bytes p)
    → arrive hs f ≡ delivered l a b
    → delivered l a b ≡ delivered buf src dest
unfolding arrive
arrive-Holds [] f src dest buf p l a b ws o c e = cc
arrive-Holds (h ∷ hs) f src dest buf p l a b ws o c e =
    go (λ g. arrive-Holds hs g src dest buf (aged p) l a b ws.1 (Holds-aged src dest buf p o))
      (receive h f) refl e
  where
    go :
        ((g : List ℕ)
          → Carries g (to_bytes (aged p))
          → arrive hs g ≡ delivered l a b
          → delivered l a b ≡ delivered buf src dest)
        → (r : Handled) → receive h f ≡ r
        → elim r [ forwarded s ↦ arrive hs s.frame | r ↦ r ] ≡ delivered l a b
        → delivered l a b ≡ delivered buf src dest
    go ih crashed q e = cc
    go ih dropped q e = cc
    go ih (delivered l' a' b') q e =
        sym (handle-delivered l a b h p (sym (receive-Carries h f p o.in_range c) ∙ (q ∙ e)))
        ∙ up src dest buf p o
    go ih (forwarded s) q e =
        let (id, hop, k) = handle-forward h p s (sym (receive-Carries h f p o.in_range c) ∙ q) in
        ih s.frame (forward-forwarded h ws.0 id hop p s k).1 e

-- Whichever host a packet reaches after any number of others have sent it on, what that host delivers
-- is the payload and the addresses that the sender gave to `_ip_send_packet`. The ARP and device
-- tables of all hosts hold Ethernet addresses; the protocol, the addresses and the payload are in
-- range.
pub arrive-ip_send_packet :
    (h : Host) (hs : List Host) (src dest proto : ℕ) (buf : List ℕ) (s : Sent) (l : List ℕ)
    (a b : ℕ)
    → IsWired h
    → All IsWired hs
    → src < 2 ^ 32
    → dest < 2 ^ 32
    → proto < 256
    → All IsByte buf
    → ip_send_packet h src dest proto buf ≡ some s
    → arrive hs s.frame ≡ delivered l a b
    → delivered l a b ≡ delivered buf src dest
arrive-ip_send_packet h hs src dest proto buf s l a b w ws bs bd bp bytes e =
    arrive-Holds hs s.frame src dest buf (new_packet src dest proto buf) l a b ws
      (Holds-new_packet src dest buf proto bs bd bp bytes)
      (ip_send_packet-Carries h src dest proto buf s w e)
