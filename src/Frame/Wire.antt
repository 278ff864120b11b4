-- ===== src/Frame/Wire.antt =====
-- A frame from one end of a wire to the other.
use ns_stack.Base.{
  take-append, ℕ, ◌+◌, ◌≤◌, ltb, false, ◌-◌, ◌^◌, ◌<◌, ◌≡◌, ◌≢◌, refl, sym, subst, Option, none,
  some, List, [], ◌∷◌, ◌++◌, arith, ◌==◌, if◌then◌else◌, length, take, length-append,
}
use ns_stack.Bytes.{htons-htons, word16-read}
use ns_stack.Device.{Device, device_at}
use ns_stack.Frame.{
  ether_max_len, Upper, distance, arp, ip, frame_bytes, frame_handler, send_frame, ethertype_ip,
  ethertype_arp, routing_protocol_code,
}

-- A list with the length of an Ethernet address, taken apart.
pub data IsMac : List ℕ → Type 0 where
  six : (a b c d e f : ℕ) → IsMac (a ∷ b ∷ c ∷ d ∷ e ∷ f ∷ [])

without_trailer :
    (l : List ℕ) → take (length (l ++ (0 ∷ 0 ∷ 0 ∷ 0 ∷ [])) - 4) (l ++ (0 ∷ 0 ∷ 0 ∷ 0 ∷ [])) ≡ l
without_trailer l =
    let n : length (l ++ (0 ∷ 0 ∷ 0 ∷ 0 ∷ [])) - 4 ≡ length l =
      omega (arith, length-append l (0 ∷ 0 ∷ 0 ∷ 0 ∷ [])) in
    rw n (take-append l (0 ∷ 0 ∷ 0 ∷ 0 ∷ []))

-- What the receiver of a frame of the type hands up.
abbrev pub handed_up : ℕ → List ℕ → List ℕ → Upper
handed_up t l frame =
    if t == routing_protocol_code
    then distance (l ++ (0 ∷ 0 ∷ 0 ∷ 0 ∷ []))
    else if t == ethertype_arp
    then arp frame
    else if t == ethertype_ip
    then ip l
    else Upper.nobody

read_frame :
    (dest source : List ℕ) (ethtype : ℕ) (payload : List ℕ)
    → IsMac dest
    → IsMac source
    → ethtype < 2 ^ 16
    → frame_handler (frame_bytes dest source ethtype payload)
      ≡ handed_up ethtype payload (frame_bytes dest source ethtype payload)
unfolding frame_handler frame_bytes
read_frame dest source ethtype payload (six a b c d e f) (six g h i j k l) t =
    simp (word16-read, htons-htons ethtype t, without_trailer payload)

pub sent_frame :
    (devs : List Device) (payload : List ℕ) (ethtype : ℕ) (dest : List ℕ) (id : ℕ) (d : Device)
    (frame : List ℕ)
    → device_at devs id ≡ some d
    → send_frame devs payload ethtype dest id ≡ some frame
    → frame ≡ frame_bytes dest d.mac ethtype payload
unfolding send_frame
sent_frame devs payload ethtype dest id d frame at e = ground arith

-- A frame that `send_frame` made is handed to the layer of its type, and to no other: an IP packet as
-- it was, a routing message with the four bytes of the CRC behind it, and ARP with the frame itself.
pub frame_handler-send_frame :
    (devs : List Device) (payload : List ℕ) (ethtype : ℕ) (dest : List ℕ) (id : ℕ) (d : Device)
    (frame : List ℕ)
    → IsMac dest
    → device_at devs id ≡ some d
    → IsMac d.mac
    → ethtype < 2 ^ 16
    → send_frame devs payload ethtype dest id ≡ some frame
    → frame_handler frame ≡ handed_up ethtype payload frame
frame_handler-send_frame devs payload ethtype dest id d frame m at n t e =
    subst (λ x. frame_handler x ≡ handed_up ethtype payload x)
      (sym (sent_frame devs payload ethtype dest id d frame at e))
      (read_frame dest d.mac ethtype payload m n t)

send_frame-none :
    (devs : List Device) (payload : List ℕ) (ethtype : ℕ) (dest : List ℕ) (id : ℕ) (frame : List ℕ)
    → device_at devs id ≡ none
    → send_frame devs payload ethtype dest id ≢ some frame
unfolding send_frame
send_frame-none devs payload ethtype dest id frame q e = ground (arith, q, e)

-- A frame is only made for a device of the table.
pub send_frame-device :
    (devs : List Device) (payload : List ℕ) (ethtype : ℕ) (dest : List ℕ) (id : ℕ) (frame : List ℕ)
    → send_frame devs payload ethtype dest id ≡ some frame
    → (d : Device) × (device_at devs id ≡ some d)
unfolding send_frame
send_frame-device devs payload ethtype dest id frame e = go (device_at devs id) refl
  where
    go : (o : Option Device) → device_at devs id ≡ o → (d : Device) × (device_at devs id ≡ some d)
    go (some d) q = (d, q)
    go none q = absurd (send_frame-none devs payload ethtype dest id frame q e)

-- A payload that has room in a frame is sent by every device of the table.
pub can_send :
    (devs : List Device) (payload : List ℕ) (ethtype : ℕ) (dest : List ℕ) (id : ℕ) (d : Device)
    → device_at devs id ≡ some d
    → length payload ≤ 1500
    → send_frame devs payload ethtype dest id ≡ some (frame_bytes dest d.mac ethtype payload)
unfolding send_frame
can_send devs payload ethtype dest id d at h =
    let room : ltb ether_max_len (14 + length payload + 4) ≡ false = ground (arith, h) in
    rw (room, at) refl
