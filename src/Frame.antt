-- ===== src/Frame.antt =====
-- src/packetio.cc: the frame that `send_frame` gives to libpcap, and the choice of the upper layer by
-- `frame_handler`. The constants are those of <netinet/ether.h>.
pub mod Wire
use ns_stack.Base.{
  ℕ, zero, suc, ◌+◌, ◌-◌, ◌*◌, ◌/◌, ◌%◌, ◌^◌, ◌≤◌, ◌<◌, min, ◌≡◌, ◌≢◌, refl, sym, ap, ap₂, subst,
  ◌∙◌, ◌↔◌, ◌⊎◌, inl, inr, Bool, true, false, not, ◌&&◌, ◌||◌, Option, none, some, List, [], ◌∷◌,
  ◌++◌, map, append-nil, append_assoc, arith, ltb, leb, ◌==◌, if◌then◌else◌, Bool-cases, length,
  get_elem?, set, take, drop, replicate, All, length-append, u16_mod, u32_mod, add16, add32, ==_iff,
}
use ns_stack.Bytes.{bytes16, word16, htons}
use ns_stack.Device.{Device, device_at}

abbrev pub ether_max_len : ℕ
ether_max_len = 1518

abbrev pub ethertype_ip : ℕ
ethertype_ip = 0x0800

abbrev pub ethertype_arp : ℕ
ethertype_arp = 0x0806

-- `kRoutingProtocolCode`
abbrev pub routing_protocol_code : ℕ
routing_protocol_code = 0x1234

abbrev pub broadcast : List ℕ
broadcast = 255 ∷ 255 ∷ 255 ∷ 255 ∷ 255 ∷ 255 ∷ []

-- The frame: the addresses, the type, the payload, and four bytes for a CRC that is not computed.
unfoldable pub frame_bytes : List ℕ → List ℕ → ℕ → List ℕ → List ℕ
frame_bytes dest source ethtype payload =
    dest ++ (source ++ (bytes16 (htons ethtype) ++ (payload ++ (0 ∷ 0 ∷ 0 ∷ 0 ∷ []))))

-- `send_frame` up to `pcap_sendpacket`, whose failure is a -1 too; `none` is -1 before it.
unfoldable pub send_frame : List Device → List ℕ → ℕ → List ℕ → ℕ → Option (List ℕ)
send_frame devs payload ethtype dest id =
    if ltb ether_max_len (14 + length payload + 4) then none else elim (device_at devs id) [
      | none ↦ none
      | some d ↦ some (frame_bytes dest d.mac ethtype payload)
    ]

-- What a frame is handed to, with the bytes that it gets: `ARPHandler` gets the frame whole. The tests of `frame_handler` exclude one
-- another. A frame that is shorter than its header is read past its end.
pub data Upper : Type 0 where
  overread nobody : Upper
  distance arp ip : List ℕ → Upper

unfoldable pub frame_handler : List ℕ → Upper
frame_handler (d0 ∷ d1 ∷ d2 ∷ d3 ∷ d4 ∷ d5 ∷ s0 ∷ s1 ∷ s2 ∷ s3 ∷ s4 ∷ s5 ∷ t0 ∷ t1 ∷ rest) =
    let ethtype : ℕ = htons (word16 t0 t1) in
    if ethtype == routing_protocol_code
    then distance rest
    else if ethtype == ethertype_arp
    then arp (d0 ∷ d1 ∷ d2 ∷ d3 ∷ d4 ∷ d5 ∷ s0 ∷ s1 ∷ s2 ∷ s3 ∷ s4 ∷ s5 ∷ t0 ∷ t1 ∷ rest)
    else if ethtype == ethertype_ip
    then ip (take (length rest - 4) rest)
    else nobody
frame_handler _ = overread
