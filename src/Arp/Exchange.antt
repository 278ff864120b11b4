-- ===== src/Arp/Exchange.antt =====
-- Requests and replies in frames, on both ends of a wire.
use ns_stack.Base.{
  ℕ, ◌≡◌, refl, sym, ap, subst, ◌∙◌, Bool, true, Option, none, some, List, [], ◌∷◌, ◌++◌, arith,
  ◌==◌, length, drop, lookup,
}
use ns_stack.Device.{Device, device_at}
use ns_stack.Frame.{Upper, frame_bytes, frame_handler, send_frame, ethertype_arp}
use ns_stack.Frame.Wire.{can_send as sends, IsMac, six, sent_frame, frame_handler-send_frame}
use ns_stack.Arp.{
  Arp, EtherArp, Asked, answered, joined, requested, replied, notified, claimed, op_of, sender_of,
  ArpSender, to_bytes, message, reply, requesting, request_frame, add_request, ask, arp_query,
  on_reply, on_request, on_message, arp_handler, arpop_reply, arpop_request,
}
use ns_stack.Arp.Wire.{read-to_bytes}
use ns_stack.Bytes.{htons}

length-to_bytes : (p : EtherArp) → IsMac p.sha → IsMac p.tha → length (to_bytes p) ≡ 28
unfolding to_bytes
length-to_bytes p s t = go p.sha p.tha s t
  where
    go :
        (sha tha : List ℕ)
        → IsMac sha
        → IsMac tha
        → length (to_bytes (record p { sha = sha; tha = tha })) ≡ 28
    go sha tha (six a b c d e f) (six g h i j k l) = refl

behind :
    (dest source : List ℕ) (payload : List ℕ)
    → IsMac dest
    → IsMac source
    → drop 14 (frame_bytes dest source ethertype_arp payload) ≡ payload ++ (0 ∷ 0 ∷ 0 ∷ 0 ∷ [])
unfolding frame_bytes
behind dest source payload (six a b c d e f) (six g h i j k l) = refl

abbrev pub sender : EtherArp → ArpSender
sender p = record { sha = p.sha; spa = p.spa }

-- What the handler reads of a frame.
abbrev pub Reads : List ℕ → ℕ → ArpSender → Type 0
Reads frame op p = (op_of (drop 14 frame) ≡ some op) × (sender_of (drop 14 frame) ≡ some p)

-- A message in a frame: who gets the frame hands it to `ARPHandler`, which reads the message.
module _ (devs : List Device) (p : EtherArp) (dest : List ℕ) (id : ℕ) (d : Device) (m : IsMac dest)
    (at : device_at devs id ≡ some d) (dm : IsMac d.mac) (sm : IsMac p.sha) (tm : IsMac p.tha) where
  pub handed_over :
      (frame : List ℕ)
      → send_frame devs (to_bytes p) ethertype_arp dest id ≡ some frame
      → (frame_handler frame ≡ Upper.arp frame) × Reads frame p.op (sender p)
  handed_over frame e = (
    frame_handler-send_frame devs (to_bytes p) ethertype_arp dest id d frame m at dm (omega arith)
        e,
    subst (λ x. Reads x p.op (sender p))
        (sym (sent_frame devs (to_bytes p) ethertype_arp dest id d frame at e))
        (subst (λ x. (op_of x ≡ some p.op) × (sender_of x ≡ some (sender p)))
          (sym (behind dest d.mac (to_bytes p) m dm)) (read-to_bytes p (0 ∷ 0 ∷ 0 ∷ 0 ∷ []) sm tm)),
  )

  pub can_send :
      send_frame devs (to_bytes p) ethertype_arp dest id
      ≡ some (frame_bytes dest d.mac ethertype_arp (to_bytes p))
  can_send =
      sends devs (to_bytes p) ethertype_arp dest id d at (omega (arith, length-to_bytes p sm tm))

-- What `ARPQuery` has done when it waits for a request of its own.
pub record Requested (devs : List Device) (s t : Arp) (id ip cv : ℕ) (frame : List ℕ) : Type 0 where
  pub dev : Device
  pub at : device_at devs id ≡ some dev
  pub sent : request_frame devs true id dev ip ≡ some frame
  pub unseen : lookup ◌==◌ ip s.cache ≡ none
  pub recorded : t ≡ add_request ip s
  pub number : s.next_cv ≡ cv

requested_parts : (n cv : ℕ) (f g : List ℕ) → requested n f ≡ requested cv g → (n ≡ cv) × (f ≡ g)
requested_parts n cv f g e = ((cc e), (cc e))

module _ (devs : List Device) (s : Arp) (id ip cv : ℕ) (frame : List ℕ) where
  asked-Requested :
      lookup ◌==◌ ip s.cache ≡ none
      → (o : Option Device) → device_at devs id ≡ o
      → (ask devs true s id ip o).1 ≡ requested cv frame
      → Requested devs s (ask devs true s id ip o).0 id ip cv frame
  unfolding ask requesting
  asked-Requested p none q e = absurd (cc e)
  asked-Requested p (some d) q e = go (request_frame devs true id d ip) refl e
    where
      go :
          (o : Option (List ℕ))
          → request_frame devs true id d ip ≡ o
          → (requesting s ip o).1 ≡ requested cv frame
          → Requested devs s (requesting s ip o).0 id ip cv frame
      go none r e = absurd (cc e)
      go (some f) r e =
          let k = requested_parts s.next_cv cv f frame e in
          record {
            dev = d;
            at = q;
            sent = r ∙ ap some k.1;
            unseen = p;
            recorded = refl;
            number = k.0;
          }

  pub arp_query-Requested :
      (arp_query devs true s id ip).1 ≡ requested cv frame
      → Requested devs s (arp_query devs true s id ip).0 id ip cv frame
  unfolding arp_query
  arp_query-Requested e = go (lookup ◌==◌ ip s.cache) refl (lookup ◌==◌ ip s.outstanding) e
    where
      go :
          (a : Option (List ℕ))
          → lookup ◌==◌ ip s.cache ≡ a
          → (b : Option ℕ)
          → let r : Arp × Asked = elim a as (λ _. Arp × Asked) [
            | some mac ↦ (s, answered mac)
            | none ↦ elim b as (λ _. Arp × Asked) [
              | some cv ↦ (s, joined cv)
              | none ↦ ask devs true s id ip (device_at devs id)
            ]
          ] in
            r.1 ≡ requested cv frame → Requested devs s r.0 id ip cv frame
      go (some mac) p b e = absurd (cc e)
      go none p (some v) e = absurd (cc e)
      go none p none e = asked-Requested p (device_at devs id) refl e

pub heard_request :
    (devs : List Device) (t : Arp) (id : ℕ) (d : Device) (p : ArpSender) (frame : List ℕ)
    → device_at devs id ≡ some d
    → IsMac d.mac
    → IsMac p.sha
    → Reads frame (htons arpop_request) p
    → arp_handler devs true t id frame
      ≡ (t, replied (frame_bytes p.sha d.mac ethertype_arp (to_bytes (reply d p))))
unfolding arp_handler on_message on_request reply message htons
heard_request devs t id d p frame at dm sm e =
    let sent : send_frame devs (to_bytes (reply d p)) ethertype_arp p.sha id
        ≡ some (frame_bytes p.sha d.mac ethertype_arp (to_bytes (reply d p))) =
      can_send devs (reply d p) p.sha id d sm at dm dm sm in
    rw (arp_handler, e.0, e.1, on_message, on_request, at, sent) refl

pub heard_reply :
    (devs : List Device) (pcap : Bool) (t : Arp) (id ip cv : ℕ) (p : ArpSender) (frame : List ℕ)
    → p.spa ≡ ip
    → Reads frame (htons arpop_reply) p
    → lookup ◌==◌ ip t.outstanding ≡ some cv
    → (arp_handler devs pcap t id frame).1 ≡ notified cv
unfolding arp_handler on_message on_reply claimed htons
heard_reply devs pcap t id ip cv p frame from e o =
    rw (arp_handler, e.0, e.1, on_message, on_reply, from, o) refl
