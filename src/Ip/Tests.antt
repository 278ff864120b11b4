-- ===== src/Ip/Tests.antt =====
-- The theorems on frames and packets, at two hosts on a wire.
use ns_stack.Base.{ℕ, ◌≤◌, ◌≡◌, refl, some, List, [], ◌∷◌, arith, take}
use ns_stack.Bytes.{htons}
use ns_stack.Routing.{get_next_hop, first_match, subnet_match}
use ns_stack.Checksum.{add_words, fold}
use ns_stack.Device.{device_at, is_valid_id}
use ns_stack.Frame.{ethertype_ip, frame_bytes, send_frame}
use ns_stack.Frame.Wire.{six, frame_handler-send_frame}
use ns_stack.Ip.{
  Packet, Sent, delivered, to_bytes, with_checksum, calc_iphd_checksum, new_packet, ip_send_packet,
  transmit,
}
use ns_stack.Ip.Sample.{
  mac_a, mac_b, dev_a, host_a, host_b, host_a-IsWired, host_b-IsWired, host_b-IsFor,
}
use ns_stack.Ip.Header.{InRange, sum_checks}
use ns_stack.Ip.Queue.{Task, call, round, idle, run, InOrder, run-InOrder}
use ns_stack.Ip.Journey.{Carries, receive, forwards, forwards-le}
use ns_stack.Ip.Delivery.{Holds-new_packet, receive-ip_send_packet}
use ns_stack.Ip.Integrity.{arrive, arrive-ip_send_packet}

-- A packet with one option word.
abbrev with_option : Packet
with_option = record {
  ihl = 6;
  version = 4;
  tos = 0;
  tot_len = 6656;
  id = 1;
  frag_off = 0;
  ttl = 9;
  protocol = 6;
  check = 0;
  saddr = 16777226;
  daddr = 33554442;
  rest = 1 ∷ 1 ∷ 1 ∷ 0 ∷ 7 ∷ 8 ∷ [];
}

with_option-InRange : InRange with_option
with_option-InRange = record {
  ihl_in = omega arith;
  version_in = omega arith;
  tos_in = omega arith;
  tot_len_in = omega arith;
  id_in = omega arith;
  frag_off_in = omega arith;
  ttl_in = omega arith;
  protocol_in = omega arith;
  check_in = omega arith;
  saddr_in = omega arith;
  daddr_in = omega arith;
  rest_in =
      (omega arith, (omega arith, (omega arith, (omega arith, (omega arith, (omega arith, tt))))));
}

sum_checks_example : fold (add_words 0 (take 24 (to_bytes (with_checksum with_option)))) ≡ 65535
sum_checks_example = sum_checks with_option with_option-InRange (omega arith)

abbrev packet : Packet
packet = new_packet 16777226 33554442 6 (7 ∷ 8 ∷ [])

abbrev sent_packet : Sent
sent_packet = record {
  device = 0;
  frame = frame_bytes mac_b mac_a ethertype_ip (to_bytes packet);
  packet = packet;
}

sent_it : ip_send_packet host_a 16777226 33554442 6 (7 ∷ 8 ∷ []) ≡ some sent_packet
unfolding ip_send_packet transmit send_frame device_at is_valid_id get_next_hop first_match
    subnet_match new_packet to_bytes htons calc_iphd_checksum
sent_it = refl

received : arrive (host_b ∷ []) sent_packet.frame ≡ delivered (7 ∷ 8 ∷ []) 16777226 33554442
unfolding arrive
received =
    let r : receive host_b sent_packet.frame ≡ delivered (7 ∷ 8 ∷ []) 16777226 33554442 =
      receive-ip_send_packet host_a host_b 16777226 33554442 6 (7 ∷ 8 ∷ []) sent_packet
        host_a-IsWired host_b-IsFor (omega arith) (omega arith) (omega arith)
        (omega arith, (omega arith, tt)) sent_it in
    rw (arrive, r) refl

receive-ip_send_packet_example :
    receive host_b sent_packet.frame ≡ delivered (7 ∷ 8 ∷ []) 16777226 33554442
receive-ip_send_packet_example =
    receive-ip_send_packet host_a host_b 16777226 33554442 6 (7 ∷ 8 ∷ []) sent_packet host_a-IsWired
      host_b-IsFor (omega arith) (omega arith) (omega arith) (omega arith, (omega arith, tt))
      sent_it

arrive-ip_send_packet_example :
    delivered (7 ∷ 8 ∷ []) 16777226 33554442 ≡ delivered (7 ∷ 8 ∷ []) 16777226 33554442
arrive-ip_send_packet_example =
    arrive-ip_send_packet host_a (host_b ∷ []) 16777226 33554442 6 (7 ∷ 8 ∷ []) sent_packet
      (7 ∷ 8 ∷ []) 16777226 33554442 host_a-IsWired (host_b-IsWired, tt) (omega arith) (omega arith)
      (omega arith) (omega arith, (omega arith, tt)) sent_it received

-- A packet to an address that nobody has goes round between the two.
abbrev lost : Packet
lost = new_packet 16777226 50331658 6 []

lost_frame : List ℕ
lost_frame = frame_bytes mac_b mac_a ethertype_ip (to_bytes lost)

lost_frame-Carries : Carries lost_frame (to_bytes lost)
unfolding lost_frame device_at is_valid_id send_frame to_bytes new_packet
lost_frame-Carries =
    frame_handler-send_frame (dev_a ∷ []) (to_bytes lost) ethertype_ip mac_b 0 dev_a lost_frame
      (six 2 0 0 0 0 2) refl (six 2 0 0 0 0 1) (omega arith) refl

forwards-le_example : forwards (host_b ∷ host_a ∷ host_b ∷ []) lost_frame ≤ 63
unfolding new_packet
forwards-le_example =
    forwards-le (host_b ∷ host_a ∷ host_b ∷ []) lost_frame lost
      (host_b-IsWired, (host_a-IsWired, (host_b-IsWired, tt)))
      (Holds-new_packet 16777226 50331658 [] 6 (omega arith) (omega arith) (omega arith)
        tt).in_range
      lost_frame-Carries

-- Two packets, of which the thread has sent one.
abbrev to_send : Task
to_send = record { src = 16777226; dest = 33554442; proto = 6; buf = 7 ∷ 8 ∷ [] }

run-InOrder_example :
    InOrder (run idle (call to_send ∷ call (record to_send { buf = [] }) ∷ round host_a ∷ []))
run-InOrder_example =
    run-InOrder (call to_send ∷ call (record to_send { buf = [] }) ∷ round host_a ∷ [])
