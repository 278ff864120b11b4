-- ===== src/Stack/Tests.antt =====
-- A SYN from one host to a server on the other, and the theorem on the whole stack at it.
use ns_stack.Base.{◌≡◌, refl, true, Option, none, some, [], arith}
use ns_stack.Bytes.{htons}
use ns_stack.Segment.{Segment, zero_hdr, to_bytes, fill_in_tcp_checksum, ntoh}
use ns_stack.Segment.Wire.{InRange}
use ns_stack.Ip.{Sent, ip_send_packet}
use ns_stack.Ip.Sample.{host_a, host_b, host_a-IsWired, host_b-IsFor}
use ns_stack.Tcp.{constants}
use ns_stack.Tcp.Table.Reach.{no_tables}
use ns_stack.Tcp.Table.Step.{on_segment}
use ns_stack.Tcp.Table.Arrive.{checked}
use ns_stack.Socket.Hear.{heard}
use ns_stack.Stack.{Stack, Given, on_call, on_frame}
use ns_stack.Stack.Carried.{on_frame-segment}

abbrev given : Given
given = record {
  config = constants;
  sorting = host_b.sorting;
  env = record { now = 5; sends = true };
  rand = 12345;
  pcap = true;
  resolve = host_b.arp_query;
}

abbrev stack_b : Stack
stack_b = record {
  devs = host_b.devs;
  static = host_b.static;
  routing = record { vec = []; dynamic = [] };
  arp = record { cache = []; outstanding = []; next_cv = 0 };
  world = record { tables = no_tables; blocks = []; sockets = []; next_fd = 1000 };
}

-- From 10.0.0.1 to port 80 of 10.0.0.2.
abbrev syn : Segment
syn = record {
  hdr = record zero_hdr { source = 90; dest = 80; seq = 201; doff = 5; syn = true };
  payload = [];
  src = 16777226;
  dst = 33554442;
}

syn-InRange : InRange syn.hdr
syn-InRange = record {
  source_in = omega arith;
  dest_in = omega arith;
  seq_in = omega arith;
  ack_seq_in = omega arith;
  res1_in = omega arith;
  doff_in = omega arith;
  res2_in = omega arith;
  window_in = omega arith;
  check_in = omega arith;
  urg_ptr_in = omega arith;
}

sent_syn : Segment
sent_syn = elim (fill_in_tcp_checksum (ntoh syn)) [ none ↦ syn | some t ↦ t ]

filled : fill_in_tcp_checksum (ntoh syn) ≡ some sent_syn
unfolding sent_syn fill_in_tcp_checksum ntoh
filled = refl

packet_of : Option Sent → Sent
packet_of none = record { device = 9; frame = []; packet = ns_stack.Ip.new_packet 0 0 0 [] }
packet_of (some f) = f

sent_frame : Sent
sent_frame = packet_of (ip_send_packet host_a sent_syn.src sent_syn.dst 6 (to_bytes sent_syn))

sent : ip_send_packet host_a sent_syn.src sent_syn.dst 6 (to_bytes sent_syn) ≡ some sent_frame
unfolding sent_frame packet_of sent_syn ip_send_packet ns_stack.Routing.get_next_hop
    ns_stack.Routing.first_match ns_stack.Routing.subnet_match fill_in_tcp_checksum ntoh to_bytes
    ns_stack.Ip.transmit ns_stack.Frame.send_frame htons ns_stack.Ip.new_packet ns_stack.Ip.to_bytes
    ns_stack.Device.device_at
sent = refl

on_frame-segment_example :
    on_frame given stack_b 0 sent_frame.frame
    ≡ on_call stack_b (
        heard stack_b.world (
          on_segment given.config given.env given.rand stack_b.world.tables
            (checked syn sent_syn.hdr.check)))
unfolding sent_syn fill_in_tcp_checksum ntoh
on_frame-segment_example =
    on_frame-segment host_a given stack_b 0 syn sent_syn sent_frame host_a-IsWired host_b-IsFor
      syn-InRange tt (omega arith) (omega arith) filled sent
