-- ===== src/Stack/Carried.antt =====
-- A segment on its way through the layers of two hosts.
use ns_stack.Base.{ℕ, ◌^◌, ◌<◌, ◌≡◌, refl, ap, ◌∙◌, some, List, arith, All}
use ns_stack.Checksum.Sum.{IsByte}
use ns_stack.Segment.{Segment, to_bytes, fill_in_tcp_checksum, ntoh}
use ns_stack.Segment.Wire.{InRange}
use ns_stack.Frame.{Upper, frame_handler}
use ns_stack.Ip.{Host, Sent, Handled, delivered, ip_packet_handler, ip_send_packet}
use ns_stack.Ip.Journey.{IsWired, receive}
use ns_stack.Ip.Delivery.{IsFor, receive-ip_send_packet}
use ns_stack.Tcp.Table.Step.{on_segment}
use ns_stack.Tcp.Table.Arrive.{checked, sent-IsByte, handler-sent}
use ns_stack.Socket.Hear.{heard, hear}
use ns_stack.Stack.{Stack, Given, host_of, on_call, on_packet, on_upper, on_frame}

-- A frame that is delivered, at the layer above.
on_frame-delivered :
    (g : Given) (st : Stack) (id : ℕ) (frame buf : List ℕ) (src dst : ℕ)
    → receive (host_of g st) frame ≡ delivered buf src dst
    → on_frame g st id frame ≡ on_call st (hear g.config g.env g.rand st.world buf src dst)
unfolding on_frame receive
on_frame-delivered g st id frame buf src dst e = go (frame_handler frame) e
  where
    go :
        (u : Upper)
        → elim u as (λ _. Handled) [
          | Upper.ip bytes ↦ ip_packet_handler (host_of g st) bytes
          | _ ↦ Handled.dropped
        ]
          ≡ delivered buf src dst
        → on_upper g st id u ≡ on_call st (hear g.config g.env g.rand st.world buf src dst)
    go Upper.overread e = absurd (cc e)
    go Upper.nobody e = absurd (cc e)
    go (Upper.distance l) e = absurd (cc e)
    go (Upper.arp l) e = absurd (cc e)
    go (Upper.ip bytes) e = rw (on_upper, e, on_packet) refl

-- What a host does with the frame of a segment that another host's connection sent is what its TCP layer
-- does with the segment itself, the header in host byte order, as the sender filled it in, but for the
-- checksum: nothing of it is lost or changed by the checksums, byte orders, IP packet and frame
-- between the two. The host is the one whose address the segment is for, the fields and bytes of the
-- segment are in range, and the sender's ARP and device tables hold Ethernet addresses.
pub on_frame-segment :
    (h : Host) (g : Given) (st : Stack) (id : ℕ) (s t : Segment) (f : Sent)
    → IsWired h
    → IsFor (host_of g st) t.dst
    → InRange s.hdr
    → All IsByte s.payload
    → t.src < 2 ^ 32
    → t.dst < 2 ^ 32
    → fill_in_tcp_checksum (ntoh s) ≡ some t
    → ip_send_packet h t.src t.dst 6 (to_bytes t) ≡ some f
    → on_frame g st id f.frame
      ≡ on_call st (
          heard st.world (on_segment g.config g.env g.rand st.world.tables (checked s t.hdr.check)))
unfolding hear
on_frame-segment h g st id s t f w own v b hs hd filled sent =
    on_frame-delivered g st id f.frame (to_bytes t) t.src t.dst (
      receive-ip_send_packet h (host_of g st) t.src t.dst 6 (to_bytes t) f w own hs hd (omega arith)
        (sent-IsByte s t v filled b) sent)
    ∙ ap (λ x. on_call st (heard st.world x))
        (handler-sent s t v filled g.config g.env g.rand st.world.tables)
