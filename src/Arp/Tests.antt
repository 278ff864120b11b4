-- ===== src/Arp/Tests.antt =====
-- Two hosts on a wire that ask for each other's addresses, and the theorems on ARP at them.
use ns_stack.Base.{ℕ, ◌≡◌, refl, ◌↔◌, true, some, List, [], ◌∷◌}
use ns_stack.Bytes.{htons}
use ns_stack.Device.{Device, device_at, is_valid_id}
use ns_stack.Frame.{frame_bytes, send_frame, ethertype_arp, broadcast}
use ns_stack.Frame.Wire.{six}
use ns_stack.Ip.Sample.{mac_a, mac_b, dev_a, dev_b, dev_mac_of}
use ns_stack.Arp.{
  answered, to_bytes, message, request, reply, ask, arp_query, requesting, request_frame, wait_over,
}
use ns_stack.Arp.Threads.{Event, query, over, recv, start, run, first_reply}
use ns_stack.Arp.First.{arp_query-First}
use ns_stack.Arp.Fits.{IsSound}
use ns_stack.Arp.Waits.{run-IsSound}
use ns_stack.Arp.Exchange.{sender}
use ns_stack.Arp.Talk.{Resolves, arp_query-Resolves}

-- The frame of a reply that says that the address is at the device.
abbrev reply_frame : Device → List ℕ
reply_frame d =
    frame_bytes mac_a d.mac ethertype_arp (to_bytes (reply d (sender (request dev_a d.ip))))

abbrev forged : Device
forged = record { name = "veth9"; mac = 9 ∷ 9 ∷ 9 ∷ 9 ∷ 9 ∷ 9 ∷ []; ip = 33554442; mask = 255 }

-- A request, the reply, a second one with another address, and the end of the wait.
abbrev heard : List Event
heard =
    query 0 33554442 true
    ∷ recv 0 (reply_frame dev_b) true
    ∷ recv 0 (reply_frame forged) true
    ∷ over 0
    ∷ []

arp_query-First_example :
    (((arp_query (dev_a ∷ []) true (run (dev_a ∷ []) start heard).arp 0 33554442).1
        ≡ answered mac_b)
      ↔ (first_reply 33554442 heard ≡ some mac_b))
    × ((wait_over (run (dev_a ∷ []) start heard).arp 33554442 true).1 ≡ first_reply 33554442 heard)
arp_query-First_example = arp_query-First (dev_a ∷ []) heard true 0 33554442 true mac_b

first_reply_heard : first_reply 33554442 heard ≡ some mac_b
unfolding first_reply frame_bytes to_bytes reply message request htons
first_reply_heard = refl

run-IsSound_example :
    IsSound (run (dev_a ∷ []) start heard).arp (run (dev_a ∷ []) start heard).waiters
run-IsSound_example = run-IsSound (dev_a ∷ []) heard

abbrev request_of_a : List ℕ
request_of_a = frame_bytes broadcast mac_a ethertype_arp (to_bytes (request dev_a 33554442))

arp_query-Resolves_example :
    Resolves (dev_a ∷ []) (dev_b ∷ []) start start.arp 0 0 33554442 0 request_of_a mac_b
unfolding device_at is_valid_id arp_query ask requesting request_frame send_frame start
arp_query-Resolves_example =
    arp_query-Resolves (dev_a ∷ []) (dev_b ∷ []) start start.arp 0 0 33554442 0 request_of_a dev_b
      (dev_mac_of dev_a (six 2 0 0 0 0 1) 0) refl (six 2 0 0 0 0 2) refl refl
