-- ===== src/Stack.antt =====
-- The whole stack of a host behind `frame_handler` of src/packetio.cc: what an incoming frame does to the
-- layers above.
pub mod Carried
mod Tests
use ns_stack.Base.{
  ℕ, zero, suc, ◌+◌, ◌-◌, ◌*◌, ◌/◌, ◌%◌, ◌^◌, ◌≤◌, ◌<◌, min, ◌≡◌, ◌≢◌, refl, sym, ap, ap₂, subst,
  ◌∙◌, ◌↔◌, ◌⊎◌, inl, inr, Bool, true, false, not, ◌&&◌, ◌||◌, Option, none, some, List, [], ◌∷◌,
  ◌++◌, map, append-nil, append_assoc, arith, ltb, leb, ◌==◌, if◌then◌else◌, Bool-cases, length,
  get_elem?, set, take, drop, replicate, All, length-append, u16_mod, u32_mod, add16, add32, ==_iff,
}
use ns_stack.Segment.{Segment}
use ns_stack.Device.{Device}
use ns_stack.Frame.{Upper, frame_handler}
use ns_stack.Routing.{RoutingEntry, Sorting}
use ns_stack.Routing.Update.{RoutingState, distance_upd_handler}
use ns_stack.Arp.{Arp, Heard, replied, arp_handler}
use ns_stack.Ip.{Host, Sent, Handled, delivered, forwarded, ip_packet_handler}
use ns_stack.Tcp.{Config, Env}
use ns_stack.Socket.{World, Call}
use ns_stack.Socket.Hear.{hear}

-- The state of the layers.
pub record Stack : Type 0 where
  pub devs : List Device
  pub static : List RoutingEntry
  pub routing : RoutingState
  pub arp : Arp
  pub world : World

-- What is given from outside: sizes and sorting, the clock and the random number of the TCP layer,
-- whether libpcap takes a frame, and what `ARPQuery` answers, which may be after a wait.
pub record Given : Type 0 where
  pub config : Config
  pub sorting : Sorting
  pub env : Env
  pub rand : ℕ
  pub pcap : Bool
  pub resolve : ℕ → ℕ → Option (List ℕ)

-- The state behind a frame, the frames that went out, and the segments given to `ip_send_packet`.
pub record Reaction : Type 0 where
  pub stack : Stack
  pub frames : List (List ℕ)
  pub segments : List Segment

abbrev pub host_of : Given → Stack → Host
host_of g st = record {
  sorting = g.sorting;
  devs = st.devs;
  static = st.static;
  dynamic = st.routing.dynamic;
  arp_query = g.resolve;
}

abbrev pub quiet : Stack → Option Reaction
quiet st = some (record { stack = st; frames = []; segments = [] })

unfoldable pub on_distance : Stack → Option (RoutingState × Bool) → Option Reaction
on_distance st none = none
on_distance st (some (r, ok)) = quiet (record st { routing = r })

unfoldable pub on_arp : Stack → Arp × Heard → Option Reaction
on_arp st (a, Heard.overread) = none
on_arp st (a, Heard.crashed) = none
on_arp st (a, replied frame) =
    some (record { stack = record st { arp = a }; frames = frame ∷ []; segments = [] })
on_arp st (a, _) = quiet (record st { arp = a })

abbrev pub on_call : Stack → Option Call → Option Reaction
on_call st none = none
on_call st (some k) =
    some (record { stack = record st { world = k.world }; frames = []; segments = k.sent })

unfoldable pub on_packet : Given → Stack → Handled → Option Reaction
unfolding hear
on_packet g st Handled.crashed = none
on_packet g st Handled.dropped = quiet st
on_packet g st (delivered buf src dst) =
    on_call st (hear g.config g.env g.rand st.world buf src dst)
on_packet g st (forwarded s) = some (record { stack = st; frames = s.frame ∷ []; segments = [] })

-- The layer that a frame is handed to; `none` ends the process.
unfoldable pub on_upper : Given → Stack → ℕ → Upper → Option Reaction
unfolding on_distance on_arp on_packet distance_upd_handler arp_handler ip_packet_handler
on_upper g st id Upper.overread = none
on_upper g st id Upper.nobody = quiet st
on_upper g st id (Upper.distance payload) =
    on_distance st (distance_upd_handler g.sorting st.devs id payload st.routing)
on_upper g st id (Upper.arp frame) = on_arp st (arp_handler st.devs g.pcap st.arp id frame)
on_upper g st id (Upper.ip buf) = on_packet g st (ip_packet_handler (host_of g st) buf)

unfoldable pub on_frame : Given → Stack → ℕ → List ℕ → Option Reaction
unfolding on_upper frame_handler
on_frame g st id frame = on_upper g st id (frame_handler frame)
