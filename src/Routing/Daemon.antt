-- ===== src/Routing/Daemon.antt =====
-- The thread of `fire_distance_upd_daemon` of src/routing.cc: one round of its loop, which broadcasts
-- the distance vector and the subnets of the devices on every device.
pub mod Heard
pub mod Network
pub mod Spread
mod Tests
use Prim.Native.Nat.{bit_and}
use ns_stack.Base.{
  ℕ, zero, suc, ◌+◌, ◌-◌, ◌*◌, ◌/◌, ◌%◌, ◌^◌, ◌≤◌, ◌<◌, min, ◌≡◌, ◌≢◌, refl, sym, ap, ap₂, subst,
  ◌∙◌, ◌↔◌, ◌⊎◌, inl, inr, Bool, true, false, not, ◌&&◌, ◌||◌, Option, none, some, List, [], ◌∷◌,
  ◌++◌, map, append-nil, append_assoc, arith, ltb, leb, ◌==◌, if◌then◌else◌, Bool-cases, length,
  get_elem?, set, take, drop, replicate, All, length-append, u16_mod, u32_mod, add16, add32, ==_iff,
}
use ns_stack.Bytes.{bytes32}
use ns_stack.Device.{Device}
use ns_stack.Frame.{broadcast, routing_protocol_code, send_frame}
use ns_stack.Routing.Distance.{DistanceEntry, vec_to_bytes}
use ns_stack.Routing.Update.{Learned}

abbrev pub on_wire : Learned → DistanceEntry
on_wire e = record { ip = e.ip; mask = e.mask; hops = e.hops }

-- The subnet of a device, by the constructor that masks the address.
abbrev pub scope_link : Device → DistanceEntry
scope_link d = record { ip = bit_and d.ip d.mask; mask = d.mask; hops = 0 }

-- What a host tells its neighbours of.
unfoldable pub told : List Device → List Learned → List DistanceEntry
told devs dv = map on_wire dv ++ map scope_link devs

unfoldable pub distance_vec_to_bytes : List Device → List Learned → List ℕ
unfolding told vec_to_bytes
distance_vec_to_bytes devs dv = vec_to_bytes (told devs dv)

-- The loop over the devices from `id` on: the frames in their order, `none` where `send_frame` fails,
-- which is only logged.
unfoldable pub fire_from : List Device → List ℕ → ℕ → List Device → List (Option (List ℕ))
unfolding send_frame
fire_from devs dv_bytes id [] = []
fire_from devs dv_bytes id (d ∷ rest) =
    send_frame devs (bytes32 d.ip ++ dv_bytes) routing_protocol_code broadcast id
    ∷ fire_from devs dv_bytes (id + 1) rest

unfoldable pub fire_round : List Device → List Learned → List (Option (List ℕ))
unfolding fire_from distance_vec_to_bytes
fire_round devs dv = fire_from devs (distance_vec_to_bytes devs dv) 0 devs
