-- ===== src/Routing.antt =====
-- The routing table of src/routing.cc, and the subnet functions of src/pnx_utils.cc that it calls.
-- An `in_addr` is its `s_addr`, a number below 2^32. `std::sort` is a parameter.
pub mod Lookup
pub mod Mask
pub mod Static
pub mod Distance
pub mod Update
pub mod Daemon
pub mod Allocation
mod Tests
use ns_stack.Base.{
  ℕ, zero, suc, ◌+◌, ◌%◌, ◌^◌, ◌≤◌, ◌↔◌, Bool, true, false, ◌&&◌, Option, none, some, List, [], ◌∷◌,
  ◌++◌, ◌==◌, if◌then◌else◌, u32_mod,
}
use Prim.Native.Nat.{bit_and, bit_or}
use mathlib.Core.List.{Memᴰ}

-- The mask after `n` rounds of the loop.
unfoldable pub subnet_len_to_mask : ℕ → ℕ
subnet_len_to_mask zero = 0
subnet_len_to_mask (suc n) = bit_or (subnet_len_to_mask n) (2 ^ n % u32_mod)

unfoldable pub subnet_match : ℕ → ℕ → ℕ → Bool
subnet_match ip1 ip2 mask = bit_and ip1 mask == bit_and ip2 mask

-- `direct` tells a `DirectRoutingEntry`, whose next hop is not used. A device id of -1 is `none`.
pub record RoutingEntry : Type 0 where
  pub dest : ℕ
  pub mask : ℕ
  pub next_hop : ℕ
  pub device_id : Option ℕ
  pub direct : Bool

-- `std::sort` on a table, which holds pointers: it puts them in the order of their addresses, since the
-- `operator<` of the entries is not that of `std::shared_ptr`. The allocator decides on that order, so
-- all that is used of it is that it leaves the same elements.
pub record Sorting : Type 0 where
  pub sort : List RoutingEntry → List RoutingEntry
  pub keeps : (l : List RoutingEntry) (e : RoutingEntry) → Memᴰ e (sort l) ↔ Memᴰ e l

abbrev pub backwards : List RoutingEntry → List RoutingEntry
backwards [] = []
backwards (e ∷ l) = backwards l ++ (e ∷ [])

abbrev pub matches : ℕ → RoutingEntry → Bool
matches dest e = subnet_match dest e.dest e.mask

-- The loop of `get_next_hop`, up to its return.
unfoldable pub first_match : ℕ → List RoutingEntry → Option RoutingEntry
first_match dest [] = none
first_match dest (e ∷ l) = if matches dest e then some e else first_match dest l

-- The device and the next hop of an entry.
abbrev pub hop_of : ℕ → RoutingEntry → Option ℕ × ℕ
hop_of dest e = (e.device_id, if e.direct then dest else e.next_hop)

unfoldable pub get_next_hop : Sorting → List RoutingEntry → List RoutingEntry → ℕ → Option ℕ × ℕ
get_next_hop s static dynamic dest =
    elim (first_match dest (backwards (s.sort (static ++ dynamic)))) [
      | none ↦ (none, 0)
      | some e ↦ hop_of dest e
    ]

-- Equality of ids, -1 included.
abbrev pub same_id : Option ℕ → Option ℕ → Bool
same_id none none = true
same_id (some a) (some b) = a == b
same_id _ _ = false

-- The test of `add_static_routing_entry` on the entries that are there.
unfoldable pub conflicts : RoutingEntry → List RoutingEntry → Bool
conflicts new [] = false
conflicts new (e ∷ l) =
    if same_id e.device_id new.device_id && (e.dest == new.dest) && (e.mask == new.mask)
    then true
    else conflicts new l

-- `add_static_routing_entry`, once `find_device` has given the device (`Device.add_route` is the
-- whole). `none` is the result -1, which leaves the table.
unfoldable pub add_static_routing_entry :
    Sorting → List RoutingEntry → RoutingEntry → Option (List RoutingEntry)
add_static_routing_entry s static new =
    if conflicts new static then none else some (s.sort (static ++ (new ∷ [])))
