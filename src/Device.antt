-- ===== src/Device.antt =====
-- The device table of src/device.cc: the arrays `dev_name`, `dev_mac_addr`, `dev_ip_addr` and
-- `dev_mask_addr` up to `device_count`, as one list. An id is an index, and `none` is -1. Opening a
-- device and reading its addresses are calls of libpcap and the system, so a device comes with them.
pub mod Search
pub mod Attach
pub mod Open
pub mod Init
mod Tests
use Prim.Native.String.{String}
use text.Mathlib.Text.{◌==◌ as str_eq}
use ns_stack.Base.{
  ℕ, ◌+◌, Bool, true, false, ◌&&◌, Option, none, some, List, [], ◌∷◌, ◌++◌, ltb, ◌==◌,
  if◌then◌else◌, length, get_elem?,
}
use ns_stack.Routing.{RoutingEntry, Sorting, subnet_match, add_static_routing_entry}

pub record Device : Type 0 where
  pub name : String
  pub mac : List ℕ
  pub ip : ℕ
  pub mask : ℕ

-- `device_count`
abbrev pub get_dev_cnt : List Device → ℕ
get_dev_cnt devs = length devs

unfoldable pub is_valid_id : List Device → ℕ → Bool
is_valid_id devs id = ltb id (get_dev_cnt devs)

-- The loop over the ids from `id` on, up to the first device that passes.
unfoldable pub first_id : (Device → Bool) → List Device → ℕ → Option ℕ
first_id p [] id = none
first_id p (d ∷ devs) id = let rest = first_id p devs (id + 1) in if p d then some id else rest

unfoldable pub find_device : List Device → String → Option ℕ
unfolding first_id
find_device devs name = first_id (λ d. str_eq name d.name) devs 0

-- `dev_mac`, `dev_ip`, `dev_mask` and `get_device_name` read a field of what this gives; `none` is a
-- null pointer.
unfoldable pub device_at : List Device → ℕ → Option Device
unfolding is_valid_id
device_at devs id = if is_valid_id devs id then get_elem? devs id else none

abbrev pub on_subnet : ℕ → ℕ → Device → Bool
on_subnet ip mask d = subnet_match ip d.ip mask && mask == d.mask

unfoldable pub get_dev_from_subnet : List Device → ℕ → ℕ → Option ℕ
unfolding first_id
get_dev_from_subnet devs ip mask = first_id (on_subnet ip mask) devs 0

-- `add_static_routing_entry` with its call of `find_device`.
unfoldable pub add_route :
    Sorting → List Device → List RoutingEntry → RoutingEntry → String → Option (List RoutingEntry)
add_route s devs static new name = elim (find_device devs name) [
  | none ↦ none
  | some id ↦ add_static_routing_entry s static (record new { device_id = some id })
]

-- What `add_device` does to the tables once the device is open: its entry in the arrays, and the
-- route to its own subnet, whose failure is ignored.
unfoldable pub add_device :
    Sorting → List Device → List RoutingEntry → Device → List Device × List RoutingEntry × ℕ
add_device s devs static d =
    let new : RoutingEntry = record {
      dest = d.ip;
      mask = d.mask;
      next_hop = 0;
      device_id = none;
      direct = true;
    } in
    (
      devs ++ (d ∷ []),
      elim (add_route s (devs ++ (d ∷ [])) static new d.name) [ none ↦ static | some r ↦ r ],
      get_dev_cnt devs,
    )
