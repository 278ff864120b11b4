-- ===== src/Routing/Update.antt =====
-- The distance vector of src/routing.cc, and what a message of a neighbour does to it:
-- `resolve_distance_upd`, `generate_dynamic_routing_table_from_dv` and `distance_upd_handler`.
pub mod Offer
pub mod Relax
use Prim.Native.Nat.{bit_and}
use ns_stack.Base.{
  ℕ, zero, suc, ◌+◌, ◌*◌, ◌%◌, ◌^◌, Bool, true, false, ◌&&◌, Option, none, some, List, [], ◌∷◌,
  ◌++◌, map, ltb, ◌==◌, if◌then◌else◌, length, add32, u32_mod,
}
use ns_stack.Bytes.{word32}
use ns_stack.Routing.{RoutingEntry, Sorting}
use ns_stack.Routing.Distance.{DistanceEntry, Reading, entries, read_vec}
use ns_stack.Device.{Device, get_dev_from_subnet}

-- A `DistanceEntry` of the vector, with the fields that do not travel.
pub record Learned : Type 0 where
  pub ip : ℕ
  pub mask : ℕ
  pub hops : ℕ
  pub updated_from : ℕ
  pub recv_dev_id : ℕ

-- `a > b` for the `int`s that two words stand for.
abbrev pub gt_int : ℕ → ℕ → Bool
gt_int a b = ltb ((b + 2 ^ 31) % u32_mod) ((a + 2 ^ 31) % u32_mod)

-- `operator==`
unfoldable pub same_subnet : Learned → Learned → Bool
same_subnet a b = (bit_and a.ip a.mask == bit_and b.ip b.mask) && (a.mask == b.mask)

-- The vector is an `std::unordered_set`, here a list in some order.
unfoldable pub find : Learned → List Learned → Option Learned
find e [] = none
find e (x ∷ dv) = if same_subnet x e then some x else find e dv

unfoldable pub erase : Learned → List Learned → List Learned
erase e [] = []
erase e (x ∷ dv) = if same_subnet x e then dv else x ∷ erase e dv

-- The entry as this host would use it: one hop further, by the neighbour. The overflow of an `int`
-- is taken to wrap.
abbrev pub learn : ℕ → ℕ → DistanceEntry → Learned
learn dev source e = record {
  ip = e.ip;
  mask = e.mask;
  hops = add32 e.hops 1;
  updated_from = source;
  recv_dev_id = dev;
}

-- The end of the loop's body: the vector, and whether it was changed.
unfoldable pub offer : Learned → List Learned → List Learned × Bool
offer new dv = elim (find new dv) [
  | none ↦ (new ∷ dv, true)
  | some it ↦ if gt_int it.hops new.hops then (new ∷ erase new dv, true) else (dv, false)
]

unfoldable pub update_one : List Device → ℕ → ℕ → List Learned → DistanceEntry → List Learned × Bool
update_one devs dev source dv e = elim (get_dev_from_subnet devs e.ip e.mask) [
  | some id ↦ (dv, false)
  | none ↦ offer (learn dev source e) dv
]

-- The loop, with the flag `updated`.
unfoldable pub update_all :
    List Device → ℕ → ℕ → List DistanceEntry → List Learned → Bool → List Learned × Bool
update_all devs dev source [] dv updated = (dv, updated)
update_all devs dev source (e ∷ es) dv updated =
    let (dv', changed) = update_one devs dev source dv e in
    update_all devs dev source es dv' (if changed then true else updated)

-- The end of `resolve_distance_upd`. `crashed` is an exception or a read past the end of the message,
-- which ends the process, so it does not matter that the entries are read before the first is used.
pub data Resolved : Type 0 where
  crashed rejected : Resolved
  resolved : List Learned → Bool → Resolved

unfoldable pub resolve_distance_upd : List Device → ℕ → ℕ → List ℕ → List Learned → Resolved
resolve_distance_upd devs dev source bytes dv = elim (read_vec bytes) [
  | Reading.crashed ↦ Resolved.crashed
  | Reading.rejected ↦ Resolved.rejected
  | entries es ↦ let (dv', updated) = update_all devs dev source es dv false in resolved dv' updated
]

abbrev pub to_routing : List Device → Learned → RoutingEntry
to_routing devs e = record {
  dest = e.ip;
  mask = e.mask;
  next_hop = e.updated_from;
  device_id = get_dev_from_subnet devs e.updated_from e.mask;
  direct = false;
}

unfoldable pub generate_dynamic_routing_table_from_dv :
    Sorting → List Device → List Learned → List RoutingEntry
generate_dynamic_routing_table_from_dv s devs dv = s.sort (map (to_routing devs) dv)

-- The distance vector and the dynamic table.
pub record RoutingState : Type 0 where
  pub vec : List Learned
  pub dynamic : List RoutingEntry

-- `distance_upd_handler`, with the result 0 or -1 as a flag; `none` is a crash. The payload begins
-- with the sender's address.
unfoldable pub distance_upd_handler :
    Sorting → List Device → ℕ → List ℕ → RoutingState → Option (RoutingState × Bool)
distance_upd_handler s devs dev (a0 ∷ a1 ∷ a2 ∷ a3 ∷ bytes) st =
    elim (resolve_distance_upd devs dev (word32 a0 a1 a2 a3) bytes st.vec) [
      | Resolved.crashed ↦ none
      | Resolved.rejected ↦ some (st, false)
      | resolved dv updated ↦ some (
        record {
          vec = dv;
          dynamic =
              if updated then generate_dynamic_routing_table_from_dv s devs dv else st.dynamic;
        },
        true,
      )
    ]
distance_upd_handler s devs dev _ st = none
