-- ===== src/Routing/Tests.antt =====
-- A small table and a small distance vector, and the theorems on routing at them.
use ns_stack.Base.{◌≡◌, refl, true, false, some, [], ◌∷◌}
use ns_stack.Routing.{RoutingEntry, get_next_hop, first_match, matches, subnet_match}
use ns_stack.Routing.Lookup.{Routes, get_next_hop-Routes}
use ns_stack.Routing.Distance.{DistanceEntry}
use ns_stack.Routing.Allocation.{as_allocated}
use ns_stack.Device.{Device}
use ns_stack.Routing.Update.{Learned, update_all}
use ns_stack.Routing.Update.Relax.{Relaxes, update_all-Relaxes}

-- 10.0.0.0/8 on a link, and 10.1.0.0/16 by 10.0.0.9, in the memory of a little-endian host.
abbrev link : RoutingEntry
link = record { dest = 10; mask = 255; next_hop = 0; device_id = some 1; direct = true }

abbrev gateway : RoutingEntry
gateway = record {
  dest = 266;
  mask = 65535;
  next_hop = 150994954;
  device_id = some 2;
  direct = false;
}

get_next_hop-Routes_example :
    Routes 84148490
      (gateway ∷ link ∷ [])
      (as_allocated.sort (gateway ∷ link ∷ []))
      (get_next_hop as_allocated (gateway ∷ []) (link ∷ []) 84148490)
get_next_hop-Routes_example = get_next_hop-Routes as_allocated (gateway ∷ []) (link ∷ []) 84148490

-- The entry with the longer mask matches as well, and is not taken.
shorter_mask : get_next_hop as_allocated (gateway ∷ []) (link ∷ []) 84148490 ≡ (some 1, 84148490)
unfolding get_next_hop first_match subnet_match
shorter_mask = refl

longer_mask_matches : matches 84148490 gateway ≡ true
unfolding subnet_match
longer_mask_matches = refl

abbrev far : DistanceEntry
far = record { ip = 266; mask = 65535; hops = 3 }

abbrev near : DistanceEntry
near = record { ip = 10; mask = 255; hops = 0 }

-- The host's own subnet, and what it has learned.
abbrev own_device : Device
own_device = record { name = "veth0"; mac = 1 ∷ 2 ∷ 3 ∷ 4 ∷ 5 ∷ 6 ∷ []; ip = 16777226; mask = 255 }

abbrev known : Learned
known = record { ip = 266; mask = 65535; hops = 9; updated_from = 33554442; recv_dev_id = 0 }

update_all-Relaxes_example :
    Relaxes
      (own_device ∷ [])
      0
      50331658
      (far ∷ near ∷ [])
      (known ∷ [])
      (update_all (own_device ∷ []) 0 50331658 (far ∷ near ∷ []) (known ∷ []) false)
update_all-Relaxes_example =
    update_all-Relaxes (own_device ∷ []) 0 50331658 (far ∷ near ∷ []) (known ∷ []) false
