-- ===== src/Device/Attach.antt =====
-- Adding a device: its id, and the static routing table after it.
use ns_stack.Base.{
  ℕ, zero, suc, ◌≡◌, refl, subst, true, Option, none, some, List, [], ◌∷◌, ◌++◌, arith, length,
  get_elem?, length-append,
}
use ns_stack.Routing.{RoutingEntry, Sorting, add_static_routing_entry}
use ns_stack.Routing.Static.{IsKeyed, Adds, add_static_routing_entry-Adds}
use ns_stack.Device.{Device, device_at, find_device, add_route, add_device}

-- What `add_device` gives for the device `d`.
pub record Attached (devs : List Device) (d : Device) (out : List Device × List RoutingEntry × ℕ)
    : Type 0 where
  pub at_id : device_at out.0 out.2 ≡ some d
  pub others : (id : ℕ) (e : Device) → device_at devs id ≡ some e → device_at out.0 id ≡ some e
  pub keyed : IsKeyed out.1

get_elem?-append_last :
    (devs : List Device) (d : Device) → get_elem? (devs ++ (d ∷ [])) (length devs) ≡ some d
get_elem?-append_last [] d = refl
get_elem?-append_last (e ∷ devs) d = get_elem?-append_last devs d

get_elem?-append_left :
    (devs more : List Device) (id : ℕ) (e : Device)
    → get_elem? devs id ≡ some e
    → get_elem? (devs ++ more) id ≡ some e
get_elem?-append_left [] more id e h = cc
get_elem?-append_left (x ∷ devs) more zero e h = h
get_elem?-append_left (x ∷ devs) more (suc id) e h = get_elem?-append_left devs more id e h

last_at : (devs : List Device) (d : Device) → device_at (devs ++ (d ∷ [])) (length devs) ≡ some d
unfolding device_at
last_at devs d = ground (arith, get_elem?-append_last devs d, length-append devs (d ∷ []))

pub still_at :
    (devs : List Device) (d : Device) (id : ℕ) (e : Device)
    → device_at devs id ≡ some e
    → device_at (devs ++ (d ∷ [])) id ≡ some e
unfolding device_at
still_at devs d id e h =
    ground (arith, get_elem?-append_left devs (d ∷ []) id e, length-append devs (d ∷ []))

-- The id that `add_device` returns is that of the device, no other id changes, and the static table
-- stays without two entries for one device, destination and mask, if it was.
pub add_device-Attached :
    (s : Sorting) (devs : List Device) (static : List RoutingEntry) (d : Device)
    → IsKeyed static
    → Attached devs d (add_device s devs static d)
unfolding add_device add_route
add_device-Attached s devs static d keyed =
    go (add_route s (devs ++ (d ∷ [])) static new d.name) refl
  where
    new : RoutingEntry
    new = record { dest = d.ip; mask = d.mask; next_hop = 0; device_id = none; direct = true }

    from_adds :
        (e : RoutingEntry) (r : List RoutingEntry)
        → Adds static e (add_static_routing_entry s static e)
        → add_static_routing_entry s static e ≡ some r
        → IsKeyed r
    from_adds e r (Adds.refused f m k p) q = absurd (clash p q)
      where
        clash :
            add_static_routing_entry s static e ≡ none
            → add_static_routing_entry s static e ≡ some r
            → ⊥
        clash a b = cc
    from_adds e r (Adds.added r' p k m) q =
        let same : r' ≡ r = ground (arith, p, q) in subst IsKeyed same k

    routed :
        (r : List RoutingEntry) (o : Option ℕ)
        → find_device (devs ++ (d ∷ [])) d.name ≡ o
        → add_route s (devs ++ (d ∷ [])) static new d.name ≡ some r
        → IsKeyed r
    routed r none f q = absurd (clash (rw (f, add_route) at q))
      where
        clash : ◌≡◌ {A = Option (List RoutingEntry)} none (some r) → ⊥
        clash a = cc
    routed r (some id) f q =
        from_adds (record new { device_id = some id }) r
          (add_static_routing_entry-Adds s static (record new { device_id = some id }) keyed)
          (rw (f, add_route) at q)

    go :
        (o : Option (List RoutingEntry))
        → add_route s (devs ++ (d ∷ [])) static new d.name ≡ o
        → Attached devs d (devs ++ (d ∷ []), elim o [ none ↦ static | some r ↦ r ], length devs)
    go none q = record { at_id = last_at devs d; others = still_at devs d; keyed = keyed }
    go (some r) q =
        let k = routed r (find_device (devs ++ (d ∷ [])) d.name) refl q in
        record { at_id = last_at devs d; others = still_at devs d; keyed = k }
