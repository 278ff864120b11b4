-- ===== src/Ip/Sample.antt =====
-- Two hosts on a wire, for the tests.
use mathlib.Core.Option
use mathlib.Core.Option.{some-injective}
use ns_stack.Base.{ℕ, zero, suc, ◌≡◌, refl, ap, subst, true, some, List, [], ◌∷◌, arith}
use ns_stack.Routing.{RoutingEntry, get_next_hop, first_match, subnet_match}
use ns_stack.Routing.Allocation.{as_allocated}
use ns_stack.Device.{Device, device_at, is_valid_id}
use ns_stack.Frame.Wire.{IsMac, six}
use ns_stack.Ip.{Host}
use ns_stack.Ip.Journey.{IsWired}
use ns_stack.Ip.Delivery.{IsFor}

abbrev pub mac_a : List ℕ
mac_a = 2 ∷ 0 ∷ 0 ∷ 0 ∷ 0 ∷ 1 ∷ []

abbrev pub mac_b : List ℕ
mac_b = 2 ∷ 0 ∷ 0 ∷ 0 ∷ 0 ∷ 2 ∷ []

-- 10.0.0.1 and 10.0.0.2, in the memory of a little-endian host.
abbrev pub dev_a : Device
dev_a = record { name = "veth0"; mac = mac_a; ip = 16777226; mask = 255 }

abbrev pub dev_b : Device
dev_b = record { name = "veth0"; mac = mac_b; ip = 33554442; mask = 255 }

abbrev pub subnet : RoutingEntry
subnet = record { dest = 10; mask = 255; next_hop = 0; device_id = some 0; direct = true }

abbrev pub host_a : Host
host_a = record {
  sorting = as_allocated;
  devs = dev_a ∷ [];
  static = subnet ∷ [];
  dynamic = [];
  arp_query = λ id hop. some mac_b;
}

abbrev pub host_b : Host
host_b = record {
  sorting = as_allocated;
  devs = dev_b ∷ [];
  static = subnet ∷ [];
  dynamic = [];
  arp_query = λ id hop. some mac_a;
}

IsMac-some : (o l : List ℕ) → IsMac o → some o ≡ some l → IsMac l
IsMac-some o l m e = subst IsMac (some-injective _ _ e) m

pub dev_mac_of :
    (d : Device)
    → IsMac d.mac
    → (id : ℕ) (e : Device) → device_at (d ∷ []) id ≡ some e
    → IsMac e.mac
unfolding device_at is_valid_id
dev_mac_of d m zero e h = IsMac-some d.mac e.mac m (ap (Option.map (λ x. x.mac)) h)
dev_mac_of d m (suc id) e h = absurd (ground arith)

pub host_a-IsWired : IsWired host_a
host_a-IsWired = record {
  arp_mac = λ id hop mac e. IsMac-some mac_b mac (six 2 0 0 0 0 2) e;
  dev_mac = dev_mac_of dev_a (six 2 0 0 0 0 1);
}

pub host_b-IsWired : IsWired host_b
host_b-IsWired = record {
  arp_mac = λ id hop mac e. IsMac-some mac_a mac (six 2 0 0 0 0 1) e;
  dev_mac = dev_mac_of dev_b (six 2 0 0 0 0 2);
}

pub host_b-IsFor : IsFor host_b 33554442
unfolding device_at is_valid_id get_next_hop first_match subnet_match
host_b-IsFor = record { id = 0; dev = dev_b; routed = refl; at = refl; own = refl }
