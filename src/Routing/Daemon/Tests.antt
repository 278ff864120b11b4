-- ===== src/Routing/Daemon/Tests.antt =====
-- Hosts that tell each other of their subnets, and the theorems on the rounds at them.
use ns_stack.Base.{ℕ, zero, suc, refl, List, [], ◌∷◌, arith}
use mathlib.Core.List.{Memᴰ}
use ns_stack.Device.{Device, device_at, is_valid_id}
use ns_stack.Frame.Wire.{six}
use ns_stack.Routing.{subnet_match}
use ns_stack.Routing.Allocation.{as_allocated}
use ns_stack.Routing.Update.{Learned}
use ns_stack.Routing.Daemon.{told}
use ns_stack.Routing.Daemon.Heard.{Hears, fire_round-Hears}
use ns_stack.Routing.Daemon.Network.{Delivery, States, deliver}
use ns_stack.Routing.Daemon.Spread.{Knows, Along, Along-Knows}

-- 10.0.0.1/8 and 11.0.0.1/8
abbrev first : Device
first = record { name = "veth0"; mac = 2 ∷ 0 ∷ 0 ∷ 0 ∷ 0 ∷ 1 ∷ []; ip = 16777226; mask = 255 }

abbrev second : Device
second = record { name = "veth0"; mac = 2 ∷ 0 ∷ 0 ∷ 0 ∷ 0 ∷ 2 ∷ []; ip = 16777227; mask = 255 }

abbrev hosts : ℕ → List Device
hosts zero = first ∷ []
hosts (suc i) = second ∷ []

abbrev nothing : States
nothing i = record { vec = []; dynamic = [] }

abbrev far : Learned
far = record { ip = 266; mask = 65535; hops = 9; updated_from = 33554442; recv_dev_id = 0 }

fire_round-Hears_example :
    Hears (first ∷ []) (far ∷ []) as_allocated (second ∷ []) 0 (nothing 1) 0 16777226
unfolding device_at is_valid_id told
fire_round-Hears_example =
    fire_round-Hears (first ∷ []) (far ∷ []) as_allocated (second ∷ []) 0 (nothing 1) 0 first refl
      (six 2 0 0 0 0 1) (omega arith)
      (
        record { ip_in = omega arith; mask_in = omega arith; hops_in = omega arith },
        (record { ip_in = ground arith; mask_in = omega arith; hops_in = omega arith }, tt),
      )

-- The first host tells the second, which tells the first.
abbrev there : Delivery
there = record { from = 0; port = 0; to = 1; dev = 0 }

abbrev back : Delivery
back = record { from = 1; port = 0; to = 0; dev = 0 }

abbrev after : States
after = deliver as_allocated hosts (deliver as_allocated hosts nothing there) back

Along-Knows_example : Knows as_allocated hosts 10 255 after 1 1
unfolding device_at is_valid_id told subnet_match
Along-Knows_example = Along-Knows as_allocated hosts 10 255 after 1 1 (omega arith) (
    Along.between _ back 1 1 (
      Along.told_to nothing there 0 (Along.origin nothing 0 (first, Memᴰ.head refl, refl)) (record {
        device = first;
        at = refl;
        mac = six 2 0 0 0 0 1;
        room = omega arith;
        in_range =
            (record { ip_in = ground arith; mask_in = omega arith; hops_in = omega arith }, tt);
      })))
