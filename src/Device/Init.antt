-- ===== src/Device/Init.antt =====
-- The tables after the devices of the host were added.
use Prim.Native.String.{String}
use text.Mathlib.Text.{◌==◌ as str_eq}
use mathlib.Core.List.{Memᴰ}
use ns_stack.Base.{ℕ, ◌≡◌, true, some, List}
use ns_stack.Routing.Static.{IsKeyed}
use ns_stack.Device.{Device, device_at, find_device}
use ns_stack.Device.Open.{Tables, Added, added, wanted}

-- The second tables have the devices of the first under their ids and names.
pub record Extends (t u : Tables) : Type 0 where
  pub others : (id : ℕ) (e : Device) → device_at t.devs id ≡ some e → device_at u.devs id ≡ some e
  pub names :
      (name : String) (id : ℕ)
      → find_device t.devs name ≡ some id
      → find_device u.devs name ≡ some id
  pub keyed : IsKeyed t.static → IsKeyed u.static

-- What is left of opening a device: the tables are extended, and an id is that of a device of the name.
record Opens (t : Tables) (name : String) (out : Tables × Added) : Type 0 where
  extends : Extends t out.0
  named : (id : ℕ) → out.1 ≡ added id → (k : ℕ) × (find_device out.0.devs name ≡ some k)

-- What `pnx_init_all_devices` leaves: the devices that were there keep their ids and names, the static
-- table no entry twice, and if the result is 0, every device whose name is wanted is found by its name.
pub record Inited (t : Tables) (names : List String) (out : Tables × Added) : Type 0 where
  pub extends : Extends t out.0
  pub found :
      out.1 ≡ added 0
      → (name : String) → Memᴰ name names
      → wanted name ≡ true
      → (k : ℕ) × (find_device out.0.devs name ≡ some k)
