-- ===== src/Device/Open.antt =====
-- `add_device` of src/device.cc with the calls of libpcap and of the system that can fail, and
-- `pnx_init_all_devices` of src/pnx_utils.cc, which adds the host's devices by their names.
use Prim.Native.String.{String}
use text.Mathlib.Text.{starts_with}
use ns_stack.Base.{
  ℕ, Bool, true, false, ◌&&◌, ◌||◌, Option, none, some, List, [], ◌∷◌, ◌++◌, ltb, if◌then◌else◌,
}
use ns_stack.Routing.{RoutingEntry, Sorting}
use ns_stack.Device.{Device, get_dev_cnt, add_device}

abbrev pub max_device_num : ℕ
max_device_num = 256

-- How the calls end for a device: `pcap_open_live`, `pcap_setnonblock`, `socket`, and the three
-- `ioctl`s with what they read.
pub record Answers : Type 0 where
  pub opened : Bool
  pub nonblock : Bool
  pub socket : Bool
  pub mac : Option (List ℕ)
  pub ip : Option ℕ
  pub mask : Option ℕ

-- The table of devices and the static routing table.
pub record Tables : Type 0 where
  pub devs : List Device
  pub static : List RoutingEntry

-- The new id, the result -1, or a write past the end of the arrays.
pub data Added : Type 0 where
  overrun failed : Added
  added : ℕ → Added

-- An entry of the arrays that only has its name; the rest is 0, as in static storage.
abbrev pub blank : String → Device
blank name = record { name = name; mac = 0 ∷ 0 ∷ 0 ∷ 0 ∷ 0 ∷ 0 ∷ []; ip = 0; mask = 0 }

-- A failure behind the counting of the device leaves it in the arrays.
unfoldable pub left_behind : Tables → Device → Tables × Added
left_behind t d = (record t { devs = t.devs ++ (d ∷ []) }, failed)

unfoldable pub finish : Sorting → Tables → Device → Tables × Added
unfolding add_device
finish s t d =
    let r : List Device × List RoutingEntry × ℕ = add_device s t.devs t.static d in
    (record { devs = r.0; static = r.1 }, added r.2)

unfoldable pub query :
    Sorting → Tables → String → Bool → Option (List ℕ) → Option ℕ → Option ℕ → Tables × Added
unfolding left_behind finish
query s t name false mac ip mask = left_behind t (blank name)
query s t name true none ip mask = left_behind t (blank name)
query s t name true (some m) none mask = left_behind t (record (blank name) { mac = m })
query s t name true (some m) (some i) none = left_behind t (record (blank name) { mac = m; ip = i })
query s t name true (some m) (some i) (some k) =
    finish s t (record { name = name; mac = m; ip = i; mask = k })

unfoldable pub open_device : Sorting → Tables → Answers → String → Tables × Added
unfolding query
open_device s t a name =
    if a.opened && a.nonblock
    then if ltb (get_dev_cnt t.devs) max_device_num
      then query s t name a.socket a.mac a.ip a.mask
      else (t, overrun)
    else (t, failed)

-- The test of a name that the loop of `pnx_init_all_devices` makes.
unfoldable pub wanted : String → Bool
wanted name = starts_with name "veth" || starts_with name "eth"

-- The loop goes on after a device that was added.
unfoldable pub go_on : (Tables → Tables × Added) → Tables × Added → Tables × Added
go_on rest (t, added id) = rest t
go_on rest (t, failed) = (t, failed)
go_on rest (t, overrun) = (t, overrun)

-- The loop, over the names that the host gives; `added 0` is the result 0.
unfoldable pub pnx_init_all_devices :
    Sorting → (String → Answers) → List String → Tables → Tables × Added
unfolding wanted go_on open_device
pnx_init_all_devices s ask [] t = (t, added 0)
pnx_init_all_devices s ask (name ∷ names) t =
    if wanted name
    then go_on (pnx_init_all_devices s ask names) (open_device s t (ask name) name)
    else pnx_init_all_devices s ask names t
