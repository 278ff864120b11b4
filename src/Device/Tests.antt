-- ===== src/Device/Tests.antt =====
-- A host with two devices whose names are wanted, and the theorem on adding the devices at it.
use Prim.Native.String.{String}
use ns_stack.Base.{true, some, List, [], ◌∷◌}
use ns_stack.Device.Open.{Answers, Tables}

abbrev answers : String → Answers
answers name = record {
  opened = true;
  nonblock = true;
  socket = true;
  mac = some (1 ∷ 2 ∷ 3 ∷ 4 ∷ 5 ∷ 6 ∷ []);
  ip = some 16777226;
  mask = some 255;
}

abbrev nothing : Tables
nothing = record { devs = []; static = [] }

abbrev names : List String
names = "lo" ∷ "veth0" ∷ "eth1" ∷ []
