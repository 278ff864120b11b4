-- ===== src/Routing/Daemon/Network.antt =====
-- Many hosts that run src/routing.cc: the frames of the rounds of each, and what the others make of
-- them, in any order.
use ns_stack.Base.{
  ℕ, ◌+◌, ◌≤◌, ◌≡◌, refl, Bool, true, false, Option, none, some, List, ◌∷◌, ◌==◌, if◌then◌else◌,
  length, get_elem?, All, ==_iff,
}
use ns_stack.Device.{Device, device_at}
use ns_stack.Frame.{Upper, frame_handler}
use ns_stack.Frame.Wire.{IsMac}
use ns_stack.Routing.{Sorting}
use ns_stack.Bytes.{word32}
use ns_stack.Routing.Distance.{Reading, entries, read_vec, InRange}
use ns_stack.Routing.Update.{
  Learned, RoutingState, Resolved, resolved, update_all, resolve_distance_upd,
  generate_dynamic_routing_table_from_dv, distance_upd_handler,
}
use ns_stack.Routing.Update.Offer.{Covers, Covers-trans}
use ns_stack.Routing.Update.Relax.{update_all-Relaxes}
use ns_stack.Routing.Daemon.{told, fire_round}
use ns_stack.Routing.Daemon.Heard.{with_vec, Hears}

-- The frame of the device `port` of the host `from`, at the device `dev` of the host `to`.
pub record Delivery : Type 0 where
  pub from : ℕ
  pub port : ℕ
  pub to : ℕ
  pub dev : ℕ

-- What each host has learned.
abbrev pub States : Type 0
States = ℕ → RoutingState

-- A host that gets a frame, by `frame_handler` and `distance_upd_handler`; one that would crash is left
-- as it was.
unfoldable pub hear : Sorting → List Device → ℕ → Upper → RoutingState → RoutingState
unfolding distance_upd_handler
hear s r dev (Upper.distance payload) st = elim (distance_upd_handler s r dev payload st) [
  | none ↦ st
  | some p ↦ p.0
]
hear s r dev _ st = st

unfoldable pub hear_frame :
    Sorting → List Device → ℕ → Option (Option (List ℕ)) → RoutingState → RoutingState
unfolding hear frame_handler
hear_frame s r dev (some (some frame)) st = hear s r dev (frame_handler frame) st
hear_frame s r dev _ st = st

-- One frame of a round of a host reaches another host.
unfoldable pub deliver : Sorting → (ℕ → List Device) → States → Delivery → States
unfolding hear_frame fire_round
deliver s devs y e i =
    if i == e.to
    then hear_frame s (devs i) e.dev (get_elem? (fire_round (devs e.from) (y e.from).vec) e.port)
        (y i)
    else y i

-- The host can send the frame: its entries and subnets have room, with their fields in range, and the
-- device has an Ethernet address.
pub record Ready (devs : ℕ → List Device) (y : States) (e : Delivery) : Type 0 where
  pub device : Device
  pub at : device_at (devs e.from) e.port ≡ some device
  pub mac : IsMac device.mac
  pub room : length (y e.from).vec + length (devs e.from) ≤ 124
  pub in_range : All InRange (told (devs e.from) (y e.from).vec)

module _ (s : Sorting) (r : List Device) (dev : ℕ) (a : Learned) where
  handler_keeps :
      (payload : List ℕ) (st : RoutingState)
      → Covers st.vec a
      → Covers
          (elim (distance_upd_handler s r dev payload st) as (λ _. RoutingState) [
            | none ↦ st
            | some p ↦ p.0
          ]).vec
          a
  unfolding distance_upd_handler resolve_distance_upd
  handler_keeps (a0 ∷ a1 ∷ a2 ∷ a3 ∷ bytes) st c = go (read_vec bytes)
    where
      source : ℕ
      source = word32 a0 a1 a2 a3

      go :
          (x : Reading)
          → Covers
              (elim (elim (elim x as (λ _. Resolved) [
                | Reading.crashed ↦ Resolved.crashed
                | Reading.rejected ↦ Resolved.rejected
                | entries es ↦
                    let (dv', updated) = update_all r dev source es st.vec false in
                    resolved dv' updated
              ])
                  as (λ _. Option (RoutingState × Bool)) [
                    | Resolved.crashed ↦ none
                    | Resolved.rejected ↦ some (st, false)
                    | resolved dv updated ↦ some (
                      record {
                        vec = dv;
                        dynamic =
                            if updated
                            then generate_dynamic_routing_table_from_dv s r dv
                            else st.dynamic;
                      },
                      true,
                    )
                  ])
                as (λ _. RoutingState) [ none ↦ st | some p ↦ p.0 ]).vec
              a
      go Reading.crashed = c
      go Reading.rejected = c
      go (entries es) = Covers-trans (update_all-Relaxes r dev source es st.vec false).keeps c
  handler_keeps _ st c = c

  hear_keeps : (u : Upper) (st : RoutingState) → Covers st.vec a → Covers (hear s r dev u st).vec a
  unfolding hear
  hear_keeps (Upper.distance payload) st c = handler_keeps payload st c
  hear_keeps _ st c = c

  hear_frame_keeps :
      (o : Option (Option (List ℕ))) (st : RoutingState)
      → Covers st.vec a
      → Covers (hear_frame s r dev o st).vec a
  unfolding hear_frame
  hear_frame_keeps (some (some frame)) st c = hear_keeps (frame_handler frame) st c
  hear_frame_keeps (some none) st c = c
  hear_frame_keeps none st c = c

module _ (s : Sorting) (devs : ℕ → List Device) where
  pub deliver_keeps :
      (y : States) (e : Delivery) (i : ℕ) (a : Learned)
      → Covers (y i).vec a
      → Covers (deliver s devs y e i).vec a
  unfolding deliver
  deliver_keeps y e i a c = go (i == e.to)
    where
      go :
          (b : Bool)
          → Covers
              (if b
                then hear_frame s
                    (devs i)
                    e.dev
                    (get_elem? (fire_round (devs e.from) (y e.from).vec) e.port)
                    (y i)
                else y i).vec
              a
      go true = hear_frame_keeps s (devs i) e.dev a _ (y i) c
      go false = c

  -- The receiver of a frame that was sent.
  pub delivered :
      (y : States) (e : Delivery) (source : ℕ)
      → (x : Hears (devs e.from) (y e.from).vec s (devs e.to) e.dev (y e.to) e.port source)
      → deliver s devs y e e.to ≡ with_vec s (devs e.to) (y e.to) x.out
  unfolding deliver hear_frame hear
  delivered y e source x =
      let same : e.to == e.to ≡ true = (==_iff e.to e.to).1 refl in
      rw (deliver, same) (framed _ x.sent)
    where
      framed :
          (o : Option (Option (List ℕ)))
          → o ≡ some (some x.frame)
          → hear_frame s (devs e.to) e.dev o (y e.to) ≡ with_vec s (devs e.to) (y e.to) x.out
      framed o p = rw (p, hear_frame, x.handed, hear, x.heard) refl
