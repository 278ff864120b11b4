-- ===== src/Routing/Daemon/Heard.antt =====
-- What a neighbour makes of the frames of a round.
use mathlib.Core.Option.{some-injective}
use ns_stack.Base.{
  ℕ, zero, suc, ◌+◌, ◌*◌, ◌^◌, ◌≤◌, ◌<◌, ◌≡◌, refl, ap, ap₂, ◌∙◌, Bool, true, false, Option, none,
  some, List, [], ◌∷◌, ◌++◌, map, arith, if◌then◌else◌, length, get_elem?, All, length-append,
}
use ns_stack.Bytes.{bytes32, word32-read}
use ns_stack.Device.{Device, device_at, is_valid_id}
use ns_stack.Frame.{Upper, frame_bytes, frame_handler, broadcast, routing_protocol_code, send_frame}
use ns_stack.Frame.Wire.{can_send, IsMac, six, frame_handler-send_frame}
use ns_stack.Routing.{Sorting}
use ns_stack.Routing.Distance.{
  DistanceEntry, InRange, vec_to_bytes, length-vec_to_bytes, read_vec-append,
}
use ns_stack.Routing.Update.{
  Learned, RoutingState, Resolved, resolved, update_all, resolve_distance_upd,
  generate_dynamic_routing_table_from_dv, distance_upd_handler,
}
use ns_stack.Routing.Update.Relax.{Relaxes, update_all-Relaxes}
use ns_stack.Routing.Daemon.{
  on_wire, scope_link, told, distance_vec_to_bytes, fire_from, fire_round,
}

length-map {ℓ κ} : {A : Type ℓ} {B : Type κ} (f : A → B) (l : List A) → length (map f l) ≡ length l
length-map f [] = refl
length-map f (x ∷ l) = omega (arith, length-map f l)

length-told :
    (devs : List Device) (dv : List Learned) → length (told devs dv) ≡ length dv + length devs
unfolding told
length-told devs dv = omega (
  arith,
  length-append (map on_wire dv) (map scope_link devs),
  length-map on_wire dv,
  length-map scope_link devs,
)

-- The frame of a device is the one that `send_frame` makes for it.
fired :
    (devs : List Device) (bytes : List ℕ) (rest : List Device) (from k id : ℕ) (d : Device)
    → get_elem? rest k ≡ some d
    → from + k ≡ id
    → get_elem? (fire_from devs bytes from rest) k
      ≡ some (send_frame devs (bytes32 d.ip ++ bytes) routing_protocol_code broadcast id)
unfolding fire_from
fired devs bytes [] from k id d e n = absurd (cc e)
fired devs bytes (c ∷ rest) from zero id d e n =
    ap₂ (λ x i. some (send_frame devs (bytes32 x.ip ++ bytes) routing_protocol_code broadcast i))
      (some-injective c d e) (omega (arith, n))
fired devs bytes (c ∷ rest) from (suc k) id d e n =
    fired devs bytes rest (from + 1) k id d e (omega (arith, n))

at-get_elem? :
    (devs : List Device) (id : ℕ) (d : Device)
    → device_at devs id ≡ some d
    → get_elem? devs id ≡ some d
unfolding device_at
at-get_elem? devs id d e = go (is_valid_id devs id) e
  where
    go : (b : Bool) → (if b then get_elem? devs id else none) ≡ some d → get_elem? devs id ≡ some d
    go true e = e
    go false e = absurd (cc e)

-- The state of a host that has updated its vector.
abbrev pub with_vec : Sorting → List Device → RoutingState → List Learned × Bool → RoutingState
with_vec s r st out = record {
  vec = out.0;
  dynamic = if out.1 then generate_dynamic_routing_table_from_dv s r out.0 else st.dynamic;
}

-- What a neighbour's device `dev` makes of the frame of the device `id`: it is handed to
-- `distance_upd_handler`, which relaxes the neighbour's vector by what the host tells of, and makes the
-- dynamic table anew if the vector changed.
pub record Hears (devs : List Device) (dv : List Learned) (s : Sorting) (r : List Device) (dev : ℕ)
    (st : RoutingState) (id source : ℕ) : Type 0 where
  pub frame : List ℕ
  pub sent : get_elem? (fire_round devs dv) id ≡ some (some frame)
  pub payload : List ℕ
  pub handed : frame_handler frame ≡ Upper.distance payload
  pub out : List Learned × Bool
  pub relaxes : Relaxes r dev source (told devs dv) st.vec out
  pub heard : distance_upd_handler s r dev payload st ≡ some (with_vec s r st out, true)

heard_payload :
    (s : Sorting) (r : List Device) (dev source : ℕ) (l : List DistanceEntry) (rest : List ℕ)
    (st : RoutingState)
    → length l * 12 < 2 ^ 32
    → All InRange l
    → let out : List Learned × Bool = update_all r dev source l st.vec false in
      distance_upd_handler s r dev (bytes32 source ++ (vec_to_bytes l ++ rest)) st
      ≡ some (with_vec s r st out, true)
unfolding distance_upd_handler resolve_distance_upd
heard_payload s r dev source l rest st small v = go _ (word32-read source)
  where
    out : List Learned × Bool
    out = update_all r dev source l st.vec false

    go :
        (w : ℕ)
        → w ≡ source
        → elim (resolve_distance_upd r dev w (vec_to_bytes l ++ rest) st.vec)
            as (λ _. Option (RoutingState × Bool)) [
              | Resolved.crashed ↦ none
              | Resolved.rejected ↦ some (st, false)
              | resolved dv updated ↦ some (
                record {
                  vec = dv;
                  dynamic =
                      if updated then generate_dynamic_routing_table_from_dv s r dv else st.dynamic;
                },
                true,
              )
            ]
          ≡ some (with_vec s r st out, true)
    go w e = rw (resolve_distance_upd, read_vec-append l rest small v, e) refl

-- Every neighbour that gets the frame of a device of the host relaxes its distance vector by all the
-- host's entries and subnets, and makes its dynamic table anew if that changed the vector. The entries
-- and subnets are at most 124, which is what a frame has room for, their fields are in range, and the
-- device has an Ethernet address.
pub fire_round-Hears :
    (devs : List Device) (dv : List Learned) (s : Sorting) (r : List Device) (dev : ℕ)
    (st : RoutingState) (id : ℕ) (d : Device)
    → device_at devs id ≡ some d
    → IsMac d.mac
    → length dv + length devs ≤ 124
    → All InRange (told devs dv)
    → Hears devs dv s r dev st id d.ip
unfolding fire_round distance_vec_to_bytes
fire_round-Hears devs dv s r dev st id d at m few v =
    let l : List DistanceEntry = told devs dv in
    let n : length l ≡ length dv + length devs = length-told devs dv in
    let payload : List ℕ = bytes32 d.ip ++ vec_to_bytes l in
    let frame : List ℕ = frame_bytes broadcast d.mac routing_protocol_code payload in
    let sent : send_frame devs payload routing_protocol_code broadcast id ≡ some frame =
      can_send devs payload routing_protocol_code broadcast id d at
        (omega (arith, length-vec_to_bytes l, n, few)) in
    record {
      frame = frame;
      sent =
          fired devs (vec_to_bytes l) devs 0 id id d (at-get_elem? devs id d at) (omega arith)
          ∙ ap some sent;
      payload = payload ++ (0 ∷ 0 ∷ 0 ∷ 0 ∷ []);
      handed =
          frame_handler-send_frame devs payload routing_protocol_code broadcast id d frame
            (six 255 255 255 255 255 255) at m (omega arith) sent;
      out = update_all r dev d.ip l st.vec false;
      relaxes = update_all-Relaxes r dev d.ip l st.vec false;
      heard = heard_payload s r dev d.ip l (0 ∷ 0 ∷ 0 ∷ 0 ∷ []) st (omega (arith, n, few)) v;
    }
