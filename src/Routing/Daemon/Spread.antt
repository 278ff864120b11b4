-- ===== src/Routing/Daemon/Spread.antt =====
-- Many hosts that run src/routing.cc: how the news of a subnet spreads from host to host, with the
-- rounds of the hosts and what is made of their frames in any order.
use mathlib.Core.Option.{some-injective}
use Prim.Native.Nat.{bit_and}
use ns_stack.Base.{
  ℕ, zero, suc, ◌+◌, ◌%◌, ◌^◌, ◌≤◌, ◌<◌, ◌≡◌, refl, sym, ap, subst, ◌∙◌, ◌⊎◌, inl, inr, Bool, true,
  Option, none, some, List, [], ◌∷◌, ◌++◌, map, arith, get_elem?,
}
use ns_stack.Base.Bits.{bit_and_again}
use mathlib.Core.List.{Memᴰ}
use ns_stack.Device.{Device, get_dev_from_subnet, on_subnet}
use ns_stack.Device.Search.{Finds, found, get_dev_from_subnet-Finds}
use ns_stack.Routing.{Sorting, subnet_match}
use ns_stack.Routing.Distance.{DistanceEntry}
use ns_stack.Routing.Update.{Learned, learn}
use ns_stack.Routing.Update.Offer.{Covers}
use ns_stack.Routing.Update.Relax.{Relaxes}
use ns_stack.Routing.Daemon.{on_wire, scope_link, told}
use ns_stack.Routing.Daemon.Heard.{Hears, fire_round-Hears}
use ns_stack.Routing.Daemon.Network.{Delivery, States, Ready, deliver, deliver_keeps, delivered}

mem_map {ℓ κ} :
    {A : Type ℓ} {B : Type κ} (f : A → B) (x : A) (l : List A) → Memᴰ x l → Memᴰ (f x) (map f l)
mem_map f x [] m = elim m [ ]
mem_map f x (z ∷ l) (Memᴰ.head p) = Memᴰ.head (ap f p)
mem_map f x (z ∷ l) (Memᴰ.tail m) = Memᴰ.tail (mem_map f x l m)

mem_left {ℓ} : {A : Type ℓ} (x : A) (l r : List A) → Memᴰ x l → Memᴰ x (l ++ r)
mem_left x [] r m = elim m [ ]
mem_left x (z ∷ l) r (Memᴰ.head p) = Memᴰ.head p
mem_left x (z ∷ l) r (Memᴰ.tail m) = Memᴰ.tail (mem_left x l r m)

mem_right {ℓ} : {A : Type ℓ} (x : A) (l r : List A) → Memᴰ x r → Memᴰ x (l ++ r)
mem_right x [] r m = m
mem_right x (z ∷ l) r m = Memᴰ.tail (mem_right x l r m)

mem_at {ℓ} : {A : Type ℓ} (x : A) (l : List A) (i : ℕ) → get_elem? l i ≡ some x → Memᴰ x l
mem_at x [] i e = absurd (cc e)
mem_at x (z ∷ l) zero e = Memᴰ.head (sym (some-injective z x e))
mem_at x (z ∷ l) (suc i) e = Memᴰ.tail (mem_at x l i e)

module _ (s : Sorting) (devs : ℕ → List Device) (ip mask : ℕ) where
  -- The host has a device on the subnet.
  abbrev pub IsOwn : ℕ → Type 0
  IsOwn i = (d : Device) × Memᴰ d (devs i) × (on_subnet ip mask d ≡ true)

  abbrev pub at_hops : ℕ → Learned
  at_hops n = record { ip = ip; mask = mask; hops = n; updated_from = 0; recv_dev_id = 0 }

  -- The host is on the subnet or has it in its vector at `n` hops at most.
  abbrev pub Knows : States → ℕ → ℕ → Type 0
  Knows y i n = IsOwn i ⊎ Covers (y i).vec (at_hops n)

  -- An entry for the subnet, of `n` hops at most as an `int`.
  IsNews : DistanceEntry → ℕ → Type 0
  IsNews e n =
      (bit_and e.ip e.mask ≡ bit_and ip mask)
      × (e.mask ≡ mask)
      × ((e.hops + 2 ^ 31) % 2 ^ 32 ≤ n + 2 ^ 31)

  on_subnet_parts :
      (a m : ℕ) (d : Device)
      → on_subnet a m d ≡ true
      → (bit_and a m ≡ bit_and d.ip m) × (m ≡ d.mask)
  unfolding subnet_match
  on_subnet_parts a m d h = ground (arith, h)

  on_subnet_from :
      (a m : ℕ) (d : Device) → bit_and a m ≡ bit_and d.ip m → m ≡ d.mask → on_subnet a m d ≡ true
  unfolding subnet_match
  on_subnet_from a m d p q = ground (arith, p, q)

  own-IsNews : (d : Device) (n : ℕ) → on_subnet ip mask d ≡ true → IsNews (scope_link d) n
  unfolding IsNews
  own-IsNews d n h =
      let (p, q) = on_subnet_parts ip mask d h in
      (
        bit_and_again d.ip d.mask ∙ sym (subst (λ m. bit_and ip mask ≡ bit_and d.ip m) q p),
        sym q,
        omega arith,
      )

  IsNews-told :
      (y : States) (i n : ℕ)
      → n < 2 ^ 31
      → Knows y i n
      → (e : DistanceEntry) × Memᴰ e (told (devs i) (y i).vec) × IsNews e n
  unfolding told IsNews
  IsNews-told y i n b (inl (d, m, h)) = (
    scope_link d,
    mem_right _ (map on_wire (y i).vec) _ (mem_map scope_link d (devs i) m),
    own-IsNews d n h,
  )
  IsNews-told y i n b (inr c) = (
    on_wire c.entry,
    mem_left _ _ _ (mem_map on_wire c.entry (y i).vec c.inside),
    (c.same.0, c.same.1, omega (arith, c, b)),
  )

  -- News that a host gets from a source, by what it does to the vector.
  IsNews-heard :
      (j dev source n : ℕ) (es : List DistanceEntry) (e : DistanceEntry) (dv : List Learned)
      (out : List Learned × Bool)
      → suc n < 2 ^ 31
      → Relaxes (devs j) dev source es dv out
      → Memᴰ e es
      → IsNews e n
      → IsOwn j ⊎ Covers out.0 (at_hops (suc n))
  unfolding IsNews
  IsNews-heard j dev source n es e dv out b x m (p, q, h) =
      go (get_dev_from_subnet (devs j) e.ip e.mask) refl
        (get_dev_from_subnet-Finds (devs j) e.ip e.mask)
    where
      go :
          (o : Option ℕ)
          → get_dev_from_subnet (devs j) e.ip e.mask ≡ o
          → Finds (on_subnet e.ip e.mask) (devs j) 0 o
          → IsOwn j ⊎ Covers out.0 (at_hops (suc n))
      go none k f =
          let c : Covers out.0 (learn dev source e) = x.reaches e m k in
          inr (record {
            entry = c.entry;
            inside = c.inside;
            same = (c.same.0 ∙ p, c.same.1 ∙ q);
            near = omega (arith, c.near, h, b);
          })
      go (some _) k (found i d at hit before) =
          let (u, v) = on_subnet_parts e.ip e.mask d hit in
          inl (
            d,
            mem_at d (devs j) i at,
            on_subnet_from ip mask d (sym p ∙ (u ∙ ap (bit_and d.ip) q)) (sym q ∙ v),
          )

  -- Where a delivery that is ready ends up.
  told_on :
      (y : States) (e : Delivery) (n : ℕ)
      → suc n < 2 ^ 31
      → Ready devs y e
      → Knows y e.from n
      → Knows (deliver s devs y e) e.to (suc n)
  told_on y e n b ready k =
      let x : Hears (devs e.from) (y e.from).vec s (devs e.to) e.dev (y e.to) e.port
          ready.device.ip =
        fire_round-Hears (devs e.from) (y e.from).vec s (devs e.to) e.dev (y e.to) e.port
          ready.device ready.at ready.mac ready.room ready.in_range in
      let (news, m, isnews) = IsNews-told y e.from n (omega (arith, b)) k in
      let got =
        IsNews-heard e.to e.dev ready.device.ip n (told (devs e.from) (y e.from).vec) news
          (y e.to).vec x.out b x.relaxes m isnews in
      elim got [
        | inl own ↦ inl own
        | inr c ↦
            inr (subst (λ st. Covers st.vec (at_hops (suc n))) (sym (delivered s devs y e _ x)) c)
      ]

  -- The news of the subnet on its way, at a host, `n` frames from one that is on the subnet: the
  -- frames come in this order, with any others before, between and behind.
  pub data Along : States → ℕ → ℕ → Type 0 where
    origin : (y : States) (i : ℕ) → IsOwn i → Along y i 0
    told_to :
        (y : States) (e : Delivery) (n : ℕ)
        → Along y e.from n
        → Ready devs y e
        → Along (deliver s devs y e) e.to (suc n)
    between : (y : States) (e : Delivery) (i n : ℕ) → Along y i n → Along (deliver s devs y e) i n

  -- The subnet of a device becomes known along every path through the network: a host at its end,
  -- `n` frames from one that is on the subnet, is on the subnet itself or has it in its distance
  -- vector at `n` hops at most, whatever other frames the hosts exchange, and forgets it by none.
  -- Each host on the path can send its frame; the path is shorter than 2^31.
  pub Along-Knows : (y : States) (i n : ℕ) → n < 2 ^ 31 → Along y i n → Knows y i n
  Along-Knows y i n b (origin _ _ own) = inl own
  Along-Knows y i n b (told_to x e k a ready) =
      told_on x e k b ready (Along-Knows x e.from k (omega (arith, b)) a)
  Along-Knows y i n b (between x e _ _ a) = kept (Along-Knows x i n b a)
    where
      kept : Knows x i n → Knows (deliver s devs x e) i n
      kept (inl own) = inl own
      kept (inr c) = inr (deliver_keeps s devs x e i (at_hops n) c)
