-- ===== src/Routing/Update/Relax.antt =====
-- What a message does to the distance vector: a relaxation step of the Bellman-Ford algorithm.
use ns_stack.Base.{
  ℕ, ◌≡◌, refl, sym, subst, ◌∙◌, ◌⊎◌, inl, inr, Bool, true, false, Option, none, some, List, [],
  ◌∷◌, if◌then◌else◌,
}
use mathlib.Core.List.{Memᴰ}
use ns_stack.Routing.Distance.{DistanceEntry}
use ns_stack.Routing.Update.{Learned, learn, offer, update_one, update_all}
use ns_stack.Device.{Device, get_dev_from_subnet}
use ns_stack.Routing.Update.Offer.{Covers, Covers-self, Covers-trans, Offers, offer-Offers}

module _ (devs : List Device) (dev source : ℕ) where
  -- Entries for the host's own subnets are passed over.
  abbrev pub IsForeign : DistanceEntry → Type 0
  IsForeign e = get_dev_from_subnet devs e.ip e.mask ≡ none

  -- What the entries `es` of a message from `source` do to the vector `dv`.
  pub record Relaxes (es : List DistanceEntry) (dv : List Learned) (out : List Learned × Bool)
      : Type 0 where
    pub keeps : (a : Learned) → Memᴰ a dv → Covers out.0 a
    pub reaches : (e : DistanceEntry) → Memᴰ e es → IsForeign e → Covers out.0 (learn dev source e)
    pub sound :
        (a : Learned)
        → Memᴰ a out.0
        → Memᴰ a dv ⊎ ((e : DistanceEntry) × Memᴰ e es × IsForeign e × (a ≡ learn dev source e))
    pub unchanged : out.1 ≡ false → out.0 ≡ dv

  update_one-Relaxes :
      (e : DistanceEntry) (dv : List Learned)
      → Relaxes (e ∷ []) dv (update_one devs dev source dv e)
  unfolding update_one
  update_one-Relaxes e dv = go (get_dev_from_subnet devs e.ip e.mask) refl
    where
      own :
          (id : ℕ)
          → get_dev_from_subnet devs e.ip e.mask ≡ some id
          → (f : DistanceEntry) → Memᴰ f (e ∷ [])
          → IsForeign f
          → Covers dv (learn dev source f)
      own id q f (Memᴰ.head p) h =
          absurd (differ (subst (λ x. get_dev_from_subnet devs x.ip x.mask ≡ none) p h) q)
        where
          differ : {o : Option ℕ} → o ≡ none → o ≡ some id → ⊥
          differ a b = cc
      own id q f (Memᴰ.tail m) h = elim m [ ]

      only :
          Covers (offer (learn dev source e) dv).0 (learn dev source e)
          → (f : DistanceEntry) → Memᴰ f (e ∷ [])
          → Covers (offer (learn dev source e) dv).0 (learn dev source f)
      only x f (Memᴰ.head p) =
          subst (λ y. Covers (offer (learn dev source e) dv).0 (learn dev source y)) (sym p) x
      only x f (Memᴰ.tail m) = elim m [ ]

      from :
          get_dev_from_subnet devs e.ip e.mask ≡ none
          → (a : Learned) → Memᴰ a dv ⊎ (a ≡ learn dev source e)
          → Memᴰ a dv
            ⊎ ((f : DistanceEntry) × Memᴰ f (e ∷ []) × IsForeign f × (a ≡ learn dev source f))
      from q a (inl m) = inl m
      from q a (inr p) = inr (e, Memᴰ.head refl, q, p)

      go :
          (o : Option ℕ)
          → get_dev_from_subnet devs e.ip e.mask ≡ o
          → Relaxes (e ∷ []) dv (update_one devs dev source dv e)
      go (some id) q =
          rw (q, update_one)
            (record {
              keeps = λ a m. Covers-self a m;
              reaches = own id q;
              sound = λ a m. inl m;
              unchanged = λ h. refl;
            })
      go none q =
          let x : Offers (learn dev source e) dv (offer (learn dev source e) dv) =
            offer-Offers (learn dev source e) dv in
          rw (q, update_one)
            (record {
              keeps = x.keeps;
              reaches = λ f m h. only x.reaches f m;
              sound = λ a m. from q a (x.sound a m);
              unchanged = x.unchanged;
            })

  Relaxes-next :
      (e : DistanceEntry) (es : List DistanceEntry) (dv : List Learned)
      (mid out : List Learned × Bool)
      → Relaxes (e ∷ []) dv mid
      → Relaxes es mid.0 out
      → (out.1 ≡ false → mid.1 ≡ false)
      → Relaxes (e ∷ es) dv out
  Relaxes-next e es dv mid out x y quiet = record {
    keeps = λ a m. Covers-trans y.keeps (x.keeps a m);
    reaches = reaches;
    sound = λ a m. back a (y.sound a m);
    unchanged = λ h. y.unchanged h ∙ x.unchanged (quiet h);
  }
    where
      reaches :
          (f : DistanceEntry) → Memᴰ f (e ∷ es) → IsForeign f → Covers out.0 (learn dev source f)
      reaches f (Memᴰ.head p) h = Covers-trans y.keeps (x.reaches f (Memᴰ.head p) h)
      reaches f (Memᴰ.tail m) h = y.reaches f m h

      first :
          (a : Learned)
          → Memᴰ a dv
            ⊎ ((f : DistanceEntry) × Memᴰ f (e ∷ []) × IsForeign f × (a ≡ learn dev source f))
          → Memᴰ a dv
            ⊎ ((f : DistanceEntry) × Memᴰ f (e ∷ es) × IsForeign f × (a ≡ learn dev source f))
      first a (inl m) = inl m
      first a (inr (f, Memᴰ.head p, h, q)) = inr (f, Memᴰ.head p, h, q)
      first a (inr (f, Memᴰ.tail m, h, q)) = elim m [ ]

      back :
          (a : Learned)
          → Memᴰ a mid.0
            ⊎ ((f : DistanceEntry) × Memᴰ f es × IsForeign f × (a ≡ learn dev source f))
          → Memᴰ a dv
            ⊎ ((f : DistanceEntry) × Memᴰ f (e ∷ es) × IsForeign f × (a ≡ learn dev source f))
      back a (inl m) = first a (x.sound a m)
      back a (inr (f, m, h, q)) = inr (f, Memᴰ.tail m, h, q)

  stays_true :
      (es : List DistanceEntry) (dv : List Learned)
      → (update_all devs dev source es dv true).1 ≡ true
  unfolding update_all
  stays_true [] dv = refl
  stays_true (e ∷ es) dv =
      let mid : List Learned × Bool = update_one devs dev source dv e in
      subst (λ b. (update_all devs dev source es mid.0 b).1 ≡ true) (sym (always mid.1))
        (stays_true es mid.0)
    where
      always : (b : Bool) → (if b then true else true) ≡ true
      always true = refl
      always false = refl

  quiet_before :
      (es : List DistanceEntry) (dv : List Learned) (b updated : Bool)
      → (update_all devs dev source es dv (if b then true else updated)).1 ≡ false
      → b ≡ false
  quiet_before es dv true updated h = absurd (clash (stays_true es dv) h)
    where
      clash : {c : Bool} → c ≡ true → c ≡ false → ⊥
      clash p q = cc
  quiet_before es dv false updated h = refl

  -- A message relaxes the distance vector, whatever the flag `updated` was. No subnet that is in the
  -- vector is lost or gets farther; every entry of the message for a subnet that is not the host's
  -- own is covered, at one hop more than its sender says or nearer; nothing else comes in; and a
  -- result 0 means that the vector is as it was.
  pub update_all-Relaxes :
      (es : List DistanceEntry) (dv : List Learned) (updated : Bool)
      → Relaxes es dv (update_all devs dev source es dv updated)
  unfolding update_all
  update_all-Relaxes [] dv updated = record {
    keeps = λ a m. Covers-self a m;
    reaches = λ e m h. elim m [ ];
    sound = λ a m. inl m;
    unchanged = λ h. refl;
  }
  update_all-Relaxes (e ∷ es) dv updated =
      let mid : List Learned × Bool = update_one devs dev source dv e in
      Relaxes-next e es dv mid
        (update_all devs dev source es mid.0 (if mid.1 then true else updated))
        (update_one-Relaxes e dv) (update_all-Relaxes es mid.0 (if mid.1 then true else updated))
        (quiet_before es mid.0 mid.1 updated)
