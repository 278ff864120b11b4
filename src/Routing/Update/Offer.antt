-- ===== src/Routing/Update/Offer.antt =====
-- What one new entry does to the distance vector.
use Prim.Native.Nat.{bit_and}
use ns_stack.Base.{
  ◌+◌, ◌%◌, ◌^◌, ◌≤◌, ◌≡◌, refl, sym, ap, subst, ◌∙◌, ◌↔◌, ◌⊎◌, inl, inr, Bool, true, false, Option,
  none, some, List, [], ◌∷◌, arith, if◌then◌else◌, Bool-cases, u32_mod,
}
use mathlib.Core.List.{Memᴰ}
use ns_stack.Routing.Update.{Learned, gt_int, same_subnet, find, erase, offer}

abbrev pub SameSubnet : Learned → Learned → Type 0
SameSubnet a b = (bit_and a.ip a.mask ≡ bit_and b.ip b.mask) × (a.mask ≡ b.mask)

-- `a` takes at most as many hops as `b`, as `int`s.
abbrev pub NoFarther : Learned → Learned → Type 0
NoFarther a b = (a.hops + 2 ^ 31) % u32_mod ≤ (b.hops + 2 ^ 31) % u32_mod

-- The vector has an entry for the subnet of `a` that is no farther.
pub record Covers (dv : List Learned) (a : Learned) : Type 0 where
  pub entry : Learned
  pub inside : Memᴰ entry dv
  pub same : SameSubnet entry a
  pub near : NoFarther entry a

same_subnet_iff : (a b : Learned) → (same_subnet a b ≡ true) ↔ SameSubnet a b
unfolding same_subnet
same_subnet_iff a b = ground arith

pub Covers-self : {dv : List Learned} (a : Learned) → Memᴰ a dv → Covers dv a
Covers-self a m = record { entry = a; inside = m; same = (refl, refl); near = omega arith }

pub Covers-trans :
    {dv dv' : List Learned} {a : Learned}
    → ((b : Learned) → Memᴰ b dv → Covers dv' b)
    → Covers dv a
    → Covers dv' a
Covers-trans keep c =
    let d = keep c.entry c.inside in
    record {
      entry = d.entry;
      inside = d.inside;
      same = (d.same.0 ∙ c.same.0, d.same.1 ∙ c.same.1);
      near = omega (arith, d, c);
    }

-- What `find` gives is in the vector and of the subnet, and `erase` takes out that entry only.
found-inside :
    (e : Learned) (dv : List Learned) (it : Learned)
    → find e dv ≡ some it
    → Memᴰ it dv × SameSubnet it e
unfolding find
found-inside e [] it h = cc
found-inside e (x ∷ dv) it h = elim (Bool-cases (same_subnet x e)) [
  | inl hit ↦
      let p : x ≡ it = ground arith in
      (Memᴰ.head (sym p), subst (λ y. SameSubnet y e) p ((same_subnet_iff x e).0 hit))
  | inr miss ↦ let (m, s) = found-inside e dv it (ground arith) in (Memᴰ.tail m, s)
]

left-inside :
    (e : Learned) (dv : List Learned) (a : Learned)
    → Memᴰ a dv
    → Memᴰ a (erase e dv) ⊎ (find e dv ≡ some a)
unfolding find erase
left-inside e [] a m = elim m [ ]
left-inside e (x ∷ dv) a m = elim (Bool-cases (same_subnet x e)) [
  | inl hit ↦ rw hit (here m)
  | inr miss ↦ rw miss (there m (left-inside e dv a))
]
  where
    here : Memᴰ a (x ∷ dv) → Memᴰ a dv ⊎ (◌≡◌ {A = Option Learned} (some x) (some a))
    here (Memᴰ.head p) = inr (ap some (sym p))
    here (Memᴰ.tail k) = inl k

    deeper :
        Memᴰ a (erase e dv) ⊎ (find e dv ≡ some a) → Memᴰ a (x ∷ erase e dv) ⊎ (find e dv ≡ some a)
    deeper (inl k) = inl (Memᴰ.tail k)
    deeper (inr q) = inr q

    there :
        Memᴰ a (x ∷ dv)
        → (Memᴰ a dv → Memᴰ a (erase e dv) ⊎ (find e dv ≡ some a))
        → Memᴰ a (x ∷ erase e dv) ⊎ (find e dv ≡ some a)
    there (Memᴰ.head p) ih = inl (Memᴰ.head p)
    there (Memᴰ.tail k) ih = deeper (ih k)

inside-left : (e : Learned) (dv : List Learned) (a : Learned) → Memᴰ a (erase e dv) → Memᴰ a dv
unfolding erase
inside-left e [] a m = elim m [ ]
inside-left e (x ∷ dv) a m = go (same_subnet x e) (inside-left e dv a) m
  where
    go :
        (b : Bool)
        → (Memᴰ a (erase e dv) → Memᴰ a dv)
        → Memᴰ a (if b then dv else x ∷ erase e dv)
        → Memᴰ a (x ∷ dv)
    go true ih k = Memᴰ.tail k
    go false ih (Memᴰ.head p) = Memᴰ.head p
    go false ih (Memᴰ.tail k) = Memᴰ.tail (ih k)

-- What offering an entry does: nothing is lost or farther than before, the entry is covered, nothing
-- else comes in, and the flag tells a change.
pub record Offers (new : Learned) (dv : List Learned) (out : List Learned × Bool) : Type 0 where
  pub keeps : (a : Learned) → Memᴰ a dv → Covers out.0 a
  pub reaches : Covers out.0 new
  pub sound : (a : Learned) → Memᴰ a out.0 → Memᴰ a dv ⊎ (a ≡ new)
  pub unchanged : out.1 ≡ false → out.0 ≡ dv

pub offer-Offers : (new : Learned) (dv : List Learned) → Offers new dv (offer new dv)
unfolding offer
offer-Offers new dv = go (find new dv) refl
  where
    added : (a : Learned) → Memᴰ a (new ∷ dv) → Memᴰ a dv ⊎ (a ≡ new)
    added a (Memᴰ.head p) = inr p
    added a (Memᴰ.tail m) = inl m

    replaced : (a : Learned) → Memᴰ a (new ∷ erase new dv) → Memᴰ a dv ⊎ (a ≡ new)
    replaced a (Memᴰ.head p) = inr p
    replaced a (Memᴰ.tail m) = inl (inside-left new dv a m)

    better :
        (it : Learned)
        → find new dv ≡ some it
        → gt_int it.hops new.hops ≡ true
        → (a : Learned) → Memᴰ a (erase new dv) ⊎ (find new dv ≡ some a)
        → Covers (new ∷ erase new dv) a
    better it q gt a (inl m) = Covers-self a (Memᴰ.tail m)
    better it q gt a (inr p) =
        let same : it ≡ a = ground (arith, q, p) in
        let (m, (i, j)) = found-inside new dv it q in
        subst (Covers (new ∷ erase new dv)) same (record {
          entry = new;
          inside = Memᴰ.head refl;
          same = (sym i, sym j);
          near = ground arith;
        })

    go : (o : Option Learned) → find new dv ≡ o → Offers new dv (offer new dv)
    go none q =
        rw (q, offer)
          (record {
            keeps = λ a m. Covers-self a (Memᴰ.tail m);
            reaches = Covers-self new (Memᴰ.head refl);
            sound = added;
            unchanged = λ h. cc;
          })
    go (some it) q = elim (Bool-cases (gt_int it.hops new.hops)) [
      | inl gt ↦
          rw (q, offer)
            (rw gt (record {
              keeps = λ a m. better it q gt a (left-inside new dv a m);
              reaches = Covers-self new (Memᴰ.head refl);
              sound = replaced;
              unchanged = λ h. cc;
            }))
      | inr le ↦
          let (m, same) = found-inside new dv it q in
          rw (q, offer)
            (rw le (record {
              keeps = λ a k. Covers-self a k;
              reaches = record { entry = it; inside = m; same = same; near = ground arith };
              sound = λ a k. inl k;
              unchanged = λ h. refl;
            }))
    ]
