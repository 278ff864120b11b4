-- ===== src/Routing/Static.antt =====
-- The static table: `add_static_routing_entry` keeps it without two entries for one device, destination
-- and mask.
use ns_stack.Base.{
  ℕ, ◌≡◌, ◌↔◌, refl, sym, ◌∙◌, subst, ◌⊎◌, inl, inr, true, false, Bool-cases, ◌&&◌, ◌==◌, Option,
  none, some, List, [], ◌∷◌, ◌++◌, arith,
}
use mathlib.Core.List.{Memᴰ}
use mathlib.Core.List.Memᴰ
use ns_stack.Routing.{RoutingEntry, Sorting, conflicts, add_static_routing_entry, same_id}

abbrev pub SameKey : RoutingEntry → RoutingEntry → Type 0
SameKey e f = (e.device_id ≡ f.device_id) × (e.dest ≡ f.dest) × (e.mask ≡ f.mask)

-- Entries of the table with the same device, destination and mask are the same.
abbrev pub IsKeyed : List RoutingEntry → Type 0
IsKeyed l = (e f : RoutingEntry) → Memᴰ e l → Memᴰ f l → SameKey e f → e ≡ f

same_id_iff : (a b : Option ℕ) → (same_id a b ≡ true) ↔ (a ≡ b)
same_id_iff none none = ground arith
same_id_iff none (some b) = ground arith
same_id_iff (some a) none = ground arith
same_id_iff (some a) (some b) = ground arith

conflicts-found :
    (new : RoutingEntry) (l : List RoutingEntry)
    → conflicts new l ≡ true
    → (e : RoutingEntry) × Memᴰ e l × SameKey e new
unfolding conflicts
conflicts-found new [] h = cc
conflicts-found new (x ∷ l) h =
    elim (Bool-cases
      (same_id x.device_id new.device_id && (x.dest == new.dest) && (x.mask == new.mask))) [
        | inl same ↦ (x, Memᴰ.head refl, ground (arith, same_id_iff x.device_id new.device_id))
        | inr other ↦ let (e, m, k) = conflicts-found new l (ground arith) in (e, Memᴰ.tail m, k)
      ]

conflicts-none :
    (new : RoutingEntry) (l : List RoutingEntry)
    → conflicts new l ≡ false
    → (e : RoutingEntry) → Memᴰ e l
    → ¬ SameKey e new
unfolding conflicts
conflicts-none new [] h e m k = elim m [ ]
conflicts-none new (x ∷ l) h e (Memᴰ.head p) k =
    let j : SameKey x new = subst (λ y. SameKey y new) p k in
    absurd (ground (arith, same_id_iff x.device_id new.device_id))
conflicts-none new (x ∷ l) h e (Memᴰ.tail m) k = absurd (conflicts-none new l (ground arith) e m k)

-- How the call ends, on the table `l`.
pub data Adds (l : List RoutingEntry) (new : RoutingEntry) (p : Option (List RoutingEntry))
    : Type 0 where
  refused : (e : RoutingEntry) → Memᴰ e l → SameKey e new → p ≡ none → Adds l new p
  added :
      (r : List RoutingEntry)
      → p ≡ some r
      → IsKeyed r
      → ((e : RoutingEntry) → Memᴰ e r ↔ (Memᴰ e l ⊎ (e ≡ new)))
      → Adds l new p

module _ (s : Sorting) (l : List RoutingEntry) (new : RoutingEntry) (keyed : IsKeyed l) where
  now : List RoutingEntry
  now = s.sort (l ++ (new ∷ []))

  elements : (e : RoutingEntry) → Memᴰ e now ↔ (Memᴰ e l ⊎ (e ≡ new))
  unfolding now
  elements e = (λ m. ends (Memᴰ.append_cases l ((s.keeps (l ++ (new ∷ [])) e).0 m)), back)
    where
      ends : Memᴰ e l ⊎ Memᴰ e (new ∷ []) → Memᴰ e l ⊎ (e ≡ new)
      ends (inl m) = inl m
      ends (inr (Memᴰ.head p)) = inr p
      ends (inr (Memᴰ.tail m)) = elim m [ ]

      back : Memᴰ e l ⊎ (e ≡ new) → Memᴰ e now
      back (inl m) = (s.keeps (l ++ (new ∷ [])) e).1 (Memᴰ.append_left (new ∷ []) m)
      back (inr p) = (s.keeps (l ++ (new ∷ [])) e).1 (Memᴰ.append_right l (Memᴰ.head p))

  now-IsKeyed : conflicts new l ≡ false → IsKeyed now
  now-IsKeyed h e f m k same = go ((elements e).0 m) ((elements f).0 k)
    where
      go : Memᴰ e l ⊎ (e ≡ new) → Memᴰ f l ⊎ (f ≡ new) → e ≡ f
      go (inl a) (inl b) = keyed e f a b same
      go (inl a) (inr q) = absurd (conflicts-none new l h e a (subst (SameKey e) q same))
      go (inr p) (inl b) =
          let (i, j, k) = subst (λ y. SameKey y f) p same in
          absurd (conflicts-none new l h f b (sym i, sym j, sym k))
      go (inr p) (inr q) = p ∙ sym q

  pub add_static_routing_entry-Adds : Adds l new (add_static_routing_entry s l new)
  unfolding add_static_routing_entry now
  add_static_routing_entry-Adds = elim (Bool-cases (conflicts new l)) [
    | inl bad ↦ let (e, m, k) = conflicts-found new l bad in rw bad (refused e m k refl)
    | inr good ↦ rw good (added now refl (now-IsKeyed good) elements)
  ]
