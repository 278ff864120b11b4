-- ===== src/Routing/Lookup.antt =====
-- The route that `get_next_hop` finds.
use ns_stack.Base.{
  ℕ, ◌≡◌, refl, sym, ap, ◌∙◌, subst, Bool, true, false, Option, none, some, List, [], ◌∷◌, ◌++◌,
  if◌then◌else◌,
}
use mathlib.Core.List.{Memᴰ}
use mathlib.Core.List.Memᴰ
use ns_stack.Routing.{RoutingEntry, Sorting, matches, backwards, first_match, hop_of, get_next_hop}

-- The outcome of a search of `l` from its end: no entry matches, or the last of those that do.
pub data LastMatch (dest : ℕ) (l : List RoutingEntry) : Option RoutingEntry → Type 0 where
  nothing : ((e : RoutingEntry) → Memᴰ e l → matches dest e ≡ false) → LastMatch dest l none
  last :
      (before : List RoutingEntry) (e : RoutingEntry) (after : List RoutingEntry)
      → l ≡ before ++ (e ∷ after)
      → matches dest e ≡ true
      → ((f : RoutingEntry) → Memᴰ f after → matches dest f ≡ false)
      → LastMatch dest l (some e)

or_else : Option RoutingEntry → Option RoutingEntry → Option RoutingEntry
or_else none p = p
or_else (some e) p = some e

or_else-if :
    (b : Bool) (e : RoutingEntry) (p q r : Option RoutingEntry)
    → r ≡ or_else p q
    → (if b then some e else r) ≡ or_else (if b then some e else p) q
unfolding or_else
or_else-if true e p q r h = refl
or_else-if false e p q r h = h

module _ (dest : ℕ) where
  first_match-append :
      (l m : List RoutingEntry)
      → first_match dest (l ++ m) ≡ or_else (first_match dest l) (first_match dest m)
  unfolding first_match or_else
  first_match-append [] m = refl
  first_match-append (e ∷ l) m =
      or_else-if (matches dest e) e (first_match dest l) (first_match dest m)
        (first_match dest (l ++ m)) (first_match-append l m)

  before_rest :
      (x : RoutingEntry) (l : List RoutingEntry) (o : Option RoutingEntry)
      → LastMatch dest l o
      → LastMatch dest (x ∷ l) (or_else o (first_match dest (x ∷ [])))
  unfolding first_match or_else
  before_rest x l o (last before e after q hit miss) =
      last (x ∷ before) e after (ap (◌∷◌ x) q) hit miss
  before_rest x l o (nothing miss) = go (matches dest x) refl
    where
      neither :
          matches dest x ≡ false → (f : RoutingEntry) → Memᴰ f (x ∷ l) → matches dest f ≡ false
      neither q f (Memᴰ.head p) = ap (matches dest) p ∙ q
      neither q f (Memᴰ.tail k) = miss f k

      go : (b : Bool) → matches dest x ≡ b → LastMatch dest (x ∷ l) (if b then some x else none)
      go true q = last [] x l refl q miss
      go false q = nothing (neither q)

  searched : (l : List RoutingEntry) → LastMatch dest l (first_match dest (backwards l))
  unfolding first_match
  searched [] = nothing (λ e m. elim m [ ])
  searched (x ∷ l) =
      subst (LastMatch dest (x ∷ l)) (sym (first_match-append (backwards l) (x ∷ [])))
        (before_rest x l (first_match dest (backwards l)) (searched l))

-- The result of `get_next_hop` on the entries of `l`, which `std::sort` puts in the order of `sorted`:
-- device -1 if no entry matches, and else the device and the hop of the last entry that does. The hop
-- of a direct entry is the destination.
pub data Routes (dest : ℕ) (l sorted : List RoutingEntry) (p : Option ℕ × ℕ) : Type 0 where
  unreachable :
      ((e : RoutingEntry) → Memᴰ e l → matches dest e ≡ false)
      → p ≡ (none, 0)
      → Routes dest l sorted p
  by_entry :
      (before : List RoutingEntry) (e : RoutingEntry) (after : List RoutingEntry)
      → Memᴰ e l
      → matches dest e ≡ true
      → sorted ≡ before ++ (e ∷ after)
      → ((f : RoutingEntry) → Memᴰ f after → matches dest f ≡ false)
      → p.0 ≡ e.device_id
      → (e.direct ≡ true → p.1 ≡ dest)
      → (e.direct ≡ false → p.1 ≡ e.next_hop)
      → Routes dest l sorted p

-- `get_next_hop` gives device -1 exactly where no entry of the two tables matches the destination. Else
-- it gives the device and the hop of an entry that does, the last in whatever order the sort has put
-- the entries of both tables in.
pub get_next_hop-Routes :
    (s : Sorting) (static dynamic : List RoutingEntry) (dest : ℕ)
    → Routes dest
        (static ++ dynamic)
        (s.sort (static ++ dynamic))
        (get_next_hop s static dynamic dest)
unfolding get_next_hop
get_next_hop-Routes s static dynamic dest =
    go (first_match dest (backwards sorted)) (searched dest sorted)
  where
    sorted : List RoutingEntry
    sorted = s.sort (static ++ dynamic)

    back : (e : RoutingEntry) → Memᴰ e sorted → Memᴰ e (static ++ dynamic)
    back e m = (s.keeps (static ++ dynamic) e).0 m

    go :
        (o : Option RoutingEntry)
        → LastMatch dest sorted o
        → Routes dest
            (static ++ dynamic)
            sorted
            (elim o [ none ↦ (none, 0) | some e ↦ hop_of dest e ])
    go o (nothing miss) = unreachable (λ e m. miss e ((s.keeps (static ++ dynamic) e).1 m)) refl
    go o (last before e after q hit miss) =
        by_entry before e after
          (back e (subst (Memᴰ e) (sym q) (Memᴰ.append_right before (Memᴰ.head refl)))) hit q miss
          refl (λ d. rw d refl) (λ d. rw d refl)
