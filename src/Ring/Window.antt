-- ===== src/Ring/Window.antt =====
-- The elements of a ring buffer in order: the cells from the read index on, round the array's end.
use native.Mathlib.Decide.{dec_le}
use ns_stack.Base.{
  ℕ, zero, suc, ◌+◌, ◌≤◌, ◌<◌, ◌≡◌, refl, ap, ap₂, ◌∙◌, ◌⊎◌, Option, none, some, List, [], ◌∷◌,
  ◌++◌, append-nil, append_assoc, arith, length, get_elem?, set, take, drop, length-set,
  get_elem?-set_self, get_elem?-set_ne,
}
use ns_stack.Ring.{copy_at}
use ns_stack.Ring.Inv.{next_index}

-- A cell out of range gives nothing.
abbrev cons? {ℓ} : {A : Type ℓ} → Option A → List A → List A
cons? none xs = xs
cons? (some x) xs = x ∷ xs

-- `i` is the index `n` cells after `h`.
abbrev pub After : ℕ → ℕ → ℕ → ℕ → Type 0
After c h n i = (h + n ≡ i) ⊎ (h + n ≡ i + (c + 1))

-- `j` is the index `n` cells after `h`, moved to the start of the array if it is the array's end.
abbrev pub Wraps : ℕ → ℕ → ℕ → ℕ → Type 0
Wraps c h n j = ((h + n ≡ c + 1) × (j ≡ 0)) ⊎ ((h + n ≤ c) × (j ≡ h + n))

module _ {ℓ} {A : Type ℓ} where
  -- The `n` cells from index `h` on, in an array of `c + 1` cells.
  abbrev pub window : List A → ℕ → ℕ → ℕ → List A
  window buf c h zero = []
  window buf c h (suc n) = cons? (get_elem? buf h) (window buf c (next_index c h) n)

  pub drop_further :
      (buf : List A) (h : ℕ)
      → h < length buf
      → (a : A) × (get_elem? buf h ≡ some a) × (drop h buf ≡ a ∷ drop (suc h) buf)
  drop_further [] h lt = absurd (omega arith)
  drop_further (x ∷ buf) zero lt = (x, refl, refl)
  drop_further (x ∷ buf) (suc h) lt = drop_further buf h (omega arith)

  pub length-window :
      (buf : List A) (c h n : ℕ) → length buf ≡ c + 1 → h ≤ c → length (window buf c h n) ≡ n
  length-window buf c h zero e p = refl
  length-window buf c h (suc n) e p =
      let (a, at, _) = drop_further buf h (omega arith) in
      rw at (ap suc (length-window buf c (next_index c h) n e (ground arith)))

  -- Writing the cell after a window extends the window by what is written.
  window-set :
      (buf : List A) (c : ℕ) (x : A) (n h i : ℕ)
      → length buf ≡ c + 1
      → h ≤ c
      → n ≤ c
      → i ≤ c
      → After c h n i
      → window (set buf i x) c h (suc n) ≡ window buf c h n ++ (x ∷ [])
  window-set buf c x zero h i e ph pn pi w =
      let same : h ≡ i = omega arith in rw (same, get_elem?-set_self buf i x (omega arith))
  window-set buf c x (suc n) h i e ph pn pi w =
      let (a, at, _) = drop_further buf h (omega arith) in
      rw (get_elem?-set_ne buf {i = i} {j = h} x (λ (q : i ≡ h). omega arith), at)
        (ap (◌∷◌ a) (
          window-set buf c x n (next_index c h) i e (ground arith) (omega arith) pi (ground arith)))

  -- `memcpy` to the cells after a window extends the window by what is copied.
  pub window-copy_at :
      (xs buf : List A) (c n h i : ℕ)
      → length buf ≡ c + 1
      → h ≤ c
      → i + length xs ≤ c + 1
      → n + length xs ≤ c
      → After c h n i
      → (window (copy_at buf i xs) c h (n + length xs) ≡ window buf c h n ++ xs)
        × (length (copy_at buf i xs) ≡ c + 1)
  unfolding copy_at
  window-copy_at [] buf c n h i e ph pi pn w =
      (rw append-nil (ap (window buf c h) (omega arith)), e)
  window-copy_at (x ∷ xs) buf c n h i e ph pi pn w =
      let (ih, len) =
        window-copy_at xs (set buf i x) c (suc n) h (suc i) (length-set buf i x ∙ e) ph
          (omega arith) (omega arith) (omega arith) in
      (
        ap (window (copy_at (set buf i x) (suc i) xs) c h) (omega arith)
            ∙ ih
            ∙ ap (λ l. l ++ xs) (window-set buf c x n h i e ph (omega arith) (omega arith) w)
            ∙ append_assoc (window buf c h n) (x ∷ []) xs,
        len,
      )

  -- `memcpy` from the first cells of a window splits them off.
  pub window-split :
      (buf : List A) (c n h j k : ℕ)
      → length buf ≡ c + 1
      → h ≤ c
      → Wraps c h n j
      → window buf c h (n + k) ≡ take n (drop h buf) ++ window buf c j k
  window-split buf c zero h j k e ph w = ap₂ (window buf c) (omega arith) (omega arith)
  window-split buf c (suc n) h j k e ph w =
      let (a, at, d) = drop_further buf h (omega arith) in
      let sum : suc n + k ≡ suc (n + k) = omega arith in
      rw (sum, at, d)
        (ap (◌∷◌ a) (elim (dec_le (h + 1) c) [
          | yes p ↦
              let step : next_index c h ≡ suc h = ground arith in
              rw step (window-split buf c n (suc h) j k e (omega arith) (omega arith))
          | no p ↦
              let step : next_index c h ≡ j = ground arith in
              let none_left : n ≡ 0 = omega arith in
              rw (step, none_left) (ap (window buf c j) (omega arith))
        ]))
