-- ===== src/Shutdown/Order.antt =====
-- The order of the functions at exit does not depend on the order in which they were given.
use ns_stack.Base.{◌<◌, ◌≢◌, ◌∙◌, List, [], ◌∷◌}
use mathlib.Core.List.Permᴰ
use mathlib.Core.List.{Memᴰ, Permᴰ}
use ns_stack.Shutdown.{CleanUp}

module _ {W : Type 0} where
  pub moved : {a b : List (CleanUp W)} (e : CleanUp W) → Permᴰ a b → Memᴰ e a → Memᴰ e b
  moved e Permᴰ.nil m = m
  moved e (Permᴰ.cons q p) (Memᴰ.head h) = Memᴰ.head (h ∙ q)
  moved e (Permᴰ.cons q p) (Memᴰ.tail m) = Memᴰ.tail (moved e p m)
  moved e (Permᴰ.swap q r) (Memᴰ.head h) = Memᴰ.tail (Memᴰ.head (h ∙ q))
  moved e (Permᴰ.swap q r) (Memᴰ.tail (Memᴰ.head h)) = Memᴰ.head (h ∙ r)
  moved e (Permᴰ.swap q r) (Memᴰ.tail (Memᴰ.tail m)) = Memᴰ.tail (Memᴰ.tail m)
  moved e (Permᴰ.trans p q) m = moved e q (moved e p m)

  -- The priorities rise.
  abbrev pub IsRising : List (CleanUp W) → Type 0
  IsRising [] = Unit
  IsRising (x ∷ l) = ((f : CleanUp W) → Memᴰ f l → x.priority < f.priority) × IsRising l

  -- No priority occurs twice.
  abbrev IsApart : List (CleanUp W) → Type 0
  IsApart [] = Unit
  IsApart (x ∷ l) = ((f : CleanUp W) → Memᴰ f l → f.priority ≢ x.priority) × IsApart l
