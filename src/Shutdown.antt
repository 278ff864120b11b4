-- ===== src/Shutdown.antt =====
-- src/gracefully_shutdown.cc with src/includes/gracefully_shutdown.h: the functions that run at exit, in
-- the order of their priorities. A function takes the state of the process to the one after it; the
-- priorities are those of the header, none of them negative; `std::sort` is a parameter.
pub mod Order
pub mod Insertion
mod Tests
use ns_stack.Base.{
  ℕ, zero, suc, ◌+◌, ◌-◌, ◌*◌, ◌/◌, ◌%◌, ◌^◌, ◌≤◌, ◌<◌, min, ◌≡◌, ◌≢◌, refl, sym, ap, ap₂, subst,
  ◌∙◌, ◌↔◌, ◌⊎◌, inl, inr, Bool, true, false, not, ◌&&◌, ◌||◌, Option, none, some, List, [], ◌∷◌,
  ◌++◌, map, append-nil, append_assoc, arith, ltb, leb, ◌==◌, if◌then◌else◌, Bool-cases, length,
  get_elem?, set, take, drop, replicate, All, length-append, u16_mod, u32_mod, add16, add32, ==_iff,
}
use mathlib.Core.List.{Memᴰ, Permᴰ}

abbrev pub link_recving : ℕ
link_recving = 0

abbrev pub tcp_recving : ℕ
tcp_recving = 200

abbrev pub ip_sending : ℕ
ip_sending = 400

module _ (W : Type 0) where
  pub record CleanUp : Type 0 where
    pub priority : ℕ
    pub func : W → W

  -- No function stands before one with a smaller priority.
  abbrev pub IsSorted : List CleanUp → Type 0
  IsSorted [] = Unit
  IsSorted (x ∷ l) = ((f : CleanUp) → Memᴰ f l → x.priority ≤ f.priority) × IsSorted l

  -- What is used of `std::sort`: it puts the elements in order.
  pub record Sorting : Type 0 where
    pub sort : List CleanUp → List CleanUp
    pub ordered : (l : List CleanUp) → IsSorted (sort l)
    pub permutes : (l : List CleanUp) → Permᴰ (sort l) l

  -- `init`, how often `std::atexit` was called, and `clean_up_funcs`.
  pub record Exit : Type 0 where
    pub init : Bool
    pub handlers : ℕ
    pub clean_up_funcs : List CleanUp

  abbrev pub nothing : Exit
  nothing = record { init = false; handlers = 0; clean_up_funcs = [] }

  unfoldable pub add_exit_clean_up : CleanUp → Exit → Exit
  add_exit_clean_up f e = record {
    init = true;
    handlers = if e.init then e.handlers else e.handlers + 1;
    clean_up_funcs = e.clean_up_funcs ++ (f ∷ []);
  }

  -- The calls of a run of the program, one after the other.
  unfoldable pub add_all : List CleanUp → Exit → Exit
  unfolding add_exit_clean_up
  add_all [] e = e
  add_all (f ∷ fs) e = add_all fs (add_exit_clean_up f e)

  unfoldable pub run_all : List CleanUp → W → W
  run_all [] w = w
  run_all (f ∷ fs) w = run_all fs (f.func w)

  -- The handler that `std::atexit` was given.
  unfoldable pub at_exit : Sorting → Exit → W → W
  unfolding run_all
  at_exit s e w = run_all (s.sort e.clean_up_funcs) w
