-- ===== src/Routing/Allocation.antt =====
-- An order of `std::sort` on pointers: that of entries which lie in memory one behind the other.
use ns_stack.Routing.{Sorting}

abbrev pub as_allocated : Sorting
as_allocated = record { sort = λ l. l; keeps = λ l e. ((λ m. m), (λ m. m)) }
