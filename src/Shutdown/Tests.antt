-- ===== src/Shutdown/Tests.antt =====
-- The three clean-ups of the stack, given in the order in which a client meets them, and the theorem on
-- their order at them. The state is the list of what ran.
use ns_stack.Base.{ℕ, List, ◌∷◌}
use ns_stack.Shutdown.{CleanUp, link_recving, tcp_recving, ip_sending}

abbrev noted : ℕ → CleanUp (List ℕ)
noted p = record { priority = p; func = λ t. p ∷ t }

abbrev link : CleanUp (List ℕ)
link = noted link_recving

abbrev tcp : CleanUp (List ℕ)
tcp = noted tcp_recving

abbrev ip : CleanUp (List ℕ)
ip = noted ip_sending
