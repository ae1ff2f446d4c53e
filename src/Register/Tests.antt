-- ===== src/Register/Tests.antt =====
-- Concrete slot registers.
use inel.Base.{ℕ, refl, List, [], ◌∷◌, arith}
use inel.Register.{SlotRegister, new, get, remove, take_fresh}
use inel.Register.Lending.{Lent, remove-Lent, Reached, start, lends, takes_back, Reached-Lent}

abbrev slots : List ℕ → ℕ → SlotRegister
slots vacant len = record { vacant = vacant; len = len; size = 2 }

-- Slots 0 and 1 are given out, then 0 comes back and is given out again.
history : Reached 2 (slots [] 2) (0 ∷ 1 ∷ [])
unfolding new get remove take_fresh
history = lends 0 (takes_back (1 ∷ []) 0 [] (lends 1 (lends 0 start refl) refl) refl) refl

both-Lent : Lent (slots [] 2) (0 ∷ 1 ∷ [])
both-Lent = Reached-Lent (omega arith) history

Reached-Lent_example : Lent (slots [] 2) (0 ∷ 1 ∷ [])
Reached-Lent_example = Reached-Lent (omega arith) history

one_back : Lent (slots (0 ∷ []) 2) (1 ∷ [])
unfolding remove
one_back = remove-Lent (slots [] 2) [] 0 (1 ∷ []) both-Lent
