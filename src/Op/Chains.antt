-- ===== src/Op/Chains.antt =====
-- `Chain` of crates/inel-reactor/src/op/mod.rs against what the kernel makes of its flag: the entry
-- behind one with the flag starts only once that one has succeeded in full, and both are of one
-- chain.
use inel.Base.{List, [], ◌∷◌, ◌++◌, ◌≡◌, refl, true, if◌then◌else◌}
use inel.IoUring.{Entry}

-- The first chain of entries that are submitted in a row.
unfoldable pub chain_of : List Entry → List Entry
chain_of [] = []
chain_of (e ∷ es) = let rest = chain_of es in if e.linked then (e ∷ rest) else (e ∷ [])

-- Entries that are all linked take whatever is submitted next into their chain.
pub data AllLinked : List Entry → Type 0 where
  none : AllLinked []
  more : {e : Entry} {es : List Entry} → e.linked ≡ true → AllLinked es → AllLinked (e ∷ es)

pub chain_of-append :
    (es next : List Entry) → AllLinked es → chain_of (es ++ next) ≡ es ++ chain_of next
unfolding chain_of
chain_of-append [] next none = refl
chain_of-append (e ∷ es) next (more l all) = simp (l, chain_of-append es next all)
