-- ===== src/Base/Alloc.antt =====
-- The outcomes of the calls of `malloc` and `realloc` to come: the first entry is what the next
-- call gives, and behind the last entry every call succeeds.
use mathlib.Core.Bool.{Bool, true}
use mathlib.Core.List.{List, [], ◌∷◌}

abbrev pub Memory : Type 0
Memory = List Bool

abbrev pub alloc : Memory → Bool × Memory
alloc [] = (true, [])
alloc (b ∷ m) = (b, m)
