-- ===== src/LowFragmentationHeap.antt =====
-- LowFragmentationHeap.h: the constructor, over the number of heaps that `GetProcessHeaps` returns. It
-- returns the number of all heaps also where the array of 100 is too short.
use iocp_chat_server.Base.{
  ℕ, zero, suc, ◌+◌, ◌≡◌, refl, Option, none, some, Bool, true, false, List, [], ◌∷◌, ltb,
  if◌then◌else◌, arith,
}

-- The rounds of the loop from this index on: the heaps that are set, or `none` for a read behind the
-- array.
unfoldable pub set_each : (rounds i : ℕ) → Option (List ℕ)
set_each zero i = some []
set_each (suc n) i =
    let rest = set_each n (i + 1) in
    if ltb i 100 then elim rest [ none ↦ none | some hs ↦ some (i ∷ hs) ] else none

-- The constructor, with the static `init` before and after.
unfoldable pub make : Bool → ℕ → Option (Bool × List ℕ)
unfolding set_each
make true count = some (true, [])
make false count = elim (set_each count 0) [ none ↦ none | some hs ↦ some (true, hs) ]

pub from : (rounds i : ℕ) → List ℕ
from zero i = []
from (suc n) i = i ∷ from n (i + 1)

set_each-from :
    (n i : ℕ)
    → set_each n i
      ≡ (if ltb 100 (n + i) then (if ltb 0 n then none else some []) else some (from n i))
unfolding set_each from
set_each-from zero i = ground arith
set_each-from (suc n) i = ground (arith, set_each-from n (i + 1))

-- A first construction sets each heap once, in order, if there are at most 100, and reads behind its
-- array otherwise; a later one does nothing.
pub make-once :
    (count later : ℕ)
    → (make false count ≡ (if ltb 100 count then none else some (true, from count 0)))
      × (make true later ≡ some (true, []))
unfolding make
make-once count later = (ground (arith, set_each-from count 0), refl)
