-- ===== src/Utils/Tests.antt =====
-- A ring that is changed four times, and the theorems at them.
use pma.Base.{ℕ, ◌≡◌, refl, some, List, [], ◌∷◌, arith}
use pma.Utils.{Memory, cr_list_empty}
use pma.Utils.Ring.{IsRing}
use pma.Utils.Unlink.{is_nil}
use pma.Utils.Refinement.{Operation, run_memory, run_list, run_memory-refines, AreAllowed}

-- After `cr_init_list_head`.
abbrev ring : Memory
ring = record { next = λ p. 100; prev = λ p. 100 }

ring-IsRing : IsRing ring 100 []
ring-IsRing = record { linked = (refl, refl); distinct = (tt, tt) }

abbrev changes : List Operation
changes = Operation.add 5 ∷ Operation.add_tail 9 ∷ Operation.add_in_order 7 7 ∷ Operation.del 5 ∷ []

-- The key of a node is its address.
abbrev address : ℕ → ℕ
address p = p

allowed : AreAllowed 100 address changes []
allowed = (
  ((λ e. omega arith), tt),
  (
    ((λ e. omega arith), ((λ e. omega arith), tt)),
    (
      ((λ e. omega arith), ((λ e. omega arith), ((λ e. omega arith), tt))),
      (([], 7 ∷ 9 ∷ [], refl), tt),
    ),
  ),
)

left : run_list 100 address changes [] ≡ 7 ∷ 9 ∷ []
left = refl

run_memory-refines_example :
    (h' : Memory) × (run_memory 100 address 5 changes ring ≡ some h')
    × IsRing h' 100 (run_list 100 address changes [])
    × (cr_list_empty 100 h' ≡ is_nil (run_list 100 address changes []))
run_memory-refines_example =
    run_memory-refines 100 address 5 changes ring [] ring-IsRing allowed (omega arith)
