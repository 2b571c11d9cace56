-- ===== src/Utils.antt =====
-- Utilities: utils/list.c and utils/list.h. A pointer is a number, 0 for NULL, and the memory that
-- the nodes lie in is the two fields of each.
pub mod Ini
mod Ring
mod Unlink
mod Ordered
mod Refinement
mod Tests
use pma.Base.{
  ℕ, zero, suc, Bool, true, false, ◌||◌, ◌&&◌, not, Option, none, some, if◌then◌else◌, ◌==◌, ltb,
}
use pma.Base.Arrays.{put}
use pma.Base.Outcome.{Outcome, ok, crash}

-- `struct cr_list_head`, at every address.
pub record Memory : Type 0 where
  pub next : ℕ → ℕ
  pub prev : ℕ → ℕ

abbrev pub set_next : ℕ → ℕ → Memory → Memory
set_next p v h = record h { next = put h.next p v }

abbrev pub set_prev : ℕ → ℕ → Memory → Memory
set_prev p v h = record h { prev = put h.prev p v }

-- The four assignments, in their order.
abbrev pub cr_list_add : ℕ → ℕ → Memory → Memory
cr_list_add node head h =
    let next = h.next head in
    set_prev next node (set_prev node head (set_next node next (set_next head node h)))

abbrev pub cr_list_add_tail : ℕ → ℕ → Memory → Memory
cr_list_add_tail node head h =
    let prev = h.prev head in
    set_next prev node (set_next node head (set_prev node prev (set_prev head node h)))

-- The `do` loop of `cr_list_add_in_order`, for at most so many turns; `none` when it goes on.
unfoldable pub find_in_order : ℕ → ℕ → ℕ → (ℕ → ℕ) → Memory → ℕ → Option ℕ
find_in_order zero head key v h ptr = none
find_in_order (suc fuel) head key v h ptr =
    let p = h.next ptr in
    let rest = find_in_order fuel head key v h p in
    if ltb (v p) key && not (p == head) then rest else some p

unfoldable pub cr_list_add_in_order : ℕ → ℕ → ℕ → ℕ → (ℕ → ℕ) → Memory → Option Memory
unfolding find_in_order
cr_list_add_in_order fuel node head key v h = elim (find_in_order fuel head key v h head) [
  | none ↦ none
  | some p ↦ some (cr_list_add_tail node p h)
]

abbrev pub cr_list_empty : ℕ → Memory → Bool
cr_list_empty head h = (h.next head == head) || (h.prev head == head)

-- `none` is CONTAINER_EMPTY_ERR.
abbrev pub cr_list_del : ℕ → Memory → Option Memory
cr_list_del entry h =
    if (h.next entry == entry) || (h.prev entry == entry)
    then none
    else let h1 = set_next (h.prev entry) (h.next entry) h in
      let h2 = set_prev (h1.next entry) (h1.prev entry) h1 in
      some (set_prev entry 0 (set_next entry 0 h2))

-- The nodes of a stack, and the `item` in each `struct stack_item`.
pub record StackItems : Type 0 where
  pub ptrs : Memory
  pub item : ℕ → ℕ

-- `crash` is a failed assert. `node` is the address that `malloc_z` returns.
unfoldable pub cr_stack_push : ℕ → ℕ → ℕ → StackItems → Outcome StackItems
cr_stack_push node item stack st =
    if (item == 0) || (stack == 0)
    then crash
    else ok (record { ptrs = cr_list_add node stack st.ptrs; item = put st.item node item })

-- The item, or 0 for NULL, and what is left.
unfoldable pub cr_stack_pop : ℕ → StackItems → Outcome (ℕ × StackItems)
cr_stack_pop stack st =
    let node = st.ptrs.next stack in
    if stack == 0 then crash else elim (cr_list_del node st.ptrs) [
      | none ↦ ok (0, st)
      | some ptrs' ↦ ok (st.item node, record st { ptrs = ptrs' })
    ]
