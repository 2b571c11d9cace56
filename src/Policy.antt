-- ===== src/Policy.antt =====
-- The policy table: policy/policy_table.c, policy/policy_table.h. An element says what to do with a
-- key that lies in its interval. A pointer to a table is `none` for NULL, and a return code is
-- `none` for -1.
pub mod Search
mod Tests
use Prim.Native.Nat.{bit_and}
use pma.Base.{
  ℕ, ◌+◌, ◌%◌, ◌^◌, Bool, true, false, ◌&&◌, Option, none, some, List, [], ◌∷◌, if◌then◌else◌, ◌==◌,
  leb, ltb, set, take, zero, suc,
}

-- `struct _policy_element`; `value` is an array of two.
pub record PolicyElement : Type 0 where
  pub version : ℕ
  pub operation : ℕ
  pub up_limit : ℕ
  pub lower_limit : ℕ
  pub value : ℕ × ℕ

-- `struct _policy_table`, with the elements that are allocated behind it.
pub record PolicyTable : Type 0 where
  pub policy_table_flag : ℕ
  pub policy_table_len : ℕ
  pub used_len : ℕ
  pub current_used_policy : ℕ
  pub p_element : List PolicyElement

abbrev pub policy_table_len : ℕ
policy_table_len = 20

abbrev pub policy_table_used : ℕ
policy_table_used = 0x00

-- Memory after `memset`.
abbrev pub blank_element : PolicyElement
blank_element = record { version = 0; operation = 0; up_limit = 0; lower_limit = 0; value = (0, 0) }

abbrev pub blanks : ℕ → List PolicyElement
blanks zero = []
blanks (suc n) = blank_element ∷ blanks n

unfoldable pub init_policy_table : PolicyTable → PolicyTable
init_policy_table p = record p {
  policy_table_flag = policy_table_used;
  policy_table_len = policy_table_len;
  used_len = 0;
  current_used_policy = 0;
}

-- The table that `g_pt` points to afterwards.
unfoldable pub policy_init : PolicyTable
unfolding init_policy_table
policy_init = init_policy_table (record {
  policy_table_flag = 0;
  policy_table_len = 0;
  used_len = 0;
  current_used_policy = 0;
  p_element = blanks policy_table_len;
})

unfoldable pub is_policy_init : Option PolicyTable → Option ℕ
is_policy_init none = none
is_policy_init (some p) =
    if bit_and p.policy_table_flag policy_table_used == policy_table_used then some 0 else none

-- Every field but the version is copied.
abbrev pub copy_element : PolicyElement → PolicyElement → PolicyElement
copy_element to from = record from { version = to.version }

-- The element at a place that is written, for which the C code takes a pointer.
abbrev pub copy_at : List PolicyElement → ℕ → PolicyElement → List PolicyElement
copy_at [] n e = []
copy_at (x ∷ xs) zero e = copy_element x e ∷ xs
copy_at (x ∷ xs) (suc n) e = x ∷ copy_at xs n e

unfoldable pub insert_policy_table :
    Option PolicyTable → PolicyElement → Option ℕ × Option PolicyTable
unfolding is_policy_init
insert_policy_table none e = (none, none)
insert_policy_table (some p) e = elim (is_policy_init (some p)) [
  | none ↦ (none, some p)
  | some r ↦ if leb p.policy_table_len p.used_len then (none, some p) else (
    some 0,
    some (record p { p_element = copy_at p.p_element p.used_len e; used_len = p.used_len + 1 }),
  )
]

-- The result of the insertion is not looked at.
unfoldable pub add_policy :
    Option PolicyTable → Option PolicyElement → Option ℕ × Option PolicyTable
unfolding insert_policy_table
add_policy (some p) (some e) = (some 0, (insert_policy_table (some p) e).1)
add_policy p e = (none, p)

-- The key, an `int`, is compared as an `unsigned int`; it is given by that value.
abbrev pub covers : ℕ → PolicyElement → Bool
covers key e = leb e.lower_limit key && ltb key e.up_limit

-- The loop, with the place that it has reached.
unfoldable pub find_element : ℕ → ℕ → List PolicyElement → Option ℕ
find_element key i [] = none
find_element key i (e ∷ es) = if covers key e then some i else find_element key (i + 1) es

abbrev pub or_zero : Option ℕ → Option ℕ
or_zero none = some 0
or_zero (some i) = some i

unfoldable pub find_policy_table : Option PolicyTable → ℕ → Option ℕ
unfolding is_policy_init find_element
find_policy_table none key = none
find_policy_table (some p) key = elim (is_policy_init (some p)) [
  | none ↦ none
  | some r ↦ or_zero (find_element key 0 (take p.used_len p.p_element))
]
