-- ===== src/Policy/Tests.antt =====
-- A policy table with two intervals, and the theorem at it.
use pma.Base.{ℕ, ◌≡◌, refl, ◌⊎◌, some, List, [], ◌∷◌, false, take, All}
use pma.Policy.{add_policy, PolicyElement, policy_init, find_policy_table, covers, policy_table_len}
use pma.Policy.Search.{add_all, add_all-find, IsFirst, contents}

abbrev between : ℕ → ℕ → PolicyElement
between low high = record {
  version = 1;
  operation = 2;
  up_limit = high;
  lower_limit = low;
  value = (3, 4);
}

abbrev two_policies : List PolicyElement
two_policies = between 0 10 ∷ between 10 20 ∷ []

add_all-find_example :
    ((i : ℕ) × IsFirst 15 (take policy_table_len (contents two_policies)) i
      × (find_policy_table (add_all two_policies (some policy_init)) 15 ≡ some i))
    ⊎ (All (λ e. covers 15 e ≡ false) (take policy_table_len (contents two_policies))
        × (find_policy_table (add_all two_policies (some policy_init)) 15 ≡ some 0))
add_all-find_example = add_all-find two_policies 15

second_found : find_policy_table (add_all two_policies (some policy_init)) 15 ≡ some 1
unfolding find_policy_table policy_init add_all add_policy
second_found = refl
