-- ===== src/Modules/Tests.antt =====
-- Modules that register, one of them again, and the theorems at them.
use pma.Base.{false, ℕ, ◌≡◌, refl, true, List, [], ◌∷◌, All}
use pma.Base.Outcome.{ok, ◌>>=◌}
use pma.Modules.{
  Registry, Outgoing, module_manager_init, wrong_id, find_register_table_by_id,
  handle_local_module_register, response, unset_config,
}
use pma.Modules.Register.{
  Registration, IsNamed, handle_all, connect_all, count_of, find_socket, handle_all-find_socket,
  handle_all-count_of,
}

abbrev from : ℕ → ℕ → Registration
from m_id m_sockfd = record { m_id = m_id; m_sockfd = m_sockfd; answered = true; has_list = true }

-- ICM comes again from another socket; 12 is no number of a module.
abbrev registrations : List Registration
registrations = from 1 7 ∷ from 3 8 ∷ from 12 9 ∷ from 1 10 ∷ []

registrations-IsNamed : All IsNamed registrations
registrations-IsNamed = (refl, (refl, (refl, (refl, tt))))

handle_all-find_socket_example :
    (r : Registry) × (handle_all registrations module_manager_init ≡ ok r)
    × ((m_id : ℕ)
        → wrong_id m_id ≡ false
        → find_register_table_by_id m_id r.g_m_register_table
          ≡ find_socket m_id (connect_all registrations (λ i. 0)))
handle_all-find_socket_example = handle_all-find_socket registrations registrations-IsNamed

handle_all-count_of_example :
    (r : Registry) × (handle_all registrations module_manager_init ≡ ok r)
    × (r.bm_status ≡ count_of (connect_all registrations (λ i. 0)))
handle_all-count_of_example =
    handle_all-count_of registrations registrations-IsNamed (refl, (refl, (refl, (refl, tt))))

two_counted : count_of (connect_all registrations (λ i. 0)) ≡ 2
two_counted = refl

sent_to : Registry × List Outgoing → List Outgoing
sent_to (r, sent) = sent

-- A module without a configuration gets a packet that nothing has set.
configures_nothing :
    (handle_local_module_register true true 4 6 module_manager_init >>= λ r. ok (sent_to r))
    ≡ ok (response 6 4 ∷ unset_config 6 ∷ [])
unfolding sent_to
configures_nothing = refl
