-- ===== src/Modules.antt =====
-- The modules that register at the base module: mmanager/module_manager.c, and
-- `handle_local_module_register` of comm/handler.c with the functions of comm/interior_daemon.c that
-- it calls. An `int` is its 32 bits. The time of a registration, the texts on the terminal and the
-- pauses are not modelled.
mod Register
mod Tests
use pma.Base.{
  ℕ, ◌+◌, ◌^◌, Bool, true, false, ◌&&◌, ◌||◌, Option, none, some, List, [], ◌∷◌, ◌++◌,
  if◌then◌else◌, ◌==◌, leb, ltb,
}
use pma.Base.Outcome.{Outcome, ok, crash, ◌>>=◌}
use pma.Base.Arrays.{put}

-- `struct module_register_table`, an entry of the table.
pub record ModuleRegister : Type 0 where
  pub m_id : ℕ
  pub m_sockfd : ℕ

-- The table, and the number of modules that the base module counts.
pub record Registry : Type 0 where
  pub g_m_register_table : ℕ → ModuleRegister
  pub bm_status : ℕ

abbrev pub max_module_num : ℕ
max_module_num = 10

abbrev pub icm : ℕ
icm = 1

abbrev pub dbm : ℕ
dbm = 2

abbrev pub pem : ℕ
pem = 3

-- How many names `modlist` has.
abbrev pub modlist_names : ℕ
modlist_names = 6

-- `module_manager_init`, with the first value of `bm_status`.
abbrev pub module_manager_init : Registry
module_manager_init = record {
  g_m_register_table = λ i. record { m_id = 0; m_sockfd = 0 };
  bm_status = 0;
}

-- What `insert_register_table` returns: -1, 0 or 1.
pub data Registered : Type 0 where
  refused : Registered
  fresh : Registered
  known : Registered

-- `m_id <=0 || m_id >= MAX_MODULE_NUM`.
abbrev pub wrong_id : ℕ → Bool
wrong_id m_id = (m_id == 0) || leb max_module_num m_id

-- `m_sockfd <= 0`.
abbrev pub wrong_fd : ℕ → Bool
wrong_fd m_sockfd = (m_sockfd == 0) || leb (2 ^ 31) m_sockfd

-- `crash` is a read behind `modlist`.
abbrev pub insert_register_table :
    ℕ → ℕ → (ℕ → ModuleRegister) → Outcome (Registered × (ℕ → ModuleRegister))
insert_register_table m_id m_sockfd table =
    if wrong_id m_id || wrong_fd m_sockfd
    then ok (refused, table)
    else if leb modlist_names m_id
    then crash
    else ok (
      if (table m_id).m_id == m_id then known else fresh,
      put table m_id (record { m_id = m_id; m_sockfd = m_sockfd }),
    )

-- A pointer into the table is the entry.
abbrev pub find_register_table_by_id : ℕ → (ℕ → ModuleRegister) → Option ModuleRegister
find_register_table_by_id m_id table =
    if wrong_id m_id then none else if (table m_id).m_id == 0 then none else some (table m_id)

-- What leaves the base module: an answer, a configuration or a list to a socket, and its closing. An
-- `unset_config` is a packet whose type, length and body nothing sets.
pub data Outgoing : Type 0 where
  response : ℕ → ℕ → Outgoing
  config : ℕ → ℕ → Outgoing
  unset_config : ℕ → Outgoing
  pma_list : ℕ → Outgoing
  policy_list : ℕ → Outgoing
  closed : ℕ → Outgoing

abbrev pub send_message_to_module : ℕ → (ℕ → Outgoing) → (ℕ → ModuleRegister) → List Outgoing
send_message_to_module module_id message table = elim (find_register_table_by_id module_id table) [
  | none ↦ []
  | some e ↦ message e.m_sockfd ∷ []
]

abbrev pub send_config_to_module : ℕ → (ℕ → ModuleRegister) → List Outgoing
send_config_to_module module_id table =
    send_message_to_module module_id
      (λ fd.
        if (module_id == icm) || ((module_id == dbm) || (module_id == pem))
        then config fd module_id
        else unset_config fd)
      table

-- `if(!already_registered)bm_status++`, for the modules that the `switch` names.
abbrev pub count_module : Registered → ℕ → ℕ → ℕ
count_module fresh m_id bm_status =
    if (m_id == icm) || ((m_id == dbm) || (m_id == pem)) then bm_status + 1 else bm_status
count_module refused m_id bm_status = bm_status
count_module known m_id bm_status = bm_status

-- The lists that the `switch` sends; `has_list` when `global_pma_buff` is not empty.
abbrev pub send_lists : Bool → ℕ → (ℕ → ModuleRegister) → List Outgoing
send_lists has_list m_id table =
    if (m_id == icm) && has_list
    then send_message_to_module icm pma_list table
    else if m_id == dbm
    then send_message_to_module dbm policy_list table
    else []

-- The handler after the registration; `answered` unless `send_pkt` fails.
abbrev pub answer_register :
    Bool → Bool → ℕ → ℕ → ℕ → Registered × (ℕ → ModuleRegister) → Registry × List Outgoing
answer_register answered has_list m_id m_sockfd bm_status (already, table) =
    if answered
    then (
      record { g_m_register_table = table; bm_status = count_module already m_id bm_status },
      response m_sockfd m_id ∷ (send_config_to_module m_id table ++ send_lists has_list m_id table),
    )
    else (
      record { g_m_register_table = table; bm_status = bm_status },
      response m_sockfd m_id ∷ closed m_sockfd ∷ [],
    )

abbrev pub handle_local_module_register :
    Bool → Bool → ℕ → ℕ → Registry → Outcome (Registry × List Outgoing)
handle_local_module_register answered has_list m_id m_sockfd r =
    insert_register_table m_id m_sockfd r.g_m_register_table >>= λ i.
    ok (answer_register answered has_list m_id m_sockfd r.bm_status i)

-- Whether two of the modules have come.
abbrev pub basemodule_check_status : Registry → Bool
basemodule_check_status r = ltb 1 r.bm_status
