-- ===== src/Comm/Routers.antt =====
-- The list of the other agents' routers: comm/handler.c builds and sends it, and `pma_list_handle` of
-- server/icm.c with `set_neighbor_agent_address` of router/interface.c takes it. An `int` is its 32
-- bits, four bytes with the lowest first.
pub mod Known
pub mod Transfer
use pma.Base.{
  ℕ, zero, suc, ◌+◌, ◌*◌, ◌/◌, ◌%◌, ◌^◌, Bool, ◌||◌, Option, none, some, List, [], ◌∷◌, ◌++◌,
  if◌then◌else◌, ◌==◌, ltb, length,
}
use pma.Base.Outcome.{Outcome, ok, crash, ◌>>=◌}

-- `struct router_list`; the list is without its head node.
pub record RouterEntry : Type 0 where
  pub devid : ℕ
  pub rid : ℕ
  pub ip_addr : ℕ

unfoldable pub find_router_by_id : ℕ → List RouterEntry → Option RouterEntry
find_router_by_id id [] = none
find_router_by_id id (t ∷ list) = if t.devid == id then some t else find_router_by_id id list

-- A known router only gets its new address.
unfoldable pub update_router : ℕ → ℕ → List RouterEntry → List RouterEntry
update_router devid ip_addr [] = []
update_router devid ip_addr (t ∷ list) =
    if t.devid == devid
    then record t { ip_addr = ip_addr } ∷ list
    else t ∷ update_router devid ip_addr list

unfoldable pub insert_router_list : ℕ → ℕ → ℕ → List RouterEntry → List RouterEntry
unfolding find_router_by_id update_router
insert_router_list devid rid ip_addr list = elim (find_router_by_id devid list) [
  | none ↦ record { devid = devid; rid = rid; ip_addr = ip_addr } ∷ list
  | some t ↦ update_router devid ip_addr list
]

-- An element PMA of the XML text, with the addresses that are found in it.
pub record PmaElement : Type 0 where
  pub id : ℕ
  pub router_id : Option ℕ
  pub agent_control_ip : Option ℕ

abbrev pub or_before : Option ℕ → ℕ → ℕ
or_before none before = before
or_before (some addr) before = addr

-- The loop of `process_neighbor_list`. An address that an element lacks is that of the element
-- before, and at first what the variable held.
unfoldable pub insert_neighbors : ℕ → ℕ → List PmaElement → List RouterEntry → List RouterEntry
unfolding insert_router_list
insert_neighbors router_addr ctl_addr [] list = list
insert_neighbors router_addr ctl_addr (e ∷ es) list =
    let router_addr' = or_before e.router_id router_addr in
    let ctl_addr' = or_before e.agent_control_ip ctl_addr in
    insert_neighbors router_addr' ctl_addr' es (insert_router_list e.id router_addr' ctl_addr' list)

abbrev pub bytes_of_int : ℕ → List ℕ
bytes_of_int n = n % 256 ∷ n / 256 % 256 ∷ n / 2 ^ 16 % 256 ∷ n / 2 ^ 24 % 256 ∷ []

abbrev pub copy_routers : List RouterEntry → List ℕ
copy_routers [] = []
copy_routers (t ∷ list) =
    bytes_of_int t.devid ++ (bytes_of_int t.rid ++ (bytes_of_int t.ip_addr ++ copy_routers list))

-- What `global_pma_buff` holds afterwards; `crash` is a write behind the 1024 bytes that are
-- allocated. NULL for the list changes nothing.
unfoldable pub save_router_list_to_xml : Option (List RouterEntry) → List ℕ → Outcome (List ℕ)
save_router_list_to_xml none buff = ok buff
save_router_list_to_xml (some list) buff =
    if ltb 1024 (length (copy_routers list)) then crash else ok (copy_routers list)

-- `struct neighbor` and `struct rinterface`, as far as `set_neighbor_agent_address` goes.
pub record IfNeighbor : Type 0 where
  pub devid : ℕ
  pub rid : ℕ
  pub agent_addr : ℕ

-- `get_interface` with Q_NID reads the neighbour of every interface: `crash` where one has none.
-- The first that fits is changed; the route that is added for it is not modelled.
unfoldable pub set_neighbor_agent_address :
    ℕ → ℕ → ℕ → List (Option IfNeighbor) → Outcome (List (Option IfNeighbor))
set_neighbor_agent_address devid rid addr [] = ok []
set_neighbor_agent_address devid rid addr (none ∷ iflist) = crash
set_neighbor_agent_address devid rid addr (some n ∷ iflist) =
    set_neighbor_agent_address devid rid addr iflist >>= λ rest. ok (
      if n.rid == rid
      then some (record n { devid = devid; agent_addr = addr }) ∷ iflist
      else some n ∷ rest)

abbrev pub int_of_bytes : ℕ → ℕ → ℕ → ℕ → ℕ
int_of_bytes a b c d = a + 256 * b + 2 ^ 16 * c + 2 ^ 24 * d

-- The `struct pma_list`s in the body of a packet; what is left over is not read, for `module_get_data`
-- of server/server.c has set `pkt_len` to the length without the header.
unfoldable pub pma_lists : List ℕ → List RouterEntry
pma_lists (a0 ∷ a1 ∷ a2 ∷ a3 ∷ b0 ∷ b1 ∷ b2 ∷ b3 ∷ c0 ∷ c1 ∷ c2 ∷ c3 ∷ rest) =
    record {
      devid = int_of_bytes a0 a1 a2 a3;
      rid = int_of_bytes b0 b1 b2 b3;
      ip_addr = int_of_bytes c0 c1 c2 c3;
    }
    ∷ pma_lists rest
pma_lists bytes = []

unfoldable pub set_all :
    List RouterEntry → List (Option IfNeighbor) → Outcome (List (Option IfNeighbor))
unfolding set_neighbor_agent_address
set_all [] iflist = ok iflist
set_all (t ∷ list) iflist =
    set_neighbor_agent_address t.devid t.rid t.ip_addr iflist >>= set_all list

-- `pma_list_handle`, before it starts the link detection.
unfoldable pub pma_list_handle :
    List ℕ → List (Option IfNeighbor) → Outcome (List (Option IfNeighbor))
unfolding pma_lists set_all
pma_list_handle data_bytes iflist = set_all (pma_lists data_bytes) iflist
