-- ===== src/Comm/Dispatch.antt =====
-- What the base module does with a packet of another module: `module_data_handle` and the table of
-- `interior_daemon_init` in comm/interior_daemon.c, and the handlers of comm/handler.c. A length is an
-- `int`; `crash` is a copy of a body whose length is below 0 to a module, or into a text. The
-- connection to the server is what `send_message_to_pms` is called with. `answered` is whether the
-- answer to a registration can be sent, which may change from one to the next.
pub mod Quiet
use pma.Base.{
  ℕ, ◌+◌, ◌*◌, ◌%◌, ◌^◌, Bool, true, false, ◌&&◌, not, Option, none, some, List, [], ◌∷◌, ◌++◌, map,
  if◌then◌else◌, ◌==◌, ltb, length,
}
use pma.Base.Outcome.{Outcome, ok, crash, ◌>>=◌}
use pma.Comm.{Packet, header_size, byte_at}
use pma.Comm.Control.{Ctl, create_ctl, add_ctl, run_ctl}
use pma.Comm.Routers.{RouterEntry, save_router_list_to_xml, int_of_bytes}
use pma.Modules.{
  ModuleRegister, Registry, Outgoing, handle_local_module_register, find_register_table_by_id, icm,
  dbm, pem, basemodule_check_status,
}

-- The handlers, by the packets they are for.
pub data Handler : Type 0 where
  local_module_register : Handler
  lsdb_snapshoot : Handler
  network_info : Handler
  add_lsa : Handler
  update_lsa : Handler
  add_route : Handler
  ospf_spf_signal : Handler
  send_policy : Handler
  route_table : Handler
  device_info : Handler
  ospf_interface : Handler
  bgp_interface : Handler
  traffice_info : Handler
  bgp_path_info : Handler

-- What the base module sends: for a registration, a packet to a module, or a message to the server.
pub data Output : Type 0 where
  register_output : Outgoing → Output
  to_module : ℕ → ℕ → List ℕ → Output
  to_pms : ℕ → ℕ → List ℕ → Output

-- The state of the base module that the handlers use, with what was sent.
pub record BaseState : Type 0 where
  pub registry : Registry
  pub router_list : Option (List RouterEntry)
  pub global_pma_buff : List ℕ
  pub outputs : List Output

abbrev pub adds : List (ℕ × Handler)
adds =
    (1, local_module_register)
    ∷ (22, lsdb_snapshoot)
    ∷ (21, network_info)
    ∷ (11, add_lsa)
    ∷ (12, update_lsa)
    ∷ (13, add_route)
    ∷ (31, ospf_spf_signal)
    ∷ (231, send_policy)
    ∷ (16, route_table)
    ∷ (15, device_info)
    ∷ (18, ospf_interface)
    ∷ (19, bgp_interface)
    ∷ (17, traffice_info)
    ∷ (20, bgp_path_info)
    ∷ []

-- An addition that fails changes nothing.
abbrev pub add_all : List (ℕ × Handler) → Ctl Handler → Outcome (Ctl Handler)
add_all [] c = ok c
add_all ((i, f) ∷ more) c =
    add_ctl c i f true >>= λ added. elim added [ none ↦ add_all more c | some c' ↦ add_all more c' ]

-- `module_handle` after `interior_daemon_init`.
unfoldable pub module_handle : Outcome (Ctl Handler)
module_handle = add_all adds (create_ctl 1024)

module _ (answered : Packet → BaseState → Bool) (to_xml : List ℕ → List ℕ) (fd : ℕ) where
  abbrev pub emit : Output → BaseState → Outcome BaseState
  emit o s = ok (record s { outputs = s.outputs ++ (o ∷ []) })

  -- `send_message_to_module` with the body of a packet, to the module that is found.
  unfoldable pub forward_to : Option ModuleRegister → ℕ → Packet → BaseState → Outcome BaseState
  forward_to none pkt_type p s = ok s
  forward_to (some e) pkt_type p s =
      if ltb p.pkt_len header_size then crash else emit (to_module e.m_sockfd pkt_type p.body) s

  unfoldable pub forward : ℕ → ℕ → Packet → BaseState → Outcome BaseState
  unfolding forward_to
  forward m_id pkt_type p s =
      forward_to (find_register_table_by_id m_id s.registry.g_m_register_table) pkt_type p s

  -- The length of the body, as the `unsigned int` that `send_message_to_pms` makes of it.
  abbrev pub body_len : Packet → ℕ
  body_len p = (p.pkt_len + 4294967288) % 2 ^ 32

  abbrev pub upload : ℕ → Packet → BaseState → Outcome BaseState
  upload ops p s = emit (to_pms ops (body_len p) p.body) s

  -- The number of a module: the first four bytes of the body, which are read behind a shorter one.
  abbrev pub module_id_of : Packet → ℕ
  module_id_of p =
      int_of_bytes (byte_at 0 p.body) (byte_at 1 p.body) (byte_at 2 p.body) (byte_at 3 p.body)

  -- The registration with the list of routers that ICM gets.
  abbrev pub register_with : Packet → List ℕ → BaseState → Outcome BaseState
  register_with p buff s =
      handle_local_module_register (answered p s) (not (length buff == 0)) (module_id_of p) fd
        s.registry
      >>= λ (r, sent). ok (record s {
        registry = r;
        global_pma_buff = buff;
        outputs = s.outputs ++ map register_output sent;
      })

  abbrev pub register_icm : Packet → BaseState → Outcome BaseState
  register_icm p s =
      save_router_list_to_xml s.router_list s.global_pma_buff >>= λ buff. register_with p buff s

  unfoldable pub register : Packet → BaseState → Outcome BaseState
  register p s =
      if ltb (length p.body) 4
      then crash
      else if answered p s && (module_id_of p == icm)
      then register_icm p s
      else register_with p s.global_pma_buff s

  -- `handle_route_table_ic_to_pms` packs the table into an XML text.
  abbrev pub upload_table : Packet → BaseState → Outcome BaseState
  upload_table p s =
      if ltb p.pkt_len header_size
      then crash
      else emit (to_pms 79 (length (to_xml p.body)) (to_xml p.body)) s

  unfoldable pub call : Handler → Packet → BaseState → Outcome BaseState
  unfolding forward register
  call local_module_register p s = register p s
  call lsdb_snapshoot p s = upload 78 p s
  call network_info p s = ok s
  call add_lsa p s = forward dbm p.pkt_type p s
  call update_lsa p s = forward dbm p.pkt_type p s
  call add_route p s = ok s
  call ospf_spf_signal p s = forward dbm 31 p s
  call send_policy p s = forward pem p.pkt_type p s
  call route_table p s = upload_table p s
  call device_info p s = upload 5 p s
  call ospf_interface p s = upload 9 p s
  call bgp_interface p s = upload 12 p s
  call traffice_info p s = upload 14 p s
  call bgp_path_info p s = upload 79 p s

  -- What `run_ctl` does with the handler that it finds.
  unfoldable pub call_found : Option Handler → Packet → BaseState → Outcome BaseState
  unfolding call
  call_found none p s = ok s
  call_found (some f) p s = call f p s

  unfoldable pub module_data_handle : Packet → BaseState → Outcome BaseState
  unfolding module_handle call_found
  module_data_handle p s =
      if not (basemodule_check_status s.registry) && not (p.pkt_type == 1)
      then ok s
      else (module_handle >>= λ c. run_ctl c p.pkt_type) >>= λ found. call_found found p s
