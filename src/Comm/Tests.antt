-- ===== src/Comm/Tests.antt =====
-- Two packets in pieces, a list of two routers, and the theorems at them.
use mathlib.Core.Option
use pma.Base.{ℕ, ◌≡◌, refl, true, none, some, List, [], ◌∷◌, ◌++◌, map, arith}
use pma.Base.Outcome.{Outcome, ok, ◌>>=◌}
use pma.Modules.{response, config, module_manager_init}
use pma.Comm.{Packet, Read, bytes, again, before_header, child_process, waiting}
use pma.Base.Arrays.{put}
use pma.Comm.Framing.{Message, all_reads, packet_of, handle_each, child_process-all_reads}
use pma.Comm.Pms.{Agent, got, encapsulate_normal_packet, recv_packet}
use pma.Comm.Pms.Pieces.{interrupts, recv_packet-encapsulate}
use pma.Comm.Dispatch.{register_output, BaseState, module_data_handle}
use pma.Comm.Dispatch.Quiet.{IsQuiet, child_process-IsQuiet}
use pma.Comm.Routers.{RouterEntry, IfNeighbor, save_router_list_to_xml, pma_list_handle}
use pma.Comm.Routers.Transfer.{first_with, known_to_all, pma_list_handle-save}

-- The handler keeps the bodies.
abbrev keep : Packet → List (List ℕ) → Outcome (List (List ℕ))
keep p s = ok (s ++ (p.body ∷ []))

abbrev two_messages : List Message
two_messages =
    record {
      pkt_type = 11;
      pkt_version = 1;
      checksum = (0, 0, 0, 0);
      pieces = (1 ∷ 2 ∷ []) ∷ (3 ∷ []) ∷ [];
    }
    ∷ record { pkt_type = 12; pkt_version = 1; checksum = (0, 0, 0, 0); pieces = [] }
    ∷ []

child_process-all_reads_example :
    child_process keep [] before_header (all_reads two_messages ++ (again ∷ [])) [] ≡ (
      handle_each keep [] (map packet_of two_messages) [] >>= λ s'.
      child_process keep [] before_header (again ∷ []) s')
child_process-all_reads_example =
    child_process-all_reads keep [] two_messages (again ∷ []) []
      ((omega arith, (omega arith, (omega arith, tt))), ((omega arith, tt), tt))

both_kept :
    child_process keep [] before_header (all_reads two_messages) []
    ≡ ok (waiting, (1 ∷ 2 ∷ 3 ∷ []) ∷ [] ∷ [])
unfolding child_process
both_kept = refl

-- The registration of ICM, and a link state that comes before a second module.
abbrev start : BaseState
start = record {
  registry = module_manager_init;
  router_list = none;
  global_pma_buff = [];
  outputs = [];
}

abbrev early : List Read
early =
    bytes (1 ∷ 1 ∷ 12 ∷ 0 ∷ 0 ∷ 0 ∷ 0 ∷ 0 ∷ [])
    ∷ bytes (1 ∷ 0 ∷ 0 ∷ 0 ∷ [])
    ∷ bytes (11 ∷ 1 ∷ 9 ∷ 0 ∷ 0 ∷ 0 ∷ 0 ∷ 0 ∷ [])
    ∷ bytes (7 ∷ [])
    ∷ again
    ∷ []

abbrev one_registered : BaseState
one_registered = record {
  registry = record {
    g_m_register_table =
        put module_manager_init.g_m_register_table 1 (record { m_id = 1; m_sockfd = 7 });
    bm_status = 1;
  };
  router_list = none;
  global_pma_buff = [];
  outputs = register_output (response 7 1) ∷ register_output (config 7 1) ∷ [];
}

early_run :
    child_process (module_data_handle (λ p s. true) (λ b. b) 7) [] before_header early start
    ≡ ok (waiting, one_registered)
unfolding child_process module_data_handle save_router_list_to_xml
early_run = refl

child_process-IsQuiet_example : IsQuiet one_registered
child_process-IsQuiet_example =
    child_process-IsQuiet (λ p s. true) (λ b. b) 7 [] before_header early start one_registered
      waiting early_run (omega arith) tt

abbrev two_routers : List RouterEntry
two_routers =
    record { devid = 5; rid = 300; ip_addr = 70000 }
    ∷ record { devid = 6; rid = 301; ip_addr = 70001 }
    ∷ []

abbrev two_neighbors : List IfNeighbor
two_neighbors =
    record { devid = 0; rid = 301; agent_addr = 0 }
    ∷ record { devid = 0; rid = 9; agent_addr = 0 }
    ∷ []

pma_list_handle-save_example :
    (sent : List ℕ) × (ns' : List IfNeighbor) × (save_router_list_to_xml (some two_routers) []
      ≡ ok sent)
    × (pma_list_handle sent (map some two_neighbors) ≡ ok (map some ns'))
    × ((rid : ℕ)
        → first_with rid ns' ≡ Option.map (known_to_all two_routers) (first_with rid two_neighbors))
pma_list_handle-save_example =
    pma_list_handle-save two_routers [] two_neighbors (omega arith) (omega arith)

abbrev agent : Agent
agent = record {
  version = 3;
  pma_id = 5;
  src_addr = 10 ∷ 0 ∷ 0 ∷ 1 ∷ [];
  dst_addr = 10 ∷ 0 ∷ 0 ∷ 2 ∷ [];
}

-- A packet with two bytes of data, in three pieces.
abbrev first_piece : List ℕ
first_piece = 78 ∷ 3 ∷ 0 ∷ 100 ∷ 0 ∷ 0 ∷ 0 ∷ 22 ∷ 0 ∷ []

abbrev other_pieces : List Read
other_pieces =
    bytes (0 ∷ 0 ∷ 5 ∷ 10 ∷ 0 ∷ 0 ∷ 1 ∷ 10 ∷ 0 ∷ 0 ∷ 2 ∷ []) ∷ again ∷ bytes (65 ∷ 66 ∷ []) ∷ []

recv_packet-encapsulate_example :
    recv_packet (interrupts 1) (bytes first_piece ∷ other_pieces)
    ≡ got 78 22 (encapsulate_normal_packet agent 78 (65 ∷ 66 ∷ []))
unfolding encapsulate_normal_packet
recv_packet-encapsulate_example =
    recv_packet-encapsulate agent 78 (65 ∷ 66 ∷ []) first_piece other_pieces 1 refl refl
      (omega arith) refl (omega arith) (omega arith, (tt, (omega arith, tt)))
