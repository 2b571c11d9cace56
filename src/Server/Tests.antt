-- ===== src/Server/Tests.antt =====
-- The database module, which logs in after a failed connection, or at once, and its timers, with the
-- theorems at them.
use pma.Base.{◌==◌, ℕ, ◌≡◌, refl, Bool, true, false, Option, none, some, List, [], ◌∷◌, arith}
use pma.Base.Arrays.{put}
use pma.Comm.{Packet}
use pma.Comm.Control.{Ctl}
use pma.Server.{Callback, ack_handle, own_handler, Client, stopped, module_start, run}
use pma.Server.Guard.{run-IsGuarded}
use pma.Server.Keeps.{Holds, is_guarded, elem}
use pma.Base.Outcome.{ok}
use pma.Server.Dbm.{
  Dbm, initial_dbm, run_dbm, DbmEvent, spf_signal, add_lsa, second_passed, path_computed,
}
use pma.Server.Dbm.Steps.{run_countdown}
use pma.Server.Dbm.Debounce.{run_dbm-countdown}
use pma.Server.Login.{module_start-login}
use pma.Server.Receipt.{Message, all_reads, types_of, handle_all, connected}

-- Answers, link states and the configuration have handlers.
abbrev table : Ctl Callback
table = record {
  trigger =
      put (put (put (λ i. none) 4 (some ack_handle)) 11 (some own_handler)) 56 (some own_handler);
  flag = put (put (put (λ i. false) 4 true) 11 true) 56 true;
  size = 1024;
}

-- The handlers keep the types of their packets.
abbrev keep : Packet → List ℕ → List ℕ × List (Option ℕ)
keep p h = (p.pkt_type ∷ h, [])

abbrev ack : Message
ack = record { pkt_type = 4; body = 2 ∷ 0 ∷ 0 ∷ 0 ∷ 0 ∷ 0 ∷ 0 ∷ 0 ∷ 49 ∷ [] }

abbrev conf : Message
conf = record { pkt_type = 56; body = 7 ∷ 0 ∷ [] }

abbrev link_state : Message
link_state = record { pkt_type = 11; body = 1 ∷ [] }

abbrev client : List (Bool × Option ℕ) → List Message → Client (List ℕ)
client attempts messages = record {
  module_status = 0;
  con_status = 0;
  attempts = attempts;
  recvs = all_reads messages;
  called = [];
  own = [];
}

-- The link state in front of the configuration is not handled.
early_link_state :
    run 2 56 table keep [] 20 module_start
      (client ((true, none) ∷ []) (ack ∷ link_state ∷ conf ∷ link_state ∷ []))
    ≡ stopped (connected 6 [] [] (11 ∷ 56 ∷ 4 ∷ []) (11 ∷ 56 ∷ []))
unfolding run
early_link_state = refl

run-IsGuarded_example :
    Holds
      (λ t.
        (is_guarded 56 t.called ≡ true) × ((t.module_status == 6) ≡ true → elem 56 t.called ≡ true))
      (run 2 56 table keep [] 20 module_start
        (client ((false, none) ∷ (true, none) ∷ []) (ack ∷ link_state ∷ conf ∷ [])))
run-IsGuarded_example =
    run-IsGuarded 2 56 table keep [] 20
      (client ((false, none) ∷ (true, none) ∷ []) (ack ∷ link_state ∷ conf ∷ [])) refl refl

module_start-login_example :
    run 2 56 table keep [] 9 module_start
      (client ((true, none) ∷ []) (ack ∷ conf ∷ link_state ∷ []))
    ≡ stopped (
        connected 6 [] []
          (types_of (ack ∷ conf ∷ link_state ∷ []) [])
          (handle_all keep (conf ∷ link_state ∷ []) []))
module_start-login_example =
    module_start-login 2 56 table keep [] (λ p h. tt) ack conf (link_state ∷ []) 0 [] []
      (2, 0, 0, 0, 49 ∷ [], refl, refl) refl refl (omega arith, refl) ((omega arith, refl), tt)

-- A change in the last second before a computation, and one while it runs, which is lost.
abbrev changes : List DbmEvent
changes =
    spf_signal ∷ second_passed ∷ add_lsa ∷ second_passed ∷ second_passed ∷ spf_signal
    ∷ path_computed ∷ second_passed ∷ second_passed ∷ []

one_computation : run_countdown changes none ≡ 0 ∷ 0 ∷ 1 ∷ 0 ∷ 0 ∷ []
one_computation = refl

run_dbm-countdown_example :
    (d : Dbm) × (run_dbm 60 changes initial_dbm ≡ ok (run_countdown changes none, d))
run_dbm-countdown_example = run_dbm-countdown 60 changes (omega arith)
