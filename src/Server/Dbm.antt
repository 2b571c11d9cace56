-- ===== src/Server/Dbm.antt =====
-- When the database module computes paths: `spf_signal_handler`, `snapshoot_sender` and
-- `spf_cpt_timer_cancel` of server/dbm.c on the timers, and the end of `path_compute_start` of
-- ddc/ddc.c. A path computation is started by a timer, in a thread of its own, and ends by itself.
mod Slots
pub mod Steps
pub mod Debounce
use pma.Base.{
  ℕ, Bool, true, false, ◌&&◌, not, Option, none, some, List, [], ◌∷◌, ◌++◌, if◌then◌else◌, ◌==◌,
}
use pma.Base.Outcome.{Outcome, ok, crash, ◌>>=◌}
use pma.Timers.{TimerTable, Call, failed, set_timer, update_timer, unset_timer, exe_timer_callback}
use pma.Timers.Ticks.{count}

abbrev pub spf_hold_time : ℕ
spf_hold_time = 2

-- The callbacks, as numbers: `path_compute_start` and `send_all_snapshoot`.
abbrev pub path_compute_start : ℕ
path_compute_start = 1

abbrev pub send_all_snapshoot : ℕ
send_all_snapshoot = 2

-- The timers with the numbers of two of them, -1 as a `u32` for none, and `already_computed`.
pub record Dbm : Type 0 where
  pub timers : TimerTable
  pub spf_cpt_timer : ℕ
  pub snapshoot_timer : ℕ
  pub already_computed : Bool

abbrev pub initial_dbm : Dbm
initial_dbm = record {
  timers = record { timer_arr = []; max_timer_id = 0 };
  spf_cpt_timer = failed;
  snapshoot_timer = failed;
  already_computed = false;
}

abbrev pub set_spf_timer : Dbm → Dbm
set_spf_timer d =
    let (id, t) = set_timer spf_hold_time path_compute_start none d.timers in
    record d { timers = t; spf_cpt_timer = id }

unfoldable pub spf_signal_handler : Dbm → Outcome Dbm
spf_signal_handler d =
    if d.spf_cpt_timer == failed
    then ok (set_spf_timer d)
    else update_timer d.spf_cpt_timer d.timers >>= λ (r, t). ok (record d { timers = t })

-- The timer is never unset.
unfoldable pub snapshoot_sender : ℕ → Dbm → Dbm
snapshoot_sender snapshoot_timeval d =
    let (id, t) = set_timer snapshoot_timeval send_all_snapshoot none d.timers in
    if d.snapshoot_timer == failed then record d { timers = t; snapshoot_timer = id } else d

unfoldable pub spf_cpt_timer_cancel : Dbm → Outcome Dbm
spf_cpt_timer_cancel d =
    if d.already_computed && not (d.spf_cpt_timer == failed)
    then (unset_timer d.spf_cpt_timer d.timers >>= λ t.
        ok (record d { timers = t; spf_cpt_timer = failed }))
    else ok d

-- The end of `path_compute_start`.
unfoldable pub end_of_computation : Dbm → Outcome Dbm
unfolding spf_cpt_timer_cancel
end_of_computation d = spf_cpt_timer_cancel (record d { already_computed = true })

-- A second of the timer thread, with the number of computations that it starts.
unfoldable pub second : Dbm → Outcome (ℕ × Dbm)
second d = exe_timer_callback d.timers.timer_arr >>= λ (slots, calls).
    ok (count path_compute_start calls, record d { timers = record d.timers { timer_arr = slots } })

-- A packet OSPF_SPF, a packet ADDLSA, whose link goes into the database, a second, or the end of a
-- computation.
pub data DbmEvent : Type 0 where
  spf_signal : DbmEvent
  add_lsa : DbmEvent
  second_passed : DbmEvent
  path_computed : DbmEvent

-- What each second starts.
unfoldable pub on_dbm_event : ℕ → DbmEvent → Dbm → Outcome (List ℕ × Dbm)
unfolding spf_signal_handler snapshoot_sender end_of_computation second
on_dbm_event tv spf_signal d = spf_signal_handler d >>= λ d'. ok ([], d')
on_dbm_event tv add_lsa d = spf_signal_handler d >>= λ d'. ok ([], snapshoot_sender tv d')
on_dbm_event tv second_passed d = second d >>= λ (n, d'). ok (n ∷ [], d')
on_dbm_event tv path_computed d = end_of_computation d >>= λ d'. ok ([], d')

unfoldable pub run_dbm : ℕ → List DbmEvent → Dbm → Outcome (List ℕ × Dbm)
unfolding on_dbm_event
run_dbm tv [] d = ok ([], d)
run_dbm tv (e ∷ es) d =
    on_dbm_event tv e d >>= λ (now, d'). run_dbm tv es d' >>= λ (later, d''). ok (now ++ later, d'')
