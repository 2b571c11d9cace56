-- ===== src/Server/Dbm/Debounce.antt =====
-- When path computations start, against a countdown that each change starts again.
use pma.Base.{
  ℕ, ◌+◌, ◌*◌, ◌^◌, ◌≤◌, ◌<◌, ◌≡◌, refl, sym, Option, none, List, [], ◌∷◌, length, arith,
}
use pma.Base.Outcome.{ok}
use pma.Timers.{failed}
use pma.Server.Dbm.{
  Dbm, initial_dbm, snapshoot_sender, DbmEvent, spf_signal, add_lsa, second_passed, path_computed,
  on_dbm_event, run_dbm,
}
use pma.Server.Dbm.Steps.{
  countdown, run_countdown, IsAt, IsSnapshot, spf_signal_handler-IsAt, snapshoot_sender-IsAt,
  end_of_computation-IsAt, second-IsAt,
}

on_dbm_event-IsAt :
    (tv o : ℕ) (a : Option ℕ) (e : DbmEvent) (d : Dbm)
    → IsSnapshot o d
    → d.timers.max_timer_id + 2 < failed
    → IsAt o a d
    → (o' : ℕ) × (d' : Dbm) × (on_dbm_event tv e d ≡ ok ((countdown e a).0, d'))
      × IsAt o' (countdown e a).1 d'
      × IsSnapshot o' d'
      × (d'.timers.max_timer_id ≤ d.timers.max_timer_id + 2)
unfolding on_dbm_event
on_dbm_event-IsAt tv o a spf_signal d (few, first) fits h =
    let (d', e, h', m, s) = spf_signal_handler-IsAt o a d few (omega arith) h in
    (o, d', rw e refl, h', (few, λ no. first (rw (sym s) no)), omega arith)
on_dbm_event-IsAt tv o a add_lsa d (few, first) fits h =
    let (d', e, h', m, s) = spf_signal_handler-IsAt o a d few (omega arith) h in
    let (o', h'', s', m') =
      snapshoot_sender-IsAt tv o 2 d' (few, λ no. first (rw (sym s) no)) (omega arith) h' in
    (o', snapshoot_sender tv d', rw e refl, h'', s', omega arith)
on_dbm_event-IsAt tv o a second_passed d (few, first) fits h =
    let (n, d', e, c, h', m, s) = second-IsAt o a d h in
    (o, d', rw (e, c) refl, h', (few, λ no. first (rw (sym s) no)), omega arith)
on_dbm_event-IsAt tv o a path_computed d (few, first) fits h =
    let (d', e, h', m, s) = end_of_computation-IsAt o a d (omega arith) h in
    (o, d', rw e refl, h', (few, λ no. first (rw (sym s) no)), omega arith)

run_dbm-IsAt :
    (tv o : ℕ) (a : Option ℕ) (es : List DbmEvent) (d : Dbm)
    → IsSnapshot o d
    → d.timers.max_timer_id + 2 * length es < failed
    → IsAt o a d
    → (d' : Dbm) × (run_dbm tv es d ≡ ok (run_countdown es a, d'))
unfolding run_dbm
run_dbm-IsAt tv o a [] d s fits h = (d, refl)
run_dbm-IsAt tv o a (e ∷ es) d s fits h =
    let (o', d', f, h', s', m) = on_dbm_event-IsAt tv o a e d s (ground arith) h in
    let (d'', g) = run_dbm-IsAt tv o' (countdown e a).1 es d' s' (ground arith) h' in
    (d'', rw (f, g) refl)

-- From the start of the database module, fewer than 2^31 events of a change, a second, or the end of
-- a computation never crash its timers, and each second starts just the computations that the
-- countdown says: one when the last change is two seconds old, and another one every two seconds
-- until the end of one computation, which also forgets the changes since its start.
pub run_dbm-countdown :
    (tv : ℕ) (es : List DbmEvent)
    → length es < 2 ^ 31
    → (d : Dbm) × (run_dbm tv es initial_dbm ≡ ok (run_countdown es none, d))
run_dbm-countdown tv es few =
    run_dbm-IsAt tv 0 none es initial_dbm (omega arith, λ e. refl) (omega arith)
      (refl, tt, omega arith)
