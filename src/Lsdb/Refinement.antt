-- ===== src/Lsdb/Refinement.antt =====
-- The database as a finite map from keys to link states, and that lsdb/lsdb_interface.c
-- implements it.
use pma.Base.{
  ◌≡◌, ◌∙◌, Option, none, some, List, [], ◌∷◌, if◌then◌else◌, ◌==◌, Bool-cases, Option-cases, inl,
  inr, ℕ, eqb→eq, arith, ap,
}
use pma.Base.Outcome.{Outcome, ok, crash, ◌>>=◌}
use pma.Lsdb.{
  LinkStateKey, LinkState, Lsdb, cr_lsdb_init, is_keys_equals, cr_lsdb_link_state_find,
  cr_lsdb_link_state_add, cr_lsdb_link_state_update, lsdb_link_state_find, find_router,
  lsdb_router_find,
}
use pma.Lsdb.Invariant.{IsValid}
use pma.Lsdb.Valid.{init-IsValid}
use pma.Lsdb.Find.{add-total, add-crash, update-crash}
use pma.Lsdb.Update.{update-total}

-- The abstract database.
abbrev pub Table : Type 0
Table = LinkStateKey → Option LinkState

abbrev pub put : LinkState → Table → Table
put s t k = if is_keys_equals s.key k then some s else t k

pub data Call : Type 0 where
  adds updates : LinkState → Call

-- What each call promises: an addition needs a new key of a router, an update a present one.
unfoldable pub spec_step : Call → Table → Outcome Table
spec_step (adds s) t =
    if s.key.rt_id == 0 then crash else elim (t s.key) [ none ↦ ok (put s t) | some old ↦ crash ]
spec_step (updates s) t = elim (t s.key) [ none ↦ crash | some old ↦ ok (put s t) ]

unfoldable pub code_step : Call → Lsdb → Outcome Lsdb
code_step (adds s) db = cr_lsdb_link_state_add s db
code_step (updates s) db = cr_lsdb_link_state_update s db

unfoldable pub spec_run : List Call → Table → Outcome Table
spec_run [] t = ok t
spec_run (c ∷ cs) t = spec_step c t >>= spec_run cs

unfoldable pub code_run : List Call → Lsdb → Outcome Lsdb
code_run [] db = ok db
code_run (c ∷ cs) db = code_step c db >>= code_run cs

abbrev pub Shows : Lsdb → Table → Type 0
Shows db t = IsValid db × ((k : LinkStateKey) → cr_lsdb_link_state_find k db ≡ t k)

abbrev pub Agrees : Outcome Lsdb → Outcome Table → Type 0
Agrees (ok db) (ok t) = Shows db t
Agrees crash crash = Unit
Agrees _ _ = ⊥

add-Agrees :
    (s : LinkState) (db : Lsdb) (t : Table)
    → Shows db t
    → Agrees (code_step (adds s) db) (spec_step (adds s) t)
unfolding code_step spec_step
add-Agrees s db t (v, f) = elim (Bool-cases (s.key.rt_id == 0)) [
  | inl z ↦ rw (add-crash s db (inl (eqb→eq _ _ z)), z) tt
  | inr nz ↦ elim (Option-cases (t s.key)) [
    | inl e ↦
        let (db', run, v', f') = add-total s db v (ground arith) (f s.key ∙ e) in
        rw (run, nz, e)
          (v', λ k. f' k ∙ ap (λ o. if is_keys_equals s.key k then some s else o) (f k))
    | inr (old, e) ↦ rw (add-crash s db (inr (old, f s.key ∙ e)), nz, e) tt
  ]
]

update-Agrees :
    (s : LinkState) (db : Lsdb) (t : Table)
    → Shows db t
    → Agrees (code_step (updates s) db) (spec_step (updates s) t)
unfolding code_step spec_step
update-Agrees s db t (v, f) = elim (Option-cases (t s.key)) [
  | inl e ↦ rw (update-crash s db (f s.key ∙ e), e, spec_step) tt
  | inr (old, e) ↦
      let (db', run, v', f') = update-total s old db v (f s.key ∙ e) in
      rw (run, e, spec_step)
        (v', λ k. f' k ∙ ap (λ o. if is_keys_equals s.key k then some s else o) (f k))
]

step-Agrees :
    (c : Call) (db : Lsdb) (t : Table) → Shows db t → Agrees (code_step c db) (spec_step c t)
step-Agrees (adds s) db t h = add-Agrees s db t h
step-Agrees (updates s) db t h = update-Agrees s db t h

bind-Agrees :
    (m : Outcome Lsdb) (n : Outcome Table) (f : Lsdb → Outcome Lsdb) (g : Table → Outcome Table)
    → Agrees m n
    → ((db : Lsdb) (t : Table) → Shows db t → Agrees (f db) (g t))
    → Agrees (m >>= f) (n >>= g)
bind-Agrees (ok db) (ok t) f g h k = k db t h
bind-Agrees (ok db) crash f g h k = absurd h
bind-Agrees crash (ok t) f g h k = absurd h
bind-Agrees crash crash f g h k = tt

run-Agrees :
    (cs : List Call) (db : Lsdb) (t : Table) → Shows db t → Agrees (code_run cs db) (spec_run cs t)
unfolding code_run spec_run
run-Agrees [] db t h = h
run-Agrees (c ∷ cs) db t h =
    bind-Agrees (code_step c db) (spec_step c t) (code_run cs) (spec_run cs) (step-Agrees c db t h)
      (run-Agrees cs)

find-init : (area : ℕ) (k : LinkStateKey) → cr_lsdb_link_state_find k (cr_lsdb_init area) ≡ none
unfolding cr_lsdb_link_state_find lsdb_link_state_find lsdb_router_find find_router cr_lsdb_init
find-init area k = ground arith

-- From an empty database, any sequence of `cr_lsdb_link_state_add` and `cr_lsdb_link_state_update`
-- crashes exactly where the abstract table refuses a call, and otherwise ends in a valid database
-- in which `cr_lsdb_link_state_find` finds what the table holds.
pub run-refines :
    (cs : List Call) (area : ℕ) → Agrees (code_run cs (cr_lsdb_init area)) (spec_run cs (λ k. none))
run-refines cs area =
    run-Agrees cs (cr_lsdb_init area) (λ k. none) (init-IsValid area, find-init area)
