-- ===== src/Lsdb/Tests.antt =====
-- Small databases, and the theorems at them.
use pma.Base.{ℕ, ◌≡◌, refl, none, some, [], ◌∷◌, ◌++◌}
use pma.Base.Outcome.{ok, crash}
use pma.Lsdb.{
  LinkState, Lsdb, post, add_lsa, cr_lsdb_init, lsdb_link_state_add, cr_lsdb_link_state_find,
  cr_lsdb_link_state_add, cr_lsdb_link_state_update,
}
use pma.Lsdb.Refinement.{adds, updates, spec_run, code_run, Agrees, run-refines}
use pma.Lsdb.Traverse.{cr_lsdb_get_links_state}
use pma.Lsdb.Copies.{add_all, get_links_state-add_all}
use pma.Lsdb.Valid.{init-IsValid}

abbrev link : ℕ → ℕ → ℕ → LinkState
link a b n = record {
  key = record { rt_id = a; if_id = 1; n_rt_id = b; n_if_id = 2 };
  addr = 9;
  metric = 10;
  state = 3;
  seq = n;
  age = record { tv_sec = 100; tv_usec = 0 };
}

abbrev two_links : Lsdb
two_links = lsdb_link_state_add (link 8 0 5) (lsdb_link_state_add (link 7 8 4) (cr_lsdb_init 1))

finds_second : cr_lsdb_link_state_find (link 7 8 0).key two_links ≡ some (link 7 8 4)
unfolding cr_lsdb_link_state_find lsdb_link_state_add cr_lsdb_init
finds_second = refl

abbrev two_added : Lsdb
two_added = lsdb_link_state_add (link 8 0 5) (
    post add_lsa (link 8 0 5)
      (lsdb_link_state_add (link 7 8 4) (post add_lsa (link 7 8 4) (cr_lsdb_init 1))))

both_added : add_all (link 7 8 4 ∷ link 8 0 5 ∷ []) (cr_lsdb_init 1) ≡ ok two_added
unfolding add_all cr_lsdb_link_state_add lsdb_link_state_add cr_lsdb_init
both_added = refl

run-refines_example :
    Agrees
      (code_run (adds (link 7 8 4) ∷ updates (link 7 8 5) ∷ []) (cr_lsdb_init 1))
      (spec_run (adds (link 7 8 4) ∷ updates (link 7 8 5) ∷ []) (λ k. none))
run-refines_example = run-refines (adds (link 7 8 4) ∷ updates (link 7 8 5) ∷ []) 1

get_links_state-add_all_example :
    cr_lsdb_get_links_state two_added
    ≡ (0, (cr_lsdb_get_links_state (cr_lsdb_init 1)).1 ++ link 7 8 4 ∷ link 8 0 5 ∷ [])
get_links_state-add_all_example =
    get_links_state-add_all (link 7 8 4 ∷ link 8 0 5 ∷ []) (cr_lsdb_init 1) two_added
      (init-IsValid 1) both_added

-- A second addition of a key, and an update of an absent one, crash.
add_again : cr_lsdb_link_state_add (link 7 8 6) two_links ≡ crash
unfolding cr_lsdb_link_state_add lsdb_link_state_add cr_lsdb_init
add_again = refl

update_absent : cr_lsdb_link_state_update (link 9 8 6) two_links ≡ crash
unfolding cr_lsdb_link_state_update lsdb_link_state_add cr_lsdb_init
update_absent = refl
