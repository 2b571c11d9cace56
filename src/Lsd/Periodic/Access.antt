-- ===== src/Lsd/Periodic/Access.antt =====
-- What `ace_up_handler` of lsd/lsd_handler.c enters in the databases of the zones.
use pma.Base.{◌≡◌, refl, ◌≢◌, some, List, [], ◌∷◌, if◌then◌else◌, All, Option-cases, inl, inr}
use pma.Base.Outcome.{ok}
use pma.Lsdb.{Timeval, LinkStateKey, is_keys_equals, cr_lsdb_link_state_find}
use pma.Lsdb.Invariant.{IsValid}
use pma.Lsdb.Find.{add-total}
use pma.Lsdb.Update.{update-total}
use pma.Lsd.{Zone}
use pma.Lsd.Periodic.{
  AccessEth, LsdRouter, each_zone, access_key, access_link, access_up, ace_up_handler,
}

-- A zone of a numbered agent.
pub record IsNumbered (z : Zone) : Type 0 where
  pub valid : IsValid z.lsdb
  pub number : z.device_id ≢ 0

-- The zone with the entry of the access link in its database, and nothing else changed.
pub record Entered (now : Timeval) (e : AccessEth) (z z' : Zone) : Type 0 where
  pub valid : IsValid z'.lsdb
  pub finds :
      (k : LinkStateKey)
      → cr_lsdb_link_state_find k z'.lsdb ≡ (
          if is_keys_equals (access_key z e) k
          then some (access_link now z e)
          else cr_lsdb_link_state_find k z.lsdb)
  pub rest : z' ≡ record z { lsdb = z'.lsdb }

abbrev pub AllEntered : Timeval → AccessEth → List Zone → List Zone → Type 0
AllEntered now e [] [] = Unit
AllEntered now e (z ∷ zs) (z' ∷ zs') = Entered now e z z' × AllEntered now e zs zs'
AllEntered now e _ _ = ⊥

access_up-Entered :
    (now : Timeval) (e : AccessEth) (z : Zone)
    → IsNumbered z
    → (z' : Zone) × (access_up now e z ≡ ok z') × Entered now e z z'
unfolding access_up
access_up-Entered now e z h =
    elim (Option-cases (cr_lsdb_link_state_find (access_key z e) z.lsdb)) [
      | inl absent ↦
          let (db, run, v, f) = add-total (access_link now z e) z.lsdb h.valid h.number absent in
          (
            record z { lsdb = db },
            rw (absent, access_up, run) refl,
            record { valid = v; finds = f; rest = refl },
          )
      | inr (old, here) ↦
          let (db, run, v, f) = update-total (access_link now z e) old z.lsdb h.valid here in
          (
            record z { lsdb = db },
            rw (here, access_up, run) refl,
            record { valid = v; finds = f; rest = refl },
          )
    ]

each-Entered :
    (now : Timeval) (e : AccessEth) (zs : List Zone)
    → All IsNumbered zs
    → (zs' : List Zone) × (each_zone (access_up now e) zs ≡ ok zs') × AllEntered now e zs zs'
each-Entered now e [] h = ([], refl, tt)
each-Entered now e (z ∷ zs) h =
    let (z', run, a) = access_up-Entered now e z h.0 in
    let (zs', runs, as') = each-Entered now e zs h.1 in (z' ∷ zs', rw (run, runs) refl, (a, as'))

-- When an access interface changes its state, and the agent has a number other than 0 in every zone,
-- the daemon does not crash, and afterwards the database of every zone holds the access link with
-- state 0 and sequence number 0, whatever numbers it had; nothing else of a zone changes.
pub ace_up-AllEntered :
    (now : Timeval) (e : AccessEth) (r : LsdRouter)
    → All IsNumbered r.azs
    → (zs : List Zone) × (ace_up_handler now e r ≡ ok (record r { azs = zs }))
      × AllEntered now e r.azs zs
unfolding ace_up_handler
ace_up-AllEntered now e r h = let (zs, run, a) = each-Entered now e r.azs h in (zs, rw run refl, a)
