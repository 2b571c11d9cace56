-- ===== src/Lsd/Accept/Total.antt =====
-- What `accept_lsa_into_lsdb` does on every path (lsd/lsd_utils.c).
use pma.Base.{
  ℕ, ◌≡◌, refl, ◌≢◌, Bool, true, false, ◌||◌, Option, none, some, List, if◌then◌else◌, ◌==◌, ltb,
  arith, Bool-cases, Option-cases, inl, inr, eqb→eq,
}
use pma.Base.Outcome.{ok}
use pma.Lsdb.{Lsdb, Timeval, LinkStateKey, LinkState, is_keys_equals, cr_lsdb_link_state_find}
use pma.Lsdb.Invariant.{IsValid}
use pma.Lsdb.Find.{add-total, find-key}
use pma.Lsdb.Update.{update-total}
use pma.Lsd.{Lsa, BackboneEth, Zone}
use pma.Lsd.Flood.{flood_add_flood_lsa, flood_lsa_forward, forward}
use pma.Lsd.Accept.{
  accept_lsa_into_lsdb, accept_known, check_local_lsdb, link_state_compare, greater, equal, less,
  is_out_of_date, lsa_to_lsdb_info, flood_back, at_eth, lsdb_to_lsa_info,
}

-- Whether the advertisement replaces what the database holds.
abbrev pub better : Timeval → Lsa → Option LinkState → Bool
better now l none = true
better now l (some old) = is_out_of_date now old || ltb old.seq l.seq

abbrev pub installs : Timeval → Lsa → Zone → Bool
installs now l z =
    if l.key.rt_id == z.r_id then false else better now l (cr_lsdb_link_state_find l.key z.lsdb)

-- What an advertisement that is not installed does to the interfaces.
abbrev pub answered : ℕ → Lsa → Option LinkState → List BackboneEth → List BackboneEth
answered i l none es = es
answered i l (some old) es =
    if old.seq == l.seq then es else at_eth i (flood_add_flood_lsa (lsdb_to_lsa_info old)) es

-- The zone afterwards.
pub record Accepted (now : Timeval) (i : ℕ) (l : Lsa) (z z' : Zone) : Type 0 where
  pub valid : IsValid z'.lsdb
  pub finds :
      (k : LinkStateKey)
      → cr_lsdb_link_state_find k z'.lsdb ≡ (
          if installs now l z
          then (if is_keys_equals l.key k
              then some (lsa_to_lsdb_info now l)
              else cr_lsdb_link_state_find k z.lsdb)
          else cr_lsdb_link_state_find k z.lsdb)
  pub floods : z'.backbones ≡ (
      if installs now l z
      then forward l i z.backbones
      else answered i l (cr_lsdb_link_state_find l.key z.lsdb) z.backbones)
  pub same_ids : (z'.r_id ≡ z.r_id) × (z'.device_id ≡ z.device_id) × (z'.az_id ≡ z.az_id)

pub keys_refl : (a b : LinkStateKey) → a ≡ b → is_keys_equals a b ≡ true
unfolding is_keys_equals
keys_refl a b e = ground arith

pub compare_lem :
    (a b : LinkState)
    → a.key ≡ b.key
    → link_state_compare a b
      ≡ (if ltb b.seq a.seq then ok greater else if a.seq == b.seq then ok equal else ok less)
unfolding link_state_compare
compare_lem a b e = rw (keys_refl a.key b.key e)

abbrev Result : Timeval → ℕ → Lsa → Zone → Type 0
Result now i l z = (z' : Zone) × (accept_lsa_into_lsdb now i l z ≡ ok z') × Accepted now i l z z'

module _ (now : Timeval) (i : ℕ) (l : Lsa) (z : Zone) (v : IsValid z.lsdb) where
  -- The zone after an advertisement that was not installed.
  abbrev answer : Zone
  answer = record z { backbones = answered i l (cr_lsdb_link_state_find l.key z.lsdb) z.backbones }

  Accepted-answer : installs now l z ≡ false → Accepted now i l z answer
  Accepted-answer e = record {
    valid = v;
    finds = λ k. rw e;
    floods = rw e;
    same_ids = (refl, refl, refl);
  }

  -- The zone after one that was, with the database that the code wrote.
  abbrev installed : Lsdb → Zone
  installed db = flood_lsa_forward l i (record z { lsdb = db })

  Accepted-installed :
      (db : Lsdb)
      → installs now l z ≡ true
      → IsValid db
      → ((k : LinkStateKey)
          → cr_lsdb_link_state_find k db ≡ (
              if is_keys_equals l.key k
              then some (lsa_to_lsdb_info now l)
              else cr_lsdb_link_state_find k z.lsdb))
      → Accepted now i l z (installed db)
  unfolding flood_lsa_forward
  Accepted-installed db e v' f = record {
    valid = v';
    finds = λ k. rw e (f k);
    floods = rw e;
    same_ids = (refl, refl, refl);
  }

  -- A link of this router.
  local_case : l.key.rt_id ≡ z.r_id → Result now i l z
  unfolding accept_lsa_into_lsdb check_local_lsdb flood_back lsa_to_lsdb_info
  local_case e = (
    answer,
    elim (Option-cases (cr_lsdb_link_state_find l.key z.lsdb)) [
      | inl absent ↦ ground arith
      | inr (old, here) ↦
          ground
            (arith, compare_lem old (lsa_to_lsdb_info now l) (find-key l.key z.lsdb old v here))
    ],
    Accepted-answer (ground arith),
  )

  -- A link that the database does not have.
  unknown_case :
      l.key.rt_id ≢ z.r_id
      → l.key.rt_id ≢ 0
      → cr_lsdb_link_state_find l.key z.lsdb ≡ none
      → Result now i l z
  unfolding accept_lsa_into_lsdb check_local_lsdb lsa_to_lsdb_info
  unknown_case foreign nz absent =
      let (db, run, v', f) = add-total (lsa_to_lsdb_info now l) z.lsdb v nz absent in
      (installed db, ground arith, Accepted-installed db (ground arith) v' f)

  known_old :
      (old : LinkState)
      → l.key.rt_id ≢ z.r_id
      → cr_lsdb_link_state_find l.key z.lsdb ≡ some old
      → better now l (some old) ≡ true
      → Result now i l z
  unfolding accept_lsa_into_lsdb check_local_lsdb accept_known lsa_to_lsdb_info
  known_old old foreign here e =
      let (db, run, v', f) = update-total (lsa_to_lsdb_info now l) old z.lsdb v here in
      (
        installed db,
        ground (arith, compare_lem old (lsa_to_lsdb_info now l) (find-key l.key z.lsdb old v here)),
        Accepted-installed db (ground arith) v' f,
      )

  known_new :
      (old : LinkState)
      → l.key.rt_id ≢ z.r_id
      → cr_lsdb_link_state_find l.key z.lsdb ≡ some old
      → better now l (some old) ≡ false
      → Result now i l z
  unfolding accept_lsa_into_lsdb check_local_lsdb accept_known flood_back lsa_to_lsdb_info
  known_new old foreign here e = (
    answer,
    ground (arith, compare_lem old (lsa_to_lsdb_info now l) (find-key l.key z.lsdb old v here)),
    Accepted-answer (ground arith),
  )

-- An advertisement of a router other than number 0 never crashes the daemon. It is installed, and
-- forwarded to every other interface, exactly if its link is not of this router and is absent, out
-- of date or of a smaller sequence number in the database; every other entry stays. Otherwise the
-- database is unchanged, and where it holds another sequence number its entry goes back to the
-- interface that the advertisement came from.
pub accept-total :
    (now : Timeval) (i : ℕ) (l : Lsa) (z : Zone)
    → IsValid z.lsdb
    → l.key.rt_id ≢ 0
    → (z' : Zone) × (accept_lsa_into_lsdb now i l z ≡ ok z') × Accepted now i l z z'
accept-total now i l z v nz = elim (Bool-cases (l.key.rt_id == z.r_id)) [
  | inl e ↦ local_case now i l z v (eqb→eq _ _ e)
  | inr e ↦ elim (Option-cases (cr_lsdb_link_state_find l.key z.lsdb)) [
    | inl absent ↦ unknown_case now i l z v (ground arith) nz absent
    | inr (old, here) ↦ elim (Bool-cases (better now l (some old))) [
      | inl b ↦ known_old now i l z v old (ground arith) here b
      | inr b ↦ known_new now i l z v old (ground arith) here b
    ]
  ]
]
