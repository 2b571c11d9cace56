-- ===== src/Lsdb/Update.antt =====
-- What `cr_lsdb_link_state_update` of lsdb/lsdb_interface.c does to what can be found.
use mathlib.Core.Path.{fun_ext}
use pma.Base.{
  ℕ, ◌<◌, ◌≡◌, refl, sym, ◌∙◌, ◌≢◌, true, false, some, List, [], ◌∷◌, arith, if◌then◌else◌, All,
  Bool-cases, Option-cases, inl, inr, ne→eqb,
}
use pma.Base.Outcome.{ok}
use pma.Lsdb.{
  LinkStateKey, LinkState, Lsdb, Ptr, same_link, is_keys_equals, find_link, lsdb_link_state_find,
  write_link, cr_lsdb_link_state_find, cr_lsdb_link_state_update, post, update_lsa,
}
use pma.Lsdb.Lookup.{links_at, seek, raw-find_link, find-seek, seek-write_self}
use pma.Lsdb.Invariant.{IsValid, keys_of}
use pma.Lsdb.Find.{links_at-bounded, found_key, find_some-raw}

-- A node overwritten by a link state with its own key.
abbrev overwrite : Ptr → LinkState → Lsdb → Lsdb
overwrite q s db = post update_lsa s (record db { link_at = write_link db.link_at q s })

keys-overwrite :
    (at : Ptr → LinkState) (q : Ptr) (s : LinkState)
    → (at q).key ≡ s.key
    → keys_of (write_link at q s) ≡ keys_of at
keys-overwrite at q s e = fun_ext λ p. ground arith

overwrite-IsValid :
    (q : Ptr) (s : LinkState) (db : Lsdb)
    → (db.link_at q).key ≡ s.key
    → IsValid db
    → IsValid (overwrite q s db)
overwrite-IsValid q s db e v = record {
  nodes = rw (keys-overwrite db.link_at q s e) v.nodes;
  distinct = v.distinct;
  listed = v.listed;
  complete = v.complete;
  routers_counted = v.routers_counted;
  links_counted = v.links_counted;
}

-- Another key, in the list of its router, does not see the overwritten node.
seek-overwrite_other :
    (at : Ptr → LinkState) (n : ℕ) (q : Ptr) (s : LinkState) (k : LinkStateKey) (ps : List Ptr)
    → (at q).key ≡ s.key
    → is_keys_equals s.key k ≡ false
    → All (λ p. (p < n) × ((at p).key.rt_id ≡ k.rt_id)) ps
    → seek (write_link at q s) k ps ≡ seek at k ps
unfolding seek same_link is_keys_equals
seek-overwrite_other at n q s k [] e ne v = refl
seek-overwrite_other at n q s k (p ∷ ps) e ne v = ground (arith, seek-overwrite_other at n q s k ps)

pub keys_eq : (a b : LinkStateKey) → is_keys_equals a b ≡ true → a ≡ b
unfolding is_keys_equals
keys_eq a b h = ground arith

find-overwrite :
    (q : Ptr) (s : LinkState) (db : Lsdb) (k : LinkStateKey)
    → (db.link_at q).key ≡ s.key
    → s.key.rt_id ≢ 0
    → find_link db.link_at s.key (links_at s.key.rt_id db.routers) ≡ some q
    → IsValid db
    → cr_lsdb_link_state_find k (overwrite q s db)
      ≡ (if is_keys_equals s.key k then some s else cr_lsdb_link_state_find k db)
find-overwrite q s db k e nz f v =
    rw (find-seek k (overwrite q s db), find-seek k db)
      (elim (Bool-cases (is_keys_equals s.key k)) [
        | inl hit ↦
            rw (hit, ← keys_eq s.key k hit, ne→eqb s.key.rt_id 0 nz)
              (seek-write_self db.link_at q s (links_at s.key.rt_id db.routers) f)
        | inr miss ↦ rw (
          miss,
          seek-overwrite_other db.link_at db.fresh q s k (links_at k.rt_id db.routers) e miss
              (links_at-bounded (keys_of db.link_at) db.fresh k.rt_id db.routers v.nodes),
        )
      ])

-- `cr_lsdb_link_state_update` of a key that is present succeeds, keeps the invariant, and changes
-- just that entry.
pub update-total :
    (s old : LinkState) (db : Lsdb)
    → IsValid db
    → cr_lsdb_link_state_find s.key db ≡ some old
    → (db' : Lsdb) × (cr_lsdb_link_state_update s db ≡ ok db')
      × IsValid db'
      × ((k : LinkStateKey)
          → cr_lsdb_link_state_find k db'
            ≡ (if is_keys_equals s.key k then some s else cr_lsdb_link_state_find k db))
unfolding cr_lsdb_link_state_update
update-total s old db v e = elim (Option-cases (lsdb_link_state_find s.key db)) [
  | inl absent ↦ absurd ((find_some-raw s.key db old e).1 absent)
  | inr (q, here) ↦
      let nz = (find_some-raw s.key db old e).0 in
      let hit = sym (raw-find_link s.key db) ∙ here in
      let bounds = links_at-bounded (keys_of db.link_at) db.fresh s.key.rt_id db.routers v.nodes in
      let same =
        found_key db.link_at db.fresh s.key q (links_at s.key.rt_id db.routers) bounds hit in
      (
        overwrite q s db,
        rw (ne→eqb s.key.rt_id 0 nz, here, cr_lsdb_link_state_update),
        overwrite-IsValid q s db same v,
        λ k. find-overwrite q s db k same nz hit v,
      )
]
