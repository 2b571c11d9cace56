-- ===== src/Lsdb/Find.antt =====
-- What each operation of lsdb/lsdb_interface.c does to what can be found.
use pma.Base.{
  ℕ, ◌<◌, ◌≡◌, refl, ◌∙◌, ap, subst, ◌≢◌, none, some, List, [], ◌∷◌, arith, if◌then◌else◌, ◌==◌,
  All, Bool-cases, inl, inr, ◌⊎◌, eqb→eq, ne→eqb,
}
use pma.Base.Outcome.{ok, crash}
use pma.Lsdb.{
  LinkStateKey, LinkState, RouterNode, Lsdb, Ptr, same_link, is_keys_equals, find_router, find_link,
  lsdb_link_state_find, lsdb_router_find, lsdb_router_add, ensure_router, ensure_neighbor,
  insert_link, lsdb_link_state_add, write_link, cr_lsdb_link_state_find, cr_lsdb_link_state_add,
  cr_lsdb_link_state_update, post, add_lsa,
}
use pma.Lsdb.Lookup.{
  links_at, seek, raw-find_link, find-seek, ensure-present, links_at-ensure, links_at-push,
  seek-write_fresh,
}
use pma.Lsdb.Invariant.{IsValid, RouterOk, keys_of, Keys}
use pma.Lsdb.Valid.{ensure-IsValid, neighbor-IsValid, insert-IsValid}

pub links_at-bounded :
    (keys : Keys) (n id : ℕ) (rs : List RouterNode)
    → All (RouterOk keys n) rs
    → All (λ p. (p < n) × ((keys p).rt_id ≡ id)) (links_at id rs)
unfolding find_router
links_at-bounded keys n id [] v = tt
links_at-bounded keys n id (r ∷ rs) v = elim (Bool-cases (r.id == id)) [
  | inl e ↦
      rw e
        (subst (λ j. All (λ p. (p < n) × ((keys p).rt_id ≡ j)) r.links_state) (eqb→eq _ _ e) v.0.0)
  | inr e ↦ rw e (links_at-bounded keys n id rs v.1)
]

weaken :
    (keys : Keys) (n id : ℕ) (ps : List Ptr)
    → All (λ p. (p < n) × ((keys p).rt_id ≡ id)) ps
    → All (λ p. p < n) ps
weaken keys n id [] v = tt
weaken keys n id (p ∷ ps) v = (v.0.0, weaken keys n id ps v.1)

-- A search in the list of a router that found something found that key.
pub found_key :
    (at : Ptr → LinkState) (n : ℕ) (k : LinkStateKey) (q : Ptr) (ps : List Ptr)
    → All (λ p. (p < n) × ((at p).key.rt_id ≡ k.rt_id)) ps
    → find_link at k ps ≡ some q
    → (at q).key ≡ k
unfolding find_link same_link
found_key at n k q [] v e = cc
found_key at n k q (p ∷ ps) v e = ground (arith, found_key at n k q ps)

seek-key :
    (at : Ptr → LinkState) (n : ℕ) (k : LinkStateKey) (s : LinkState) (ps : List Ptr)
    → All (λ p. (p < n) × ((at p).key.rt_id ≡ k.rt_id)) ps
    → seek at k ps ≡ some s
    → s.key ≡ k
unfolding seek same_link
seek-key at n k s [] v e = cc
seek-key at n k s (p ∷ ps) v e = ground (arith, seek-key at n k s ps)

-- Adding a link: the routers first, then the node.
abbrev prepared : LinkState → Lsdb → Lsdb
prepared s db = ensure_router s.key.rt_id (ensure_neighbor s db)

links_at-neighbor :
    (j : ℕ) (s : LinkState) (db : Lsdb)
    → links_at j (ensure_neighbor s db).routers ≡ links_at j db.routers
unfolding ensure_neighbor
links_at-neighbor j s db = ground (arith, links_at-ensure j s.key.n_rt_id db)

links_at-prepared :
    (j : ℕ) (s : LinkState) (db : Lsdb) → links_at j (prepared s db).routers ≡ links_at j db.routers
links_at-prepared j s db =
    links_at-ensure j s.key.rt_id (ensure_neighbor s db) ∙ links_at-neighbor j s db

ensure-fields :
    (id : ℕ) (db : Lsdb)
    → ((ensure_router id db).link_at ≡ db.link_at) × ((ensure_router id db).fresh ≡ db.fresh)
unfolding ensure_router lsdb_router_add lsdb_router_find
ensure-fields id db = ground arith

prepared-fields :
    (s : LinkState) (db : Lsdb)
    → ((prepared s db).link_at ≡ db.link_at) × ((prepared s db).fresh ≡ db.fresh)
unfolding ensure_neighbor
prepared-fields s db =
    ground (arith, ensure-fields s.key.rt_id (ensure_neighbor s db), ensure-fields s.key.n_rt_id db)

post-IsValid : (s : LinkState) (db : Lsdb) → IsValid db → IsValid (post add_lsa s db)
post-IsValid s db v = record {
  nodes = v.nodes;
  distinct = v.distinct;
  listed = v.listed;
  complete = v.complete;
  routers_counted = v.routers_counted;
  links_counted = v.links_counted;
}

-- What a search sees after the new node went to the head of its router's list.
seek-pushed :
    (at : Ptr → LinkState) (n : Ptr) (s : LinkState) (k : LinkStateKey) (ps : List Ptr)
    → All (λ p. p < n) ps
    → seek (write_link at n s) k (if s.key.rt_id == k.rt_id then n ∷ ps else ps)
      ≡ (if is_keys_equals s.key k then some s else seek at k ps)
unfolding seek same_link is_keys_equals
seek-pushed at n s k ps b = ground (arith, seek-write_fresh at n s k ps)

find-insert :
    (s : LinkState) (db : Lsdb) (k : LinkStateKey)
    → find_router s.key.rt_id db.routers ≢ none
    → All (RouterOk (keys_of db.link_at) db.fresh) db.routers
    → seek (insert_link s db).link_at k (links_at k.rt_id (insert_link s db).routers)
      ≡ (if is_keys_equals s.key k then some s else seek db.link_at k (links_at k.rt_id db.routers))
unfolding insert_link
find-insert s db k here v = rw (links_at-push k.rt_id s.key.rt_id db.fresh db.routers here) (
    seek-pushed db.link_at db.fresh s k (links_at k.rt_id db.routers) (
      weaken (keys_of db.link_at) db.fresh k.rt_id (links_at k.rt_id db.routers)
        (links_at-bounded (keys_of db.link_at) db.fresh k.rt_id db.routers v)))

find-link_state_add :
    (s : LinkState) (db : Lsdb) (k : LinkStateKey)
    → IsValid db
    → s.key.rt_id ≢ 0
    → cr_lsdb_link_state_find k (lsdb_link_state_add s db)
      ≡ (if is_keys_equals s.key k then some s else cr_lsdb_link_state_find k db)
unfolding lsdb_link_state_add is_keys_equals
find-link_state_add s db k v nz =
    rw (find-seek k (lsdb_link_state_add s db), find-seek k db)
      (ground (
        arith,
        find-insert s (prepared s db) k (ensure-present s.key.rt_id (ensure_neighbor s db))
            (ensure-IsValid s.key.rt_id (ensure_neighbor s db) (neighbor-IsValid s db v)).nodes,
        prepared-fields s db,
        links_at-prepared k.rt_id s db,
      ))

pub link_state_add-IsValid :
    (s : LinkState) (db : Lsdb)
    → IsValid db
    → lsdb_link_state_find s.key db ≡ none
    → IsValid (lsdb_link_state_add s db)
unfolding lsdb_link_state_add
link_state_add-IsValid s db v miss =
    insert-IsValid s (prepared s db) (ensure-present s.key.rt_id (ensure_neighbor s db))
      (rw ((prepared-fields s db).0, links_at-prepared s.key.rt_id s db, ← raw-find_link s.key db)
        miss)
      (ensure-IsValid s.key.rt_id (ensure_neighbor s db) (neighbor-IsValid s db v))

find_none-raw :
    (k : LinkStateKey) (db : Lsdb)
    → k.rt_id ≢ 0
    → cr_lsdb_link_state_find k db ≡ none
    → lsdb_link_state_find k db ≡ none
unfolding cr_lsdb_link_state_find
find_none-raw k db nz e = ground arith

pub find_some-raw :
    (k : LinkStateKey) (db : Lsdb) (s : LinkState)
    → cr_lsdb_link_state_find k db ≡ some s
    → (k.rt_id ≢ 0) × ((lsdb_link_state_find k db ≡ none) → ⊥)
unfolding cr_lsdb_link_state_find
find_some-raw k db s e = (ground arith, λ h. ground arith)

raw-post :
    (s : LinkState) (k : LinkStateKey) (db : Lsdb)
    → lsdb_link_state_find k (post add_lsa s db) ≡ lsdb_link_state_find k db
unfolding lsdb_link_state_find lsdb_router_find
raw-post s k db = refl

find-post :
    (s : LinkState) (k : LinkStateKey) (db : Lsdb)
    → cr_lsdb_link_state_find k (post add_lsa s db) ≡ cr_lsdb_link_state_find k db
unfolding cr_lsdb_link_state_find
find-post s k db = refl

-- `cr_lsdb_link_state_add` of a key that is absent succeeds, keeps the invariant, and adds just
-- that entry to what can be found.
pub add-total :
    (s : LinkState) (db : Lsdb)
    → IsValid db
    → s.key.rt_id ≢ 0
    → cr_lsdb_link_state_find s.key db ≡ none
    → (db' : Lsdb) × (cr_lsdb_link_state_add s db ≡ ok db')
      × IsValid db'
      × ((k : LinkStateKey)
          → cr_lsdb_link_state_find k db'
            ≡ (if is_keys_equals s.key k then some s else cr_lsdb_link_state_find k db))
unfolding cr_lsdb_link_state_add
add-total s db v nz e =
    let absent = find_none-raw s.key db nz e in
    (
      lsdb_link_state_add s (post add_lsa s db),
      rw (ne→eqb s.key.rt_id 0 nz, absent, cr_lsdb_link_state_add),
      link_state_add-IsValid s (post add_lsa s db) (post-IsValid s db v)
          (raw-post s s.key db ∙ absent),
      λ k.
          find-link_state_add s (post add_lsa s db) k (post-IsValid s db v) nz
          ∙ ap (λ o. if is_keys_equals s.key k then some s else o) (find-post s k db),
    )

-- The addition crashes in all other cases.
pub add-crash :
    (s : LinkState) (db : Lsdb)
    → (s.key.rt_id ≡ 0) ⊎ ((old : LinkState) × (cr_lsdb_link_state_find s.key db ≡ some old))
    → cr_lsdb_link_state_add s db ≡ crash
unfolding cr_lsdb_link_state_add cr_lsdb_link_state_find
add-crash s db (inl z) = rw z
add-crash s db (inr (old, e)) = ground arith

-- And so does the update.
pub update-crash :
    (s : LinkState) (db : Lsdb)
    → cr_lsdb_link_state_find s.key db ≡ none
    → cr_lsdb_link_state_update s db ≡ crash
unfolding cr_lsdb_link_state_update cr_lsdb_link_state_find
update-crash s db e = ground arith

-- What is found under a key has that key.
pub find-key :
    (k : LinkStateKey) (db : Lsdb) (s : LinkState)
    → IsValid db
    → cr_lsdb_link_state_find k db ≡ some s
    → s.key ≡ k
find-key k db s v e =
    seek-key db.link_at db.fresh k s (links_at k.rt_id db.routers)
      (links_at-bounded (keys_of db.link_at) db.fresh k.rt_id db.routers v.nodes)
      (ground (arith, find-seek k db))
