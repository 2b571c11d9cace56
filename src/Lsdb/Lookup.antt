-- ===== src/Lsdb/Lookup.antt =====
-- How the list of each router, and what a search in it finds, change with each operation.
use pma.Base.{
  ℕ, ◌<◌, ◌≡◌, refl, ◌≢◌, Option, none, some, List, [], ◌∷◌, arith, if◌then◌else◌, ◌==◌, All,
  eqb_refl,
}
use pma.Lsdb.{
  LinkStateKey, LinkState, RouterNode, Lsdb, Ptr, same_link, find_router, find_link, links_of,
  lsdb_link_state_find, lsdb_router_find, lsdb_router_add, ensure_router, push_link, write_link,
  cr_lsdb_link_state_find,
}

abbrev pub Lists : Type 0
Lists = List RouterNode

-- The list of router `id`: none at all if the router is not there.
abbrev pub links_at : ℕ → Lists → List Ptr
links_at id rs = links_of (find_router id rs)

-- The first link with the key, read off the heap.
unfoldable pub seek : (Ptr → LinkState) → LinkStateKey → List Ptr → Option LinkState
unfolding same_link
seek at k [] = none
seek at k (p ∷ ps) = if same_link (at p).key k then some (at p) else seek at k ps

abbrev read : (Ptr → LinkState) → Option Ptr → Option LinkState
read at none = none
read at (some p) = some (at p)

read-find_link :
    (at : Ptr → LinkState) (k : LinkStateKey) (ps : List Ptr)
    → read at (find_link at k ps) ≡ seek at k ps
unfolding find_link seek
read-find_link at k [] = refl
read-find_link at k (p ∷ ps) = ground (arith, read-find_link at k ps)

-- What `cr_lsdb_link_state_find` finds.
pub find-seek :
    (k : LinkStateKey) (db : Lsdb)
    → cr_lsdb_link_state_find k db
      ≡ (if k.rt_id == 0 then none else seek db.link_at k (links_at k.rt_id db.routers))
unfolding cr_lsdb_link_state_find lsdb_link_state_find lsdb_router_find
find-seek k db = ground (arith, read-find_link db.link_at k (links_at k.rt_id db.routers))

-- The list that `lsdb_link_state_find` searches.
pub raw-find_link :
    (k : LinkStateKey) (db : Lsdb)
    → lsdb_link_state_find k db ≡ find_link db.link_at k (links_at k.rt_id db.routers)
unfolding lsdb_link_state_find lsdb_router_find find_link
raw-find_link k db = ground arith

-- Adding a missing router changes no router's list.
pub links_at-ensure :
    (j id : ℕ) (db : Lsdb) → links_at j (ensure_router id db).routers ≡ links_at j db.routers
unfolding ensure_router lsdb_router_find lsdb_router_add find_router
links_at-ensure j id db = ground arith

-- Afterwards the router is there.
pub ensure-present : (id : ℕ) (db : Lsdb) → find_router id (ensure_router id db).routers ≢ none
unfolding ensure_router lsdb_router_find lsdb_router_add find_router
ensure-present id db = ground (arith, eqb_refl id)

pub links_at-push :
    (j id : ℕ) (p : Ptr) (rs : Lists)
    → find_router id rs ≢ none
    → links_at j (push_link id p rs) ≡ (if id == j then p ∷ links_at j rs else links_at j rs)
unfolding find_router push_link
links_at-push j id p [] h = absurd (h refl)
links_at-push j id p (r ∷ rs) h = ground (arith, links_at-push j id p rs)

-- A search does not see a write at an address that is not in the list.
pub seek-write_fresh :
    (at : Ptr → LinkState) (n : Ptr) (s : LinkState) (k : LinkStateKey) (ps : List Ptr)
    → All (λ p. p < n) ps
    → seek (write_link at n s) k ps ≡ seek at k ps
unfolding seek
seek-write_fresh at n s k [] b = refl
seek-write_fresh at n s k (p ∷ ps) b = ground (arith, seek-write_fresh at n s k ps)

-- A search for its own key finds the new contents.
pub seek-write_self :
    (at : Ptr → LinkState) (q : Ptr) (s : LinkState) (ps : List Ptr)
    → find_link at s.key ps ≡ some q
    → seek (write_link at q s) s.key ps ≡ some s
unfolding seek find_link same_link
seek-write_self at q s [] e = cc
seek-write_self at q s (p ∷ ps) e = ground (arith, seek-write_self at q s ps)
