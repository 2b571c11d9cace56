-- ===== src/Lsdb/Valid.antt =====
-- Creating a database, adding a router and adding a link keep the invariant (lsdb/lsdb_impl.c).
use pma.Base.{
  ℕ, ◌+◌, ◌<◌, ◌≡◌, refl, ◌≢◌, none, List, [], ◌∷◌, arith, ◌==◌, All, length, Bool-cases,
  Option-cases, inl, inr,
}
use pma.Lsdb.{
  LinkState, RouterNode, Lsdb, Ptr, cr_lsdb_init, find_router, find_link, lsdb_router_find,
  lsdb_router_add, ensure_router, ensure_neighbor, push_link, insert_link,
}
use pma.Lsdb.Lookup.{links_at}
use pma.Lsdb.Invariant.{Distinct, total, IsValid, nodes-push}

find_router-push :
    (j id : ℕ) (p : Ptr) (rs : List RouterNode)
    → find_router j rs ≡ none
    → find_router j (push_link id p rs) ≡ none
unfolding find_router push_link
find_router-push j id p [] e = refl
find_router-push j id p (r ∷ rs) e = ground (arith, find_router-push j id p rs)

Distinct-push :
    (id : ℕ) (p : Ptr) (rs : List RouterNode) → Distinct rs → Distinct (push_link id p rs)
unfolding push_link
Distinct-push id p [] d = tt
Distinct-push id p (r ∷ rs) d = elim (Bool-cases (r.id == id)) [
  | inl e ↦ rw e d
  | inr e ↦ rw e (find_router-push r.id id p rs d.0, Distinct-push id p rs d.1)
]

total-push :
    (id : ℕ) (p : Ptr) (rs : List RouterNode)
    → find_router id rs ≢ none
    → total (push_link id p rs) ≡ total rs + 1
unfolding find_router push_link
total-push id p [] h = absurd (h refl)
total-push id p (r ∷ rs) h = ground (arith, total-push id p rs)

length-push : (id : ℕ) (p : Ptr) (rs : List RouterNode) → length (push_link id p rs) ≡ length rs
unfolding push_link
length-push id p [] = refl
length-push id p (r ∷ rs) = ground (arith, length-push id p rs)

listed_mono : (n : ℕ) (ps : List Ptr) → All (λ p. p < n) ps → All (λ p. p < n + 1) ps
listed_mono n [] h = tt
listed_mono n (p ∷ ps) h = (omega arith, listed_mono n ps h.1)

pub init-IsValid : (area : ℕ) → IsValid (cr_lsdb_init area)
unfolding cr_lsdb_init
init-IsValid area = omega arith

pub router_add-IsValid :
    (id : ℕ) (db : Lsdb)
    → find_router id db.routers ≡ none
    → IsValid db
    → IsValid (lsdb_router_add id db)
unfolding lsdb_router_add
router_add-IsValid id db e v = record {
  nodes = ((tt, tt, omega arith), v.nodes);
  distinct = (e, v.distinct);
  listed = v.listed;
  complete = omega (arith, v.complete);
  routers_counted = omega (arith, v.routers_counted);
  links_counted = v.links_counted;
}

pub ensure-IsValid : (id : ℕ) (db : Lsdb) → IsValid db → IsValid (ensure_router id db)
unfolding ensure_router lsdb_router_find
ensure-IsValid id db v = elim (Option-cases (find_router id db.routers)) [
  | inl e ↦ rw (e, ensure_router) (router_add-IsValid id db e v)
  | inr (r, e) ↦ rw (e, ensure_router) v
]

pub neighbor-IsValid : (s : LinkState) (db : Lsdb) → IsValid db → IsValid (ensure_neighbor s db)
unfolding ensure_neighbor
neighbor-IsValid s db v = elim (Bool-cases (s.key.n_rt_id == 0)) [
  | inl e ↦ rw e v
  | inr e ↦ rw e (ensure-IsValid s.key.n_rt_id db v)
]

pub insert-IsValid :
    (s : LinkState) (db : Lsdb)
    → find_router s.key.rt_id db.routers ≢ none
    → find_link db.link_at s.key (links_at s.key.rt_id db.routers) ≡ none
    → IsValid db
    → IsValid (insert_link s db)
unfolding insert_link
insert-IsValid s db here miss v = record {
  nodes = nodes-push db.link_at db.fresh s db.routers miss v.nodes;
  distinct = Distinct-push s.key.rt_id db.fresh db.routers v.distinct;
  listed = (omega arith, listed_mono db.fresh db.links_state v.listed);
  complete = omega (arith, v.complete, total-push s.key.rt_id db.fresh db.routers here);
  routers_counted = omega (arith, v.routers_counted, length-push s.key.rt_id db.fresh db.routers);
  links_counted = omega (arith, v.links_counted);
}
