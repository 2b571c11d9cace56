-- ===== src/Lsdb/Copies.antt =====
-- What the walk over the whole database copies (lsdb/lsdb_traverse.c), after additions
-- (lsdb/lsdb_interface.c, lsdb/lsdb_impl.c).
use mathlib.Core.List.{reverse-cons, append_assoc, append-nil}
use pma.Base.{
  ℕ, suc, ◌<◌, ◌≤◌, length, length-append, ◌≡◌, refl, sym, ap, ◌∙◌, inl, inr, true, false,
  Bool-cases, ◌==◌, none, some, Option-cases, List, [], ◌∷◌, ◌++◌, map, reverse, subst, All, arith,
  eqb→eq,
}
use pma.Base.Outcome.{Outcome, ok, crash, ◌>>=◌, >>=-eq-ok, ok-injective}
use pma.Lsdb.{
  LinkStateKey, RouterNode, find_router, find_link, LinkState, Lsdb, Ptr, write_link,
  lsdb_link_state_find, ensure_router, ensure_neighbor, lsdb_link_state_add, insert_link,
  lsdb_router_find, lsdb_router_add, post, add_lsa, cr_lsdb_link_state_add, cr_lsdb_link_state_find,
}
use pma.Lsdb.Invariant.{IsValid, total}
use pma.Lsdb.Find.{add-total, add-crash}
use pma.Lsdb.Traverse.{cr_lsdb_get_links_state, get_links_state-reverse}

-- Additions one after the other.
unfoldable pub add_all : List LinkState → Lsdb → Outcome Lsdb
add_all [] db = ok db
add_all (s ∷ ss) db = cr_lsdb_link_state_add s db >>= add_all ss

-- What is written above the pointers of a list is not seen through it.
map-write_link :
    (at : Ptr → LinkState) (p : Ptr) (s : LinkState) (ps : List Ptr)
    → All (λ q. q < p) ps
    → map (write_link at p s) ps ≡ map at ps
map-write_link at p s [] h = refl
map-write_link at p s (q ∷ ps) (l, h) =
    let other : (p == q) ≡ false = ground arith in rw (other, map-write_link at p s ps h) refl

-- The parts of the database that the copies show, after the routers were added.
ensure_router-links :
    (id : ℕ) (db : Lsdb)
    → ((ensure_router id db).links_state ≡ db.links_state)
      × ((ensure_router id db).link_at ≡ db.link_at)
      × ((ensure_router id db).fresh ≡ db.fresh)
unfolding ensure_router lsdb_router_add
ensure_router-links id db = elim (Option-cases (lsdb_router_find id db)) [
  | inl e ↦ rw (e, ensure_router) (refl, refl, refl)
  | inr (r, e) ↦ rw (e, ensure_router) (refl, refl, refl)
]

ensure_neighbor-links :
    (s : LinkState) (db : Lsdb)
    → ((ensure_neighbor s db).links_state ≡ db.links_state)
      × ((ensure_neighbor s db).link_at ≡ db.link_at)
      × ((ensure_neighbor s db).fresh ≡ db.fresh)
unfolding ensure_neighbor
ensure_neighbor-links s db = elim (Bool-cases (s.key.n_rt_id == 0)) [
  | inl e ↦ rw e (refl, refl, refl)
  | inr e ↦ rw e (ensure_router-links s.key.n_rt_id db)
]

link_state_add-parts :
    (s : LinkState) (db : Lsdb)
    → ((lsdb_link_state_add s db).links_state ≡ db.fresh ∷ db.links_state)
      × ((lsdb_link_state_add s db).link_at ≡ write_link db.link_at db.fresh s)
unfolding lsdb_link_state_add insert_link
link_state_add-parts s db =
    let (ls, at, fr) = ensure_router-links s.key.rt_id (ensure_neighbor s db) in
    let (ls', at', fr') = ensure_neighbor-links s db in
    let a = at ∙ at' in
    let f = fr ∙ fr' in
    (
      ap (λ p. p ∷ (ensure_router s.key.rt_id (ensure_neighbor s db)).links_state) f
          ∙ ap (λ l. db.fresh ∷ l) (ls ∙ ls'),
      ap (λ p. write_link (ensure_router s.key.rt_id (ensure_neighbor s db)).link_at p s) f
          ∙ ap (λ g. write_link g db.fresh s) a,
    )

link_state_add-links :
    (s : LinkState) (db : Lsdb)
    → All (λ p. p < db.fresh) db.links_state
    → map (lsdb_link_state_add s db).link_at (lsdb_link_state_add s db).links_state
      ≡ s ∷ map db.link_at db.links_state
link_state_add-links s db below =
    let (ls, at) = link_state_add-parts s db in
    let itself : write_link db.link_at db.fresh s db.fresh ≡ s =
      (let e : (db.fresh == db.fresh) ≡ true = ground arith in rw e refl) in
    ap (map (lsdb_link_state_add s db).link_at) ls
    ∙ ap (λ g. map g (db.fresh ∷ db.links_state)) at
    ∙ ap (λ x. x ∷ map (write_link db.link_at db.fresh s) db.links_state) itself
    ∙ ap (λ l. s ∷ l) (map-write_link db.link_at db.fresh s db.links_state below)

add-ok-IsValid :
    (s : LinkState) (db db' : Lsdb)
    → IsValid db
    → cr_lsdb_link_state_add s db ≡ ok db'
    → IsValid db'
add-ok-IsValid s db db' v e = elim (Bool-cases (s.key.rt_id == 0)) [
  | inl z ↦ let no : crash ≡ ok db' = sym (add-crash s db (inl (eqb→eq s.key.rt_id 0 z))) ∙ e in cc
  | inr n ↦ elim (Option-cases (cr_lsdb_link_state_find s.key db)) [
    | inr (old, f) ↦ let no : crash ≡ ok db' = sym (add-crash s db (inr (old, f))) ∙ e in cc
    | inl f ↦
        let (db1, run, v', found) = add-total s db v (λ z. ground arith) f in
        subst IsValid (ok-injective (sym run ∙ e)) v'
  ]
]

add-copies :
    (s : LinkState) (db db' : Lsdb)
    → IsValid db
    → cr_lsdb_link_state_add s db ≡ ok db'
    → cr_lsdb_get_links_state db' ≡ (0, (cr_lsdb_get_links_state db).1 ++ s ∷ [])
unfolding cr_lsdb_link_state_add
add-copies s db db' v e = elim (Bool-cases (s.key.rt_id == 0)) [
  | inl z ↦ let no : crash ≡ ok db' = rw z at e in cc
  | inr n ↦ elim (Option-cases (lsdb_link_state_find s.key db)) [
    | inr (p, f) ↦ let no : crash ≡ ok db' = rw (n, f) at e in cc
    | inl f ↦
        let same : lsdb_link_state_add s (post add_lsa s db) ≡ db' =
          ok-injective (rw (n, f) at e) in
        rw (← same) (
          get_links_state-reverse (lsdb_link_state_add s (post add_lsa s db))
          ∙ rw
              (
                link_state_add-links s (post add_lsa s db) v.listed,
                get_links_state-reverse db,
                reverse-cons s (map db.link_at db.links_state),
              )
              refl)
  ]
]

-- After additions of which none fails to a valid database, the walk over the whole database returns
-- success and copies of what it gave before, followed by all the entries that were added, in the
-- order of their addition.
pub get_links_state-add_all :
    (ss : List LinkState) (db db' : Lsdb)
    → IsValid db
    → add_all ss db ≡ ok db'
    → cr_lsdb_get_links_state db' ≡ (0, (cr_lsdb_get_links_state db).1 ++ ss)
unfolding add_all
get_links_state-add_all [] db db' v e =
    ap cr_lsdb_get_links_state (sym (ok-injective e))
    ∙ get_links_state-reverse db
    ∙ ap (λ l. (0, l)) (sym (append-nil _) ∙ rw (get_links_state-reverse db) refl)
get_links_state-add_all (s ∷ ss) db db' v e =
    let (db1, f, g) = >>=-eq-ok (cr_lsdb_link_state_add s db) (add_all ss) e in
    get_links_state-add_all ss db1 db' (add-ok-IsValid s db db1 v f) g
    ∙ rw (add-copies s db db1 v f)
        (ap (λ l. (0, l)) (append_assoc (cr_lsdb_get_links_state db).1 (s ∷ []) ss))

length-find_router :
    (id : ℕ) (r : RouterNode) (rs : List RouterNode)
    → find_router id rs ≡ some r
    → length r.links_state ≤ total rs
unfolding find_router
length-find_router id r [] e = cc
length-find_router id r (x ∷ rs) e = elim (Bool-cases (x.id == id)) [
  | inl y ↦
      let f : some x ≡ some r = rw y at e in
      let same : length x.links_state ≡ length r.links_state =
        ap (λ o. elim o [ none ↦ 0 | some q ↦ length q.links_state ]) f in
      omega arith
  | inr n ↦ let h = length-find_router id r rs (rw n at e) in omega arith
]

find_link-nonempty :
    (at : Ptr → LinkState) (k : LinkStateKey) (p : Ptr) (ps : List Ptr)
    → find_link at k ps ≡ some p
    → 0 < length ps
unfolding find_link
find_link-nonempty at k p [] e = cc
find_link-nonempty at k p (q ∷ ps) e = omega arith

some_link :
    (k : LinkStateKey) (db : Lsdb) (s : LinkState)
    → IsValid db
    → cr_lsdb_link_state_find k db ≡ some s
    → 0 < length db.links_state
unfolding cr_lsdb_link_state_find lsdb_link_state_find lsdb_router_find
some_link k db s v e = elim (Bool-cases (k.rt_id == 0)) [
  | inl z ↦ let no : none ≡ some s = rw z at e in cc
  | inr n ↦ elim (Option-cases (find_router k.rt_id db.routers)) [
    | inl f ↦ let no : none ≡ some s = rw (n, f) at e in cc
    | inr (r, f) ↦ elim (Option-cases (find_link db.link_at k r.links_state)) [
      | inl g ↦ let no : none ≡ some s = rw (n, f, g) at e in cc
      | inr (p, g) ↦
          let a = length-find_router k.rt_id r db.routers f in
          let b = find_link-nonempty db.link_at k p r.links_state g in
          let c = v.complete in omega arith
    ]
  ]
]

length-reverse : (xs : List LinkState) → length (reverse xs) ≡ length xs
length-reverse [] = refl
length-reverse (x ∷ xs) =
    ap length (reverse-cons x xs)
    ∙ length-append (reverse xs) (x ∷ [])
    ∙ (let e = length-reverse xs in omega arith)

length-map_at : (at : Ptr → LinkState) (ps : List Ptr) → length (map at ps) ≡ length ps
length-map_at at [] = refl
length-map_at at (p ∷ ps) = ap suc (length-map_at at ps)

-- A valid database in which something is found gives at least one copy.
pub get_links_state-nonempty :
    (k : LinkStateKey) (db : Lsdb) (s : LinkState)
    → IsValid db
    → cr_lsdb_link_state_find k db ≡ some s
    → (first : LinkState) × (rest : List LinkState) × ((cr_lsdb_get_links_state db).1
        ≡ first ∷ rest)
get_links_state-nonempty k db s v e =
    let n = some_link k db s v e in
    let l =
      ap (λ (r : ℕ × List LinkState). length r.1) (get_links_state-reverse db)
      ∙ length-reverse (map db.link_at db.links_state)
      ∙ length-map_at db.link_at db.links_state in
    uncons (cr_lsdb_get_links_state db).1 (omega arith)
  where
    uncons :
        (xs : List LinkState)
        → 0 < length xs
        → (first : LinkState) × (rest : List LinkState) × (xs ≡ first ∷ rest)
    uncons [] h = let no : ⊥ = omega arith in elim no [ ]
    uncons (x ∷ xs) h = (x, xs, refl)
