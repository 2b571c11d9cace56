-- ===== src/Lsdb/Invariant.antt =====
-- The invariant of the database, over its two layers of lists (lsdb/private/lsdb_inner.h), and how
-- it fares when a node is written or linked in.
use pma.Base.{
  ℕ, ◌+◌, ◌%◌, ◌^◌, ◌<◌, ◌≡◌, refl, Bool, false, ◌||◌, none, List, [], ◌∷◌, arith, ◌==◌, All,
  length, Bool-cases, inl, inr, eqb→eq,
}
use pma.Lsdb.{
  LinkStateKey, LinkState, RouterNode, Lsdb, Ptr, same_link, find_router, find_link, push_link,
  write_link, next_u32,
}
use pma.Lsdb.Lookup.{links_at}

abbrev pub Keys : Type 0
Keys = Ptr → LinkStateKey

abbrev pub keys_of : (Ptr → LinkState) → Keys
keys_of at p = (at p).key

-- Some link of the list has the interfaces of `k`.
unfoldable pub has_key : Keys → LinkStateKey → List Ptr → Bool
unfolding same_link
has_key keys k [] = false
has_key keys k (p ∷ ps) = same_link (keys p) k || has_key keys k ps

abbrev pub Unique : Keys → List Ptr → Type 0
Unique keys [] = Unit
Unique keys (p ∷ ps) = (has_key keys (keys p) ps ≡ false) × Unique keys ps

-- The links of a router are nodes in use, are its own, have different keys, and are counted.
abbrev pub RouterOk : Keys → Ptr → RouterNode → Type 0
RouterOk keys n r =
    All (λ p. (p < n) × ((keys p).rt_id ≡ r.id)) r.links_state
    × Unique keys r.links_state
    × (r.links_state_count ≡ length r.links_state % 2 ^ 32)

-- No two routers have one id.
abbrev pub Distinct : List RouterNode → Type 0
Distinct [] = Unit
Distinct (r ∷ rs) = (find_router r.id rs ≡ none) × Distinct rs

-- How many links the routers have between them.
abbrev pub total : List RouterNode → ℕ
total [] = 0
total (r ∷ rs) = length r.links_state + total rs

pub record IsValid (db : Lsdb) : Type 0 where
  pub nodes : All (RouterOk (keys_of db.link_at) db.fresh) db.routers
  pub distinct : Distinct db.routers
  pub listed : All (λ p. p < db.fresh) db.links_state
  pub complete : length db.links_state ≡ total db.routers
  pub routers_counted : db.routers_count ≡ length db.routers % 2 ^ 32
  pub links_counted : db.links_state_count ≡ length db.links_state % 2 ^ 32

pub find_link-has_key :
    (at : Ptr → LinkState) (k : LinkStateKey) (ps : List Ptr)
    → find_link at k ps ≡ none
    → has_key (keys_of at) k ps ≡ false
unfolding find_link has_key
find_link-has_key at k [] e = refl
find_link-has_key at k (p ∷ ps) e = ground (arith, find_link-has_key at k ps)

-- A write above the nodes in use changes nothing about them.
has_key-write :
    (at : Ptr → LinkState) (n : Ptr) (s : LinkState) (k : LinkStateKey) (ps : List Ptr)
    → All (λ p. p < n) ps
    → has_key (keys_of (write_link at n s)) k ps ≡ has_key (keys_of at) k ps
unfolding has_key
has_key-write at n s k [] b = refl
has_key-write at n s k (p ∷ ps) b = ground (arith, has_key-write at n s k ps)

module _ (at : Ptr → LinkState) (n : Ptr) (s : LinkState) where
  bounded :
      (id : ℕ) (ps : List Ptr)
      → All (λ p. (p < n) × ((at p).key.rt_id ≡ id)) ps
      → All (λ p. p < n) ps
  bounded id [] b = tt
  bounded id (p ∷ ps) b = (b.0.0, bounded id ps b.1)

  owned-write :
      (id : ℕ) (ps : List Ptr)
      → All (λ p. (p < n) × ((at p).key.rt_id ≡ id)) ps
      → All (λ p. (p < n + 1) × ((write_link at n s p).key.rt_id ≡ id)) ps
  owned-write id [] b = tt
  owned-write id (p ∷ ps) b = (ground arith, owned-write id ps b.1)

  Unique-write :
      (id : ℕ) (ps : List Ptr)
      → All (λ p. (p < n) × ((at p).key.rt_id ≡ id)) ps
      → Unique (keys_of at) ps
      → Unique (keys_of (write_link at n s)) ps
  Unique-write id [] b u = tt
  Unique-write id (p ∷ ps) b u = (
    ground (arith, has_key-write at n s (at p).key ps (bounded id ps b.1)),
    Unique-write id ps b.1 u.1,
  )

  RouterOk-write :
      (r : RouterNode)
      → RouterOk (keys_of at) n r
      → RouterOk (keys_of (write_link at n s)) (n + 1) r
  RouterOk-write r v =
      (owned-write r.id r.links_state v.0, Unique-write r.id r.links_state v.0 v.1, v.2)

  nodes-write :
      (rs : List RouterNode)
      → All (RouterOk (keys_of at) n) rs
      → All (RouterOk (keys_of (write_link at n s)) (n + 1)) rs
  nodes-write [] v = tt
  nodes-write (r ∷ rs) v = (RouterOk-write r v.0, nodes-write rs v.1)

  -- The router that gets the new link.
  head-write :
      (r : RouterNode)
      → r.id ≡ s.key.rt_id
      → RouterOk (keys_of at) n r
      → find_link at s.key r.links_state ≡ none
      → RouterOk (keys_of (write_link at n s)) (n + 1) (record r {
        links_state = n ∷ r.links_state;
        links_state_count = next_u32 r.links_state_count;
      })
  head-write r e v miss = (
    ((omega arith, ground arith), owned-write r.id r.links_state v.0),
    (
      ground (
        arith,
        has_key-write at n s s.key r.links_state (bounded r.id r.links_state v.0),
        find_link-has_key at s.key r.links_state,
      ),
      Unique-write r.id r.links_state v.0 v.1,
    ),
    omega arith,
  )

  pub nodes-push :
      (rs : List RouterNode)
      → find_link at s.key (links_at s.key.rt_id rs) ≡ none
      → All (RouterOk (keys_of at) n) rs
      → All (RouterOk (keys_of (write_link at n s)) (n + 1)) (push_link s.key.rt_id n rs)
  unfolding push_link find_router
  nodes-push [] miss v = tt
  nodes-push (r ∷ rs) miss v = elim (Bool-cases (r.id == s.key.rt_id)) [
    | inl e ↦ rw e (head-write r (eqb→eq _ _ e) v.0 (rw e at miss), nodes-write rs v.1)
    | inr e ↦ rw e (RouterOk-write r v.0, nodes-push rs (rw e at miss) v.1)
  ]
