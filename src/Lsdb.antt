-- ===== src/Lsdb.antt =====
-- The link-state database: lsdb/lsdb_impl.c, lsdb/lsdb_interface.c and lsdb/private/lsdb_inner.h.
-- Link nodes lie on a heap (`link_at`), since one node is shared by the list of the whole database
-- and by the list of its router. The intrusive lists are lists of addresses, newest first, as
-- `cr_list_add` builds them; allocation takes the next unused address, and `malloc_z` asserts that
-- it succeeds.
pub mod Lookup
pub mod Invariant
pub mod Valid
pub mod Find
pub mod Update
pub mod Refinement
pub mod Traverse
pub mod Copies
mod Tests
use pma.Base.{
  ℕ, ◌+◌, ◌%◌, ◌^◌, Bool, true, false, ◌&&◌, Option, none, some, List, [], ◌∷◌, if◌then◌else◌, ◌==◌,
}
use pma.Base.Outcome.{Outcome, ok, crash, ◌>>=◌}

-- `struct link_state_key`: a local interface and the interface of the neighbour that it leads to.
-- An access link has 0 for the neighbour.
pub record LinkStateKey : Type 0 where
  pub rt_id : ℕ
  pub if_id : ℕ
  pub n_rt_id : ℕ
  pub n_if_id : ℕ

-- `struct timeval`.
pub record Timeval : Type 0 where
  pub tv_sec : ℕ
  pub tv_usec : ℕ

-- `struct cr_lsdb_link_state`, without `next`, which links copies only, and `shadow`, which no
-- code under lsd/ or lsdb/ reads.
pub record LinkState : Type 0 where
  pub key : LinkStateKey
  pub addr : ℕ
  pub metric : ℕ
  pub state : ℕ
  pub seq : ℕ
  pub age : Timeval

abbrev pub Ptr : Type 0
Ptr = ℕ

-- `struct router_node`.
pub record RouterNode : Type 0 where
  pub id : ℕ
  pub links_state_count : ℕ
  pub links_state : List Ptr

-- What `send_packet` is handed: `lsdb_msg_create` and `create_lsdb_packet`.
pub data Action : Type 0 where
  add_lsa update_lsa : Action

pub record LsdbMsg : Type 0 where
  pub action : Action
  pub areaid : ℕ
  pub link : LinkState

-- `struct lsdb`, with the heap of its link nodes, the area that `get_area_id_by_lsdb_handle` gives
-- for its handle, and the packets sent to the database module so far, newest first.
pub record Lsdb : Type 0 where
  pub routers_count : ℕ
  pub links_state_count : ℕ
  pub routers : List RouterNode
  pub links_state : List Ptr
  pub link_at : Ptr → LinkState
  pub fresh : Ptr
  pub area : ℕ
  pub sent : List LsdbMsg

-- `++n` on a `u32`.
abbrev pub next_u32 : ℕ → ℕ
next_u32 n = (n + 1) % 2 ^ 32

-- Memory that `malloc_z` has not filled yet.
abbrev pub blank_link : LinkState
blank_link = record {
  key = record { rt_id = 0; if_id = 0; n_rt_id = 0; n_if_id = 0 };
  addr = 0;
  metric = 0;
  state = 0;
  seq = 0;
  age = record { tv_sec = 0; tv_usec = 0 };
}

-- `is_keys_equals` of lsd/lsd_utils.c: equality of keys.
unfoldable pub is_keys_equals : LinkStateKey → LinkStateKey → Bool
is_keys_equals a b =
    a.n_rt_id == b.n_rt_id && (a.n_if_id == b.n_if_id && (a.rt_id == b.rt_id && a.if_id == b.if_id))

unfoldable pub cr_lsdb_init : ℕ → Lsdb
cr_lsdb_init area = record {
  routers_count = 0;
  links_state_count = 0;
  routers = [];
  links_state = [];
  link_at = λ p. blank_link;
  fresh = 1;
  area = area;
  sent = [];
}

-- The loop of `lsdb_router_find`.
unfoldable pub find_router : ℕ → List RouterNode → Option RouterNode
find_router id [] = none
find_router id (r ∷ rs) = if r.id == id then some r else find_router id rs

unfoldable pub lsdb_router_find : ℕ → Lsdb → Option RouterNode
unfolding find_router
lsdb_router_find id db = find_router id db.routers

unfoldable pub lsdb_router_add : ℕ → Lsdb → Lsdb
lsdb_router_add id db = record db {
  routers = record { id = id; links_state_count = 0; links_state = [] } ∷ db.routers;
  routers_count = next_u32 db.routers_count;
}

-- The test of `lsdb_link_state_find`: the router is already the right one.
unfoldable pub same_link : LinkStateKey → LinkStateKey → Bool
same_link a b = a.if_id == b.if_id && (a.n_rt_id == b.n_rt_id && a.n_if_id == b.n_if_id)

-- Its loop over the links of that router.
unfoldable pub find_link : (Ptr → LinkState) → LinkStateKey → List Ptr → Option Ptr
unfolding same_link
find_link at k [] = none
find_link at k (p ∷ ps) = if same_link (at p).key k then some p else find_link at k ps

abbrev pub links_of : Option RouterNode → List Ptr
links_of none = []
links_of (some r) = r.links_state

unfoldable pub lsdb_link_state_find : LinkStateKey → Lsdb → Option Ptr
unfolding lsdb_router_find find_link
lsdb_link_state_find k db = elim (lsdb_router_find k.rt_id db) [
  | none ↦ none
  | some r ↦ find_link db.link_at k r.links_state
]

-- `if(lsdb_router_find(...)) lsdb_router_add(...)`; the addition cannot fail.
unfoldable pub ensure_router : ℕ → Lsdb → Lsdb
unfolding lsdb_router_find lsdb_router_add
ensure_router id db = elim (lsdb_router_find id db) [ none ↦ lsdb_router_add id db | some r ↦ db ]

-- `cr_list_add(&newstate->rt_ptrs, &rt->links_state_head)` at the router that was found or added.
unfoldable pub push_link : ℕ → Ptr → List RouterNode → List RouterNode
push_link id p [] = []
push_link id p (r ∷ rs) =
    if r.id == id
    then record r {
      links_state = p ∷ r.links_state;
      links_state_count = next_u32 r.links_state_count;
    }
      ∷ rs
    else r ∷ push_link id p rs

abbrev pub write_link : (Ptr → LinkState) → Ptr → LinkState → Ptr → LinkState
write_link at p s q = if p == q then s else at q

-- The new node, linked into the database's list and into its router's.
unfoldable pub insert_link : LinkState → Lsdb → Lsdb
unfolding push_link
insert_link s db = record db {
  link_at = write_link db.link_at db.fresh s;
  fresh = db.fresh + 1;
  links_state = db.fresh ∷ db.links_state;
  links_state_count = next_u32 db.links_state_count;
  routers = push_link s.key.rt_id db.fresh db.routers;
}

unfoldable pub ensure_neighbor : LinkState → Lsdb → Lsdb
unfolding ensure_router
ensure_neighbor s db = if s.key.n_rt_id == 0 then db else ensure_router s.key.n_rt_id db

unfoldable pub lsdb_link_state_add : LinkState → Lsdb → Lsdb
unfolding ensure_neighbor ensure_router insert_link
lsdb_link_state_add s db = insert_link s (ensure_router s.key.rt_id (ensure_neighbor s db))

abbrev pub post : Action → LinkState → Lsdb → Lsdb
post a s db = record db { sent = record { action = a; areaid = db.area; link = s } ∷ db.sent }

-- `none` is `NOT_FOUND_ERR`.
unfoldable pub cr_lsdb_link_state_find : LinkStateKey → Lsdb → Option LinkState
unfolding lsdb_link_state_find
cr_lsdb_link_state_find k db =
    if k.rt_id == 0
    then none
    else elim (lsdb_link_state_find k db) [ none ↦ none | some p ↦ some (db.link_at p) ]

-- The two asserts come first: router 0 and a key that is present crash the process.
unfoldable pub cr_lsdb_link_state_add : LinkState → Lsdb → Outcome Lsdb
unfolding lsdb_link_state_find lsdb_link_state_add
cr_lsdb_link_state_add s db =
    if s.key.rt_id == 0 then crash else elim (lsdb_link_state_find s.key db) [
      | none ↦ ok (lsdb_link_state_add s (post add_lsa s db))
      | some p ↦ crash
    ]

-- Where the key is absent the final `memcpy` goes through a pointer that was never set.
unfoldable pub cr_lsdb_link_state_update : LinkState → Lsdb → Outcome Lsdb
unfolding lsdb_link_state_find
cr_lsdb_link_state_update s db =
    if s.key.rt_id == 0 then crash else elim (lsdb_link_state_find s.key db) [
      | none ↦ crash
      | some p ↦ ok (post update_lsa s (record db { link_at = write_link db.link_at p s }))
    ]

unfoldable pub cr_lsdb_router_add : ℕ → Lsdb → Outcome Lsdb
unfolding lsdb_router_find lsdb_router_add
cr_lsdb_router_add id db =
    if id == 0
    then crash
    else elim (lsdb_router_find id db) [ none ↦ ok (lsdb_router_add id db) | some r ↦ crash ]

unfoldable pub cr_lsdb_router_find : ℕ → Lsdb → Option ℕ
unfolding lsdb_router_find
cr_lsdb_router_find id db =
    if id == 0 then none else elim (lsdb_router_find id db) [ none ↦ none | some r ↦ some r.id ]

-- The loops of `cr_lsdb_neighbour_info_find` and `cr_lsdb_ethid_info_find_by_nrt_id`: the first
-- link of the router that the test accepts.
unfoldable pub first_link :
    (LinkStateKey → Bool) → (Ptr → LinkState) → List Ptr → Option LinkStateKey
first_link test at [] = none
first_link test at (p ∷ ps) = if test (at p).key then some (at p).key else first_link test at ps

-- The key with its neighbour filled in, by the first link of its interface.
unfoldable pub cr_lsdb_neighbour_info_find : LinkStateKey → Lsdb → Option LinkStateKey
unfolding lsdb_router_find first_link
cr_lsdb_neighbour_info_find k db = elim (lsdb_router_find k.rt_id db) [
  | none ↦ none
  | some r ↦ elim (first_link (λ l. l.if_id == k.if_id) db.link_at r.links_state) [
    | none ↦ none
    | some l ↦ some (record k { n_rt_id = l.n_rt_id; n_if_id = l.n_if_id })
  ]
]

-- The key with its interfaces filled in, by the first link to its neighbour.
unfoldable pub cr_lsdb_ethid_info_find_by_nrt_id : LinkStateKey → Lsdb → Option LinkStateKey
unfolding lsdb_router_find first_link
cr_lsdb_ethid_info_find_by_nrt_id k db = elim (lsdb_router_find k.rt_id db) [
  | none ↦ none
  | some r ↦ elim (first_link (λ l. l.n_rt_id == k.n_rt_id) db.link_at r.links_state) [
    | none ↦ none
    | some l ↦ some (record k { if_id = l.if_id; n_if_id = l.n_if_id })
  ]
]
