-- ===== src/Lsdb/Traverse.antt =====
-- Walks over the database with a visitor: lsdb/lsdb_traverse.c. A visitor has a state and returns a
-- code, 0 for `NO_ERR`; any other code ends the walk.
use pma.Base.{
  ℕ, ◌≡◌, refl, ◌∙◌, ap, Bool, true, not, List, [], ◌∷◌, ◌++◌, map, reverse, if◌then◌else◌, ◌==◌,
  Option, none, some, Bool-cases, Option-cases, inl, inr, ◌%◌,
}
use mathlib.Core.List.{reverse-cons, append_assoc, append-nil}
use pma.Lsdb.{LinkState, Lsdb, Ptr, lsdb_router_find, find_router, links_of}

-- The common loop, over the nodes that the test lets through.
unfoldable pub accept {ℓ κ} :
    {A : Type ℓ} {S : Type κ} → (A → Bool) → (A → S → ℕ × S) → List A → S → ℕ × S
accept test v [] s = (0, s)
accept test v (a ∷ as') s =
    let (r, s') = v a s in
    let rest = accept test v as' s' in
    let skipped = accept test v as' s in
    if test a then (if r == 0 then rest else (r, s')) else skipped

abbrev pub nodes : Lsdb → List Ptr → List LinkState
nodes db = map db.link_at

abbrev every : LinkState → Bool
every s = true

abbrev pub is_backbone : LinkState → Bool
is_backbone s = not (s.key.n_rt_id == 0)

abbrev pub is_access : LinkState → Bool
is_access s = s.key.n_rt_id == 0

module _ {S : Type 0} (v : LinkState → S → ℕ × S) where
  unfoldable pub cr_lsdb_links_state_accept : Lsdb → S → ℕ × S
  unfolding accept
  cr_lsdb_links_state_accept db = accept every v (nodes db db.links_state)

  unfoldable pub cr_lsdb_backbone_links_state_accept : Lsdb → S → ℕ × S
  unfolding accept
  cr_lsdb_backbone_links_state_accept db = accept is_backbone v (nodes db db.links_state)

  -- `none` is `NOT_FOUND_ERR`.
  unfoldable pub accept_by_router : (LinkState → Bool) → ℕ → Lsdb → S → Option (ℕ × S)
  unfolding accept lsdb_router_find
  accept_by_router test rt_id db s = elim (lsdb_router_find rt_id db) [
    | none ↦ none
    | some r ↦ some (accept test v (nodes db r.links_state) s)
  ]

  unfoldable pub cr_lsdb_links_state_accept_by_router : ℕ → Lsdb → S → Option (ℕ × S)
  unfolding accept_by_router
  cr_lsdb_links_state_accept_by_router = accept_by_router every

  unfoldable pub cr_lsdb_access_links_state_accept_by_router : ℕ → Lsdb → S → Option (ℕ × S)
  unfolding accept_by_router
  cr_lsdb_access_links_state_accept_by_router = accept_by_router is_access

  unfoldable pub cr_lsdb_backbone_links_state_accept_by_router : ℕ → Lsdb → S → Option (ℕ × S)
  unfolding accept_by_router
  cr_lsdb_backbone_links_state_accept_by_router = accept_by_router is_backbone

-- The visitor that copies each link state to the front of a list.
unfoldable pub add_link_state_into_list : LinkState → List LinkState → ℕ × List LinkState
add_link_state_into_list s head = (0, s ∷ head)

unfoldable pub cr_lsdb_get_links_state : Lsdb → ℕ × List LinkState
unfolding cr_lsdb_links_state_accept add_link_state_into_list
cr_lsdb_get_links_state db = cr_lsdb_links_state_accept add_link_state_into_list db []

unfoldable pub cr_lsdb_get_backbone_links_state : Lsdb → ℕ × List LinkState
unfolding cr_lsdb_backbone_links_state_accept add_link_state_into_list
cr_lsdb_get_backbone_links_state db =
    cr_lsdb_backbone_links_state_accept add_link_state_into_list db []

-- Where the router is not found the list stays empty.
abbrev or_empty : Option (ℕ × List LinkState) → List LinkState
or_empty none = []
or_empty (some (r, l)) = l

unfoldable pub cr_lsdb_get_links_state_by_router : ℕ → Lsdb → List LinkState
unfolding cr_lsdb_links_state_accept_by_router add_link_state_into_list
cr_lsdb_get_links_state_by_router id db =
    or_empty (cr_lsdb_links_state_accept_by_router add_link_state_into_list id db [])

unfoldable pub cr_lsdb_get_access_links_state_by_router : ℕ → Lsdb → List LinkState
unfolding cr_lsdb_access_links_state_accept_by_router add_link_state_into_list
cr_lsdb_get_access_links_state_by_router id db =
    or_empty (cr_lsdb_access_links_state_accept_by_router add_link_state_into_list id db [])

unfoldable pub cr_lsdb_get_backbone_links_state_by_router : ℕ → Lsdb → List LinkState
unfolding cr_lsdb_backbone_links_state_accept_by_router add_link_state_into_list
cr_lsdb_get_backbone_links_state_by_router id db =
    or_empty (cr_lsdb_backbone_links_state_accept_by_router add_link_state_into_list id db [])

-- The entries of `array` before the final -1. The caller's array has room for MAX_ADJ = 10.
abbrev is_linked : LinkState → Bool
is_linked s = s.state % 4 == 3

unfoldable pub adjacent : List LinkState → List ℕ
adjacent [] = []
adjacent (s ∷ rest) = if is_linked s then s.key.rt_id ∷ adjacent rest else adjacent rest

unfoldable pub cr_lsdb_find_adjacent_router : ℕ → Lsdb → List ℕ
unfolding cr_lsdb_get_backbone_links_state_by_router adjacent
cr_lsdb_find_adjacent_router rt_id db =
    adjacent (cr_lsdb_get_backbone_links_state_by_router rt_id db)

-- The entries that a test lets through, in order.
unfoldable pub kept : (LinkState → Bool) → List LinkState → List LinkState
kept test [] = []
kept test (s ∷ rest) = if test s then s ∷ kept test rest else kept test rest

accept-collect :
    (test : LinkState → Bool) (xs acc : List LinkState)
    → accept test add_link_state_into_list xs acc ≡ (0, reverse (kept test xs) ++ acc)
unfolding accept add_link_state_into_list kept
accept-collect test [] acc = refl
accept-collect test (x ∷ xs) acc = elim (Bool-cases (test x)) [
  | inl e ↦
      rw (e, accept-collect test xs (x ∷ acc), reverse-cons x (kept test xs)) (simp append_assoc)
  | inr e ↦ rw (e, accept-collect test xs acc)
]

kept-every : (xs : List LinkState) → kept every xs ≡ xs
unfolding kept
kept-every [] = refl
kept-every (x ∷ xs) = ap (λ l. x ∷ l) (kept-every xs)

-- `cr_lsdb_get_links_state` returns NO_ERR and copies of all entries of the database, in the
-- reverse of the database's order, that is, oldest first.
pub get_links_state-reverse :
    (db : Lsdb) → cr_lsdb_get_links_state db ≡ (0, reverse (map db.link_at db.links_state))
unfolding cr_lsdb_get_links_state cr_lsdb_links_state_accept
get_links_state-reverse db =
    accept-collect every (nodes db db.links_state) []
    ∙ ap (λ l. (0, l)) (append-nil _ ∙ ap reverse (kept-every (nodes db db.links_state)))

by_router-kept :
    (test : LinkState → Bool) (id : ℕ) (db : Lsdb)
    → or_empty (accept_by_router add_link_state_into_list test id db [])
      ≡ reverse (kept test (nodes db (links_of (find_router id db.routers))))
unfolding accept_by_router lsdb_router_find kept
by_router-kept test id db = elim (Option-cases (find_router id db.routers)) [
  | inl e ↦ rw (e, accept_by_router)
  | inr (r, e) ↦
      rw (e, accept_by_router, accept-collect test (nodes db r.links_state) []) (append-nil _)
]

-- The walk over one router gives exactly the entries in that router's list that lead to a
-- neighbour, or to none, oldest first.
pub get_by_router-kept :
    (id : ℕ) (db : Lsdb)
    → (cr_lsdb_get_backbone_links_state_by_router id db
        ≡ reverse (kept is_backbone (nodes db (links_of (find_router id db.routers)))))
      × (cr_lsdb_get_access_links_state_by_router id db
          ≡ reverse (kept is_access (nodes db (links_of (find_router id db.routers)))))
unfolding cr_lsdb_get_backbone_links_state_by_router cr_lsdb_get_access_links_state_by_router
    cr_lsdb_backbone_links_state_accept_by_router cr_lsdb_access_links_state_accept_by_router
get_by_router-kept id db = (by_router-kept is_backbone id db, by_router-kept is_access id db)
