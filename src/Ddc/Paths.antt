-- ===== src/Ddc/Paths.antt =====
-- The shortest paths of an area as objects, and what becomes of them when a link breaks:
-- `record_short_path` and the functions after it, ddc/ddc.c. A sum or a product of
-- `int`s is kept modulo 2^32, as its bits.
use pma.Base.{
  ℕ, zero, suc, ◌+◌, ◌*◌, ◌%◌, ◌^◌, Bool, true, false, ◌&&◌, ◌||◌, Option, none, some, List, [],
  ◌∷◌, if◌then◌else◌, ◌==◌, leb, ltb, length, get_elem?, set,
}
use pma.Base.Outcome.{Outcome, ok, crash, ◌>>=◌}
use pma.Ddc.{Netnode, LinkInfo, max_metric}
use pma.Ddc.Dijkstra.{get_rid_by_index}
use pma.Ddc.Matrix.{Netpath, AreaInfo, leads_nowhere}

-- `get_importance_value_of_router`: the metrics of its access links.
abbrev pub get_importance_value_of_router : ℕ → List LinkInfo → ℕ
get_importance_value_of_router rid [] = 0
get_importance_value_of_router rid (l ∷ links) =
    let rest = get_importance_value_of_router rid links in
    if (rid == l.rid) && leads_nowhere l then (l.metric + rest) % 2 ^ 32 else rest

-- The `while` loop of `record_short_path`: `thisnode` and `nextHop` of each turn, for at most so many
-- turns. `none` when the loop goes on after them. `nextHop` is an `int`.
unfoldable pub walk_path : ℕ → (ℕ → ℕ → Netnode) → ℕ → ℕ → ℕ → Option (List (ℕ × ℕ))
walk_path zero matrix j thisnode next =
    if (thisnode == j) || leb (2 ^ 31) next then some [] else none
walk_path (suc fuel) matrix j thisnode next =
    let rest = walk_path fuel matrix j next (matrix thisnode j).next_hop in
    if (thisnode == j) || leb (2 ^ 31) next
    then some []
    else elim rest [ none ↦ none | some turns ↦ some ((thisnode, next) ∷ turns) ]

-- `link_index` is an `int`; the entry of the link `ls_count` is outside `linkshadows`.
abbrev pub add_path_of_link : ℕ → ℕ → AreaInfo → Outcome AreaInfo
add_path_of_link link_index path az =
    if ltb (length az.lslist) link_index || leb (2 ^ 31) link_index
    then ok az
    else elim (get_elem? az.linkshadows link_index) [
      | none ↦ crash
      | some paths ↦ ok (record az { linkshadows = set az.linkshadows link_index (path ∷ paths) })
    ]

-- The turns of the loop, each of which adds the path to the link from one node to the next.
unfoldable pub add_path_of_links : List (ℕ × ℕ) → ℕ → AreaInfo → Outcome AreaInfo
add_path_of_links [] path az = ok az
add_path_of_links (turn ∷ turns) path az =
    add_path_of_link (az.matrix turn.0 turn.1).link_index path az >>= add_path_of_links turns path

-- The path from the router at `i`, of id `rid`, to the one at `j`.
abbrev pub new_path : ℕ → ℕ → ℕ → ℕ → AreaInfo → Netpath
new_path i j rid nrid az = record {
  rid = rid;
  nrid = nrid;
  connecting = true;
  importance_value =
      (get_importance_value_of_router rid az.lslist * get_importance_value_of_router nrid az.lslist)
      % 2 ^ 32;
  distance_metric = (az.matrix i j).path_cost;
}

-- `add_path_to_area_short_path` with the assignments after it. `crash` is a list whose end was never
-- set, and a router id outside the array.
abbrev pub add_path_to_area_short_path : ℕ → ℕ → AreaInfo → Outcome AreaInfo
add_path_to_area_short_path i j az = elim az.shortpaths [
  | none ↦ crash
  | some paths ↦ elim (get_rid_by_index i az.nodeinfo) [
    | none ↦ crash
    | some rid ↦ elim (get_rid_by_index j az.nodeinfo) [
      | none ↦ crash
      | some nrid ↦ ok (record az { shortpaths = some (new_path i j rid nrid az ∷ paths) })
    ]
  ]
]

-- How many paths there are: the name of the next one.
abbrev pub next_path : AreaInfo → ℕ
next_path az = elim az.shortpaths [ none ↦ 0 | some paths ↦ length paths ]

-- The body of the loops over `i` and `j`; `none` when its `while` loop takes too many turns.
abbrev pub record_pair : ℕ → ℕ → ℕ → AreaInfo → Option (Outcome AreaInfo)
record_pair fuel i j az =
    let node = az.matrix i j in
    if leb max_metric node.path_cost || (node.metric == 0)
    then some (ok az)
    else elim (walk_path fuel az.matrix j i node.next_hop) [
      | none ↦ none
      | some turns ↦
          some (add_path_to_area_short_path i j az >>= add_path_of_links turns (next_path az))
    ]

-- The next turn of the loops, unless the last one did not end or crashed.
abbrev pub continue_with :
    Option (Outcome AreaInfo) → (AreaInfo → Option (Outcome AreaInfo)) → Option (Outcome AreaInfo)
continue_with none f = none
continue_with (some crash) f = some crash
continue_with (some (ok az)) f = f az

unfoldable pub record_pairs : ℕ → List (ℕ × ℕ) → AreaInfo → Option (Outcome AreaInfo)
unfolding walk_path add_path_of_links
record_pairs fuel [] az = some (ok az)
record_pairs fuel (p ∷ pairs) az =
    continue_with (record_pair fuel p.0 p.1 az) (λ az'. record_pairs fuel pairs az')

-- The pairs `(i, j)` for `j` from 0 on, and those for all `i` below `k`.
abbrev pub pairs_of : ℕ → ℕ → List (ℕ × ℕ) → List (ℕ × ℕ)
pairs_of i zero ps = ps
pairs_of i (suc j) ps = pairs_of i j ((i, j) ∷ ps)

abbrev pub all_pairs : ℕ → ℕ → List (ℕ × ℕ) → List (ℕ × ℕ)
all_pairs n zero ps = ps
all_pairs n (suc i) ps = all_pairs n i (pairs_of i n ps)

abbrev pub record_short_path : ℕ → AreaInfo → Option (Outcome AreaInfo)
record_short_path fuel az = let n = length az.nodeinfo in record_pairs fuel (all_pairs n n []) az

-- Whether two links have the same ends.
abbrev pub same_ends : LinkInfo → LinkInfo → Bool
same_ends a b =
    ((a.rid == b.rid) && (a.nrid == b.nrid)) && ((a.ifid == b.ifid) && (a.nifid == b.nifid))

-- The paths of the first link with these ends.
abbrev pub paths_of_link : LinkInfo → List LinkInfo → List (List ℕ) → List ℕ
paths_of_link link [] shadows = []
paths_of_link link (l ∷ links) [] = []
paths_of_link link (l ∷ links) (s ∷ shadows) =
    let rest = paths_of_link link links shadows in if same_ends l link then s else rest

abbrev pub has_path : ℕ → List ℕ → Bool
has_path path [] = false
has_path path (p ∷ paths) = (p == path) || has_path path paths

-- Each of those paths is unconnected from now on; a path's name is how many are behind it.
unfoldable pub break_paths : List ℕ → List Netpath → List Netpath
break_paths broken [] = []
break_paths broken (p ∷ paths) =
    (if has_path (length paths) broken then record p { connecting = false } else p)
    ∷ break_paths broken paths

-- `record_broken_path_down` for the area that has the link.
unfoldable pub record_broken_path_down : LinkInfo → AreaInfo → AreaInfo
unfolding break_paths
record_broken_path_down link az = record az {
  shortpaths = elim az.shortpaths [
    | none ↦ none
    | some paths ↦ some (break_paths (paths_of_link link az.lslist az.linkshadows) paths)
  ];
}

-- `broken_value` and `net_value` of `get_net_destory_degree`, which returns their quotient.
abbrev pub get_net_destory_degree : List Netpath → ℕ × ℕ
get_net_destory_degree [] = (0, 0)
get_net_destory_degree (p ∷ paths) =
    let (broken_value, net_value) = get_net_destory_degree paths in
    if p.connecting
    then (broken_value, (net_value + p.importance_value) % 2 ^ 32)
    else ((broken_value + p.importance_value) % 2 ^ 32, (net_value + p.importance_value) % 2 ^ 32)
