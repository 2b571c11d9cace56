-- ===== src/Ddc/Matrix.antt =====
-- The matrix of an area: `init_lidb_info`, `get_index_by_rid` and the loop over the routers of
-- `path_compute_start`, ddc/ddc.c. `malloc` never fails.
use pma.Base.{
  ℕ, zero, suc, ◌-◌, ◌^◌, Bool, false, ◌&&◌, Option, none, some, List, [], ◌∷◌, map, if◌then◌else◌,
  ◌==◌, ltb, length,
}
use pma.Base.Outcome.{Outcome, ok, crash, ◌>>=◌}
use pma.Base.Arrays.{put}
use pma.Ddc.{Netnode, LinkInfo, Ridinfo, max_metric, no_link}
use pma.Ddc.Dijkstra.{dijkstra}

-- `struct Netpath`, less `nexthop_rid`, which nothing reads, and `next`.
pub record Netpath : Type 0 where
  pub rid : ℕ
  pub nrid : ℕ
  pub connecting : Bool
  pub importance_value : ℕ
  pub distance_metric : ℕ

-- `struct area_info`, less what the database gives it. `shortpaths` has the newest path first, and is
-- `none` before anything sets it. A path of `linkshadows`, one list for each link, is the number of
-- paths that were there before it, for the two lists share the paths.
pub record AreaInfo : Type 0 where
  pub azid : ℕ
  pub nodeinfo : List Ridinfo
  pub lslist : List LinkInfo
  pub matrix : ℕ → ℕ → Netnode
  pub linkshadows : List (List ℕ)
  pub shortpaths : Option (List Netpath)
  pub backbone_count : ℕ
  pub access_count : ℕ

-- The loop that fills `nodeinfo`, from the router `j` on.
abbrev pub number_routers : ℕ → List ℕ → List Ridinfo
number_routers j [] = []
number_routers j (rid ∷ rids) = record { num = j; rid = rid } ∷ number_routers (suc j) rids

-- `none` is -1.
unfoldable pub get_index_by_rid : ℕ → List Ridinfo → Option ℕ
get_index_by_rid rid [] = none
get_index_by_rid rid (r ∷ nodeinfo) =
    let rest = get_index_by_rid rid nodeinfo in if r.rid == rid then some r.num else rest

-- An entry without a link. `nextHop` is not set.
abbrev pub no_node : Netnode
no_node = record {
  next_hop = 0;
  nexthop = λ i. 0;
  nexthop_count = 0;
  metric = max_metric;
  path_cost = 0;
  link_index = no_link;
  overflow = false;
}

-- The entry of the link `j`, which leads to the router `y`.
abbrev pub link_node : ℕ → LinkInfo → ℕ → Netnode → Netnode
link_node j l y node =
    let linked = record node { link_index = j; metric = l.metric; path_cost = l.metric } in
    if ltb l.metric max_metric
    then record linked { nexthop_count = 1; nexthop = put node.nexthop 0 y }
    else linked

-- Whether the link leads to no router.
abbrev pub leads_nowhere : LinkInfo → Bool
leads_nowhere l = (l.nrid == 0) && (l.nifid == 0)

-- Where `x * router_count + y` is, and `y` as a `u32`. Without an index it is counted with -1: for the
-- second router this is the entry before, and otherwise it is outside the matrix, a crash.
abbrev pub place : ℕ → Option ℕ → Option ℕ → Outcome (ℕ × ℕ × ℕ)
place n none y = crash
place n (some x) (some y) = ok (x, y, y)
place n (some zero) none = crash
place n (some (suc x)) none = ok (x, n - 1, 2 ^ 32 - 1)

-- The body of the loop over the links.
abbrev pub add_link : ℕ → LinkInfo → AreaInfo → Outcome AreaInfo
add_link j l az =
    if leads_nowhere l
    then ok (record az { access_count = suc az.access_count })
    else place (length az.nodeinfo) (get_index_by_rid l.rid az.nodeinfo)
        (get_index_by_rid l.nrid az.nodeinfo)
      >>= λ (x, y, hop). ok (record az {
        matrix = put az.matrix x (put (az.matrix x) y (link_node j l hop (az.matrix x y)));
        shortpaths = some [];
        backbone_count = suc az.backbone_count;
      })

-- The loop, from the link `j` on.
unfoldable pub add_links : ℕ → List LinkInfo → AreaInfo → Outcome AreaInfo
unfolding get_index_by_rid
add_links j [] az = ok az
add_links j (l ∷ links) az = add_link j l az >>= add_links (suc j) links

-- One area of `init_lidb_info`: what the database gives of its routers and links.
abbrev pub init_lidb_info : ℕ → List ℕ → List LinkInfo → Outcome AreaInfo
init_lidb_info azid rids links = add_links 0 links (record {
  azid = azid;
  nodeinfo = number_routers 0 rids;
  lslist = links;
  matrix = λ i j. no_node;
  linkshadows = map (λ l. []) links;
  shortpaths = none;
  backbone_count = 0;
  access_count = 0;
})

-- The loop over the routers, for the next `k` from `r` on.
unfoldable pub dijkstra_from :
    (ℕ → ℕ → ℕ) → List Ridinfo → ℕ → ℕ → (ℕ → ℕ → Netnode) → ℕ → ℕ → Netnode
unfolding dijkstra
dijkstra_from ifid_of nodeinfo zero r matrix = matrix
dijkstra_from ifid_of nodeinfo (suc k) r matrix =
    dijkstra_from ifid_of nodeinfo k (suc r) (dijkstra ifid_of nodeinfo r matrix)
