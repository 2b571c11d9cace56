-- ===== src/Ddc/Tests.antt =====
-- An area of three routers, and the theorems at it.
use pma.Base.{
  ℕ, ◌≤◌, ◌<◌, ◌≡◌, refl, ◌≢◌, true, false, some, List, [], ◌∷◌, All, arith, suc, if◌then◌else◌,
  leb, ltb,
}
use pma.Base.Count.{IsInjectiveBelow, number_of_le}
use pma.Base.Outcome.{ok}
use pma.Base.Arrays.{put}
use pma.Ddc.{Netnode, LinkInfo}
use pma.Ddc.Dijkstra.{
  min_cost_from, relax_from, rounds, dijkstra, nexthop_copy_from, equal_path_copy_from,
}
use pma.Ddc.Matrix.{
  Netpath, AreaInfo, number_routers, get_index_by_rid, add_links, init_lidb_info, dijkstra_from,
  link_node, no_node,
}
use pma.Ddc.Paths.{walk_path, record_short_path}
use pma.Ddc.Walk.{Walk, here, step}
use pma.Ddc.Ecmp.{IsVia, degree}
use pma.Ddc.Routes.{cost_of}
use pma.Ddc.Build.{IsUsable}
use pma.Ddc.Trace.{cost_of_turns}
use pma.Ddc.Links.{link_cost}
use pma.Ddc.Solution.{
  solution, solved_area, path_cost-Walk, nexthop-IsVia, nexthop-fits, walk_path-cost_of_turns,
  record_short_path-solved_area,
}

abbrev link : ℕ → ℕ → ℕ → ℕ → LinkInfo
link from to interface cost = record {
  areaid = 1;
  rid = from;
  nrid = to;
  ifid = interface;
  nifid = 1;
  metric = cost;
  status = 0;
}

abbrev access : LinkInfo
access = record { areaid = 1; rid = 10; nrid = 0; ifid = 5; nifid = 0; metric = 40; status = 0 }

-- From 10 to 30 directly or over 20 costs the same.
abbrev links : List LinkInfo
links = link 10 20 1 1 ∷ link 20 30 2 1 ∷ link 10 30 2 2 ∷ link 30 10 1 5 ∷ access ∷ []

abbrev rids : List ℕ
rids = 10 ∷ 20 ∷ 30 ∷ []

-- The interface of each link.
abbrev ifid_of : ℕ → ℕ → ℕ
ifid_of rid nrid = if leb 30 nrid then 2 else 1

-- The entry of one more link.
abbrev with_link : ℕ → LinkInfo → ℕ → ℕ → (ℕ → ℕ → Netnode) → ℕ → ℕ → Netnode
with_link j l x y matrix = put matrix x (put (matrix x) y (link_node j l y (matrix x y)))

abbrev triangle : AreaInfo
triangle = record {
  azid = 1;
  nodeinfo = number_routers 0 rids;
  lslist = links;
  matrix = with_link 3 (link 30 10 1 5) 2 0 (
      with_link 2 (link 10 30 2 2) 0 2
        (with_link 1 (link 20 30 2 1) 1 2 (with_link 0 (link 10 20 1 1) 0 1 (λ i j. no_node))));
  linkshadows = [] ∷ [] ∷ [] ∷ [] ∷ [] ∷ [];
  shortpaths = some [];
  backbone_count = 4;
  access_count = 1;
}

built : init_lidb_info 1 rids links ≡ ok triangle
unfolding add_links get_index_by_rid
built = refl

IsUsable-link :
    (from to interface cost x y : ℕ)
    → 0 < cost
    → cost < 2000
    → from ≢ suc to
    → get_index_by_rid from (number_routers 0 rids) ≡ some x
    → get_index_by_rid (suc to) (number_routers 0 rids) ≡ some y
    → IsUsable (number_routers 0 rids) (link from (suc to) interface cost)
IsUsable-link from to interface cost x y p m n ex ey = record {
  from = λ a. (x, ex);
  to = λ a. (y, ey);
  differ = λ a. n;
  positive = p;
  small = m;
}

usable : All (IsUsable (number_routers 0 rids)) links
unfolding get_index_by_rid
usable = (
  IsUsable-link 10 19 1 1 0 1 (omega arith) (omega arith) (λ e. omega arith) refl refl,
  (
    IsUsable-link 20 29 2 1 1 2 (omega arith) (omega arith) (λ e. omega arith) refl refl,
    (
      IsUsable-link 10 29 2 2 0 2 (omega arith) (omega arith) (λ e. omega arith) refl refl,
      (
        IsUsable-link 30 9 1 5 2 0 (omega arith) (omega arith) (λ e. omega arith) refl refl,
        (
          record {
            from = λ a. ground arith;
            to = λ a. ground arith;
            differ = λ a. ground arith;
            positive = omega arith;
            small = omega arith;
          },
          tt,
        ),
      ),
    ),
  ),
)

few : (s : ℕ) → s < 3 → degree (cost_of triangle.matrix) s 3 ≤ 4
few s l = omega (arith, number_of_le (λ y. ltb (cost_of triangle.matrix s y) 2000) 3)

abbrev end_matrix : ℕ → ℕ → Netnode
end_matrix = solution ifid_of 1 rids links triangle usable built few (omega arith)

path_cost-Walk_example :
    ((end_matrix 0 2).path_cost ≤ 2) × Walk (link_cost rids links) 3 0 2 (end_matrix 0 2).path_cost
path_cost-Walk_example =
    path_cost-Walk ifid_of 1 rids links triangle usable built few (omega arith) 0 2 2 (omega arith)
      (omega arith) (step 0 2 0 here (omega arith)) (omega arith)

ways : (end_matrix 0 2).nexthop_count ≡ 2
unfolding dijkstra_from dijkstra rounds min_cost_from relax_from nexthop_copy_from
    equal_path_copy_from
ways = refl

cost_two : (end_matrix 0 2).path_cost ≡ 2
unfolding dijkstra_from dijkstra rounds min_cost_from relax_from nexthop_copy_from
    equal_path_copy_from
cost_two = refl

nexthop-IsVia_example :
    IsVia (cost_of triangle.matrix) 0 3 2 (end_matrix 0 2).path_cost ((end_matrix 0 2).nexthop 1)
nexthop-IsVia_example =
    nexthop-IsVia ifid_of 1 rids links triangle usable built few (omega arith) 0 2 1 (omega arith)
      (omega arith) (λ e. omega arith) (omega (arith, ways))

nexthop-fits_example :
    ((end_matrix 0 2).overflow ≡ false)
    × 0 < (end_matrix 0 2).nexthop_count
    × (end_matrix 0 2).nexthop_count ≤ 4
    × IsInjectiveBelow (end_matrix 0 2).nexthop (end_matrix 0 2).nexthop_count
nexthop-fits_example =
    nexthop-fits ifid_of 1 rids links triangle usable built few (omega arith) 0 2 (omega arith)
      (omega arith) (λ e. omega arith) (omega (arith, cost_two))

walk_path-cost_of_turns_example :
    (turns : List (ℕ × ℕ)) × (walk_path 4000 end_matrix 2 0 (end_matrix 0 2).next_hop ≡ some turns)
    × (cost_of_turns (cost_of triangle.matrix) turns ≡ (end_matrix 0 2).path_cost)
walk_path-cost_of_turns_example =
    walk_path-cost_of_turns ifid_of 1 rids links triangle usable built few (omega arith) 0 2
      (omega arith) (omega arith) (omega (arith, cost_two))

-- With at most 4000 turns for a path.
record_short_path-solved_area_example :
    (az' : AreaInfo) × (record_short_path 4000
        (solved_area ifid_of 1 rids links triangle usable built few (omega arith))
      ≡ some (ok az'))
    × (az'.matrix ≡ end_matrix)
record_short_path-solved_area_example =
    record_short_path-solved_area ifid_of 1 rids links triangle usable built few (omega arith) []
      refl (omega arith)

abbrev path : ℕ → Netpath
path value = record {
  rid = 10;
  nrid = 20;
  connecting = true;
  importance_value = value;
  distance_metric = 1;
}
