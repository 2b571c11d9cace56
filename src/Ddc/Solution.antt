-- ===== src/Ddc/Solution.antt =====
-- The paths of an area, from the links in the database to the matrix that `path_compute_start` of
-- ddc/ddc.c leaves: `init_lidb_info`, and `dijkstra` for every router.
use pma.Base.{
  map, refl, inl, inr, [], ◌∷◌, suc, ap, ℕ, ◌^◌, ◌≤◌, ◌<◌, ◌≡◌, sym, subst, ◌∙◌, ◌≢◌, false, arith,
  List, All, length, some,
}
use pma.Base.Outcome.{ok, ok-injective}
use pma.Base.Count.{IsInjectiveBelow}
use pma.Ddc.{Netnode, LinkInfo}
use pma.Ddc.Matrix.{AreaInfo, Netpath, number_routers, init_lidb_info, dijkstra_from}
use pma.Ddc.Paths.{walk_path, record_short_path}
use pma.Ddc.Record.{IsIndexed, record_short_path-total}
use pma.Ddc.Metric.{link_index-dijkstra_from}
use pma.Ddc.Walk.{Walk}
use pma.Ddc.Ecmp.{IsEntry, IsVia, degree, IsFew-IsVia}
use pma.Ddc.Routes.{cost_of, IsPrepared}
use pma.Ddc.Area.{IsSolved, filled-IsSolved}
use pma.Ddc.Build.{IsUsable, IsMatrix, IsExtended, IsExtended-init_lidb_info, blank_area}
use pma.Ddc.Links.{link_cost, metric-init_lidb_info}
use pma.Ddc.Trace.{cost_of_turns, follows, walk_back}

module _ (ifid_of : ℕ → ℕ → ℕ) (azid : ℕ) (rids : List ℕ) (links : List LinkInfo) (az : AreaInfo)
    (usable : All (IsUsable (number_routers 0 rids)) links)
    (built : init_lidb_info azid rids links ≡ ok az)
    (few : (s : ℕ) → s < length az.nodeinfo → degree (cost_of az.matrix) s (length az.nodeinfo) ≤ 4)
    (small : length az.nodeinfo ≤ 2 ^ 31) where
  abbrev total : ℕ
  total = length az.nodeinfo

  abbrev cost : ℕ → ℕ → ℕ
  cost = cost_of az.matrix

  -- The matrix at the end.
  abbrev pub solution : ℕ → ℕ → Netnode
  solution = dijkstra_from ifid_of az.nodeinfo total 0 az.matrix

  extended : IsExtended rids (length links) (blank_area rids azid links) az
  extended =
      let (az0, e, h) = IsExtended-init_lidb_info rids azid links usable in
      subst (IsExtended rids (length links) (blank_area rids azid links))
        (ok-injective (sym e ∙ built)) h

  matrix-IsMatrix : IsMatrix (length links) az.matrix
  matrix-IsMatrix = extended.built

  prepared : (s : ℕ) → s < total → IsPrepared total s az.matrix
  prepared s l = record {
    positive = λ u v lu lv. matrix-IsMatrix.positive u v;
    no_loop = matrix-IsMatrix.no_loop s;
    few = few s l;
    fresh = λ y ly. matrix-IsMatrix.fresh s y;
  }

  solved : (s j : ℕ) → s < total → j < total → IsSolved cost total s j (solution s j)
  solved = filled-IsSolved ifid_of az.nodeinfo az.matrix prepared

  positive : (u v : ℕ) → u < total → v < total → 0 < cost u v
  positive u v lu lv = matrix-IsMatrix.positive u v

  entry :
      (s j : ℕ)
      → s < total
      → j < total
      → j ≢ s
      → IsEntry cost s total j (solution s j).path_cost (solution s j)
  entry s j ls lj n = (solved s j ls lj).entry n

  -- In an area of at most 2^31 routers whose links are usable and lead from each router to at most
  -- four others, when every run of `dijkstra` is over: let a step from one router to another cost the
  -- metric of the last of the links that lead from the one to the other, whatever the others cost. When
  -- there is a walk of such steps from a router to one of the area that costs less than 2000, the path
  -- cost in their entry is at most the cost of that walk, and there is a walk of just the path cost.
  pub path_cost-Walk :
      (s j c : ℕ)
      → s < total
      → j < total
      → Walk (link_cost rids links) total s j c
      → c < 2000
      → (solution s j).path_cost ≤ c
        × Walk (link_cost rids links) total s j (solution s j).path_cost
  path_cost-Walk s j c ls lj way l =
      let same : cost ≡ link_cost rids links =
        λ i a b. metric-init_lidb_info azid rids links az usable built a b i in
      let le = (solved s j ls lj).least c (subst (λ k. Walk k total s j c) (sym same) way) l in
      (
        le,
        subst (λ k. Walk k total s j (solution s j).path_cost) same
            (walk_back total cost solution solved positive small s j ls lj (omega arith)),
      )

  -- In an area of at most 2^31 routers whose links are usable and lead from each router to at most
  -- four others, when every run of `dijkstra` is over: each next hop of an entry is another router
  -- with a link from the source, and that link and some walk from there to the destination cost
  -- together just the entry's path cost.
  pub nexthop-IsVia :
      (s j i : ℕ)
      → s < total
      → j < total
      → j ≢ s
      → i < (solution s j).nexthop_count
      → IsVia cost s total j (solution s j).path_cost ((solution s j).nexthop i)
  nexthop-IsVia s j i ls lj n l = (entry s j ls lj n).hops.each i l

  -- In an area of at most 2^31 routers whose links are usable and lead from each router to at most
  -- four others, when every run of `dijkstra` is over: no run wrote behind the four places for the
  -- next hops from a router to another with a path cost below 2000, of which there are from one to
  -- four, and no next hop is there twice.
  pub nexthop-fits :
      (s j : ℕ)
      → s < total
      → j < total
      → j ≢ s
      → (solution s j).path_cost < 2000
      → ((solution s j).overflow ≡ false)
        × 0 < (solution s j).nexthop_count
        × (solution s j).nexthop_count ≤ 4
        × IsInjectiveBelow (solution s j).nexthop (solution s j).nexthop_count
  nexthop-fits s j ls lj n m =
      let e = entry s j ls lj n in
      (
        e.hops.fits,
        e.some_hop m,
        IsFew-IsVia cost s total (few s ls) j (solution s j).path_cost (solution s j).nexthop_count
            (solution s j).nexthop e.hops.each e.hops.distinct,
        e.hops.distinct,
      )

  -- In an area of at most 2^31 routers whose links are usable and lead from each router to at most
  -- four others, when every run of `dijkstra` is over: the loop of `record_short_path` that follows
  -- the next hops between two routers with a path cost below 2000 ends, after at most 4000 turns,
  -- and the links that it follows cost together just that path cost.
  pub walk_path-cost_of_turns :
      (s j : ℕ)
      → s < total
      → j < total
      → (solution s j).path_cost < 2000
      → (turns : List (ℕ × ℕ)) × (walk_path 4000 solution j s (solution s j).next_hop ≡ some turns)
        × (cost_of_turns cost turns ≡ (solution s j).path_cost)
  walk_path-cost_of_turns s j ls lj m =
      follows total cost solution solved positive small 4000 s j ls lj m (omega arith)

  length-map_nil :
      (ls : List LinkInfo) → length (map {A = LinkInfo} {B = List ℕ} (λ l. []) ls) ≡ length ls
  length-map_nil [] = refl
  length-map_nil (l ∷ ls) = ap suc (length-map_nil ls)

  -- The area with the matrix at the end.
  abbrev pub solved_area : AreaInfo
  solved_area = record az { matrix = solution }

  IsIndexed-solved_area : length links ≤ 2 ^ 31 → IsIndexed solved_area
  IsIndexed-solved_area le =
      let n = ap length extended.links in
      record {
        links = λ i j.
            let e = link_index-dijkstra_from ifid_of az.nodeinfo total 0 az.matrix i j in
            elim (matrix-IsMatrix.index i j) [ inl z ↦ inl (e ∙ z) | inr l ↦ inr (omega arith) ];
        places = ap length extended.shadows ∙ length-map_nil links ∙ sym n;
        short = omega arith;
      }

  -- In an area of at most 2^31 routers whose links are usable and lead from each router to at most
  -- four others, when every run of `dijkstra` is over: if there are at most 2^31 links and the list
  -- of paths was set, `record_short_path` ends on that matrix, with at most 4000 turns for a path,
  -- writes through no pointer that is not set and outside no array, and leaves the matrix as it is.
  pub record_short_path-solved_area :
      (ps : List Netpath)
      → az.shortpaths ≡ some ps
      → length links ≤ 2 ^ 31
      → (az' : AreaInfo) × (record_short_path 4000 solved_area ≡ some (ok az'))
        × (az'.matrix ≡ solution)
  record_short_path-solved_area ps e le =
      record_short_path-total 4000 solved_area
        (λ i j li lj m. let (turns, run, sum) = walk_path-cost_of_turns i j li lj m in (turns, run))
        ps e (IsIndexed-solved_area le)
