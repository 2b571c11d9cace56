-- ===== src/Ddc/Dijkstra.antt =====
-- `min_cost`, `nexthop_copy`, `equal_path_copy` and `dijkstra` of ddc/ddc.c. The metrics are so
-- small that no sum of them leaves an `int`. The parameter `ifid_of` is what
-- `query_link_state_details` finds in the database for two router ids: the `ifid` of the link, or 0.
use pma.Base.{
  ℕ, zero, suc, ◌+◌, ◌-◌, Bool, true, false, ◌&&◌, ◌||◌, not, Option, none, some, List,
  if◌then◌else◌, ◌==◌, ltb, leb, length, get_elem?,
}
use pma.Base.Arrays.{put}
use pma.Ddc.{Netnode, Ridinfo, max_metric, max_interface, max_ecmp_limit}

-- `none` is a read behind the array's end.
abbrev pub get_rid_by_index : ℕ → List Ridinfo → Option ℕ
get_rid_by_index index nodeinfo = elim (get_elem? nodeinfo index) [
  | none ↦ none
  | some r ↦ some r.rid
]

-- An entry of `nexthop`, with what becomes of the array when there is no such entry.
abbrev pub write_hop : ℕ → ℕ → Netnode → Netnode
write_hop index hop node = record node {
  nexthop = put node.nexthop index hop;
  overflow = node.overflow || leb max_ecmp_limit index;
}

abbrev pub add_hop : ℕ → ℕ → Netnode → Netnode
add_hop index hop node = record (write_hop index hop node) {
  nexthop_count = suc node.nexthop_count;
}

-- The next `k` entries from `i` on.
unfoldable pub nexthop_copy_from : ℕ → ℕ → Netnode → Netnode → Netnode
nexthop_copy_from zero i w dst = dst
nexthop_copy_from (suc k) i w dst =
    let dst' = add_hop i (w.nexthop i) dst in
    let rest = nexthop_copy_from k (suc i) w dst' in
    if ltb max_ecmp_limit dst'.nexthop_count then dst' else rest

abbrev pub nexthop_copy : Netnode → Netnode → Netnode
nexthop_copy w dst = nexthop_copy_from w.nexthop_count 0 w (record dst { nexthop_count = 0 })

-- Whether a hop is among the first `n` of an array: the loop over `j` of `equal_path_copy`.
abbrev pub among : ℕ → ℕ → (ℕ → ℕ) → Bool
among hop zero hops = false
among hop (suc n) hops = (hop == hops n) || among hop n hops

-- The next `k` entries of `w` from `i` on, written from `index` on unless one of the first
-- `origin` entries is the same.
unfoldable pub equal_path_copy_from : ℕ → ℕ → ℕ → ℕ → Netnode → Netnode → Netnode
equal_path_copy_from zero i index origin w dst = dst
equal_path_copy_from (suc k) i index origin w dst =
    let same = equal_path_copy_from k (suc i) index origin w dst in
    let other =
      equal_path_copy_from k (suc i) (suc index) origin w (add_hop index (w.nexthop i) dst) in
    if among (w.nexthop i) origin dst.nexthop then same else other

abbrev pub equal_path_copy : Netnode → Netnode → Netnode
equal_path_copy w dst =
    equal_path_copy_from w.nexthop_count 0 dst.nexthop_count dst.nexthop_count w dst

-- The variables of `min_cost`.
pub record Choice : Type 0 where
  pub r_value : ℕ
  pub temp : ℕ
  pub min_ifindex : ℕ

abbrev pub first_choice : Choice
first_choice = record { r_value = 0; temp = max_metric - 1; min_ifindex = max_interface }

-- The arrays of `dijkstra`, and the row of the matrix that it fills.
pub record Search : Type 0 where
  pub distance : ℕ → ℕ
  pub visite : ℕ → Bool
  pub row : ℕ → Netnode

module _ (ifid_of : ℕ → ℕ → ℕ) (nodeinfo : List Ridinfo) (s : ℕ) where
  -- `cur_ifindex`: the interface of the link from the source to the first hop.
  abbrev pub cur_ifindex : Netnode → ℕ
  cur_ifindex node = elim (get_rid_by_index s nodeinfo) [
    | none ↦ 0
    | some rid ↦ elim (get_rid_by_index (node.nexthop 0) nodeinfo) [
      | none ↦ 0
      | some nrid ↦ ifid_of rid nrid
    ]
  ]

  -- The body of the loop of `min_cost`.
  abbrev pub consider : Search → ℕ → Choice → Choice
  consider st i c =
      let d = st.distance i in
      let cur = cur_ifindex (st.row i) in
      if not (st.visite i) && (leb d c.temp && not (d == 0))
      then if d == c.temp
        then if ltb cur c.min_ifindex
          then record { r_value = i; temp = d; min_ifindex = cur }
          else c
        else record { r_value = i; temp = d; min_ifindex = cur }
      else c

  -- The loop, for the next `k` nodes from `i` on.
  unfoldable pub min_cost_from : ℕ → ℕ → Search → Choice → Choice
  min_cost_from zero i st c = c
  min_cost_from (suc k) i st c = min_cost_from k (suc i) st (consider st i c)

  abbrev pub min_cost : ℕ → Search → ℕ
  min_cost total st = (min_cost_from total 0 st first_choice).r_value

module _ (cost : ℕ → ℕ → ℕ) (s : ℕ) where
  -- The body of the loop over `j` of `dijkstra`; `cost w j` is the metric of the matrix there.
  abbrev pub relax : ℕ → ℕ → Search → Search
  relax w j st =
      let sum = st.distance w + cost w j in
      if j == s
      then record st { distance = put st.distance j 0 }
      else if st.visite j
      then st
      else if ltb sum (st.distance j)
      then record st {
        distance = put st.distance j sum;
        row = put st.row j (nexthop_copy (st.row w) (st.row j));
      }
      else if sum == st.distance j
      then record st { row = put st.row j (equal_path_copy (st.row w) (st.row j)) }
      else st

  -- The loop, for the next `k` nodes from `j` on.
  unfoldable pub relax_from : ℕ → ℕ → ℕ → Search → Search
  relax_from zero j w st = st
  relax_from (suc k) j w st = relax_from k (suc j) w (relax w j st)

-- The loop over `i`, `k` times.
unfoldable pub rounds : (ℕ → ℕ → ℕ) → List Ridinfo → (ℕ → ℕ → ℕ) → ℕ → ℕ → ℕ → Search → Search
unfolding relax_from min_cost_from
rounds ifid_of nodeinfo cost s total zero st = st
rounds ifid_of nodeinfo cost s total (suc k) st =
    let w = min_cost ifid_of nodeinfo s total st in
    rounds ifid_of nodeinfo cost s total k
      (relax_from cost s total 0 w (record st { visite = put st.visite w true }))

-- The last loop, which leaves the distances and the next hops in the matrix.
abbrev pub settle : ℕ → Search → ℕ → Netnode
settle s st j = record (st.row j) {
  path_cost = st.distance j;
  next_hop = if (st.row j).nexthop_count == 0 then s else (st.row j).nexthop 0;
}

abbrev pub first_search : (ℕ → ℕ → Netnode) → ℕ → Search
first_search matrix s = record {
  distance = λ j. (matrix s j).metric;
  visite = λ j. false;
  row = matrix s;
}

-- The matrix afterwards.
unfoldable pub dijkstra : (ℕ → ℕ → ℕ) → List Ridinfo → ℕ → (ℕ → ℕ → Netnode) → ℕ → ℕ → Netnode
unfolding rounds
dijkstra ifid_of nodeinfo s matrix =
    let total = length nodeinfo in
    let cost = λ (i : ℕ) (j : ℕ). (matrix i j).metric in
    let st = rounds ifid_of nodeinfo cost s total total (first_search matrix s) in
    put matrix s (λ j. if ltb j total then settle s st j else matrix s j)
