-- ===== src/Ddc/Links.antt =====
-- What a link between two routers of an area costs, read from the links alone, and that the matrix of
-- `init_lidb_info`, ddc/ddc.c, has just that.
use pma.Base.{
  ℕ, zero, suc, ◌+◌, ◌≡◌, refl, sym, ap, ◌∙◌, inl, inr, Bool, false, arith, Bool-cases, ◌==◌, ◌&&◌,
  eqb→eq, List, [], ◌∷◌, some, if◌then◌else◌, All, lt→ltb,
}
use pma.Base.Outcome.{ok, ok-injective, ◌>>=◌}
use pma.Ddc.{Netnode, Ridinfo, LinkInfo}
use pma.Ddc.Matrix.{
  AreaInfo, number_routers, get_index_by_rid, leads_nowhere, link_node, add_link, add_links,
  init_lidb_info,
}
use pma.Ddc.Build.{IsUsable, index_place, blank_area}
use pma.Base.Arrays.{put}

-- Whether the router is the one at a place of the list, and at none before.
abbrev pub stands_at : ℕ → List ℕ → ℕ → Bool
stands_at rid [] x = false
stands_at rid (r ∷ rids) zero = r == rid
stands_at rid (r ∷ rids) (suc x) =
    let rest = stands_at rid rids x in if r == rid then false else rest

-- Whether a link leads from the router at the place `x` to the one at `y`.
abbrev pub leads : List ℕ → LinkInfo → ℕ → ℕ → Bool
leads rids l x y =
    if (l.nrid == 0) && (l.nifid == 0)
    then false
    else stands_at l.rid rids x && stands_at l.nrid rids y

-- The metric of the last of the links that leads there, or `c` when none does.
abbrev pub link_cost_from : ℕ → List ℕ → List LinkInfo → ℕ → ℕ → ℕ
link_cost_from c rids [] x y = c
link_cost_from c rids (l ∷ links) x y =
    link_cost_from (if leads rids l x y then l.metric else c) rids links x y

-- 2000 is no link.
abbrev pub link_cost : List ℕ → List LinkInfo → ℕ → ℕ → ℕ
link_cost = link_cost_from 2000

stands_at_lem :
    (rid j p : ℕ) (rids : List ℕ)
    → get_index_by_rid rid (number_routers j rids) ≡ some p
    → (x : ℕ) → stands_at rid rids x ≡ (j + x == p)
unfolding get_index_by_rid
stands_at_lem rid j p [] e x = ground arith
stands_at_lem rid j p (r ∷ rids) e zero = elim (Bool-cases (r == rid)) [
  | inl y ↦ ground arith
  | inr n ↦
      let rest : get_index_by_rid rid (number_routers (suc j) rids) ≡ some p = ground arith in
      let (le, q) = index_place rid (suc j) p rids rest in ground arith
]
stands_at_lem rid j p (r ∷ rids) e (suc x) = elim (Bool-cases (r == rid)) [
  | inl y ↦ ground arith
  | inr n ↦
      let rest : get_index_by_rid rid (number_routers (suc j) rids) ≡ some p = ground arith in
      let h = stands_at_lem rid (suc j) p rids rest x in rw (n, h) (ap (λ k. k == p) (omega arith))
]

metric-put :
    (matrix : ℕ → ℕ → Netnode) (p q c : ℕ) (node : Netnode)
    → node.metric ≡ c
    → (x y : ℕ)
    → (put matrix p (put (matrix p) q node) x y).metric
      ≡ (if (x == p) && (y == q) then c else (matrix x y).metric)
metric-put matrix p q c node e x y = elim (Bool-cases (x == p)) [
  | inr n ↦ rw n refl
  | inl n ↦ elim (Bool-cases (y == q)) [
    | inl m ↦ rw (n, m) e
    | inr m ↦ rw (n, m) (ap (λ k. (matrix k y).metric) (sym (eqb→eq x p n)))
  ]
]

module _ (rids : List ℕ) where
  abbrev info : List Ridinfo
  info = number_routers 0 rids

  metric-add_link :
      (j : ℕ) (l : LinkInfo) (az : AreaInfo)
      → IsUsable info l
      → az.nodeinfo ≡ info
      → (az' : AreaInfo) × (add_link j l az ≡ ok az')
        × (az'.nodeinfo ≡ info)
        × ((x y : ℕ)
            → (az'.matrix x y).metric
              ≡ (if leads rids l x y then l.metric else (az.matrix x y).metric))
  metric-add_link j l az u h = elim (Bool-cases (leads_nowhere l)) [
    | inl a ↦ (record az { access_count = suc az.access_count }, rw a refl, h, λ x y. rw a refl)
    | inr a ↦
        let (p, ep) = u.from a in
        let (q, eq) = u.to a in
        let node = link_node j l q (az.matrix p q) in
        (
          record az {
            matrix = put az.matrix p (put (az.matrix p) q node);
            shortpaths = some [];
            backbone_count = suc az.backbone_count;
          },
          rw (a, h, ep, eq) refl,
          h,
          λ x y.
              let px : stands_at l.rid rids x ≡ (x == p) =
                stands_at_lem l.rid 0 p rids ep x ∙ ap (λ k. k == p) (omega arith) in
              let qy : stands_at l.nrid rids y ≡ (y == q) =
                stands_at_lem l.nrid 0 q rids eq y ∙ ap (λ k. k == q) (omega arith) in
              rw (a, px, qy)
                (metric-put az.matrix p q l.metric node (rw (lt→ltb l.metric 2000 u.small) refl) x
                  y),
        )
  ]

  metric-add_links :
      (links : List LinkInfo) (j : ℕ) (az az' : AreaInfo)
      → All (IsUsable info) links
      → az.nodeinfo ≡ info
      → add_links j links az ≡ ok az'
      → (x y : ℕ) → (az'.matrix x y).metric ≡ link_cost_from (az.matrix x y).metric rids links x y
  unfolding add_links
  metric-add_links [] j az az' u h e x y = ap (λ az. (az.matrix x y).metric) (sym (ok-injective e))
  metric-add_links (l ∷ links) j az az' u h e x y =
      let (az1, e1, h1, m) = metric-add_link j l az u.0 h in
      let rest =
        metric-add_links links (suc j) az1 az' u.1 h1
          (ap (λ o. o >>= add_links (suc j) links) (sym e1) ∙ e) x y in
      rest ∙ ap (λ c. link_cost_from c rids links x y) (m x y)

-- Each entry of the matrix has the cost of the links.
pub metric-init_lidb_info :
    (azid : ℕ) (rids : List ℕ) (links : List LinkInfo) (az : AreaInfo)
    → All (IsUsable (number_routers 0 rids)) links
    → init_lidb_info azid rids links ≡ ok az
    → (x y : ℕ) → (az.matrix x y).metric ≡ link_cost rids links x y
metric-init_lidb_info azid rids links az u e =
    metric-add_links rids links 0 (blank_area rids azid links) az u refl e
