-- ===== src/Ddc/Build.antt =====
-- The matrix that `init_lidb_info` of ddc/ddc.c builds from links that it can use.
use pma.Base.{
  ℕ, suc, length, ◌+◌, ◌-◌, ◌≤◌, ◌<◌, ◌≡◌, refl, sym, subst, ap, ◌∙◌, ◌≢◌, ◌⊎◌, inl, inr, false,
  arith, Bool-cases, ◌==◌, eqb→eq, List, [], ◌∷◌, map, some, none, All, get_elem?, lt→ltb,
}
use pma.Base.Outcome.{ok, ◌>>=◌}
use pma.Base.Arrays.{put}
use pma.Ddc.{Netnode, LinkInfo, Ridinfo, no_link}
use pma.Ddc.Matrix.{
  AreaInfo, number_routers, get_index_by_rid, no_node, link_node, leads_nowhere, add_link,
  add_links, init_lidb_info,
}
use pma.Ddc.Routes.{IsFresh}

-- An access link, or a link between two different routers of the area, with a metric from 1 to 1999.
pub record IsUsable (nodeinfo : List Ridinfo) (l : LinkInfo) : Type 0 where
  pub from : leads_nowhere l ≡ false → (x : ℕ) × (get_index_by_rid l.rid nodeinfo ≡ some x)
  pub to : leads_nowhere l ≡ false → (y : ℕ) × (get_index_by_rid l.nrid nodeinfo ≡ some y)
  pub differ : leads_nowhere l ≡ false → l.rid ≢ l.nrid
  pub positive : 0 < l.metric
  pub small : l.metric < 2000

-- What the loop over the links keeps of the matrix.
pub record IsMatrix (n : ℕ) (matrix : ℕ → ℕ → Netnode) : Type 0 where
  pub fresh : (x y : ℕ) → IsFresh y (matrix x y)
  pub positive : (x y : ℕ) → 0 < (matrix x y).metric
  pub no_loop : (x : ℕ) → 2000 ≤ (matrix x x).metric
  pub index : (x y : ℕ) → ((matrix x y).link_index ≡ no_link) ⊎ ((matrix x y).link_index < n)

-- An index is the place of its router.
pub index_place :
    (rid j x : ℕ) (rids : List ℕ)
    → get_index_by_rid rid (number_routers j rids) ≡ some x
    → j ≤ x × (get_elem? rids (x - j) ≡ some rid)
unfolding get_index_by_rid
index_place rid j x [] e = ground arith
index_place rid j x (r ∷ rids) e = elim (Bool-cases (r == rid)) [
  | inl y ↦
      let same : j ≡ x = ground arith in
      let z : x - j ≡ 0 = omega arith in (omega arith, rw z (ap some (eqb→eq r rid y)))
  | inr y ↦
      let rest : get_index_by_rid rid (number_routers (suc j) rids) ≡ some x = ground arith in
      let (le, p) = index_place rid (suc j) x rids rest in
      let z : x - j ≡ suc (x - suc j) = omega arith in (omega arith, rw z p)
]

-- Every entry of the matrix after a write.
put_cases :
    (P : ℕ → ℕ → Netnode → Type 0) (matrix : ℕ → ℕ → Netnode) (x y : ℕ) (r : Netnode)
    → P x y r
    → ((a b : ℕ) → P a b (matrix a b))
    → (a b : ℕ) → P a b (put matrix x (put (matrix x) y r) a b)
put_cases P matrix x y r p h a b = elim (Bool-cases (a == x)) [
  | inr e ↦ rw e (h a b)
  | inl e ↦ elim (Bool-cases (b == y)) [
    | inl e' ↦
        rw (e, e')
          (subst (λ a. P a b r) (sym (eqb→eq a x e)) (subst (λ b. P x b r) (sym (eqb→eq b y e')) p))
    | inr e' ↦ rw (e, e') (subst (λ k. P a b (matrix k b)) (eqb→eq a x e) (h a b))
  ]
]

module _ (rids : List ℕ) where
  abbrev info : List Ridinfo
  info = number_routers 0 rids

  index_differs :
      (a b x : ℕ) → get_index_by_rid a info ≡ some x → get_index_by_rid b info ≡ some x → a ≡ b
  index_differs a b x ea eb =
      let (_, pa) = index_place a 0 x rids ea in let (_, pb) = index_place b 0 x rids eb in cc

  IsFresh-link_node :
      (j y : ℕ) (l : LinkInfo) (r : Netnode)
      → l.metric < 2000
      → IsFresh y r
      → IsFresh y (link_node j l y r)
  IsFresh-link_node j y l r m h =
      rw (lt→ltb l.metric 2000 m)
        (record { count = rw (lt→ltb l.metric 2000 m) refl; itself = λ z. refl; fits = h.fits })

  IsMatrix-put :
      (n : ℕ) (matrix : ℕ → ℕ → Netnode) (x y : ℕ) (r : Netnode)
      → x ≢ y
      → IsFresh y r
      → 0 < r.metric
      → r.link_index < n
      → IsMatrix n matrix
      → IsMatrix n (put matrix x (put (matrix x) y r))
  IsMatrix-put n matrix x y r ne f p i h = record {
    fresh = put_cases (λ a b r. IsFresh b r) matrix x y r f h.fresh;
    positive = put_cases (λ a b r. 0 < r.metric) matrix x y r p h.positive;
    no_loop = λ a.
        put_cases (λ a b r. a ≡ b → 2000 ≤ r.metric) matrix x y r (λ e. absurd (ne e))
          (λ a b e. subst (λ b. 2000 ≤ (matrix a b).metric) e (h.no_loop a)) a a refl;
    index =
        put_cases (λ a b r. (r.link_index ≡ no_link) ⊎ (r.link_index < n)) matrix x y r (inr i)
          h.index;
  }

  -- What the loop makes of an area: `n` is how many links there are.
  pub record IsExtended (n : ℕ) (az az' : AreaInfo) : Type 0 where
    pub nodes : az'.nodeinfo ≡ info
    pub links : az'.lslist ≡ az.lslist
    pub shadows : az'.linkshadows ≡ az.linkshadows
    pub built : IsMatrix n az'.matrix

  IsExtended-add_link :
      (n j : ℕ) (l : LinkInfo) (az az' : AreaInfo)
      → j < n
      → IsUsable info l
      → IsExtended n az az'
      → (az'' : AreaInfo) × (add_link j l az' ≡ ok az'') × IsExtended n az az''
  IsExtended-add_link n j l az az' lj u h = elim (Bool-cases (leads_nowhere l)) [
    | inl a ↦ (
      record az' { access_count = suc az'.access_count },
      rw a refl,
      record { nodes = h.nodes; links = h.links; shadows = h.shadows; built = h.built },
    )
    | inr a ↦
        let (x, ex) = u.from a in
        let (y, ey) = u.to a in
        let node = link_node j l y (az'.matrix x y) in
        (
          record az' {
            matrix = put az'.matrix x (put (az'.matrix x) y node);
            shortpaths = some [];
            backbone_count = suc az'.backbone_count;
          },
          rw (a, h.nodes, ex, ey) refl,
          record {
            nodes = h.nodes;
            links = h.links;
            shadows = h.shadows;
            built =
                IsMatrix-put n az'.matrix x y node
                  (λ z. u.differ a (index_differs l.rid l.nrid x ex (ey ∙ ap some (sym z))))
                  (IsFresh-link_node j y l (az'.matrix x y) u.small (h.built.fresh x y))
                  (let p = u.positive in rw (lt→ltb l.metric 2000 u.small) p)
                  (rw (lt→ltb l.metric 2000 u.small) lj) h.built;
          },
        )
  ]

  IsExtended-add_links :
      (n : ℕ) (links : List LinkInfo) (j : ℕ) (az az' : AreaInfo)
      → j + length links ≤ n
      → All (IsUsable info) links
      → IsExtended n az az'
      → (az'' : AreaInfo) × (add_links j links az' ≡ ok az'') × IsExtended n az az''
  unfolding add_links
  IsExtended-add_links n [] j az az' le u h = (az', refl, h)
  IsExtended-add_links n (l ∷ links) j az az' le u h =
      let (az1, e1, h1) = IsExtended-add_link n j l az az' (omega arith) u.0 h in
      let (az2, e2, h2) = IsExtended-add_links n links (suc j) az az1 (omega arith) u.1 h1 in
      (az2, ap (λ o. o >>= add_links (suc j) links) e1 ∙ e2, h2)

  IsFresh-no_node : (y : ℕ) → IsFresh y no_node
  IsFresh-no_node y = record { count = refl; itself = λ m. absurd (omega arith); fits = refl }

  -- The area before the loop.
  abbrev pub blank_area : ℕ → List LinkInfo → AreaInfo
  blank_area azid links = record {
    azid = azid;
    nodeinfo = number_routers 0 rids;
    lslist = links;
    matrix = λ i j. no_node;
    linkshadows = map (λ l. []) links;
    shortpaths = none;
    backbone_count = 0;
    access_count = 0;
  }

  -- The matrix of the area is built, and can be filled.
  pub IsExtended-init_lidb_info :
      (azid : ℕ) (links : List LinkInfo)
      → All (IsUsable info) links
      → (az : AreaInfo) × (init_lidb_info azid rids links ≡ ok az)
        × IsExtended (length links) (blank_area azid links) az
  IsExtended-init_lidb_info azid links u =
      IsExtended-add_links (length links) links 0 (blank_area azid links) (blank_area azid links)
        (omega arith) u
        (record {
          nodes = refl;
          links = refl;
          shadows = refl;
          built = record {
            fresh = λ x y. IsFresh-no_node y;
            positive = λ x y. omega arith;
            no_loop = λ x. omega arith;
            index = λ x y. inl refl;
          };
        })
