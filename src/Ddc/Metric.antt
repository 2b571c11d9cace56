-- ===== src/Ddc/Metric.antt =====
-- `dijkstra` of ddc/ddc.c changes no metric and no link, and no row but the source's.
use pma.Base.{
  ℕ, zero, suc, ◌+◌, ◌≡◌, refl, ap, ◌∙◌, ◌≢◌, inl, inr, true, Bool-cases, ◌==◌, ltb, eqb→eq, ne→eqb,
  List, length, sym,
}
use pma.Base.Arrays.{put}
use pma.Ddc.{Netnode, Ridinfo}
use pma.Ddc.Matrix.{dijkstra_from}
use pma.Ddc.Dijkstra.{
  Search, relax, relax_from, rounds, first_search, dijkstra, min_cost, nexthop_copy,
  nexthop_copy_from, equal_path_copy_from, equal_path_copy, add_hop, among,
}

-- What names the link of an entry, and its metric.
abbrev pub linked : Netnode → ℕ × ℕ
linked r = (r.metric, r.link_index)

linked-nexthop_copy_from : (k i : ℕ) (w r : Netnode) → linked (nexthop_copy_from k i w r) ≡ linked r
unfolding nexthop_copy_from
linked-nexthop_copy_from zero i w r = refl
linked-nexthop_copy_from (suc k) i w r =
    let rest = linked-nexthop_copy_from k (suc i) w (add_hop i (w.nexthop i) r) in
    elim (Bool-cases (ltb 4 (suc r.nexthop_count))) [ inl e ↦ rw e refl | inr e ↦ rw e rest ]

linked-equal_path_copy_from :
    (k i index origin : ℕ) (w r : Netnode)
    → linked (equal_path_copy_from k i index origin w r) ≡ linked r
unfolding equal_path_copy_from
linked-equal_path_copy_from zero i index origin w r = refl
linked-equal_path_copy_from (suc k) i index origin w r =
    let same = linked-equal_path_copy_from k (suc i) index origin w r in
    let other =
      linked-equal_path_copy_from k (suc i) (suc index) origin w (add_hop index (w.nexthop i) r) in
    elim (Bool-cases (among (w.nexthop i) origin r.nexthop)) [
      | inl e ↦ rw e same
      | inr e ↦ rw e other
    ]

linked-put :
    (f : ℕ → Netnode) (i x : ℕ) (v : Netnode)
    → linked v ≡ linked (f i)
    → linked (put f i v x) ≡ linked (f x)
linked-put f i x v e = elim (Bool-cases (x == i)) [
  | inl y ↦ rw y (e ∙ ap (λ k. linked (f k)) (sym (eqb→eq x i y)))
  | inr y ↦ rw y refl
]

module _ (cost : ℕ → ℕ → ℕ) (s : ℕ) where
  linked-relax :
      (w j x : ℕ) (st : Search) → linked ((relax cost s w j st).row x) ≡ linked (st.row x)
  linked-relax w j x st =
      let sum = st.distance w + cost w j in
      let a =
        linked-nexthop_copy_from (st.row w).nexthop_count 0 (st.row w)
          (record (st.row j) { nexthop_count = 0 }) in
      let b =
        linked-equal_path_copy_from (st.row w).nexthop_count 0 (st.row j).nexthop_count
          (st.row j).nexthop_count (st.row w) (st.row j) in
      elim (Bool-cases (j == s)) [
        | inl e ↦ rw e refl
        | inr e ↦ elim (Bool-cases (st.visite j)) [
          | inl v ↦ rw (e, v) refl
          | inr v ↦ elim (Bool-cases (ltb sum (st.distance j))) [
            | inl l ↦ rw (e, v, l) (linked-put st.row j x (nexthop_copy (st.row w) (st.row j)) a)
            | inr l ↦ elim (Bool-cases (sum == st.distance j)) [
              | inl q ↦
                  rw (e, v, l, q) (linked-put st.row j x (equal_path_copy (st.row w) (st.row j)) b)
              | inr q ↦ rw (e, v, l, q) refl
            ]
          ]
        ]
      ]

  linked-relax_from :
      (k j w x : ℕ) (st : Search) → linked ((relax_from cost s k j w st).row x) ≡ linked (st.row x)
  unfolding relax_from
  linked-relax_from zero j w x st = refl
  linked-relax_from (suc k) j w x st =
      linked-relax_from k (suc j) w x (relax cost s w j st) ∙ linked-relax w j x st

module _ (ifid_of : ℕ → ℕ → ℕ) (nodeinfo : List Ridinfo) (cost : ℕ → ℕ → ℕ) (s total : ℕ) where
  linked-rounds :
      (k x : ℕ) (st : Search)
      → linked ((rounds ifid_of nodeinfo cost s total k st).row x) ≡ linked (st.row x)
  unfolding rounds
  linked-rounds zero x st = refl
  linked-rounds (suc k) x st =
      let w = min_cost ifid_of nodeinfo s total st in
      let st1 = record st { visite = put st.visite w true } in
      linked-rounds k x (relax_from cost s total 0 w st1) ∙ linked-relax_from cost s total 0 w x st1

pub dijkstra_other :
    (ifid_of : ℕ → ℕ → ℕ) (nodeinfo : List Ridinfo) (s : ℕ) (matrix : ℕ → ℕ → Netnode) (i j : ℕ)
    → i ≢ s
    → dijkstra ifid_of nodeinfo s matrix i j ≡ matrix i j
unfolding dijkstra
dijkstra_other ifid_of nodeinfo s matrix i j n = rw (ne→eqb i s n) refl

pub linked-dijkstra :
    (ifid_of : ℕ → ℕ → ℕ) (nodeinfo : List Ridinfo) (s : ℕ) (matrix : ℕ → ℕ → Netnode) (i j : ℕ)
    → linked (dijkstra ifid_of nodeinfo s matrix i j) ≡ linked (matrix i j)
unfolding dijkstra
linked-dijkstra ifid_of nodeinfo s matrix i j =
    let total = length nodeinfo in
    elim (Bool-cases (i == s)) [
      | inr e ↦ rw e refl
      | inl e ↦ elim (Bool-cases (ltb j total)) [
        | inl l ↦
            rw (e, l)
              (linked-rounds ifid_of nodeinfo (λ (a : ℕ) (b : ℕ). (matrix a b).metric) s total total
                  j (first_search matrix s)
                ∙ ap (λ k. linked (matrix k j)) (sym (eqb→eq i s e)))
        | inr l ↦ rw (e, l) (ap (λ k. linked (matrix k j)) (sym (eqb→eq i s e)))
      ]
    ]

pub metric-dijkstra :
    (ifid_of : ℕ → ℕ → ℕ) (nodeinfo : List Ridinfo) (s : ℕ) (matrix : ℕ → ℕ → Netnode) (i j : ℕ)
    → (dijkstra ifid_of nodeinfo s matrix i j).metric ≡ (matrix i j).metric
metric-dijkstra ifid_of nodeinfo s matrix i j =
    ap (λ p. p.0) (linked-dijkstra ifid_of nodeinfo s matrix i j)

pub link_index-dijkstra :
    (ifid_of : ℕ → ℕ → ℕ) (nodeinfo : List Ridinfo) (s : ℕ) (matrix : ℕ → ℕ → Netnode) (i j : ℕ)
    → (dijkstra ifid_of nodeinfo s matrix i j).link_index ≡ (matrix i j).link_index
link_index-dijkstra ifid_of nodeinfo s matrix i j =
    ap (λ p. p.1) (linked-dijkstra ifid_of nodeinfo s matrix i j)

pub link_index-dijkstra_from :
    (ifid_of : ℕ → ℕ → ℕ) (nodeinfo : List Ridinfo) (k r : ℕ) (matrix : ℕ → ℕ → Netnode) (i j : ℕ)
    → (dijkstra_from ifid_of nodeinfo k r matrix i j).link_index ≡ (matrix i j).link_index
unfolding dijkstra_from
link_index-dijkstra_from ifid_of nodeinfo zero r matrix i j = refl
link_index-dijkstra_from ifid_of nodeinfo (suc k) r matrix i j =
    link_index-dijkstra_from ifid_of nodeinfo k (suc r) (dijkstra ifid_of nodeinfo r matrix) i j
    ∙ link_index-dijkstra ifid_of nodeinfo r matrix i j
