-- ===== src/Ddc/Shortest.antt =====
-- What `dijkstra` of ddc/ddc.c leaves in the matrix: shortest paths, and the next hops on them.
use pma.Base.{
  ℕ, zero, suc, ◌+◌, ◌≤◌, ◌<◌, ◌≡◌, refl, subst, ap, ◌∙◌, ◌≢◌, ◌⊎◌, inl, inr, true, false, not,
  arith, Bool-cases, ◌==◌, eqb→eq, List,
}
use pma.Base.Count.{number_of, number_of_less, number_of_zero}
use pma.Base.Arrays.{put_ne, put_self}
use pma.Ddc.{Ridinfo}
use pma.Ddc.Dijkstra.{Search, min_cost, rounds}
use pma.Ddc.Walk.{Walk, here, step}
use pma.Ddc.MinCost.{IsOpen, min_cost-nearest}
use pma.Ddc.Rounds.{
  IsSorted, IsRound, round_of, IsRound-round_of, IsSorted-round, still_far, split_source,
}
use pma.Ddc.Ecmp.{IsRouted, IsRouted-round, degree}

module _ (cost : ℕ → ℕ → ℕ) (s total : ℕ) where
  abbrev IsDone : Search → Type 0
  IsDone st = (i : ℕ) → i < total → IsOpen st i → 1999 ≤ st.distance i

  -- How many nodes are not visited yet.
  abbrev open_nodes : Search → ℕ
  open_nodes st = number_of (λ i. not (st.visite i)) total

  pub record IsFinished (st : Search) : Type 0 where
    pub sorted : IsSorted cost s total st
    pub routed : IsRouted cost s total st
    pub done : IsDone st

  IsDone-open_nodes : (st : Search) → open_nodes st ≡ 0 → IsDone st
  IsDone-open_nodes st e i l o =
      let a = number_of_zero (λ i. not (st.visite i)) total e i l in let b = o.0 in ground arith

  visit_one :
      (w : ℕ) (st st' : Search)
      → IsRound cost s total w st st'
      → w < total
      → st.visite w ≡ false
      → open_nodes st ≡ suc (open_nodes st')
  visit_one w st st' r l v =
      number_of_less (λ i. not (st.visite i)) (λ i. not (st'.visite i)) total w l (rw v refl)
        (rw (r.visited w, put_self st.visite w true) refl)
        (λ i n. rw (r.visited i, put_ne st.visite w i true n) refl)

  source_distance :
      (w : ℕ) (st st' : Search)
      → IsRound cost s total w st st'
      → (i : ℕ) → i ≡ s
      → st'.distance i ≡ 0
  source_distance w st st' r i e = ap st'.distance e ∙ r.source

  module _ (ifid_of : ℕ → ℕ → ℕ) (nodeinfo : List Ridinfo) (le : degree cost s total ≤ 4)
      (p : s < total) where
    abbrev next_node : Search → ℕ
    next_node st = min_cost ifid_of nodeinfo s total st

    pub IsFinished-rounds :
        (k : ℕ) (st : Search)
        → IsSorted cost s total st
        → IsRouted cost s total st
        → (open_nodes st ≤ k ⊎ IsDone st)
        → IsFinished (rounds ifid_of nodeinfo cost s total k st)
    unfolding rounds
    IsFinished-rounds zero st hs hr h = record {
      sorted = hs;
      routed = hr;
      done = elim h [ inl e ↦ IsDone-open_nodes st (omega arith) | inr d ↦ d ];
    }
    IsFinished-rounds (suc k) st hs hr h =
        let w = next_node st in
        let st' = round_of cost s total w st in
        let (lw, c) = min_cost-nearest ifid_of nodeinfo s total st (omega arith) in
        let r = IsRound-round_of cost s total w st p hs in
        IsFinished-rounds k st' (IsSorted-round cost s total w st p lw c hs)
          (IsRouted-round cost s total w st p lw le hs hr)
          (elim c [
            | inl (o, near, least) ↦ elim h [
              | inl few ↦ inl (let a = visit_one w st st' r lw o.0 in omega arith)
              | inr d ↦ let a = d w lw o in absurd (omega arith)
            ]
            | inr none ↦ inr (λ i l o. elim (Bool-cases (i == s)) [
              | inl e ↦
                  (let z = source_distance w st st' r i (eqb→eq i s e) in
                    let q = o.1 in absurd (omega arith))
              | inr n ↦ still_far cost s total w st st' lw hs r none i (l, λ e. ground arith) (o.0)
            ])
          ])

  pub walk_end : (v c : ℕ) → Walk cost total s v c → s < total → v < total
  walk_end _ _ here p = p
  walk_end _ _ (step u v c way l) p = l

  -- Nothing is nearer than the distance says.
  pub closest :
      (st : Search)
      → IsFinished st
      → s < total
      → ((u v : ℕ) → u < total → v < total → 0 < cost u v)
      → (v c : ℕ) → Walk cost total s v c
      → v ≢ s
      → c < 2000
      → st.distance v ≤ c
  closest st h p pos _ _ here n l = absurd (n refl)
  closest st h p pos _ _ (step u v c way lv) n l =
      let lu = walk_end u c way p in
      let rest = closest st h p pos u c way in
      let q = pos u v lu lv in
      elim (split_source cost s total u) [
        | inl e ↦ let a = h.sorted.direct v (lv, n) in let b = ap (λ u. cost u v) e in omega arith
        | inr nu ↦
            let a = rest nu (omega arith) in
            elim (Bool-cases (st.visite u)) [
              | inl vu ↦ let b = h.sorted.near u v (lu, nu) (lv, n) vu (omega arith) in omega arith
              | inr vu ↦
                  let b = h.done u lu (vu, h.sorted.positive u (lu, nu)) in absurd (omega arith)
            ]
      ]

  pub walk_cons :
      (h x c : ℕ) → h < total → Walk cost total h x c → Walk cost total s x (cost s h + c)
  walk_cons h _ _ l here = subst (Walk cost total s h) (omega arith) (step s h 0 here l)
  walk_cons h _ _ l (step u v c way lv) =
      subst (Walk cost total s v) (omega arith) (step u v (cost s h + c) (walk_cons h u c l way) lv)
