-- ===== src/Ddc/Routes.antt =====
-- The row of the matrix that one run of `dijkstra` of ddc/ddc.c fills.
use pma.Base.{
  ℕ, zero, suc, ◌≤◌, ◌<◌, ◌≡◌, refl, sym, subst, ap, ◌∙◌, ◌≢◌, ◌⊎◌, inl, inr, false, not, arith,
  Bool-cases, if◌then◌else◌, ◌==◌, ltb, ltb→lt, lt→ltb, List, length, eqb_refl,
}
use pma.Base.Count.{number_of_le}
use pma.Ddc.{Netnode, Ridinfo}
use pma.Ddc.Dijkstra.{Search, rounds, first_search, dijkstra, settle, min_cost}
use pma.Ddc.Walk.{Walk, here}
use pma.Ddc.Rounds.{IsSorted, round_of, IsRelaxed-round_of}
use pma.Ddc.Ecmp.{IsRouted, IsEntry, IsVia, degree}
use pma.Ddc.Shortest.{IsFinished, IsFinished-rounds, closest, walk_end}

abbrev pub cost_of : (ℕ → ℕ → Netnode) → ℕ → ℕ → ℕ
cost_of matrix i j = (matrix i j).metric

-- An entry as `init_lidb_info` leaves it: a link is its own next hop.
pub record IsFresh (y : ℕ) (r : Netnode) : Type 0 where
  pub count : r.nexthop_count ≡ (if ltb r.metric 2000 then 1 else 0)
  pub itself : r.metric < 2000 → r.nexthop 0 ≡ y
  pub fits : r.overflow ≡ false

-- A row before `dijkstra`: all metrics are positive, no router is linked to itself, at most four
-- links lead from the source, and its entries are fresh.
pub record IsPrepared (total s : ℕ) (matrix : ℕ → ℕ → Netnode) : Type 0 where
  pub positive : (u v : ℕ) → u < total → v < total → 0 < (matrix u v).metric
  pub no_loop : 2000 ≤ (matrix s s).metric
  pub few : degree (cost_of matrix) s total ≤ 4
  pub fresh : (y : ℕ) → y < total → IsFresh y (matrix s y)

module _ (total s : ℕ) (matrix : ℕ → ℕ → Netnode) (h : IsPrepared total s matrix)
    (p : s < total) where
  IsSorted-first : IsSorted (cost_of matrix) s total (first_search matrix s)
  IsSorted-first = record {
    positive = λ x t. h.positive s x p t.0;
    direct = λ x t. omega arith;
    source = inr h.no_loop;
    near = λ u x tu tx v. ground arith;
    sorted = λ u x tu tx v. ground arith;
    far = λ u x tu tx v. ground arith;
  }

  IsEntry-fresh :
      (x : ℕ) → x < total → IsEntry (cost_of matrix) s total x (matrix s x).metric (matrix s x)
  IsEntry-fresh x l =
      let f = h.fresh x l in
      let r = matrix s x in
      elim (Bool-cases (ltb r.metric 2000)) [
        | inl b ↦
            let m = ltb→lt r.metric 2000 b in
            let c : r.nexthop_count ≡ 1 = f.count ∙ rw b refl in
            record {
              hops = record {
                each = λ i li.
                    let z : i ≡ 0 = omega arith in
                    subst (IsVia (cost_of matrix) s total x r.metric)
                      (sym (ap r.nexthop z ∙ f.itself m)) (l, m, 0, here, omega arith);
                distinct = λ i j li lj e. omega arith;
                fits = f.fits;
              };
              some_hop = λ z. omega arith;
            }
        | inr b ↦
            let c : r.nexthop_count ≡ 0 = f.count ∙ rw b refl in
            record {
              hops = record {
                each = λ i li. absurd (omega arith);
                distinct = λ i j li lj e. absurd (omega arith);
                fits = f.fits;
              };
              some_hop = λ z. ground arith;
            }
      ]

  IsRouted-first : IsRouted (cost_of matrix) s total (first_search matrix s)
  IsRouted-first =
      let f = h.fresh s p in
      let q = h.no_loop in
      record { entries = λ x t. IsEntry-fresh x t.0; source = (f.count ∙ ground arith, f.fits) }

module _ (ifid_of : ℕ → ℕ → ℕ) (nodeinfo : List Ridinfo) (s : ℕ) (matrix : ℕ → ℕ → Netnode) where
  abbrev total : ℕ
  total = length nodeinfo

  abbrev cost : ℕ → ℕ → ℕ
  cost = cost_of matrix

  -- The search of a run.
  abbrev last_search : Search
  last_search = rounds ifid_of nodeinfo cost s total total (first_search matrix s)

  abbrev pub entry_of : ℕ → Netnode
  entry_of j = dijkstra ifid_of nodeinfo s matrix s j

  entry_of-settle : (j : ℕ) → j < total → entry_of j ≡ settle s last_search j
  unfolding dijkstra
  entry_of-settle j l = rw (eqb_refl s, lt→ltb j total l) refl

  module _ (h : IsPrepared total s matrix) (p : s < total) where
    IsFinished-last : IsFinished cost s total last_search
    IsFinished-last =
        IsFinished-rounds cost s total ifid_of nodeinfo h.few p total (first_search matrix s)
          (IsSorted-first total s matrix h p) (IsRouted-first total s matrix h p)
          (inl (number_of_le (λ i. not ((first_search matrix s).visite i)) total))

    IsEntry-settle :
        (j : ℕ)
        → j < total
        → j ≢ s
        → IsEntry cost s total j (settle s last_search j).path_cost (settle s last_search j)
    IsEntry-settle j l n =
        let e = IsFinished-last.routed.entries j (l, n) in
        record {
          hops = record { each = e.hops.each; distinct = e.hops.distinct; fits = e.hops.fits };
          some_hop = e.some_hop;
        }

    -- Nothing is nearer than the cost in the entry.
    pub dijkstra_least :
        (j c : ℕ) → j ≢ s → Walk cost total s j c → c < 2000 → (entry_of j).path_cost ≤ c
    dijkstra_least j c n way l =
        subst (λ r. r.path_cost ≤ c) (sym (entry_of-settle j (walk_end cost s total j c way p)))
          (closest cost s total last_search IsFinished-last p h.positive j c way n l)

    pub dijkstra-IsEntry :
        (j : ℕ) → j < total → j ≢ s → IsEntry cost s total j (entry_of j).path_cost (entry_of j)
    dijkstra-IsEntry j l n =
        subst (λ r. IsEntry cost s total j r.path_cost r) (sym (entry_of-settle j l))
          (IsEntry-settle j l n)

    next_hop-settle :
        (j : ℕ)
        → j < total
        → j ≢ s
        → (settle s last_search j).path_cost < 2000
        → IsVia cost s total j (settle s last_search j).path_cost (settle s last_search j).next_hop
    next_hop-settle j l n m =
        let e = IsEntry-settle j l n in
        let c = e.some_hop m in
        let f : ((last_search.row j).nexthop_count == 0) ≡ false = ground arith in
        rw f (e.hops.each 0 c)

    pub dijkstra_next_hop :
        (j : ℕ)
        → j < total
        → j ≢ s
        → (entry_of j).path_cost < 2000
        → IsVia cost s total j (entry_of j).path_cost (entry_of j).next_hop
    dijkstra_next_hop j l n =
        subst (λ r. r.path_cost < 2000 → IsVia cost s total j r.path_cost r.next_hop)
          (sym (entry_of-settle j l)) (next_hop-settle j l n)

  rounds_source :
      (k : ℕ) (st : Search)
      → s < total
      → (0 < k ⊎ st.distance s ≡ 0)
      → (rounds ifid_of nodeinfo cost s total k st).distance s ≡ 0
  unfolding rounds
  rounds_source zero st p h = elim h [ inl l ↦ absurd (omega arith) | inr e ↦ e ]
  rounds_source (suc k) st p h =
      let w = min_cost ifid_of nodeinfo s total st in
      let r = IsRelaxed-round_of cost s total w st in
      rounds_source k (round_of cost s total w st) p (inr (((r.passed s p).source refl).0))

  pub dijkstra_source : s < total → (entry_of s).path_cost ≡ 0
  dijkstra_source p =
      ap (λ r. r.path_cost) (entry_of-settle s p)
      ∙ rounds_source total (first_search matrix s) p (inl (omega arith))
