-- ===== src/Ddc/Area.antt =====
-- The matrix of an area once `path_compute_start` of ddc/ddc.c has run `dijkstra` for every router.
use pma.Base.{
  ℕ, zero, suc, ◌+◌, ◌≤◌, ◌<◌, ◌≡◌, sym, subst, ap, ◌∙◌, ◌≢◌, inl, inr, arith, Bool-cases, ◌==◌,
  eqb→eq, below_suc, List, length,
}
use pma.Ddc.{Netnode, Ridinfo}
use pma.Ddc.Dijkstra.{dijkstra}
use pma.Ddc.Matrix.{dijkstra_from}
use pma.Ddc.Walk.{Walk}
use pma.Ddc.Ecmp.{IsEntry, IsVia, degree}
use pma.Ddc.Metric.{metric-dijkstra, dijkstra_other}
use pma.Ddc.Routes.{
  cost_of, IsFresh, IsPrepared, dijkstra_least, dijkstra-IsEntry, dijkstra_next_hop,
  dijkstra_source,
}

-- What a run leaves in an entry. All of it goes by the metrics.
pub record IsSolved (cost : ℕ → ℕ → ℕ) (total s j : ℕ) (r : Netnode) : Type 0 where
  pub least : (c : ℕ) → Walk cost total s j c → c < 2000 → r.path_cost ≤ c
  pub entry : j ≢ s → IsEntry cost s total j r.path_cost r
  pub next : j ≢ s → r.path_cost < 2000 → IsVia cost s total j r.path_cost r.next_hop
  pub source : j ≡ s → r.path_cost ≡ 0

module _ (ifid_of : ℕ → ℕ → ℕ) (nodeinfo : List Ridinfo) where
  abbrev total : ℕ
  total = length nodeinfo

  IsSolved-dijkstra :
      (s j : ℕ) (matrix : ℕ → ℕ → Netnode)
      → IsPrepared total s matrix
      → s < total
      → j < total
      → IsSolved (cost_of matrix) total s j (dijkstra ifid_of nodeinfo s matrix s j)
  IsSolved-dijkstra s j matrix h p l = record {
    least = λ c way b. elim (Bool-cases (j == s)) [
      | inl e ↦
          let z =
            ap (λ j. (dijkstra ifid_of nodeinfo s matrix s j).path_cost) (eqb→eq j s e)
            ∙ dijkstra_source ifid_of nodeinfo s matrix p in
          omega arith
      | inr n ↦ dijkstra_least ifid_of nodeinfo s matrix h p j c (λ e. ground arith) way b
    ];
    entry = dijkstra-IsEntry ifid_of nodeinfo s matrix h p j l;
    next = dijkstra_next_hop ifid_of nodeinfo s matrix h p j l;
    source = λ e.
        ap (λ j. (dijkstra ifid_of nodeinfo s matrix s j).path_cost) e
        ∙ dijkstra_source ifid_of nodeinfo s matrix p;
  }

  cost-dijkstra :
      (s : ℕ) (matrix : ℕ → ℕ → Netnode)
      → cost_of (dijkstra ifid_of nodeinfo s matrix) ≡ cost_of matrix
  cost-dijkstra s matrix = λ i a b. metric-dijkstra ifid_of nodeinfo s matrix a b i

  IsPrepared-dijkstra :
      (r s : ℕ) (matrix : ℕ → ℕ → Netnode)
      → r ≢ s
      → IsPrepared total r matrix
      → IsPrepared total r (dijkstra ifid_of nodeinfo s matrix)
  IsPrepared-dijkstra r s matrix n h = record {
    positive = λ u v lu lv.
        let a = h.positive u v lu lv in
        let b = metric-dijkstra ifid_of nodeinfo s matrix u v in omega arith;
    no_loop =
        let a = h.no_loop in let b = metric-dijkstra ifid_of nodeinfo s matrix r r in omega arith;
    few = subst (λ cost. degree cost r total ≤ 4) (sym (cost-dijkstra s matrix)) h.few;
    fresh = λ y l.
        subst (IsFresh y) (sym (dijkstra_other ifid_of nodeinfo s matrix r y n)) (h.fresh y l);
  }

  IsSolved-dijkstra_from :
      (k r : ℕ) (matrix : ℕ → ℕ → Netnode)
      → r + k ≡ total
      → ((s : ℕ) → r ≤ s → s < total → IsPrepared total s matrix)
      → ((s : ℕ) → s < r → (j : ℕ) → j < total → IsSolved (cost_of matrix) total s j (matrix s j))
      → (s j : ℕ) → s < total
      → j < total
      → IsSolved (cost_of matrix) total s j (dijkstra_from ifid_of nodeinfo k r matrix s j)
  unfolding dijkstra_from
  IsSolved-dijkstra_from zero r matrix e prepared solved s j ls lj = solved s (omega arith) j lj
  IsSolved-dijkstra_from (suc k) r matrix e prepared solved s j ls lj =
      let m = dijkstra ifid_of nodeinfo r matrix in
      let c = cost-dijkstra r matrix in
      let lr : r < total = omega arith in
      subst (λ cost. IsSolved cost total s j (dijkstra_from ifid_of nodeinfo (suc k) r matrix s j))
        c
        (IsSolved-dijkstra_from k (suc r) m (omega arith)
          (λ s le l.
            IsPrepared-dijkstra s r matrix (λ z. absurd (omega arith)) (prepared s (omega arith) l))
          (below_suc (λ s. (j : ℕ) → j < total → IsSolved (cost_of m) total s j (m s j)) r
            (λ s l j lj.
              subst (λ cost. IsSolved cost total s j (m s j)) (sym c)
                (subst (IsSolved (cost_of matrix) total s j)
                  (sym (dijkstra_other ifid_of nodeinfo r matrix s j (λ z. absurd (omega arith))))
                  (solved s l j lj)))
            (λ j lj.
              subst (λ cost. IsSolved cost total r j (m r j)) (sym c)
                (IsSolved-dijkstra r j matrix (prepared r (omega arith) lr) lr lj)))
          s j ls lj)

  module _ (matrix : ℕ → ℕ → Netnode)
      (prepared : (s : ℕ) → s < total → IsPrepared total s matrix) where
    -- The matrix when all runs are over.
    abbrev pub filled : ℕ → ℕ → Netnode
    filled = dijkstra_from ifid_of nodeinfo total 0 matrix

    pub filled-IsSolved :
        (s j : ℕ) → s < total → j < total → IsSolved (cost_of matrix) total s j (filled s j)
    filled-IsSolved =
        IsSolved-dijkstra_from total 0 matrix (omega arith) (λ s le l. prepared s l)
          (λ s l. absurd (omega arith))
