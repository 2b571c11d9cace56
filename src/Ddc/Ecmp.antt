-- ===== src/Ddc/Ecmp.antt =====
-- The next hops of `dijkstra` of ddc/ddc.c from round to round.
use pma.Base.{
  ℕ, ◌+◌, ◌≤◌, ◌<◌, ◌≡◌, refl, sym, subst, ap, ◌∙◌, ◌≢◌, inl, inr, true, false, arith, Bool-cases,
  ◌==◌, ltb, eqb→eq, ltb→lt, lt→ltb,
}
use pma.Base.Count.{number_of, le-number_of}
use pma.Base.Arrays.{put}
use pma.Ddc.{Netnode}
use pma.Ddc.Dijkstra.{Search}
use pma.Ddc.Walk.{Walk, step}
use pma.Ddc.Relax.{entry}
use pma.Ddc.Hops.{HasHops, IsFew, HasHops-map, HasHops-nexthop_copy, HasHops-equal_path_copy}
use pma.Ddc.Rounds.{IsTarget, IsSorted, round_of, split_source, IsRelaxed-round_of}

module _ (cost : ℕ → ℕ → ℕ) (s total : ℕ) where
  -- A way of cost `d` to `x` that starts with the link from the source to `h`.
  abbrev pub IsVia : ℕ → ℕ → ℕ → Type 0
  IsVia x d h = (h < total) × cost s h < 2000 × (c : ℕ) × Walk cost total h x c × (cost s h + c ≡ d)

  -- How many links lead from the source.
  abbrev pub degree : ℕ
  degree = number_of (λ y. ltb (cost s y) 2000) total

  pub IsFew-IsVia : degree ≤ 4 → (x d : ℕ) → IsFew (IsVia x d)
  IsFew-IsVia le x d n f each inj =
      let a =
        le-number_of (λ y. ltb (cost s y) 2000) total n f
          (λ i l. let (b, c, k, way, e) = each i l in (b, lt→ltb _ _ c)) inj in
      omega arith

  -- Every next hop of an entry starts a way of the distance, and there is one.
  pub record IsEntry (x d : ℕ) (r : Netnode) : Type 0 where
    pub hops : HasHops (IsVia x d) r
    pub some_hop : d < 2000 → 0 < r.nexthop_count

  pub record IsRouted (st : Search) : Type 0 where
    pub entries : (x : ℕ) → IsTarget cost s total x → IsEntry x (st.distance x) (st.row x)
    pub source : ((st.row s).nexthop_count ≡ 0) × ((st.row s).overflow ≡ false)

  IsVia-step : (w x d h : ℕ) → x < total → IsVia w d h → IsVia x (d + cost w x) h
  IsVia-step w x d h l (a, b, c, way, e) = (a, b, c + cost w x, step w x c way l, omega arith)

  IsEntry-entry :
      (x sum d : ℕ) (w r : Netnode)
      → degree ≤ 4
      → HasHops (IsVia x sum) w
      → (sum < d → sum < 2000 → 0 < w.nexthop_count)
      → IsEntry x d r
      → IsEntry x (entry sum d w r).0 (entry sum d w r).1
  IsEntry-entry x sum d w r le hw nw h = elim (Bool-cases (ltb sum d)) [
    | inl l ↦
        let (a, b) =
          HasHops-nexthop_copy (IsVia x sum) (IsFew-IsVia le x sum) w r hw (h.hops.fits) in
        rw l (record { hops = a; some_hop = λ m. let c = nw (ltb→lt _ _ l) m in omega arith })
    | inr l ↦ elim (Bool-cases (sum == d)) [
      | inl e ↦
          let e' = eqb→eq sum d e in
          let (a, b) =
            HasHops-equal_path_copy (IsVia x d) (IsFew-IsVia le x d) w r
              (subst (λ c. HasHops (IsVia x c) w) e' hw) (h.hops) in
          rw (l, e) (record { hops = a; some_hop = λ m. let c = h.some_hop m in omega arith })
      | inr e ↦ rw (l, e) h
    ]
  ]

  empty_hops :
      (P : ℕ → Type 0) (r : Netnode) → r.nexthop_count ≡ 0 → r.overflow ≡ false → HasHops P r
  empty_hops P r e o = record {
    each = λ i l. absurd (omega arith);
    distinct = λ i j l. absurd (omega arith);
    fits = o;
  }

  -- The hops of `w` lead to `x` too.
  through :
      (w x d : ℕ) (st : Search)
      → w < total
      → IsTarget cost s total x
      → IsSorted cost s total st
      → IsRouted st
      → (w ≢ s → d ≡ st.distance w)
      → HasHops (IsVia x (d + cost w x)) (st.row w)
        × (d + cost w x < st.distance x → d + cost w x < 2000 → 0 < (st.row w).nexthop_count)
  through w x d st lw t hs h dw = elim (split_source cost s total w) [
    | inl e ↦
        subst
          (λ w.
            HasHops (IsVia x (d + cost w x)) (st.row w)
            × (d + cost w x < st.distance x → d + cost w x < 2000 → 0 < (st.row w).nexthop_count))
          (sym e)
          (
            empty_hops (IsVia x (d + cost s x)) (st.row s) (h.source.0) (h.source.1),
            λ l. let a = hs.direct x t in absurd (omega arith),
          )
    | inr n ↦
        let e = dw n in
        let q = h.entries w (lw, n) in
        (
          HasHops-map (IsVia w (st.distance w)) (IsVia x (d + cost w x)) (st.row w)
              (λ hop v.
                subst (λ d. IsVia x (d + cost w x) hop) (sym e)
                  (IsVia-step w x (st.distance w) hop t.0 v))
              (q.hops),
          λ l m. q.some_hop (omega arith),
        )
  ]

  pub IsRouted-round :
      (w : ℕ) (st : Search)
      → s < total
      → w < total
      → degree ≤ 4
      → IsSorted cost s total st
      → IsRouted st
      → IsRouted (round_of cost s total w st)
  IsRouted-round w st p lw le hs h =
      let st' = round_of cost s total w st in
      let r = IsRelaxed-round_of cost s total w st in
      record {
        entries = λ x t. elim (Bool-cases (put st.visite w true x)) [
          | inl v ↦
              let (d, row) = (r.passed x t.0).seen t.1 v in
              subst (λ d. IsEntry x d (st'.row x)) (sym d)
                (subst (IsEntry x (st.distance x)) (sym row) (h.entries x t))
          | inr v ↦
              let (d, dw, e, row) = (r.passed x t.0).opened t.1 v in
              let sum = d + cost w x in
              let (hw, nw) = through w x d st lw t hs h dw.0 in
              subst (λ d. IsEntry x d (st'.row x)) (sym e)
                (subst (IsEntry x (entry sum (st.distance x) (st.row w) (st.row x)).0) (sym row) (
                  IsEntry-entry x sum (st.distance x) (st.row w) (st.row x) le hw nw
                    (h.entries x t)))
        ];
        source =
            let (d, row) = (r.passed s p).source refl in
            (ap (λ n. n.nexthop_count) row ∙ (h.source).0, ap (λ n. n.overflow) row ∙ (h.source).1);
      }
