-- ===== src/Ddc/Relax.antt =====
-- What one round of `dijkstra` of ddc/ddc.c does to the distances and the next hops, node by node.
use pma.Base.{
  ℕ, zero, suc, ◌+◌, ◌≤◌, ◌<◌, ◌≡◌, refl, sym, subst, ◌∙◌, ◌≢◌, ◌⊎◌, inl, inr, true, false, arith,
  Bool-cases, if◌then◌else◌, ◌==◌, ltb, eqb_refl, ne→eqb, below_suc, ltb→lt,
}
use pma.Ddc.{Netnode}
use pma.Ddc.Dijkstra.{Search, relax, relax_from, nexthop_copy, equal_path_copy}

-- What a way through `w` of this cost makes of a node's distance and entry.
abbrev pub entry : ℕ → ℕ → Netnode → Netnode → ℕ × Netnode
entry sum d w dst =
    if ltb sum d
    then (sum, nexthop_copy w dst)
    else if sum == d
    then (d, equal_path_copy w dst)
    else (d, dst)

module _ (cost : ℕ → ℕ → ℕ) (s : ℕ) where
  relax-visite : (w j x : ℕ) (st : Search) → (relax cost s w j st).visite x ≡ st.visite x
  relax-visite w j x st = ground arith

  relax_other :
      (w j x : ℕ) (st : Search)
      → x ≢ j
      → ((relax cost s w j st).distance x ≡ st.distance x)
        × ((relax cost s w j st).row x ≡ st.row x)
  relax_other w j x st n = ground arith

  relax_source :
      (w j : ℕ) (st : Search)
      → j ≡ s
      → ((relax cost s w j st).distance j ≡ 0) × ((relax cost s w j st).row j ≡ st.row j)
  relax_source w j st e = rw (e, eqb_refl s, eqb_refl s) (refl, refl)

  relax_seen :
      (w j : ℕ) (st : Search)
      → j ≢ s
      → st.visite j ≡ true
      → ((relax cost s w j st).distance j ≡ st.distance j)
        × ((relax cost s w j st).row j ≡ st.row j)
  relax_seen w j st n v = rw (ne→eqb j s n, v) (refl, refl)

  relax_open :
      (w j : ℕ) (st : Search)
      → j ≢ s
      → st.visite j ≡ false
      → let e = entry (st.distance w + cost w j) (st.distance j) (st.row w) (st.row j) in
        ((relax cost s w j st).distance j ≡ e.0) × ((relax cost s w j st).row j ≡ e.1)
  relax_open w j st n v = elim (Bool-cases (ltb (st.distance w + cost w j) (st.distance j))) [
    | inl l ↦ rw (ne→eqb j s n, v, l, eqb_refl j) (refl, refl)
    | inr l ↦ elim (Bool-cases (st.distance w + cost w j == st.distance j)) [
      | inl e ↦ rw (ne→eqb j s n, v, l, e, eqb_refl j) (refl, refl)
      | inr e ↦ rw (ne→eqb j s n, v, l, e) (refl, refl)
    ]
  ]

  -- The distance of `w` while the loop runs; for the source it changes when the loop passes it.
  abbrev pub IsDistance : ℕ → Search → ℕ → Type 0
  IsDistance w st d = (w ≢ s → d ≡ st.distance w) × (d ≡ st.distance w ⊎ d ≡ 0)

  -- What the loop has made of the node `x`: its distance and its entry once it has passed it.
  pub record IsPassed (w : ℕ) (st : Search) (x d' : ℕ) (r' : Netnode) : Type 0 where
    pub source : x ≡ s → (d' ≡ 0) × (r' ≡ st.row x)
    pub seen : x ≢ s → st.visite x ≡ true → (d' ≡ st.distance x) × (r' ≡ st.row x)
    pub opened :
        x ≢ s
        → st.visite x ≡ false
        → (d : ℕ) × IsDistance w st d
          × (d' ≡ (entry (d + cost w x) (st.distance x) (st.row w) (st.row x)).0)
          × (r' ≡ (entry (d + cost w x) (st.distance x) (st.row w) (st.row x)).1)

  -- The state of the loop before the node `k`.
  pub record IsRelaxed (w : ℕ) (st : Search) (k : ℕ) (st' : Search) : Type 0 where
    pub visited : (x : ℕ) → st'.visite x ≡ st.visite x
    pub later : (x : ℕ) → k ≤ x → (st'.distance x ≡ st.distance x) × (st'.row x ≡ st.row x)
    pub passed : (x : ℕ) → x < k → IsPassed w st x (st'.distance x) (st'.row x)

  at_w :
      (w : ℕ) (st : Search) (k : ℕ) (st' : Search)
      → (w ≡ s) ⊎ ((w ≢ s) × (st.visite w ≡ true))
      → IsRelaxed w st k st'
      → IsDistance w st (st'.distance w) × (st'.row w ≡ st.row w)
  at_w w st k st' v h = elim (Bool-cases (ltb w k)) [
    | inr l ↦ let (d, r) = h.later w (ground arith) in ((λ n. d, inl d), r)
    | inl l ↦ elim v [
      | inl e ↦ let (d, r) = (h.passed w (ltb→lt w k l)).source e in ((λ n. absurd (n e), inr d), r)
      | inr (n, v') ↦ let (d, r) = (h.passed w (ltb→lt w k l)).seen n v' in ((λ n'. d, inl d), r)
    ]
  ]

  IsPassed-relax :
      (w : ℕ) (st : Search) (k : ℕ) (st' : Search)
      → (w ≡ s) ⊎ ((w ≢ s) × (st.visite w ≡ true))
      → IsRelaxed w st k st'
      → let st'' = relax cost s w k st' in IsPassed w st k (st''.distance k) (st''.row k)
  IsPassed-relax w st k st' v h =
      let (d, r) = h.later k (omega arith) in
      let (dw, rw') = at_w w st k st' v h in
      record {
        source = λ e. let (d', r') = relax_source w k st' e in (d', r' ∙ r);
        seen = λ n e. let (d', r') = relax_seen w k st' n (h.visited k ∙ e) in (d' ∙ d, r' ∙ r);
        opened = λ n e.
            let (d', r') = relax_open w k st' n (h.visited k ∙ e) in
            let sum = st'.distance w + cost w k in
            (st'.distance w, dw, d' ∙ rw (rw', d, r) refl, r' ∙ rw (rw', d, r) refl);
      }

  IsRelaxed-relax :
      (w : ℕ) (st : Search) (k : ℕ) (st' : Search)
      → (w ≡ s) ⊎ ((w ≢ s) × (st.visite w ≡ true))
      → IsRelaxed w st k st'
      → IsRelaxed w st (suc k) (relax cost s w k st')
  IsRelaxed-relax w st k st' v h =
      let st'' = relax cost s w k st' in
      record {
        visited = λ x. relax-visite w k x st' ∙ h.visited x;
        later = λ x l.
            let (d, r) = h.later x (omega arith) in
            let (d', r') = relax_other w k x st' (λ e. absurd (omega arith)) in (d' ∙ d, r' ∙ r);
        passed =
            below_suc (λ x. IsPassed w st x (st''.distance x) (st''.row x)) k
              (λ x l.
                let (d', r') = relax_other w k x st' (λ e. absurd (omega arith)) in
                subst (λ d. IsPassed w st x d (st''.row x)) (sym d')
                  (subst (IsPassed w st x (st'.distance x)) (sym r') (h.passed x l)))
              (IsPassed-relax w st k st' v h);
      }

  IsRelaxed-relax_from :
      (n k w : ℕ) (st st' : Search)
      → (w ≡ s) ⊎ ((w ≢ s) × (st.visite w ≡ true))
      → IsRelaxed w st k st'
      → IsRelaxed w st (k + n) (relax_from cost s n k w st')
  unfolding relax_from
  IsRelaxed-relax_from zero k w st st' v h = subst (λ m. IsRelaxed w st m st') (omega arith) h
  IsRelaxed-relax_from (suc n) k w st st' v h =
      subst (λ m. IsRelaxed w st m (relax_from cost s (suc n) k w st')) (omega arith)
        (IsRelaxed-relax_from n (suc k) w st (relax cost s w k st') v
          (IsRelaxed-relax w st k st' v h))

  -- The whole loop.
  pub relax_from-IsRelaxed :
      (total w : ℕ) (st : Search)
      → (w ≡ s) ⊎ ((w ≢ s) × (st.visite w ≡ true))
      → IsRelaxed w st total (relax_from cost s total 0 w st)
  relax_from-IsRelaxed total w st v =
      subst (λ m. IsRelaxed w st m (relax_from cost s total 0 w st)) (omega arith)
        (IsRelaxed-relax_from total 0 w st st v (record {
          visited = λ x. refl;
          later = λ x l. (refl, refl);
          passed = λ x l. absurd (omega arith);
        }))
