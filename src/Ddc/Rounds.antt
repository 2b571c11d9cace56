-- ===== src/Ddc/Rounds.antt =====
-- The distances of `dijkstra` of ddc/ddc.c from round to round.
use pma.Base.{
  ℕ, ◌+◌, ◌≤◌, ◌<◌, ◌≡◌, refl, sym, subst, ap, ◌∙◌, ◌≢◌, ◌⊎◌, inl, inr, Bool, true, false, arith,
  Bool-cases, ltb, ltb→lt,
}
use pma.Base.Arrays.{put, put_self}
use pma.Ddc.{Netnode}
use pma.Ddc.Dijkstra.{Search, relax_from}
use pma.Ddc.MinCost.{IsOpen}
use pma.Ddc.Relax.{entry, IsRelaxed, relax_from-IsRelaxed}

entry-least :
    (sum d : ℕ) (w dst : Netnode)
    → let m = (entry sum d w dst).0 in (m ≤ d) × (m ≤ sum) × (m ≡ d ⊎ m ≡ sum)
entry-least sum d w dst = ground arith

module _ (cost : ℕ → ℕ → ℕ) (s total : ℕ) where
  -- A node of the area other than the source.
  abbrev pub IsTarget : ℕ → Type 0
  IsTarget x = x < total × x ≢ s

  -- What holds of the distances between two rounds.
  pub record IsSorted (st : Search) : Type 0 where
    pub positive : (x : ℕ) → IsTarget x → 0 < st.distance x
    pub direct : (x : ℕ) → IsTarget x → st.distance x ≤ cost s x
    pub source : (st.distance s ≡ 0) ⊎ 2000 ≤ st.distance s
    pub near :
        (u x : ℕ)
        → IsTarget u
        → IsTarget x
        → st.visite u ≡ true
        → st.distance u < 1999
        → st.distance x ≤ st.distance u + cost u x
    pub sorted :
        (u x : ℕ)
        → IsTarget u
        → IsTarget x
        → st.visite u ≡ true
        → st.visite x ≡ false
        → st.distance u < 1999
        → st.distance u ≤ st.distance x
    pub far :
        (u x : ℕ)
        → IsTarget u
        → IsTarget x
        → st.visite u ≡ true
        → st.visite x ≡ false
        → 1999 ≤ st.distance u
        → 1999 ≤ st.distance x

  -- One round, as far as the distances are concerned.
  pub record IsRound (w : ℕ) (st st' : Search) : Type 0 where
    pub visited : (x : ℕ) → st'.visite x ≡ put st.visite w true x
    pub source : st'.distance s ≡ 0
    pub kept : (x : ℕ) → IsTarget x → st'.visite x ≡ true → st'.distance x ≡ st.distance x
    pub opened :
        (x : ℕ)
        → IsTarget x
        → st'.visite x ≡ false
        → st'.distance x ≤ st.distance x
          × (w ≢ s → st'.distance x ≤ st.distance w + cost w x)
          × ((st'.distance x ≡ st.distance x)
              ⊎ ((w ≢ s) × (st'.distance x ≡ st.distance w + cost w x)))

  abbrev pub round_of : ℕ → Search → Search
  round_of w st = relax_from cost s total 0 w (record st { visite = put st.visite w true })

  put_visited : (f : ℕ → Bool) (w x : ℕ) → put f w true x ≡ true → (x ≡ w) ⊎ (x ≢ w × f x ≡ true)
  put_visited f w x e = ground arith

  put_open : (f : ℕ → Bool) (w x : ℕ) → put f w true x ≡ false → x ≢ w × f x ≡ false
  put_open f w x e = ground arith

  pub split_source : (w : ℕ) → (w ≡ s) ⊎ (w ≢ s)
  split_source w = ground arith

  -- No way through the source itself is shorter than the link from it.
  opened_round :
      (w m d dw dx c : ℕ)
      → m ≤ dx
      → m ≤ d + c
      → (m ≡ dx ⊎ m ≡ d + c)
      → (w ≢ s → d ≡ dw)
      → (w ≡ s → dx ≤ c)
      → m ≤ dx × (w ≢ s → m ≤ dw + c) × ((m ≡ dx) ⊎ ((w ≢ s) × (m ≡ dw + c)))
  opened_round w m d dw dx c m1 m2 m3 dd direct = (
    m1,
    λ n. let e = dd n in omega arith,
    elim (split_source w) [
      | inl e ↦ let le = direct e in inl (elim m3 [ inl a ↦ a | inr b ↦ omega arith ])
      | inr n ↦ let e = dd n in elim m3 [ inl a ↦ inl a | inr b ↦ inr (n, omega arith) ]
    ],
  )

  pub IsRelaxed-round_of :
      (w : ℕ) (st : Search)
      → IsRelaxed cost s w (record st { visite = put st.visite w true }) total (round_of w st)
  IsRelaxed-round_of w st =
      relax_from-IsRelaxed cost s total w (record st { visite = put st.visite w true })
        (elim (split_source w) [ inl e ↦ inl e | inr n ↦ inr (n, put_self st.visite w true) ])

  pub IsRound-round_of :
      (w : ℕ) (st : Search) → s < total → IsSorted st → IsRound w st (round_of w st)
  IsRound-round_of w st p h =
      let r = IsRelaxed-round_of w st in
      record {
        visited = r.visited;
        source = ((r.passed s p).source refl).0;
        kept = λ x (l, n) e. ((r.passed x l).seen n (sym (r.visited x) ∙ e)).0;
        opened = λ x (l, n) e.
            let (d, dw, e', _) = (r.passed x l).opened n (sym (r.visited x) ∙ e) in
            let (m1, m2, m3) = entry-least (d + cost w x) (st.distance x) (st.row w) (st.row x) in
            subst
              (λ m.
                m ≤ st.distance x
                × (w ≢ s → m ≤ st.distance w + cost w x)
                × ((m ≡ st.distance x) ⊎ ((w ≢ s) × (m ≡ st.distance w + cost w x))))
              (sym e')
              (opened_round w (entry (d + cost w x) (st.distance x) (st.row w) (st.row x)).0 d
                (st.distance w) (st.distance x) (cost w x) m1 m2 m3 (dw.0)
                (λ e. subst (λ v. st.distance x ≤ cost v x) (sym e) (h.direct x (l, n))));
      }

  -- What `min_cost` says of the node that it chooses.
  abbrev pub IsChoice : ℕ → Search → Type 0
  IsChoice w st =
      (IsOpen st w
        × (st.distance w < 1999)
        × ((i : ℕ) → i < total → IsOpen st i → st.distance w ≤ st.distance i))
      ⊎ ((i : ℕ) → i < total → IsOpen st i → 1999 ≤ st.distance i)

  -- A distance never grows.
  shorter :
      (w : ℕ) (st st' : Search)
      → IsRound w st st'
      → (x : ℕ) → IsTarget x
      → st'.distance x ≤ st.distance x
  shorter w st st' r x t = elim (Bool-cases (st'.visite x)) [
    | inl v ↦ let e = r.kept x t v in omega arith
    | inr v ↦ (r.opened x t v).0
  ]

  before :
      (w : ℕ) (st st' : Search)
      → IsRound w st st'
      → (x : ℕ) → st'.visite x ≡ false
      → st.visite x ≡ false
  before w st st' r x v = (put_open st.visite w x (sym (r.visited x) ∙ v)).1

  positive_round :
      (w : ℕ) (st st' : Search)
      → w < total
      → IsSorted st
      → IsRound w st st'
      → (x : ℕ) → IsTarget x
      → 0 < st'.distance x
  positive_round w st st' l h r x t =
      let p = h.positive x t in
      elim (Bool-cases (st'.visite x)) [
        | inl v ↦ let e = r.kept x t v in omega arith
        | inr v ↦ elim ((r.opened x t v).2) [
          | inl e ↦ omega arith
          | inr (n, e) ↦ let q = h.positive w (l, n) in omega arith
        ]
      ]

  -- A round that visits an open node nearer than 1999.
  module _ (w : ℕ) (st st' : Search) (l : w < total) (h : IsSorted st) (r : IsRound w st st')
      (o : IsOpen st w) (nearer : st.distance w < 1999)
      (least : (i : ℕ) → i < total → IsOpen st i → st.distance w ≤ st.distance i) where
    not_source : w ≢ s
    not_source e = elim (h.source) [
      | inl z ↦ let z' = ap st.distance e in let p = o.1 in absurd (omega arith)
      | inr z ↦ let z' = ap st.distance e in absurd (omega arith)
    ]

    -- A node that is visited is no farther than the one that is chosen.
    visited_nearer :
        (u : ℕ)
        → IsTarget u
        → st.visite u ≡ true
        → st.distance u ≤ st.distance w × st.distance u < 1999
    visited_nearer u t v = elim (Bool-cases (ltb (st.distance u) 1999)) [
      | inl e ↦ let le = h.sorted u w t (l, not_source) v (o.0) (ltb→lt _ _ e) in (le, ltb→lt _ _ e)
      | inr e ↦ let le = h.far u w t (l, not_source) v (o.0) (ground arith) in absurd (omega arith)
    ]

    near_round :
        (u x : ℕ)
        → IsTarget u
        → IsTarget x
        → st'.visite u ≡ true
        → st'.distance x ≤ st'.distance u + cost u x
    near_round u x tu tx vu =
        let du = r.kept u tu vu in
        let dx = shorter w st st' r x tx in
        elim (put_visited st.visite w u (sym (r.visited u) ∙ vu)) [
          | inr (n, v) ↦ let le = h.near u x tu tx v ((visited_nearer u tu v).1) in omega arith
          | inl e ↦
              subst
                (λ u. st'.distance u ≡ st.distance u → st'.distance x ≤ st'.distance u + cost u x)
                (sym e)
                (λ dw. elim (Bool-cases (st'.visite x)) [
                  | inr vx ↦ let le = (r.opened x tx vx).1 not_source in omega arith
                  | inl vx ↦ elim (put_visited st.visite w x (sym (r.visited x) ∙ vx)) [
                    | inl e' ↦ let z = ap st.distance e' in omega arith
                    | inr (n, v) ↦ let z = (visited_nearer x tx v).0 in omega arith
                  ]
                ])
                du
        ]

    sorted_round :
        (u x : ℕ)
        → IsTarget u
        → IsTarget x
        → st'.visite u ≡ true
        → st'.visite x ≡ false
        → st'.distance u ≤ st'.distance x
    sorted_round u x tu tx vu vx =
        let du = r.kept u tu vu in
        let lx = least x tx.0 (before w st st' r x vx, h.positive x tx) in
        let lu : st.distance u ≤ st.distance w =
          elim (put_visited st.visite w u (sym (r.visited u) ∙ vu)) [
            | inl e ↦ let z = ap st.distance e in omega arith
            | inr (n, v) ↦ (visited_nearer u tu v).0
          ] in
        elim ((r.opened x tx vx).2) [ inl e ↦ omega arith | inr (n, e) ↦ omega arith ]

    IsSorted-nearest : IsSorted st'
    IsSorted-nearest = record {
      positive = positive_round w st st' l h r;
      direct = λ x t. let a = shorter w st st' r x t in let b = h.direct x t in omega arith;
      source = inl r.source;
      near = λ u x tu tx vu du. near_round u x tu tx vu;
      sorted = λ u x tu tx vu vx du. sorted_round u x tu tx vu vx;
      far = λ u x tu tx vu vx du.
          let e = r.kept u tu vu in
          let a : st.distance u < 1999 = elim (put_visited st.visite w u (sym (r.visited u) ∙ vu)) [
            | inl e ↦ let z = ap st.distance e in omega arith
            | inr (n, v) ↦ (visited_nearer u tu v).1
          ] in
          absurd (omega arith);
    }

  -- A round when no open node is nearer than 1999.
  module _ (w : ℕ) (st st' : Search) (l : w < total) (h : IsSorted st) (r : IsRound w st st')
      (none : (i : ℕ) → i < total → IsOpen st i → 1999 ≤ st.distance i) where
    pub still_far : (x : ℕ) → IsTarget x → st'.visite x ≡ false → 1999 ≤ st'.distance x
    still_far x t v =
        let a = none x t.0 (before w st st' r x v, h.positive x t) in
        elim ((r.opened x t v).2) [
          | inl e ↦ omega arith
          | inr (n, e) ↦ elim (Bool-cases (st.visite w)) [
            | inr vw ↦ let b = none w l (vw, h.positive w (l, n)) in omega arith
            | inl vw ↦ elim (Bool-cases (ltb (st.distance w) 1999)) [
              | inl q ↦ let b = h.near w x (l, n) t vw (ltb→lt _ _ q) in omega arith
              | inr q ↦ ground arith
            ]
          ]
        ]

    IsSorted-none : IsSorted st'
    IsSorted-none = record {
      positive = positive_round w st st' l h r;
      direct = λ x t. let a = shorter w st st' r x t in let b = h.direct x t in omega arith;
      source = inl r.source;
      near = λ u x tu tx vu du.
          let e = r.kept u tu vu in
          let a = shorter w st st' r x tx in
          elim (Bool-cases (st.visite u)) [
            | inl v ↦ let b = h.near u x tu tx v (omega arith) in omega arith
            | inr v ↦ let b = none u tu.0 (v, h.positive u tu) in absurd (omega arith)
          ];
      sorted = λ u x tu tx vu vx du. let a = still_far x tx vx in omega arith;
      far = λ u x tu tx vu vx du. still_far x tx vx;
    }

  pub IsSorted-round :
      (w : ℕ) (st : Search)
      → s < total
      → w < total
      → IsChoice w st
      → IsSorted st
      → IsSorted (round_of w st)
  IsSorted-round w st p l c h =
      let r = IsRound-round_of w st p h in
      elim c [
        | inl (o, near, least) ↦ IsSorted-nearest w st (round_of w st) l h r o near least
        | inr none ↦ IsSorted-none w st (round_of w st) l h r none
      ]
