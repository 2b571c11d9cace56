-- ===== src/Ddc/Hops.antt =====
-- What `nexthop_copy` and `equal_path_copy` of ddc/ddc.c make of the next hops: every one of them
-- is allowed, none is there twice, and all fit the array.
use pma.Base.{
  ℕ, zero, suc, ◌+◌, ◌≤◌, ◌<◌, ◌≡◌, refl, sym, subst, ◌∙◌, ◌≢◌, ◌⊎◌, inl, inr, false, arith,
  Bool-cases, ltb, below_suc,
}
use pma.Base.Count.{IsInjectiveBelow}
use pma.Base.Arrays.{put, put_ne, put_self}
use pma.Ddc.{Netnode}
use pma.Ddc.Dijkstra.{
  add_hop, nexthop_copy_from, nexthop_copy, among, equal_path_copy_from, equal_path_copy,
}

-- An entry whose next hops are all allowed, and distinct, and inside the array.
pub record HasHops (P : ℕ → Type 0) (r : Netnode) : Type 0 where
  pub each : (i : ℕ) → i < r.nexthop_count → P (r.nexthop i)
  pub distinct : IsInjectiveBelow r.nexthop r.nexthop_count
  pub fits : r.overflow ≡ false

-- At most four different hops are allowed.
abbrev pub IsFew : (ℕ → Type 0) → Type 0
IsFew P = (n : ℕ) (f : ℕ → ℕ) → ((i : ℕ) → i < n → P (f i)) → IsInjectiveBelow f n → n ≤ 4

pub HasHops-map :
    (P Q : ℕ → Type 0) (r : Netnode) → ((h : ℕ) → P h → Q h) → HasHops P r → HasHops Q r
HasHops-map P Q r f h = record {
  each = λ i l. f (r.nexthop i) (h.each i l);
  distinct = h.distinct;
  fits = h.fits;
}

IsInjectiveBelow-put :
    (f : ℕ → ℕ) (n hop : ℕ)
    → IsInjectiveBelow f n
    → ((i : ℕ) → i < n → f i ≢ hop)
    → IsInjectiveBelow (put f n hop) (suc n)
IsInjectiveBelow-put f n hop h new i j li lj e =
    let a = new i in let b = new j in let c = h i j in ground arith

among-absent : (hop n : ℕ) (f : ℕ → ℕ) → among hop n f ≡ false → (m : ℕ) → m < n → f m ≢ hop
among-absent hop zero f e m l = absurd (omega arith)
among-absent hop (suc n) f e m l =
    below_suc (λ m. f m ≢ hop) n (among-absent hop n f (ground arith)) (λ z. ground arith) m l

module _ (P : ℕ → Type 0) (few : IsFew P) where
  HasHops-few : (r : Netnode) → HasHops P r → r.nexthop_count ≤ 4
  HasHops-few r h = few r.nexthop_count r.nexthop h.each h.distinct

  HasHops-add_hop :
      (hop : ℕ) (r : Netnode)
      → HasHops P r
      → P hop
      → ((i : ℕ) → i < r.nexthop_count → r.nexthop i ≢ hop)
      → HasHops P (add_hop r.nexthop_count hop r)
  HasHops-add_hop hop r h p new =
      let n = r.nexthop_count in
      let r' = add_hop n hop r in
      let self = put_self r.nexthop n hop in
      let other : (i : ℕ) → i < n → r'.nexthop i ≡ r.nexthop i =
        λ i l. put_ne r.nexthop n i hop (λ e. omega arith) in
      let each' =
        below_suc (λ i. P (r'.nexthop i)) n (λ i l. subst P (sym (other i l)) (h.each i l))
          (subst P (sym self) p) in
      let distinct' = IsInjectiveBelow-put r.nexthop n hop h.distinct new in
      let le = few (suc n) r'.nexthop each' distinct' in
      record { each = each'; distinct = distinct'; fits = rw (h.fits) (ground arith) }

  HasHops-nexthop_copy_from :
      (k i : ℕ) (w r : Netnode)
      → HasHops P w
      → i + k ≡ w.nexthop_count
      → HasHops P r
      → r.nexthop_count ≡ i
      → ((j : ℕ) → j < i → r.nexthop j ≡ w.nexthop j)
      → let r' = nexthop_copy_from k i w r in HasHops P r' × (r'.nexthop_count ≡ w.nexthop_count)
  unfolding nexthop_copy_from
  HasHops-nexthop_copy_from zero i w r hw e hr c same = (hr, omega arith)
  HasHops-nexthop_copy_from (suc k) i w r hw e hr c same =
      let hop = w.nexthop i in
      let r1 = add_hop i hop r in
      let h1 : HasHops P r1 =
        subst (λ n. HasHops P (add_hop n hop r)) c
          (HasHops-add_hop hop r hr (hw.each i (omega arith)) (λ j l e'.
            let a = hw.distinct j i (omega arith) (omega arith) (sym (same j (omega arith)) ∙ e') in
            absurd (omega arith))) in
      let le = HasHops-few w hw in
      let small : ltb 4 (suc r.nexthop_count) ≡ false = ground arith in
      rw small (
        HasHops-nexthop_copy_from k (suc i) w r1 hw (omega arith) h1 (omega arith) (
          below_suc (λ j. r1.nexthop j ≡ w.nexthop j) i
            (λ j l. put_ne r.nexthop i j hop (λ z. absurd (omega arith)) ∙ same j l)
            (put_self r.nexthop i hop)))

  -- The hops become those of the other entry.
  pub HasHops-nexthop_copy :
      (w r : Netnode)
      → HasHops P w
      → r.overflow ≡ false
      → HasHops P (nexthop_copy w r) × ((nexthop_copy w r).nexthop_count ≡ w.nexthop_count)
  HasHops-nexthop_copy w r hw o =
      HasHops-nexthop_copy_from w.nexthop_count 0 w (record r { nexthop_count = 0 }) hw
        (omega arith)
        (record {
          each = λ i l. absurd (omega arith);
          distinct = λ i j l. absurd (omega arith);
          fits = o;
        })
        refl (λ j l. absurd (omega arith))

  -- Where the hop at `m` is from: it was there before, or it is one of the first `i` of `w`.
  abbrev IsFrom : ℕ → ℕ → Netnode → ℕ → ℕ → Type 0
  IsFrom origin i w m hop = m < origin ⊎ ((j : ℕ) × j < i × hop ≡ w.nexthop j)

  IsFrom-suc :
      (origin i : ℕ) (w : Netnode) (m hop : ℕ)
      → IsFrom origin i w m hop
      → IsFrom origin (suc i) w m hop
  IsFrom-suc origin i w m hop h = elim h [ inl a ↦ inl a | inr (j, l, e) ↦ inr (j, omega arith, e) ]

  new_hop :
      (i origin : ℕ) (w r : Netnode)
      → HasHops P w
      → i < w.nexthop_count
      → among (w.nexthop i) origin r.nexthop ≡ false
      → ((m : ℕ) → m < r.nexthop_count → IsFrom origin i w m (r.nexthop m))
      → (m : ℕ) → m < r.nexthop_count
      → r.nexthop m ≢ w.nexthop i
  new_hop i origin w r hw li absent old m l e = elim (old m l) [
    | inl a ↦ absurd (among-absent (w.nexthop i) origin r.nexthop absent m a e)
    | inr (j, lj, ej) ↦
        let a = hw.distinct j i (omega arith) li (sym ej ∙ e) in absurd (omega arith)
  ]

  HasHops-equal_path_copy_from :
      (k i origin : ℕ) (w r : Netnode)
      → HasHops P w
      → i + k ≡ w.nexthop_count
      → HasHops P r
      → origin ≤ r.nexthop_count
      → ((m : ℕ) → m < r.nexthop_count → IsFrom origin i w m (r.nexthop m))
      → let r' = equal_path_copy_from k i r.nexthop_count origin w r in
        HasHops P r' × origin ≤ r'.nexthop_count
  unfolding equal_path_copy_from
  HasHops-equal_path_copy_from zero i origin w r hw e hr le old = (hr, le)
  HasHops-equal_path_copy_from (suc k) i origin w r hw e hr le old =
      let n = r.nexthop_count in
      let hop = w.nexthop i in
      let r1 = add_hop n hop r in
      let li : i < w.nexthop_count = omega arith in
      let e1 : suc i + k ≡ w.nexthop_count = omega arith in
      elim (Bool-cases (among hop origin r.nexthop)) [
        | inl found ↦ rw found (
            HasHops-equal_path_copy_from k (suc i) origin w r hw e1 hr le
              (λ m l. IsFrom-suc origin i w m (r.nexthop m) (old m l)))
        | inr absent ↦ rw absent (
            HasHops-equal_path_copy_from k (suc i) origin w r1 hw e1
              (HasHops-add_hop hop r hr (hw.each i li) (new_hop i origin w r hw li absent old))
              (omega arith)
              (below_suc (λ m. IsFrom origin (suc i) w m (r1.nexthop m)) n
                (λ m l.
                  subst (IsFrom origin (suc i) w m)
                    (sym (put_ne r.nexthop n m hop (λ z. absurd (omega arith))))
                    (IsFrom-suc origin i w m (r.nexthop m) (old m l)))
                (inr (i, omega arith, put_self r.nexthop n hop))))
      ]

  -- The hops of the other entry that are not there yet are added.
  pub HasHops-equal_path_copy :
      (w r : Netnode)
      → HasHops P w
      → HasHops P r
      → HasHops P (equal_path_copy w r) × r.nexthop_count ≤ (equal_path_copy w r).nexthop_count
  HasHops-equal_path_copy w r hw hr =
      HasHops-equal_path_copy_from w.nexthop_count 0 r.nexthop_count w r hw (omega arith) hr
        (omega arith) (λ m l. inl l)
