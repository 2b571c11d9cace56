-- ===== src/Ddc/MinCost.antt =====
-- Which node `min_cost` of ddc/ddc.c chooses.
use pma.Base.{
  ℕ, zero, suc, ◌+◌, ◌≤◌, ◌<◌, ◌≡◌, refl, sym, subst, ap, ◌∙◌, below_suc, ltb→lt, ◌⊎◌, inl, inr,
  false, List, arith, Bool-cases, ltb,
}
use pma.Ddc.{Ridinfo}
use pma.Ddc.Dijkstra.{Choice, Search, consider, min_cost_from, min_cost, first_choice}

-- A node that is not visited, and that a path reaches.
abbrev pub IsOpen : Search → ℕ → Type 0
IsOpen st i = (st.visite i ≡ false) × 0 < st.distance i

-- The choice after the nodes below `k`.
record Chosen (st : Search) (k : ℕ) (c : Choice) : Type 0 where
  pub bound : c.temp < 2000
  pub least : (i : ℕ) → i < k → IsOpen st i → c.temp ≤ st.distance i
  pub found :
      c.temp < 1999 → (c.r_value < k) × IsOpen st c.r_value × (st.distance c.r_value ≡ c.temp)
  pub known : (c.r_value < k) ⊎ (c.r_value ≡ 0)

Chosen-taken :
    (st : Search) (i : ℕ) (c c' : Choice)
    → Chosen st i c
    → IsOpen st i
    → st.distance i ≤ c.temp
    → c'.temp ≡ st.distance i
    → c'.r_value ≡ i
    → Chosen st (suc i) c'
Chosen-taken st i c c' h o le t r = record {
  bound = omega (arith, h.bound);
  least =
      below_suc (λ j. IsOpen st j → c'.temp ≤ st.distance j) i
        (λ j l o'. omega (arith, h.least j l o')) (λ o'. omega arith);
  found = λ l. (omega arith, subst (IsOpen st) (sym r) o, ap (st.distance) r ∙ sym t);
  known = inl (omega arith);
}

module _ (ifid_of : ℕ → ℕ → ℕ) (nodeinfo : List Ridinfo) (s : ℕ) where
  abbrev look : Search → ℕ → Choice → Choice
  look = consider ifid_of nodeinfo s

  -- A node is taken, or the choice stays.
  consider-cases :
      (st : Search) (i : ℕ) (c : Choice)
      → (IsOpen st i
          × (st.distance i ≤ c.temp)
          × ((look st i c).temp ≡ st.distance i)
          × ((look st i c).r_value ≡ i))
        ⊎ ((look st i c ≡ c) × (IsOpen st i → c.temp ≤ st.distance i))
  consider-cases st i c = ground arith

  Chosen-consider :
      (st : Search) (i : ℕ) (c : Choice) → Chosen st i c → Chosen st (suc i) (look st i c)
  Chosen-consider st i c h = elim (consider-cases st i c) [
    | inl (o, le, t, r) ↦ Chosen-taken st i c (look st i c) h o le t r
    | inr (e, le) ↦ subst (Chosen st (suc i)) (sym e) (record {
      bound = h.bound;
      least = below_suc (λ j. IsOpen st j → c.temp ≤ st.distance j) i h.least le;
      found = λ l. let (r, o, e') = h.found l in (omega arith, o, e');
      known = elim (h.known) [ inl l ↦ inl (omega arith) | inr z ↦ inr z ];
    })
  ]

  Chosen-min_cost_from :
      (k i : ℕ) (st : Search) (c : Choice)
      → Chosen st i c
      → Chosen st (i + k) (min_cost_from ifid_of nodeinfo s k i st c)
  unfolding min_cost_from
  Chosen-min_cost_from zero i st c h = subst (λ n. Chosen st n c) (omega arith) h
  Chosen-min_cost_from (suc k) i st c h =
      subst (λ n. Chosen st n (min_cost_from ifid_of nodeinfo s (suc k) i st c)) (omega arith)
        (Chosen-min_cost_from k (suc i) st (look st i c) (Chosen-consider st i c h))

  Chosen-first : (st : Search) → Chosen st 0 first_choice
  Chosen-first st = record {
    bound = omega arith;
    least = λ i l. absurd (omega arith);
    found = λ l. absurd (omega arith);
    known = inr refl;
  }

  -- What `min_cost` returns: an open node that is nearest to the source, if one is nearer than 1999.
  pub min_cost-nearest :
      (total : ℕ) (st : Search)
      → 0 < total
      → let w = min_cost ifid_of nodeinfo s total st in
        (w < total)
        × ((IsOpen st w
              × (st.distance w < 1999)
              × ((i : ℕ) → i < total → IsOpen st i → st.distance w ≤ st.distance i))
            ⊎ ((i : ℕ) → i < total → IsOpen st i → 1999 ≤ st.distance i))
  min_cost-nearest total st p =
      let c = min_cost_from ifid_of nodeinfo s total 0 st first_choice in
      let h : Chosen st total c =
        subst (λ n. Chosen st n c) (omega arith)
          (Chosen-min_cost_from total 0 st first_choice (Chosen-first st)) in
      (
        elim (h.known) [ inl l ↦ l | inr z ↦ omega arith ],
        elim (Bool-cases (ltb c.temp 1999)) [
          | inl e ↦
              let (r, o, d) = h.found (ltb→lt c.temp 1999 e) in
              inl (o, ground arith, λ i l o'. omega (arith, h.least i l o'))
          | inr e ↦ inr (λ i l o'. let le = h.least i l o' in ground arith)
        ],
      )
