-- ===== src/Ddc/Trace.antt =====
-- The `while` loop of `record_short_path`, ddc/ddc.c, follows the shortest path to its end.
use pma.Base.{
  ℕ, zero, suc, ◌+◌, ◌*◌, ◌^◌, ◌≤◌, ◌<◌, ◌≡◌, refl, sym, subst, ◌≢◌, inl, inr, true, false, arith,
  Bool-cases, if◌then◌else◌, ◌==◌, leb, eqb→eq, ne→eqb, eqb_refl, List, [], ◌∷◌, some,
}
use pma.Ddc.{Netnode}
use pma.Ddc.Walk.{Walk, here}
use pma.Ddc.Paths.{walk_path}
use pma.Ddc.Shortest.{walk_cons}
use pma.Ddc.Area.{IsSolved}

-- The metrics of the links that some turns follow; a turn from a node to itself follows none.
abbrev pub cost_of_turns : (ℕ → ℕ → ℕ) → List (ℕ × ℕ) → ℕ
cost_of_turns cost [] = 0
cost_of_turns cost (turn ∷ turns) =
    (if turn.0 == turn.1 then 0 else cost turn.0 turn.1) + cost_of_turns cost turns

module _ (total : ℕ) (cost : ℕ → ℕ → ℕ) (matrix : ℕ → ℕ → Netnode)
    (solved : (s j : ℕ) → s < total → j < total → IsSolved cost total s j (matrix s j))
    (positive : (u v : ℕ) → u < total → v < total → 0 < cost u v) (small : total ≤ 2 ^ 31) where
  ended : (fuel j s next : ℕ) → (s == j) ≡ true → walk_path fuel matrix j s next ≡ some []
  unfolding walk_path
  ended zero j s next e = rw e refl
  ended (suc fuel) j s next e = rw e refl

  pub walk_back :
      (s j : ℕ)
      → s < total
      → j < total
      → (matrix s j).path_cost < 2000
      → Walk cost total s j (matrix s j).path_cost
  walk_back s j ls lj m = elim (Bool-cases (j == s)) [
    | inl e ↦
        let z = (solved s j ls lj).source (eqb→eq j s e) in
        subst (Walk cost total s j) (sym z)
          (subst (λ k. Walk cost total s k 0) (sym (eqb→eq j s e)) here)
    | inr e ↦
        let n : j ≢ s = λ z. ground arith in
        let (lh, mh, c, way, q) = (solved s j ls lj).next n m in
        subst (Walk cost total s j) q (walk_cons cost s total (matrix s j).next_hop j c lh way)
  ]

  -- The next hop is another node, and the rest of the way is the rest of the cost.
  closer :
      (s j : ℕ)
      → s < total
      → j < total
      → j ≢ s
      → (matrix s j).path_cost < 2000
      → let h = (matrix s j).next_hop in
        (h < total) × (s ≢ h) × (cost s h + (matrix h j).path_cost ≡ (matrix s j).path_cost)
  closer s j ls lj n m =
      let (lh, mh, c, way, e) = (solved s j ls lj).next n m in
      let h = (matrix s j).next_hop in
      let pos = positive s h ls lh in
      let a = (solved h j lh lj).least c way (omega arith) in
      let way' =
        walk_cons cost s total h j (matrix h j).path_cost lh (walk_back h j lh lj (omega arith)) in
      let b = (solved s j ls lj).least (cost s h + (matrix h j).path_cost) way' (omega arith) in
      (
        lh,
        λ z.
            let b' =
              (solved s j ls lj).least c (subst (λ k. Walk cost total k j c) (sym z) way)
                (omega arith) in
            absurd (omega arith),
        omega arith,
      )

  -- No cost is left only at the end.
  at_end :
      (fuel s j : ℕ)
      → s < total
      → j < total
      → (matrix s j).path_cost < 2000
      → (matrix s j).path_cost ≡ 0
      → (turns : List (ℕ × ℕ)) × (walk_path fuel matrix j s (matrix s j).next_hop ≡ some turns)
        × (cost_of_turns cost turns ≡ (matrix s j).path_cost)
  unfolding walk_path
  at_end fuel s j ls lj m z = elim (Bool-cases (s == j)) [
    | inl e ↦ ([], ended fuel j s (matrix s j).next_hop e, sym z)
    | inr e ↦
        let (lh, n, q) = closer s j ls lj (λ z. ground arith) m in
        let pos = positive s (matrix s j).next_hop ls lh in absurd (omega arith)
  ]

  -- From a node on, before the loop follows a link, and after it has.
  pub follows :
      (fuel s j : ℕ)
      → s < total
      → j < total
      → (matrix s j).path_cost < 2000
      → 2 * (matrix s j).path_cost ≤ fuel
      → (turns : List (ℕ × ℕ)) × (walk_path fuel matrix j s (matrix s j).next_hop ≡ some turns)
        × (cost_of_turns cost turns ≡ (matrix s j).path_cost)
  unfolding walk_path
  follows zero s j ls lj m f = at_end zero s j ls lj m (omega arith)
  follows (suc zero) s j ls lj m f = at_end 1 s j ls lj m (omega arith)
  follows (suc (suc k)) s j ls lj m f = elim (Bool-cases (s == j)) [
    | inl e ↦ at_end (suc (suc k)) s j ls lj m ((solved s j ls lj).source (sym (eqb→eq s j e)))
    | inr e ↦
        let h = (matrix s j).next_hop in
        let (lh, n, q) = closer s j ls lj (λ z. ground arith) m in
        let pos = positive s h ls lh in
        let early : leb (2 ^ 31) h ≡ false = ground arith in
        elim (Bool-cases (h == j)) [
          | inl z ↦
              let end = (solved h j lh lj).source (sym (eqb→eq h j z)) in
              ((s, h) ∷ [], rw (e, early, z) refl, rw (ne→eqb s h n) (omega arith))
          | inr z ↦
              let (turns, run, sum) = follows k h j lh lj (omega arith) (omega arith) in
              (
                (s, h) ∷ (h, h) ∷ turns,
                rw (e, early, z, run) refl,
                rw (ne→eqb s h n, eqb_refl h) (omega arith),
              )
        ]
  ]
