-- ===== src/Utils/Ordered.antt =====
-- The insertion by key of utils/list.c.
use pma.Base.{
  ℕ, zero, suc, ◌<◌, ◌≡◌, refl, sym, subst, ap, ◌⊎◌, inl, inr, some, if◌then◌else◌, ltb, List, [],
  ◌∷◌, ◌++◌, arith, length, Bool-cases, ne→eqb, eqb_refl,
}
use pma.Utils.{Memory, cr_list_add_tail, find_in_order, cr_list_add_in_order}
use pma.Utils.Ring.{IsLinked, IsNotIn, IsRing, IsRing-add_tail, IsRing-insert}

-- In front of the first node whose key is not smaller, or at the end.
abbrev pub insert_in_order : ℕ → ℕ → (ℕ → ℕ) → List ℕ → List ℕ
insert_in_order n key v [] = n ∷ []
insert_in_order n key v (x ∷ xs) =
    if ltb (v x) key then x ∷ insert_in_order n key v xs else n ∷ x ∷ xs

module _ (head n key : ℕ) (v : ℕ → ℕ) (h : Memory) where
  -- What the loop finds: the head, or a node in the list.
  abbrev IsPlace : ℕ → ℕ → List ℕ → Type 0
  IsPlace fuel a xs =
      ((find_in_order fuel head key v h a ≡ some head)
        × (insert_in_order n key v xs ≡ xs ++ n ∷ []))
      ⊎ ((us : List ℕ) × (x : ℕ) × (ws : List ℕ) × (xs ≡ us ++ x ∷ ws)
          × (find_in_order fuel head key v h a ≡ some x)
          × (insert_in_order n key v xs ≡ us ++ n ∷ x ∷ ws))

  find_in_order-IsPlace :
      (fuel a : ℕ) (xs : List ℕ)
      → IsLinked h a xs head
      → IsNotIn head xs
      → length xs < fuel
      → IsPlace fuel a xs
  unfolding find_in_order
  find_in_order-IsPlace zero a xs l ni f = absurd (omega arith)
  find_in_order-IsPlace (suc fuel) a [] l ni f = inl (
    elim (Bool-cases (ltb (v head) key)) [
      | inl e ↦ rw (l.0, e, eqb_refl head) refl
      | inr e ↦ rw (l.0, e) refl
    ],
    refl,
  )
  find_in_order-IsPlace (suc fuel) a (x ∷ xs) l ni f = elim (Bool-cases (ltb (v x) key)) [
    | inr e ↦ inr ([], x, xs, refl, rw (l.0, e) refl, rw e refl)
    | inl e ↦ elim (find_in_order-IsPlace fuel x xs l.2 ni.1 (omega arith)) [
      | inl (p, q) ↦ inl (rw (l.0, e, ne→eqb x head ni.0) p, rw e (ap (λ k. x ∷ k) q))
      | inr (us, y, ws, s, p, q) ↦ inr (
        x ∷ us,
        y,
        ws,
        ap (λ k. x ∷ k) s,
        rw (l.0, e, ne→eqb x head ni.0) p,
        rw e (ap (λ k. x ∷ k) q),
      )
    ]
  ]

-- With a turn for each node and one more, `cr_list_add_in_order` puts a new node in front of the
-- first node in the ring whose key is not smaller, and at the end when there is none, whatever the
-- key of the head is.
pub IsRing-add_in_order :
    (fuel head n key : ℕ) (v : ℕ → ℕ) (h : Memory) (xs : List ℕ)
    → IsRing h head xs
    → IsNotIn n (head ∷ xs)
    → length xs < fuel
    → (h' : Memory) × (cr_list_add_in_order fuel n head key v h ≡ some h')
      × IsRing h' head (insert_in_order n key v xs)
unfolding cr_list_add_in_order
IsRing-add_in_order fuel head n key v h xs r ni f =
    elim (find_in_order-IsPlace head n key v h fuel head xs r.linked r.distinct.0 f) [
      | inl (p, q) ↦ (
        cr_list_add_tail n head h,
        rw (cr_list_add_in_order, p) refl,
        subst (IsRing (cr_list_add_tail n head h) head) (sym q) (IsRing-add_tail h head n xs r ni),
      )
      | inr (us, x, ws, s, p, q) ↦ (
        cr_list_add_tail n x h,
        rw (cr_list_add_in_order, p) refl,
        subst (IsRing (cr_list_add_tail n x h) head) (sym q) (
            IsRing-insert h head n x us ws (subst (IsRing h head) s r)
              (subst (λ k. IsNotIn n (head ∷ k)) s ni)),
      )
    ]
