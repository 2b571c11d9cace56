-- ===== src/Routes/Steady.antt =====
-- When a source reports the routes of the table again, no change is seen.
use pma.Base.{
  ℕ, suc, ◌≡◌, refl, sym, ◌∙◌, inl, inr, Bool, true, false, ◌||◌, ◌&&◌, not, some, List, [], ◌∷◌,
  ◌==◌, set, All, arith, Bool-cases,
}
use pma.Routes.{
  Route, same_route, find_before_route, store_route, watch_route_change, route_table_detect, Source,
  new_status,
}
use pma.Routes.Table.{
  has, same_route-dirty, same_route-congr, find_before_route-cons, store_route-eq-update_route,
}
use pma.Routes.Detect.{reported, store_all, route_table_get-eq-store_all}

-- No two routes of the table are alike.
abbrev pub IsDistinct : List Route → Type 0
IsDistinct [] = Unit
IsDistinct (x ∷ xs) = (has x xs ≡ false) × IsDistinct xs

-- Whether a table holds a route like this one that was not seen again.
abbrev has_other : Route → List Route → Bool
has_other k [] = false
has_other k (r ∷ rs) = (same_route r k && not (r.dirty == new_status)) || has_other k rs

same_route_self : (a : Route) → same_route a a ≡ true
unfolding same_route
same_route_self a = ground arith

same_route-right : (a b k : Route) → same_route b k ≡ true → same_route a b ≡ same_route a k
unfolding same_route
same_route-right a b k h = ground arith

has-congr : (a b : Route) (xs : List Route) → same_route a b ≡ true → has a xs ≡ has b xs
has-congr a b [] h = refl
has-congr a b (x ∷ xs) h = rw (same_route-right x a b h, has-congr a b xs h) refl

has_other-false : (k : Route) (xs : List Route) → has k xs ≡ false → has_other k xs ≡ false
has_other-false k [] h = refl
has_other-false k (x ∷ xs) h = ground (arith, has_other-false k xs)

find_before_route-has :
    (xs : List Route) (r : Route) → has r xs ≡ true → (i : ℕ) × (find_before_route xs r ≡ some i)
unfolding find_before_route
find_before_route-has [] r h = cc
find_before_route-has (x ∷ xs) r h = elim (Bool-cases (same_route x r)) [
  | inl q ↦ (0, rw q refl)
  | inr q ↦ let (i, e) = find_before_route-has xs r (rw q at h) in (suc i, rw (q, e) refl)
]

module _ (r : Route) where
  abbrev seen : Route
  seen = record r { dirty = new_status }

  set-has :
      (k : Route) (xs : List Route) (i : ℕ)
      → find_before_route xs r ≡ some i
      → has k (set xs i seen) ≡ has k xs
  set-has k [] i e = refl
  set-has k (x ∷ xs) i e = elim (find_before_route-cons x xs r i e) [
    | inl (q, z) ↦ rw (z, same_route-dirty r new_status k, same_route-congr x r k q) refl
    | inr (j, q, z, f) ↦ rw (z, set-has k xs j f) refl
  ]

  set-IsDistinct :
      (xs : List Route) (i : ℕ)
      → find_before_route xs r ≡ some i
      → IsDistinct xs
      → IsDistinct (set xs i seen)
  set-IsDistinct [] i e d = tt
  set-IsDistinct (x ∷ xs) i e (n, d) = elim (find_before_route-cons x xs r i e) [
    | inl (q, z) ↦ rw z (sym (has-congr x seen xs (unfold same_route in q)) ∙ n, d)
    | inr (j, q, z, f) ↦ rw z (set-has x xs j f ∙ n, set-IsDistinct xs j f d)
  ]

  set-has_other :
      (k : Route) (xs : List Route) (i : ℕ)
      → find_before_route xs r ≡ some i
      → IsDistinct xs
      → has_other k (set xs i seen) ≡ (has_other k xs && not (same_route r k))
  set-has_other k [] i e d = refl
  set-has_other k (x ∷ xs) i e (n, d) = elim (find_before_route-cons x xs r i e) [
    | inl (q, z) ↦
        rw (z, same_route-dirty r new_status k, same_route-congr x r k q)
          (elim (Bool-cases (same_route r k)) [
            | inl c ↦
                let gone =
                  has_other-false k xs
                    (sym (has-congr x k xs (same_route-congr x r k q ∙ c)) ∙ n) in
                rw (c, gone) (ground arith)
            | inr c ↦ rw c (ground arith)
          ])
    | inr (j, q, z, f) ↦
        rw (z, set-has_other k xs j f d)
          (elim (Bool-cases (same_route r k)) [
            | inl c ↦
                let other : same_route x k ≡ false = sym (same_route-right x r k c) ∙ q in
                rw (c, other) (ground arith)
            | inr c ↦ rw c (ground arith)
          ])
  ]

store_route-known :
    (k r : Route) (xs : List Route)
    → has r xs ≡ true
    → IsDistinct xs
    → (has k (store_route xs r) ≡ has k xs)
      × IsDistinct (store_route xs r)
      × (has_other k (store_route xs r) ≡ (has_other k xs && not (same_route r k)))
store_route-known k r xs h d =
    let (i, e) = find_before_route-has xs r h in
    rw (store_route-eq-update_route xs r i e)
      (set-has r k xs i e, set-IsDistinct r xs i e d, set-has_other r k xs i e d)

store_all-known :
    (k : Route) (rs xs : List Route)
    → All (λ r. has r xs ≡ true) rs
    → IsDistinct xs
    → has_other k (store_all rs xs) ≡ (has_other k xs && not (has k rs))
store_all-known k [] xs h d = ground arith
store_all-known k (r ∷ rs) xs (h, hs) d =
    let (same, d', e) = store_route-known k r xs h d in
    store_all-known k rs (store_route xs r) (still rs hs) d' ∙ rw e (ground arith)
  where
    still :
        (ts : List Route)
        → All (λ t. has t xs ≡ true) ts
        → All (λ t. has t (store_route xs r) ≡ true) ts
    still [] ok = tt
    still (t ∷ ts) ok = ((store_route-known t r xs h d).0 ∙ ok.0, still ts ok.1)

all_has :
    (rs xs : List Route)
    → ((k : Route) → has k rs ≡ true → has k xs ≡ true)
    → All (λ r. has r xs ≡ true) rs
all_has [] xs h = tt
all_has (r ∷ rs) xs h =
    (h r (rw (same_route_self r) refl), all_has rs xs (λ k e. h k (ground arith)))

watch_unchanged :
    (xs : List Route) → ((k : Route) → has_other k xs ≡ false) → (watch_route_change xs).0 ≡ false
unfolding watch_route_change
watch_unchanged [] h = refl
watch_unchanged (x ∷ xs) h =
    let seen_again : (x.dirty == new_status) ≡ true =
      (let a = h x in let b = same_route_self x in ground arith) in
    rw seen_again (watch_unchanged xs (λ k. let a = h k in ground arith))

other-le-has : (k : Route) (xs : List Route) → (has_other k xs && not (has k xs)) ≡ false
other-le-has k [] = refl
other-le-has k (x ∷ xs) = let ih = other-le-has k xs in ground arith

-- A run on a table without doubles sends nothing, unless it is the full one, when the routes that
-- are reported are just those of the table.
pub detect-unchanged :
    (full : Bool) (s : Source) (xs : List Route)
    → IsDistinct xs
    → ((k : Route) → has k (reported s) ≡ has k xs)
    → (route_table_detect full s xs).0 ≡ full
unfolding route_table_detect
detect-unchanged full s xs d same =
    let kept = all_has (reported s) xs (λ k e. sym (same k) ∙ e) in
    let quiet =
      watch_unchanged (store_all (reported s) xs)
        (λ k. store_all-known k (reported s) xs kept d ∙ rw (same k) (other-le-has k xs)) in
    rw (route_table_get-eq-store_all s xs, quiet) refl
