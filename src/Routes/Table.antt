-- ===== src/Routes/Table.antt =====
-- Which routes a table holds, and what storing, watching and refreshing make of them.
use pma.Base.{
  zero, suc, ℕ, ◌≡◌, refl, sym, ◌∙◌, ◌⊎◌, inl, inr, Bool, true, false, ◌||◌, ◌&&◌, none, some, List,
  [], ◌∷◌, ◌==◌, arith, Bool-cases, Option-cases, set,
}
use pma.Routes.{
  Route, same_route, store_route, add_route, update_route, find_before_route, watch_route_change,
  refresh_route_status, new_status, old_status, fresh_status,
}

-- Whether a table holds a route like this one.
abbrev pub has : Route → List Route → Bool
has k [] = false
has k (r ∷ rs) = same_route r k || has k rs

-- A route that was reported since the last refresh.
abbrev pub is_reported : Route → Bool
is_reported r = (r.dirty == new_status) || (r.dirty == fresh_status)

abbrev pub has_reported : Route → List Route → Bool
has_reported k [] = false
has_reported k (r ∷ rs) = (same_route r k && is_reported r) || has_reported k rs

-- Whether the oldest route of a table is like this one.
abbrev pub is_last : Route → List Route → Bool
is_last k [] = false
is_last k (r ∷ []) = same_route r k
is_last k (r ∷ s ∷ rs) = is_last k (s ∷ rs)

-- A table after a refresh: all routes but the oldest wait to be reported again.
abbrev pub IsRefreshed : List Route → Type 0
IsRefreshed [] = Unit
IsRefreshed (r ∷ []) = is_reported r ≡ true
IsRefreshed (r ∷ s ∷ rs) = (r.dirty ≡ old_status) × IsRefreshed (s ∷ rs)

pub same_route-dirty :
    (a : Route) (d : ℕ) (k : Route) → same_route (record a { dirty = d }) k ≡ same_route a k
unfolding same_route
same_route-dirty a d k = refl

pub same_route-congr : (a b k : Route) → same_route a b ≡ true → same_route a k ≡ same_route b k
unfolding same_route
same_route-congr a b k h = ground arith

-- The found route is the first one like `r`.
pub find_before_route-cons :
    (x : Route) (xs : List Route) (r : Route) (i : ℕ)
    → find_before_route (x ∷ xs) r ≡ some i
    → ((same_route x r ≡ true) × (i ≡ 0))
      ⊎ ((j : ℕ) × (same_route x r ≡ false) × (i ≡ suc j) × (find_before_route xs r ≡ some j))
unfolding find_before_route
find_before_route-cons x xs r i e = elim (Bool-cases (same_route x r)) [
  | inl q ↦ inl (q, ground arith)
  | inr q ↦ elim (Option-cases (find_before_route xs r)) [
    | inl n ↦ absurd (ground arith)
    | inr (j, f) ↦ inr (j, q, ground arith, f)
  ]
]

update-has_reported :
    (xs : List Route) (r : Route) (i : ℕ)
    → find_before_route xs r ≡ some i
    → (k : Route)
    → has_reported k (set xs i (record r { dirty = new_status }))
      ≡ (has_reported k xs || same_route r k)
update-has_reported [] r i e k = unfold find_before_route in absurd (ground arith)
update-has_reported (x ∷ xs) r i e k = elim (find_before_route-cons x xs r i e) [
  | inl (q, z) ↦
      rw (z, same_route-dirty r new_status k, same_route-congr x r k q)
        (elim (Bool-cases (same_route r k)) [
          | inl c ↦ rw c (ground arith)
          | inr c ↦ rw c (ground arith)
        ])
  | inr (j, q, z, f) ↦ rw (z, update-has_reported xs r j f k) (ground arith)
]

pub store_route-eq-add_route :
    (xs : List Route) (r : Route)
    → find_before_route xs r ≡ none
    → store_route xs r ≡ add_route xs r
unfolding store_route
store_route-eq-add_route xs r e = rw (e, store_route) refl

pub store_route-eq-update_route :
    (xs : List Route) (r : Route) (i : ℕ)
    → find_before_route xs r ≡ some i
    → store_route xs r ≡ update_route xs i r
unfolding store_route
store_route-eq-update_route xs r i e = rw (e, store_route) refl

pub store_route-has_reported :
    (k r : Route) (xs : List Route)
    → has_reported k (store_route xs r) ≡ (has_reported k xs || same_route r k)
store_route-has_reported k r xs = elim (Option-cases (find_before_route xs r)) [
  | inl e ↦ rw (store_route-eq-add_route xs r e, same_route-dirty r fresh_status k) (ground arith)
  | inr (i, e) ↦ rw (store_route-eq-update_route xs r i e) (update-has_reported xs r i e k)
]

-- What stays after the watch is what was reported.
pub has-watch_route_change :
    (k : Route) (xs : List Route) → has k (watch_route_change xs).1 ≡ has_reported k xs
unfolding watch_route_change
has-watch_route_change k [] = refl
has-watch_route_change k (x ∷ xs) = let ih = has-watch_route_change k xs in ground arith

pub has-refresh_route_status :
    (k : Route) (xs : List Route) → has k (refresh_route_status xs) ≡ has k xs
unfolding refresh_route_status
has-refresh_route_status k [] = refl
has-refresh_route_status k (x ∷ []) = refl
has-refresh_route_status k (x ∷ y ∷ xs) =
    rw (same_route-dirty x old_status k, has-refresh_route_status k (y ∷ xs)) refl

-- After a refresh only the oldest route counts as reported.
pub has_reported-eq-is_last :
    (k : Route) (xs : List Route) → IsRefreshed xs → has_reported k xs ≡ is_last k xs
has_reported-eq-is_last k [] h = refl
has_reported-eq-is_last k (x ∷ []) h = (ground arith)
has_reported-eq-is_last k (x ∷ y ∷ xs) (o, h) =
    rw (o, has_reported-eq-is_last k (y ∷ xs) h) (ground arith)

is_last-cons-set :
    (k x y v : Route) (xs : List Route) (j : ℕ)
    → is_last k (x ∷ set (y ∷ xs) j v) ≡ is_last k (set (y ∷ xs) j v)
is_last-cons-set k x y v xs zero = refl
is_last-cons-set k x y v xs (suc j) = refl

-- The oldest route of a table that is not empty stays the oldest one.
update-is_last :
    (xs : List Route) (r : Route) (i : ℕ)
    → find_before_route xs r ≡ some i
    → (k : Route) → is_last k (set xs i (record r { dirty = new_status })) ≡ is_last k xs
update-is_last [] r i e k = refl
update-is_last (x ∷ []) r i e k = elim (find_before_route-cons x [] r i e) [
  | inl (q, z) ↦ rw (z, same_route-dirty r new_status k) (sym (same_route-congr x r k q))
  | inr (j, q, z, f) ↦ rw z refl
]
update-is_last (x ∷ y ∷ xs) r i e k = elim (find_before_route-cons x (y ∷ xs) r i e) [
  | inl (q, z) ↦ rw z refl
  | inr (j, q, z, f) ↦ rw z (
      is_last-cons-set k x y (record r { dirty = new_status }) xs j
      ∙ update-is_last (y ∷ xs) r j f k)
]

pub store_route-is_last :
    (k r x : Route) (xs : List Route) → is_last k (store_route (x ∷ xs) r) ≡ is_last k (x ∷ xs)
store_route-is_last k r x xs = elim (Option-cases (find_before_route (x ∷ xs) r)) [
  | inl e ↦ rw (store_route-eq-add_route (x ∷ xs) r e) refl
  | inr (i, e) ↦ rw (store_route-eq-update_route (x ∷ xs) r i e) (update-is_last (x ∷ xs) r i e k)
]
