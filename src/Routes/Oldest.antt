-- ===== src/Routes/Oldest.antt =====
-- The oldest route of a table is never taken out: `refresh_route_status` ends before it.
use pma.Base.{
  ℕ, ◌≡◌, refl, ◌∙◌, subst, inl, inr, Bool, true, List, [], ◌∷◌, Bool-cases, arith, if◌then◌else◌,
  Option-cases, suc, zero, set,
}
use pma.Routes.{
  Route, store_route, find_before_route, watch_route_change, refresh_route_status, Source,
  route_table_detect, new_status, fresh_status, old_status,
}
use pma.Routes.Table.{
  has, is_last, IsRefreshed, is_reported, store_route-is_last, store_route-eq-add_route,
  store_route-eq-update_route,
}
use pma.Routes.Detect.{reported, store_all, detect-eq, route_table_detect-IsRefreshed}

-- The oldest route was reported.
abbrev LastReported : List Route → Type 0
LastReported [] = Unit
LastReported (x ∷ []) = is_reported x ≡ true
LastReported (x ∷ y ∷ xs) = LastReported (y ∷ xs)

IsRefreshed-LastReported : (xs : List Route) → IsRefreshed xs → LastReported xs
IsRefreshed-LastReported [] h = tt
IsRefreshed-LastReported (x ∷ []) h = h
IsRefreshed-LastReported (x ∷ y ∷ xs) h = IsRefreshed-LastReported (y ∷ xs) h.1

set-LastReported :
    (xs : List Route) (i : ℕ) (r : Route)
    → LastReported xs
    → LastReported (set xs i (record r { dirty = new_status }))
set-LastReported [] i r h = tt
set-LastReported (x ∷ []) zero r h = refl
set-LastReported (x ∷ []) (suc i) r h = h
set-LastReported (x ∷ y ∷ xs) zero r h = h
set-LastReported (x ∷ y ∷ xs) (suc zero) r h = set-LastReported (y ∷ xs) zero r h
set-LastReported (x ∷ y ∷ xs) (suc (suc i)) r h = set-LastReported (y ∷ xs) (suc i) r h

-- A table that is not empty, and what is said of its oldest route.
abbrev IsKept : List Route → List Route → Type 0
IsKept xs ys =
    (y : Route) × (zs : List Route) × (ys ≡ y ∷ zs)
    × LastReported ys
    × ((k : Route) → is_last k ys ≡ is_last k xs)

set-cons :
    (x v : Route) (xs : List Route) (i : ℕ)
    → (y : Route) × (zs : List Route) × (set (x ∷ xs) i v ≡ y ∷ zs)
set-cons x v xs zero = (v, xs, refl)
set-cons x v xs (suc i) = (x, set xs i v, refl)

store_route-LastReported :
    (x : Route) (xs : List Route) (r : Route)
    → LastReported (x ∷ xs)
    → (y : Route) × (zs : List Route) × (store_route (x ∷ xs) r ≡ y ∷ zs)
      × LastReported (store_route (x ∷ xs) r)
store_route-LastReported x xs r h = elim (Option-cases (find_before_route (x ∷ xs) r)) [
  | inl e ↦
      let p = store_route-eq-add_route (x ∷ xs) r e in
      (record r { dirty = fresh_status }, x ∷ xs, p, rw p h)
  | inr (i, e) ↦
      let p = store_route-eq-update_route (x ∷ xs) r i e in
      let (y, zs, q) = set-cons x (record r { dirty = new_status }) xs i in
      (y, zs, p ∙ q, rw p (set-LastReported (x ∷ xs) i r h))
]

IsKept-store_route : (xs ys : List Route) (r : Route) → IsKept xs ys → IsKept xs (store_route ys r)
IsKept-store_route xs ys r (y, zs, e, l, q) =
    let (y', zs', e', l') = store_route-LastReported y zs r (subst LastReported e l) in
    rw e (
      y',
      zs',
      e',
      l',
      λ k. store_route-is_last k r y zs ∙ subst (λ t. is_last k t ≡ is_last k xs) e (q k),
    )

IsKept-store_all : (rs xs ys : List Route) → IsKept xs ys → IsKept xs (store_all rs ys)
IsKept-store_all [] xs ys h = h
IsKept-store_all (r ∷ rs) xs ys h =
    IsKept-store_all rs xs (store_route ys r) (IsKept-store_route xs ys r h)

watch-cons :
    (x : Route) (xs : List Route)
    → (watch_route_change (x ∷ xs)).1
      ≡ (if is_reported x then x ∷ (watch_route_change xs).1 else (watch_route_change xs).1)
unfolding watch_route_change
watch-cons x xs = ground arith

watch_nil : (watch_route_change []).1 ≡ []
unfolding watch_route_change
watch_nil = refl

is_last-cons :
    (k x : Route) (ys : List Route) (y : Route) (zs : List Route)
    → ys ≡ y ∷ zs
    → is_last k (x ∷ ys) ≡ is_last k ys
is_last-cons k x ys y zs e = rw e refl

IsKept-watch_route_change :
    (x : Route) (xs : List Route)
    → LastReported (x ∷ xs)
    → (y : Route) × (zs : List Route) × ((watch_route_change (x ∷ xs)).1 ≡ y ∷ zs)
      × ((k : Route) → is_last k (watch_route_change (x ∷ xs)).1 ≡ is_last k (x ∷ xs))
IsKept-watch_route_change x [] h =
    let p : (watch_route_change (x ∷ [])).1 ≡ x ∷ [] = watch-cons x [] ∙ rw (h, watch_nil) refl in
    (x, [], p, λ k. rw p refl)
IsKept-watch_route_change x (y ∷ xs) h =
    let (z, zs, e, q) = IsKept-watch_route_change y xs h in
    elim (Bool-cases (is_reported x)) [
      | inl r ↦
          let p : (watch_route_change (x ∷ y ∷ xs)).1 ≡ x ∷ (watch_route_change (y ∷ xs)).1 =
            watch-cons x (y ∷ xs) ∙ rw r refl in
          (
            x,
            (watch_route_change (y ∷ xs)).1,
            p,
            λ k. rw p (is_last-cons k x (watch_route_change (y ∷ xs)).1 z zs e ∙ q k),
          )
      | inr r ↦
          let p : (watch_route_change (x ∷ y ∷ xs)).1 ≡ (watch_route_change (y ∷ xs)).1 =
            watch-cons x (y ∷ xs) ∙ rw r refl in
          (z, zs, p ∙ e, λ k. rw p (q k))
    ]

refresh-is_last : (k : Route) (xs : List Route) → is_last k (refresh_route_status xs) ≡ is_last k xs
unfolding refresh_route_status
refresh-is_last k [] = refl
refresh-is_last k (x ∷ []) = refl
refresh-is_last k (x ∷ y ∷ []) = refl
refresh-is_last k (x ∷ y ∷ z ∷ xs) = refresh-is_last k (y ∷ z ∷ xs)

refresh-cons :
    (x : Route) (xs : List Route)
    → (y : Route) × (zs : List Route) × (refresh_route_status (x ∷ xs) ≡ y ∷ zs)
unfolding refresh_route_status
refresh-cons x [] = (x, [], refl)
refresh-cons x (y ∷ xs) = (record x { dirty = old_status }, refresh_route_status (y ∷ xs), refl)

detect-is_last :
    (full : Bool) (s : Source) (x : Route) (xs : List Route)
    → IsRefreshed (x ∷ xs)
    → (y : Route) × (zs : List Route) × ((route_table_detect full s (x ∷ xs)).1 ≡ y ∷ zs)
      × ((k : Route) → is_last k (y ∷ zs) ≡ is_last k (x ∷ xs))
detect-is_last full s x xs h =
    let l = IsRefreshed-LastReported (x ∷ xs) h in
    let (y, zs, e, l', q) =
      IsKept-store_all (reported s) (x ∷ xs) (x ∷ xs) (x, xs, refl, l, λ k. refl) in
    let (w, ws, e', q') = IsKept-watch_route_change y zs (subst LastReported e l') in
    let (v, vs, e'') = refresh-cons w ws in
    let p : (route_table_detect full s (x ∷ xs)).1 ≡ refresh_route_status (w ∷ ws) =
      detect-eq full s (x ∷ xs) ∙ rw (e, e') refl in
    (
      v,
      vs,
      p ∙ e'',
      λ k.
          subst (λ t. is_last k t ≡ is_last k (x ∷ xs)) e''
            (refresh-is_last k (w ∷ ws)
              ∙ subst (λ t. is_last k t ≡ is_last k (y ∷ zs)) e' (q' k)
              ∙ subst (λ t. is_last k t ≡ is_last k (x ∷ xs)) e (q k)),
    )

-- Runs of the detection, each with its type and what its source reports.
abbrev pub detect_all : List (Bool × Source) → List Route → List Route
detect_all [] xs = xs
detect_all (run ∷ runs) xs = detect_all runs (route_table_detect run.0 run.1 xs).1

is_last-has : (k : Route) (xs : List Route) → is_last k xs ≡ true → has k xs ≡ true
is_last-has k [] h = h
is_last-has k (x ∷ []) h = rw h refl
is_last-has k (x ∷ y ∷ xs) h = let ih = is_last-has k (y ∷ xs) h in ground arith

-- The oldest route of a table stays in it whatever later runs of the detection report.
pub detect_all-has :
    (runs : List (Bool × Source)) (x : Route) (xs : List Route)
    → IsRefreshed (x ∷ xs)
    → (k : Route) → is_last k (x ∷ xs) ≡ true
    → has k (detect_all runs (x ∷ xs)) ≡ true
detect_all-has [] x xs h k l = is_last-has k (x ∷ xs) l
detect_all-has ((full, s) ∷ runs) x xs h k l =
    let (y, zs, e, q) = detect-is_last full s x xs h in
    let refreshed = subst IsRefreshed e (route_table_detect-IsRefreshed full s (x ∷ xs)) in
    rw e (detect_all-has runs y zs refreshed k (q k ∙ l))
