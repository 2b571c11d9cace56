-- ===== src/Policy/Search.antt =====
-- What a search finds after a number of additions (policy/policy_table.c).
use pma.Base.{
  ℕ, zero, suc, ◌+◌, ◌≤◌, ◌<◌, ◌≡◌, refl, sym, ◌∙◌, ap, ◌⊎◌, inl, inr, true, false, Option, none,
  some, List, [], ◌∷◌, ◌++◌, map, if◌then◌else◌, leb, ltb, length, get_elem?, take, All, arith,
  Bool-cases,
}
use mathlib.Core.List.{append_assoc, append-nil}
use pma.Policy.{
  PolicyElement, PolicyTable, copy_at, policy_init, init_policy_table, is_policy_init,
  insert_policy_table, add_policy, find_policy_table, find_element, covers, or_zero,
  policy_table_len,
}

-- An element without its version, which the table does not keep.
abbrev pub content : PolicyElement → PolicyElement
content e = record e { version = 0 }

abbrev pub contents : List PolicyElement → List PolicyElement
contents = map content

pub record IsValid (p : PolicyTable) : Type 0 where
  pub flag : p.policy_table_flag ≡ 0
  pub len : p.policy_table_len ≡ policy_table_len
  pub room : length p.p_element ≡ policy_table_len
  pub used : p.used_len ≤ policy_table_len

abbrev pub entries : PolicyTable → List PolicyElement
entries p = contents (take p.used_len p.p_element)

init-IsValid : IsValid policy_init
unfolding policy_init init_policy_table
init-IsValid = record { flag = refl; len = refl; room = refl; used = omega arith }

length-copy_at :
    (xs : List PolicyElement) (n : ℕ) (e : PolicyElement) → length (copy_at xs n e) ≡ length xs
length-copy_at [] n e = refl
length-copy_at (x ∷ xs) zero e = refl
length-copy_at (x ∷ xs) (suc n) e = ap suc (length-copy_at xs n e)

take-copy_at :
    (xs : List PolicyElement) (n : ℕ) (e : PolicyElement)
    → n < length xs
    → contents (take (n + 1) (copy_at xs n e)) ≡ contents (take n xs) ++ content e ∷ []
take-copy_at [] n e h = elim h [ ]
take-copy_at (x ∷ xs) zero e h = ground arith
take-copy_at (x ∷ xs) (suc n) e h = ground (arith, take-copy_at xs n e)

-- The table after an addition.
abbrev added : PolicyTable → PolicyElement → PolicyTable
added p e =
    if leb p.policy_table_len p.used_len
    then p
    else record p { p_element = copy_at p.p_element p.used_len e; used_len = p.used_len + 1 }

add-added :
    (p : PolicyTable) (e : PolicyElement)
    → IsValid p
    → add_policy (some p) (some e) ≡ (some 0, some (added p e))
unfolding add_policy insert_policy_table is_policy_init
add-added p e v = ground arith

added-IsValid : (p : PolicyTable) (e : PolicyElement) → IsValid p → IsValid (added p e)
added-IsValid p e v = ground (arith, length-copy_at p.p_element p.used_len e)

entries-added :
    (p : PolicyTable) (e : PolicyElement)
    → IsValid p
    → entries (added p e)
      ≡ (if ltb p.used_len policy_table_len then entries p ++ content e ∷ [] else entries p)
entries-added p e v = ground (arith, take-copy_at p.p_element p.used_len e)

take_all : (n : ℕ) (xs : List PolicyElement) → length xs ≤ n → take n xs ≡ xs
take_all zero [] h = refl
take_all zero (x ∷ xs) h = elim h [ ]
take_all (suc n) [] h = refl
take_all (suc n) (x ∷ xs) h = ap (λ l. x ∷ l) (take_all n xs (omega arith))

take-append_full : (n : ℕ) (xs ys : List PolicyElement) → length xs ≡ n → take n (xs ++ ys) ≡ xs
take-append_full zero [] ys h = refl
take-append_full zero (x ∷ xs) ys h = absurd (omega arith)
take-append_full (suc n) [] ys h = absurd (omega arith)
take-append_full (suc n) (x ∷ xs) ys h = ap (λ l. x ∷ l) (take-append_full n xs ys (omega arith))

length-contents-take :
    (n : ℕ) (xs : List PolicyElement) → n ≤ length xs → length (contents (take n xs)) ≡ n
length-contents-take zero xs h = refl
length-contents-take (suc n) [] h = absurd (omega arith)
length-contents-take (suc n) (x ∷ xs) h = ap suc (length-contents-take n xs (omega arith))

length-entries : (p : PolicyTable) → IsValid p → length (entries p) ≡ p.used_len
length-entries p v = length-contents-take p.used_len p.p_element (omega (arith, v.room, v.used))

-- One addition after another to the table that a pointer leads to.
unfoldable pub add_all : List PolicyElement → Option PolicyTable → Option PolicyTable
add_all [] p = p
add_all (e ∷ es) p = add_all es (add_policy p (some e)).1

keeps-front :
    (p : PolicyTable) (e : PolicyElement) (rest : List PolicyElement)
    → IsValid p
    → take policy_table_len (entries (added p e) ++ rest)
      ≡ take policy_table_len (entries p ++ content e ∷ rest)
keeps-front p e rest v = elim (Bool-cases (ltb p.used_len policy_table_len)) [
  | inl room ↦
      ap (λ l. take policy_table_len (l ++ rest)) (entries-added p e v ∙ rw room)
      ∙ ap (take policy_table_len) (append_assoc (entries p) (content e ∷ []) rest)
  | inr full ↦
      let no_room : policy_table_len ≤ p.used_len = ground arith in
      let n = length-entries p v ∙ omega (arith, v.used, no_room) in
      ap (λ l. take policy_table_len (l ++ rest)) (entries-added p e v ∙ rw full)
      ∙ take-append_full policy_table_len (entries p) rest n
      ∙ sym (take-append_full policy_table_len (entries p) (content e ∷ rest) n)
]

add_all-entries :
    (es : List PolicyElement) (p : PolicyTable)
    → IsValid p
    → (p' : PolicyTable) × (add_all es (some p) ≡ some p')
      × IsValid p'
      × (entries p' ≡ take policy_table_len (entries p ++ contents es))
unfolding add_all
add_all-entries [] p v = (
  p,
  refl,
  v,
  sym (
      ap (take policy_table_len) (append-nil (entries p))
      ∙ take_all policy_table_len (entries p) (omega (arith, length-entries p v, v.used))),
)
add_all-entries (e ∷ es) p v =
    let (p', run, v', f) = add_all-entries es (added p e) (added-IsValid p e v) in
    (p', ap (λ r. add_all es r.1) (add-added p e v) ∙ run, v', f ∙ keeps-front p e (contents es) v)

-- The first element that covers a key, and its place.
pub record IsFirst (key : ℕ) (es : List PolicyElement) (i : ℕ) : Type 0 where
  pub element : PolicyElement
  pub here : get_elem? es i ≡ some element
  pub hit : covers key element ≡ true
  pub before : All (λ e. covers key e ≡ false) (take i es)

find_element-IsFirst :
    (key i : ℕ) (es : List PolicyElement)
    → ((j : ℕ) × IsFirst key es j × (find_element key i es ≡ some (i + j)))
      ⊎ (All (λ e. covers key e ≡ false) es × (find_element key i es ≡ none))
unfolding find_element
find_element-IsFirst key i [] = inr (tt, refl)
find_element-IsFirst key i (e ∷ es) = elim (Bool-cases (covers key e)) [
  | inl hit ↦ inl (
    0,
    record { element = e; here = refl; hit = hit; before = tt },
    rw hit (ap some (omega arith)),
  )
  | inr miss ↦ elim (find_element-IsFirst key (i + 1) es) [
    | inl (j, f, r) ↦ inl (
      suc j,
      record { element = f.element; here = f.here; hit = f.hit; before = (miss, f.before) },
      rw miss (r ∙ ap some (omega arith)),
    )
    | inr (none_left, r) ↦ inr ((miss, none_left), rw miss r)
  ]
]

find_element-contents :
    (key i : ℕ) (es : List PolicyElement) → find_element key i (contents es) ≡ find_element key i es
unfolding find_element
find_element-contents key i [] = refl
find_element-contents key i (e ∷ es) = ground (arith, find_element-contents key (i + 1) es)

find-entries :
    (key : ℕ) (p : PolicyTable)
    → IsValid p
    → find_policy_table (some p) key ≡ or_zero (find_element key 0 (entries p))
unfolding find_policy_table is_policy_init
find-entries key p v = rw (v.flag, find_element-contents key 0 (take p.used_len p.p_element)) refl

-- After `policy_init` and any number of additions, a search finds the place of the first of the
-- first twenty elements whose interval covers the key, in the order of the additions; if none of
-- them does it returns 0, which is also the place of the first element.
pub add_all-find :
    (es : List PolicyElement) (key : ℕ)
    → let found = find_policy_table (add_all es (some policy_init)) key in
      let kept = take policy_table_len (contents es) in
      ((i : ℕ) × IsFirst key kept i × (found ≡ some i))
      ⊎ (All (λ e. covers key e ≡ false) kept × (found ≡ some 0))
unfolding policy_init init_policy_table
add_all-find es key =
    let (p, run, v, f) = add_all-entries es policy_init init-IsValid in
    let found =
      ap (λ q. find_policy_table q key) run
      ∙ find-entries key p v
      ∙ ap (λ l. or_zero (find_element key 0 l)) f in
    elim (find_element-IsFirst key 0 (take policy_table_len (contents es))) [
      | inl (j, first, r) ↦ inl (j, first, found ∙ ap or_zero (r ∙ ap some (omega arith)))
      | inr (none_left, r) ↦ inr (none_left, found ∙ ap or_zero r)
    ]
