-- ===== src/Utils/Ini/Trim.antt =====
-- What `strtrim` of utils/utils.c leaves.
use pma.Base.{ℕ, ◌≡◌, refl, ap, ◌∙◌, true, false, List, [], ◌∷◌, ◌++◌, Bool-cases, inl, inr, All}
use pma.Utils.Ini.{isspace, drop_spaces, trim_cons, trim_end, strtrim}

-- The first byte, if there is one, and the last one, if there is one, is no space.
abbrev pub IsStart : List ℕ → Type 0
IsStart [] = Unit
IsStart (c ∷ cs) = isspace c ≡ false

abbrev pub IsEnd : List ℕ → Type 0
IsEnd [] = Unit
IsEnd (c ∷ []) = isspace c ≡ false
IsEnd (c ∷ d ∷ cs) = IsEnd (d ∷ cs)

pub drop_spaces-IsStart : (xs : List ℕ) → IsStart (drop_spaces xs)
drop_spaces-IsStart [] = tt
drop_spaces-IsStart (c ∷ cs) = elim (Bool-cases (isspace c)) [
  | inl e ↦ rw e (drop_spaces-IsStart cs)
  | inr e ↦ rw e e
]

-- The spaces in front.
drop_spaces-split :
    (xs : List ℕ) → (s : List ℕ) × All (λ c. isspace c ≡ true) s × (xs ≡ s ++ drop_spaces xs)
drop_spaces-split [] = ([], tt, refl)
drop_spaces-split (c ∷ cs) = elim (Bool-cases (isspace c)) [
  | inl e ↦ let (s, a, p) = drop_spaces-split cs in (c ∷ s, (e, a), rw e (ap (λ k. c ∷ k) p))
  | inr e ↦ ([], tt, rw e refl)
]

trim_cons-IsEnd : (c : ℕ) (t : List ℕ) → IsEnd t → IsEnd (trim_cons c t)
trim_cons-IsEnd c [] h = elim (Bool-cases (isspace c)) [ inl e ↦ rw e tt | inr e ↦ rw e e ]
trim_cons-IsEnd c (d ∷ ds) h = h

trim_end-IsEnd : (xs : List ℕ) → IsEnd (trim_end xs)
trim_end-IsEnd [] = tt
trim_end-IsEnd (c ∷ cs) = trim_cons-IsEnd c (trim_end cs) (trim_end-IsEnd cs)

trim_cons-IsStart : (c : ℕ) (t : List ℕ) → isspace c ≡ false → IsStart (trim_cons c t)
trim_cons-IsStart c [] e = rw e e
trim_cons-IsStart c (d ∷ ds) e = e

trim_end-IsStart : (xs : List ℕ) → IsStart xs → IsStart (trim_end xs)
trim_end-IsStart [] h = tt
trim_end-IsStart (c ∷ cs) h = trim_cons-IsStart c (trim_end cs) h

-- The spaces behind.
trim_cons-split :
    (c : ℕ) (t s : List ℕ)
    → All (λ c. isspace c ≡ true) s
    → (s' : List ℕ) × All (λ c. isspace c ≡ true) s' × (c ∷ (t ++ s) ≡ trim_cons c t ++ s')
trim_cons-split c [] s a = elim (Bool-cases (isspace c)) [
  | inl e ↦ (c ∷ s, (e, a), rw e refl)
  | inr e ↦ (s, a, rw e refl)
]
trim_cons-split c (d ∷ ds) s a = (s, a, refl)

trim_end-split :
    (xs : List ℕ) → (s : List ℕ) × All (λ c. isspace c ≡ true) s × (xs ≡ trim_end xs ++ s)
trim_end-split [] = ([], tt, refl)
trim_end-split (c ∷ cs) =
    let (s, a, p) = trim_end-split cs in
    let (s', a', p') = trim_cons-split c (trim_end cs) s a in (s', a', ap (λ k. c ∷ k) p ∙ p')

-- `strtrim` takes only spaces away, in front and behind, and leaves none at either end.
pub strtrim-split :
    (str : List ℕ)
    → (front : List ℕ) × (back : List ℕ) × All (λ c. isspace c ≡ true) front
      × All (λ c. isspace c ≡ true) back
      × (str ≡ front ++ (strtrim str ++ back))
      × IsStart (strtrim str)
      × IsEnd (strtrim str)
strtrim-split str =
    let (front, a, p) = drop_spaces-split str in
    let (back, b, q) = trim_end-split (drop_spaces str) in
    (
      front,
      back,
      a,
      b,
      p ∙ ap (λ k. front ++ k) q,
      trim_end-IsStart (drop_spaces str) (drop_spaces-IsStart str),
      trim_end-IsEnd (drop_spaces str),
    )

-- What stays as it is.
pub drop_spaces_start : (xs : List ℕ) → IsStart xs → drop_spaces xs ≡ xs
drop_spaces_start [] h = refl
drop_spaces_start (c ∷ cs) h = rw h refl

pub trim_end_end : (xs : List ℕ) → IsEnd xs → trim_end xs ≡ xs
trim_end_end [] h = refl
trim_end_end (c ∷ []) h = rw h refl
trim_end_end (c ∷ d ∷ cs) h = ap (trim_cons c) (trim_end_end (d ∷ cs) h)

pub strtrim_same : (xs : List ℕ) → IsStart xs → IsEnd xs → strtrim xs ≡ xs
strtrim_same xs s e = ap trim_end (drop_spaces_start xs s) ∙ trim_end_end xs e

trim_end_space : (xs : List ℕ) (c : ℕ) → isspace c ≡ true → trim_end (xs ++ c ∷ []) ≡ trim_end xs
trim_end_space [] c h = rw h refl
trim_end_space (x ∷ xs) c h = ap (trim_cons x) (trim_end_space xs c h)

-- A newline goes.
pub strtrim_newline :
    (x : ℕ) (xs : List ℕ)
    → IsStart (x ∷ xs)
    → IsEnd (x ∷ xs)
    → strtrim (x ∷ (xs ++ 10 ∷ [])) ≡ x ∷ xs
strtrim_newline x xs s e =
    ap trim_end (drop_spaces_start (x ∷ (xs ++ 10 ∷ [])) s)
    ∙ trim_end_space (x ∷ xs) 10 refl
    ∙ trim_end_end (x ∷ xs) e
