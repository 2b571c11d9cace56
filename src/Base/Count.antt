-- ===== src/Base/Count.antt =====
-- How many numbers below a bound pass a test, and the pigeonhole principle for them.
use pma.Base.{
  ℕ, zero, suc, ◌≤◌, ◌<◌, ◌≡◌, refl, sym, ap, ◌∙◌, ◌≢◌, ◌⊎◌, inl, inr, Bool, true, false, arith,
  Bool-cases, if◌then◌else◌, ◌==◌, eqb→eq, below_suc,
}

abbrev pub number_of : (ℕ → Bool) → ℕ → ℕ
number_of q zero = 0
number_of q (suc n) = if q n then suc (number_of q n) else number_of q n

pub number_of-cong :
    (p q : ℕ → Bool) (n : ℕ) → ((i : ℕ) → i < n → p i ≡ q i) → number_of p n ≡ number_of q n
number_of-cong p q zero h = refl
number_of-cong p q (suc n) h =
    rw (h n (omega arith), number_of-cong p q n (λ i l. h i (omega arith))) refl

pub number_of_le : (q : ℕ → Bool) (n : ℕ) → number_of q n ≤ n
number_of_le q zero = omega arith
number_of_le q (suc n) = ground (arith, number_of_le q n)

-- A test that fails at one more number.
pub number_of_less :
    (p q : ℕ → Bool) (n w : ℕ)
    → w < n
    → p w ≡ true
    → q w ≡ false
    → ((i : ℕ) → i ≢ w → p i ≡ q i)
    → number_of p n ≡ suc (number_of q n)
number_of_less p q zero w l pw qw h = absurd (omega arith)
number_of_less p q (suc n) w l pw qw h = elim (Bool-cases (n == w)) [
  | inl e ↦
      let e' = eqb→eq n w e in
      rw (ap p e' ∙ pw, ap q e' ∙ qw, number_of-cong p q n (λ i l. h i (λ z. absurd (omega arith))))
        refl
  | inr e ↦
      let ne : n ≢ w = λ z. ground arith in
      let rest = number_of_less p q n w (ground arith) pw qw h in rw (h n ne) (ground arith)
]

pub number_of_zero : (q : ℕ → Bool) (n : ℕ) → number_of q n ≡ 0 → (i : ℕ) → i < n → q i ≡ false
number_of_zero q zero h i l = absurd (omega arith)
number_of_zero q (suc n) h i l =
    below_suc (λ i. q i ≡ false) n (number_of_zero q n (ground arith)) (ground arith) i l

-- Whether one of the first `n` values is `x`, and where.
pub found_or_not : (f : ℕ → ℕ) (n x : ℕ) → ((i : ℕ) × i < n × f i ≡ x) ⊎ ((i : ℕ) → i < n → f i ≢ x)
found_or_not f zero x = inr (λ i l. absurd (omega arith))
found_or_not f (suc n) x = elim (found_or_not f n x) [
  | inl (i, l, e) ↦ inl (i, omega arith, e)
  | inr absent ↦ elim (Bool-cases (f n == x)) [
    | inl e ↦ inl (n, omega arith, eqb→eq (f n) x e)
    | inr e ↦ inr (below_suc (λ i. f i ≢ x) n absent (λ z. ground arith))
  ]
]

-- The last value in place of the `i`th.
abbrev without : (ℕ → ℕ) → ℕ → ℕ → ℕ → ℕ
without f i m k = if k == i then f m else f k

abbrev pub IsInjectiveBelow : (ℕ → ℕ) → ℕ → Type 0
IsInjectiveBelow f n = (i j : ℕ) → i < n → j < n → f i ≡ f j → i ≡ j

IsInjectiveBelow-without :
    (f : ℕ → ℕ) (i m : ℕ)
    → i < suc m
    → IsInjectiveBelow f (suc m)
    → IsInjectiveBelow (without f i m) m
IsInjectiveBelow-without f i m li h j k lj lk e =
    let a = h m k (omega arith) (omega arith) in
    let b = h j m (omega arith) (omega arith) in
    let c = h j k (omega arith) (omega arith) in ground arith

without-lt :
    (q : ℕ → Bool) (t m i k : ℕ) (f : ℕ → ℕ)
    → ((j : ℕ) → j < suc m → f j < suc t × q (f j) ≡ true)
    → IsInjectiveBelow f (suc m)
    → i < suc m
    → f i ≡ t
    → k < m
    → without f i m k < t × q (without f i m k) ≡ true
without-lt q t m i k f h inj li e lk = elim (Bool-cases (k == i)) [
  | inl y ↦
      let (a, b) = h m (omega arith) in let c = inj m i (omega arith) li in rw y (ground arith, b)
  | inr y ↦
      let (a, b) = h k (omega arith) in let c = inj k i (omega arith) li in rw y (ground arith, b)
]

-- There are at most as many values without repetition as numbers to take them from.
pub le-number_of :
    (q : ℕ → Bool) (total n : ℕ) (f : ℕ → ℕ)
    → ((i : ℕ) → i < n → f i < total × q (f i) ≡ true)
    → IsInjectiveBelow f n
    → n ≤ number_of q total
le-number_of q zero zero f h inj = omega arith
le-number_of q zero (suc n) f h inj = let l = (h 0 (omega arith)).0 in absurd (omega arith)
le-number_of q (suc t) zero f h inj = omega arith
le-number_of q (suc t) (suc m) f h inj = elim (found_or_not f (suc m) t) [
  | inr absent ↦
      let le =
        le-number_of q t (suc m) f
          (λ i l. let (a, b) = h i l in let c = absent i l in (ground arith, b)) inj in
      ground arith
  | inl (i, l, e) ↦
      let le =
        le-number_of q t m (without f i m) (λ k lk. without-lt q t m i k f h inj l e lk)
          (IsInjectiveBelow-without f i m l inj) in
      let qt : q t ≡ true = ap q (sym e) ∙ (h i l).1 in rw qt (omega arith)
]
