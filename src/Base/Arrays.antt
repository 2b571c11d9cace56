-- ===== src/Base/Arrays.antt =====
-- Arrays and rows as functions, with one place written.
use pma.Base.{ℕ, ◌≡◌, refl, ◌≢◌, if◌then◌else◌, ◌==◌, eqb_refl, ne→eqb}

abbrev pub put {ℓ} : {A : Type ℓ} → (ℕ → A) → ℕ → A → ℕ → A
put f i v j = if j == i then v else f j

pub put_self {ℓ} : {A : Type ℓ} (f : ℕ → A) (i : ℕ) (v : A) → put f i v i ≡ v
put_self f i v = rw (eqb_refl i) refl

pub put_ne {ℓ} : {A : Type ℓ} (f : ℕ → A) (i j : ℕ) (v : A) → j ≢ i → put f i v j ≡ f j
put_ne f i j v n = rw (ne→eqb j i n) refl
