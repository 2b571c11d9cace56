-- ===== src/Routes/Masks.antt =====
-- The length of a prefix and its mask.
use pma.Base.{ℕ, zero, suc, ◌<◌, ◌≤◌, ◌≡◌, refl, Bool, true, ◌&&◌, some, ◌==◌, eqb→eq, arith}
use pma.Routes.{getmask, get_prefix_length}

all_below : ℕ → (ℕ → Bool) → Bool
all_below zero p = true
all_below (suc n) p = p n && all_below n p

all_below-true : (n : ℕ) (p : ℕ → Bool) (x : ℕ) → all_below n p ≡ true → x < n → p x ≡ true
unfolding all_below
all_below-true zero p x h l = absurd (omega arith)
all_below-true (suc n) p x h l = ground (arith, all_below-true n p x)

every_length : all_below 33 (λ len. get_prefix_length (some (getmask len)) == len) ≡ true
unfolding all_below get_prefix_length getmask
every_length = refl

-- The length that is read from a mask which `getmask` printed is the length it was printed for.
pub get_prefix_length-getmask : (len : ℕ) → len ≤ 32 → get_prefix_length (some (getmask len)) ≡ len
get_prefix_length-getmask len h = eqb→eq (get_prefix_length (some (getmask len))) len (
    all_below-true 33 (λ len. get_prefix_length (some (getmask len)) == len) len every_length
      (omega arith))

-- 255.255.240.0 has the length 20, but 16 is read.
mask_of_20 : get_prefix_length (some 0x00f0ffff) ≡ 16
unfolding get_prefix_length
mask_of_20 = refl
