-- ===== src/Utils/Ring.antt =====
-- The rings of utils/list.c as lists.
use pma.Base.{ℕ, ◌≡◌, refl, sym, subst, ap, ◌∙◌, ◌≢◌, List, [], ◌∷◌, ◌++◌, All, arith}
use pma.Base.Arrays.{put, put_self, put_ne}
use pma.Utils.{Memory, cr_list_add, cr_list_add_tail}

-- From one node to another lie just these, linked both ways.
abbrev pub IsLinked : Memory → ℕ → List ℕ → ℕ → Type 0
IsLinked h a [] b = (h.next a ≡ b) × (h.prev b ≡ a)
IsLinked h a (x ∷ xs) b = (h.next a ≡ x) × (h.prev x ≡ a) × IsLinked h x xs b

abbrev pub IsNotIn : ℕ → List ℕ → Type 0
IsNotIn n xs = All (λ x. x ≢ n) xs

abbrev pub IsDistinct : List ℕ → Type 0
IsDistinct [] = Unit
IsDistinct (x ∷ xs) = IsNotIn x xs × IsDistinct xs

-- The ring at `head` holds these nodes, in this order.
pub record IsRing (h : Memory) (head : ℕ) (xs : List ℕ) : Type 0 where
  pub linked : IsLinked h head xs head
  pub distinct : IsDistinct (head ∷ xs)

abbrev pub last_of : ℕ → List ℕ → ℕ
last_of a [] = a
last_of a (x ∷ xs) = last_of x xs

pub prev-last_of :
    (h : Memory) (a b : ℕ) (xs : List ℕ) → IsLinked h a xs b → h.prev b ≡ last_of a xs
prev-last_of h a b [] l = l.1
prev-last_of h a b (x ∷ xs) l = prev-last_of h x b xs l.2

-- The links are the same where the fields are.
pub IsLinked-same :
    (h h' : Memory) (a b : ℕ) (xs : List ℕ)
    → All (λ x. h'.next x ≡ h.next x) (a ∷ xs)
    → All (λ x. h'.prev x ≡ h.prev x) (xs ++ b ∷ [])
    → IsLinked h a xs b
    → IsLinked h' a xs b
IsLinked-same h h' a b [] n p l = (n.0 ∙ l.0, p.0 ∙ l.1)
IsLinked-same h h' a b (x ∷ xs) n p l =
    (n.0 ∙ l.0, p.0 ∙ l.1, IsLinked-same h h' x b xs n.1 p.1 l.2)

pub last_of-IsNotIn : (a n : ℕ) (xs : List ℕ) → IsNotIn n (a ∷ xs) → last_of a xs ≢ n
last_of-IsNotIn a n [] h = h.0
last_of-IsNotIn a n (x ∷ xs) h = last_of-IsNotIn x n xs h.1

-- What `cr_list_add_tail` writes.
next-add_tail :
    (h : Memory) (n b x : ℕ) → x ≢ n → x ≢ h.prev b → (cr_list_add_tail n b h).next x ≡ h.next x
next-add_tail h n b x e f = put_ne (put h.next n b) (h.prev b) x n f ∙ put_ne h.next n x b e

prev-add_tail :
    (h : Memory) (n b x : ℕ) → x ≢ n → x ≢ b → (cr_list_add_tail n b h).prev x ≡ h.prev x
prev-add_tail h n b x e f = put_ne (put h.prev b n) n x (h.prev b) e ∙ put_ne h.prev b x n f

-- A node before `b` becomes the last one there.
IsLinked-add_tail :
    (h : Memory) (n a b : ℕ) (xs : List ℕ)
    → IsLinked h a xs b
    → IsNotIn n (a ∷ xs)
    → b ≢ n
    → IsNotIn b xs
    → IsDistinct (a ∷ xs)
    → IsLinked (cr_list_add_tail n b h) a (xs ++ n ∷ []) b
IsLinked-add_tail h n a b [] l ni bn nb d = (
  subst (λ k. put (put h.next n b) k n a ≡ n) (sym l.1) (put_self (put h.next n b) a n),
  put_self (put h.prev b n) n (h.prev b) ∙ l.1,
  (
    put_ne (put h.next n b) (h.prev b) n n (λ e. ni.0 (sym (e ∙ l.1))) ∙ put_self h.next n b,
    put_ne (put h.prev b n) n b (h.prev b) bn ∙ put_self h.prev b n,
  ),
)
IsLinked-add_tail h n a b (x ∷ xs) l ni bn nb d = (
  next-add_tail h n b a ni.0 (λ e. last_of-IsNotIn x a xs d.0 (sym (e ∙ prev-last_of h x b xs l.2)))
      ∙ l.0,
  prev-add_tail h n b x ni.1.0 nb.0 ∙ l.1,
  IsLinked-add_tail h n x b xs l.2 ni.1 bn nb.1 d.1,
)

pub All-both :
    {P Q R : ℕ → Type 0} (xs : List ℕ)
    → ((x : ℕ) → P x → Q x → R x)
    → All P xs
    → All Q xs
    → All R xs
All-both [] f p q = tt
All-both (x ∷ xs) f p q = (f x p.0 q.0, All-both xs f p.1 q.1)

pub IsNotIn-append : (n : ℕ) (xs ys : List ℕ) → IsNotIn n xs → IsNotIn n ys → IsNotIn n (xs ++ ys)
IsNotIn-append n [] ys h k = k
IsNotIn-append n (x ∷ xs) ys h k = (h.0, IsNotIn-append n xs ys h.1 k)

-- The links behind `b` stay.
IsLinked-add_tail_after :
    (h : Memory) (n p b c : ℕ) (zs : List ℕ)
    → h.prev b ≡ p
    → IsNotIn n (b ∷ zs)
    → IsNotIn p (b ∷ zs)
    → IsNotIn b zs
    → c ≢ n
    → c ≢ b
    → IsLinked h b zs c
    → IsLinked (cr_list_add_tail n b h) b zs c
IsLinked-add_tail_after h n p b c zs e nn np nb cn cb l =
    IsLinked-same h (cr_list_add_tail n b h) b c zs
      (All-both (b ∷ zs) (λ x x_n x_p. next-add_tail h n b x x_n (λ z. x_p (z ∙ e))) nn np)
      (All-both (zs ++ c ∷ []) (λ x x_n x_b. prev-add_tail h n b x x_n x_b)
        (IsNotIn-append n zs (c ∷ []) nn.1 (cn, tt)) (IsNotIn-append b zs (c ∷ []) nb (cb, tt)))
      l

-- The node before `x`, and nodes that are not there.
pub prev-middle :
    (h : Memory) (a x b : ℕ) (ys zs : List ℕ)
    → IsLinked h a (ys ++ x ∷ zs) b
    → h.prev x ≡ last_of a ys
prev-middle h a x b [] zs l = l.1
prev-middle h a x b (y ∷ ys) zs l = prev-middle h y x b ys zs l.2

pub last_of-middle :
    (a n x : ℕ) (ys zs : List ℕ) → IsNotIn n (a ∷ (ys ++ x ∷ zs)) → last_of a ys ≢ n
last_of-middle a n x [] zs h = h.0
last_of-middle a n x (y ∷ ys) zs h = last_of-middle y n x ys zs h.1

pub middle_ne : (n x : ℕ) (ys zs : List ℕ) → IsNotIn n (ys ++ x ∷ zs) → x ≢ n
middle_ne n x [] zs h = h.0
middle_ne n x (y ∷ ys) zs h = middle_ne n x ys zs h.1

-- A node before `x` comes between it and the one before.
IsLinked-insert :
    (h : Memory) (n a x b : ℕ) (ys zs : List ℕ)
    → IsLinked h a (ys ++ x ∷ zs) b
    → IsNotIn n (a ∷ (ys ++ x ∷ zs))
    → b ≢ n
    → IsNotIn b (ys ++ x ∷ zs)
    → IsDistinct (a ∷ (ys ++ x ∷ zs))
    → IsLinked (cr_list_add_tail n x h) a (ys ++ n ∷ x ∷ zs) b
IsLinked-insert h n a x b [] zs l ni bn nb d = (
  subst (λ k. put (put h.next n x) k n a ≡ n) (sym l.1) (put_self (put h.next n x) a n),
  put_self (put h.prev x n) n (h.prev x) ∙ l.1,
  (
    put_ne (put h.next n x) (h.prev x) n n (λ e. ni.0 (sym (e ∙ l.1))) ∙ put_self h.next n x,
    put_ne (put h.prev x n) n x (h.prev x) ni.1.0 ∙ put_self h.prev x n,
    IsLinked-add_tail_after h n a x b zs l.1 ni.1 d.0 d.1.0 bn (λ e. nb.0 (sym e)) l.2,
  ),
)
IsLinked-insert h n a x b (y ∷ ys) zs l ni bn nb d = (
  next-add_tail h n x a ni.0
        (λ e. last_of-middle y a x ys zs d.0 (sym (e ∙ prev-middle h y x b ys zs l.2)))
      ∙ l.0,
  prev-add_tail h n x y ni.1.0 (λ e. middle_ne y x ys zs d.1.0 (sym e)) ∙ l.1,
  IsLinked-insert h n y x b ys zs l.2 ni.1 bn nb.1 d.1,
)

-- What becomes of distinct nodes.
IsNotIn-insert :
    (m n : ℕ) (ys zs : List ℕ) → IsNotIn m (ys ++ zs) → n ≢ m → IsNotIn m (ys ++ n ∷ zs)
IsNotIn-insert m n [] zs h e = (e, h)
IsNotIn-insert m n (y ∷ ys) zs h e = (h.0, IsNotIn-insert m n ys zs h.1 e)

IsDistinct-insert :
    (n : ℕ) (ys zs : List ℕ)
    → IsDistinct (ys ++ zs)
    → IsNotIn n (ys ++ zs)
    → IsDistinct (ys ++ n ∷ zs)
IsDistinct-insert n [] zs d h = (h, d)
IsDistinct-insert n (y ∷ ys) zs d h =
    (IsNotIn-insert y n ys zs d.0 (λ e. h.0 (sym e)), IsDistinct-insert n ys zs d.1 h.1)

pub append_nil : (xs : List ℕ) → xs ++ [] ≡ xs
append_nil [] = refl
append_nil (x ∷ xs) = ap (λ k. x ∷ k) (append_nil xs)

-- `cr_list_add_tail` puts a new node at the end of the list.
pub IsRing-add_tail :
    (h : Memory) (head n : ℕ) (xs : List ℕ)
    → IsRing h head xs
    → IsNotIn n (head ∷ xs)
    → IsRing (cr_list_add_tail n head h) head (xs ++ n ∷ [])
IsRing-add_tail h head n xs r ni = record {
  linked = IsLinked-add_tail h n head head xs r.linked ni ni.0 r.distinct.0 r.distinct;
  distinct =
      IsDistinct-insert n (head ∷ xs) []
        (subst (λ k. IsDistinct (head ∷ k)) (sym (append_nil xs)) r.distinct)
        (subst (λ k. IsNotIn n (head ∷ k)) (sym (append_nil xs)) ni);
}

-- Before another node it puts it there.
pub IsRing-insert :
    (h : Memory) (head n x : ℕ) (ys zs : List ℕ)
    → IsRing h head (ys ++ x ∷ zs)
    → IsNotIn n (head ∷ (ys ++ x ∷ zs))
    → IsRing (cr_list_add_tail n x h) head (ys ++ n ∷ x ∷ zs)
IsRing-insert h head n x ys zs r ni = record {
  linked = IsLinked-insert h n head x head ys zs r.linked ni ni.0 r.distinct.0 r.distinct;
  distinct = IsDistinct-insert n (head ∷ ys) (x ∷ zs) r.distinct ni;
}

put_swap : (f : ℕ → ℕ) (a b v w j : ℕ) → a ≢ b → put (put f a v) b w j ≡ put (put f b w) a v j
put_swap f a b v w j n = ground arith

-- `cr_list_add` writes the same fields in another order.
cr_list_add-add_tail :
    (h : Memory) (head n : ℕ)
    → h.prev (h.next head) ≡ head
    → n ≢ head
    → n ≢ h.next head
    → cr_list_add n head h ≡ cr_list_add_tail n (h.next head) h
cr_list_add-add_tail h head n e nh nf =
    let f = h.next head in
    let same : (j : ℕ) → put (put h.next head n) n f j ≡ put (put h.next n f) (h.prev f) n j =
      λ j. rw e (put_swap h.next head n n f j (λ z. nh (sym z))) in
    let same' : (j : ℕ) → put (put h.prev n head) f n j ≡ put (put h.prev f n) n (h.prev f) j =
      λ j. rw e (put_swap h.prev n f head n j nf) in
    λ i. record { next = λ j. same j i; prev = λ j. same' j i }

-- `cr_list_add` puts a new node in front.
pub IsRing-add :
    (h : Memory) (head n : ℕ) (xs : List ℕ)
    → IsRing h head xs
    → IsNotIn n (head ∷ xs)
    → IsRing (cr_list_add n head h) head (n ∷ xs)
IsRing-add h head n [] r ni =
    let (e, e') = r.linked in
    let n_head : n ≢ head = λ z. ni.0 (sym z) in
    subst (λ h'. IsRing h' head (n ∷ []))
      (sym (
        cr_list_add-add_tail h head n (ap h.prev e ∙ e') n_head (λ z. n_head (z ∙ e))
        ∙ ap (λ k. cr_list_add_tail n k h) e))
      (IsRing-add_tail h head n [] r ni)
IsRing-add h head n (x ∷ xs) r ni =
    let (e, e', rest) = r.linked in
    subst (λ h'. IsRing h' head (n ∷ x ∷ xs))
      (sym (
        cr_list_add-add_tail h head n (ap h.prev e ∙ e') (λ z. ni.0 (sym z))
          (λ z. ni.1.0 (sym (z ∙ e)))
        ∙ ap (λ k. cr_list_add_tail n k h) e))
      (IsRing-insert h head n x [] xs r ni)
