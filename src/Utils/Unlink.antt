-- ===== src/Utils/Unlink.antt =====
-- The test for an empty ring of utils/list.c, and the removal of a node.
use pma.Base.{
  ℕ, ◌≡◌, refl, sym, subst, ◌∙◌, ◌≢◌, Bool, true, false, some, List, [], ◌∷◌, ◌++◌, ne→eqb,
  eqb_refl,
}
use pma.Base.Arrays.{put, put_self, put_ne}
use pma.Utils.{Memory, cr_list_empty, cr_list_del}
use pma.Utils.Ring.{
  IsLinked, IsNotIn, IsDistinct, IsRing, prev-last_of, IsLinked-same, last_of-IsNotIn, All-both,
  IsNotIn-append, prev-middle, last_of-middle, middle_ne,
}

abbrev pub is_nil : List ℕ → Bool
is_nil [] = true
is_nil (x ∷ xs) = false

-- The test for an empty ring.
pub cr_list_empty_lem :
    (h : Memory) (head : ℕ) (xs : List ℕ) → IsRing h head xs → cr_list_empty head h ≡ is_nil xs
cr_list_empty_lem h head [] r = let (e, e') = r.linked in rw (e, eqb_refl head) refl
cr_list_empty_lem h head (x ∷ xs) r =
    let a = ne→eqb (h.next head) head (λ z. r.distinct.0.0 (sym r.linked.0 ∙ z)) in
    let b = ne→eqb (h.prev head) head (λ z.
      last_of-IsNotIn x head xs r.distinct.0 (sym (prev-last_of h x head xs r.linked.2) ∙ z)) in
    rw (a, b) refl

-- What is left when a node is taken out.
abbrev taken_out : ℕ → Memory → Memory
taken_out x h = record {
  next = put (put h.next (h.prev x) (h.next x)) x 0;
  prev = put (put h.prev (h.next x) (h.prev x)) x 0;
}

next-taken_out : (h : Memory) (x y : ℕ) → y ≢ x → y ≢ h.prev x → (taken_out x h).next y ≡ h.next y
next-taken_out h x y e f =
    put_ne (put h.next (h.prev x) (h.next x)) x y 0 e ∙ put_ne h.next (h.prev x) y (h.next x) f

prev-taken_out : (h : Memory) (x y : ℕ) → y ≢ x → y ≢ h.next x → (taken_out x h).prev y ≡ h.prev y
prev-taken_out h x y e f =
    put_ne (put h.prev (h.next x) (h.prev x)) x y 0 e ∙ put_ne h.prev (h.next x) y (h.prev x) f

next-at_prev : (h : Memory) (x : ℕ) → h.prev x ≢ x → (taken_out x h).next (h.prev x) ≡ h.next x
next-at_prev h x e =
    put_ne (put h.next (h.prev x) (h.next x)) x (h.prev x) 0 e
    ∙ put_self h.next (h.prev x) (h.next x)

prev-at_next : (h : Memory) (x : ℕ) → h.next x ≢ x → (taken_out x h).prev (h.next x) ≡ h.prev x
prev-at_next h x e =
    put_ne (put h.prev (h.next x) (h.prev x)) x (h.next x) 0 e
    ∙ put_self h.prev (h.next x) (h.prev x)

abbrev first_of : List ℕ → ℕ → ℕ
first_of [] b = b
first_of (x ∷ xs) b = x

next-first_of : (h : Memory) (a b : ℕ) (xs : List ℕ) → IsLinked h a xs b → h.next a ≡ first_of xs b
next-first_of h a b [] l = l.0
next-first_of h a b (x ∷ xs) l = l.0

next-middle :
    (h : Memory) (a x b : ℕ) (ys zs : List ℕ)
    → IsLinked h a (ys ++ x ∷ zs) b
    → h.next x ≡ first_of zs b
next-middle h a x b [] zs l = next-first_of h x b zs l.2
next-middle h a x b (y ∷ ys) zs l = next-middle h y x b ys zs l.2

first_of-IsNotIn : (n b : ℕ) (xs : List ℕ) → IsNotIn n xs → b ≢ n → first_of xs b ≢ n
first_of-IsNotIn n b [] h e = e
first_of-IsNotIn n b (x ∷ xs) h e = h.0

IsNotIn-after : (n x : ℕ) (ys zs : List ℕ) → IsNotIn n (ys ++ x ∷ zs) → IsNotIn n zs
IsNotIn-after n x [] zs h = h.1
IsNotIn-after n x (y ∷ ys) zs h = IsNotIn-after n x ys zs h.1

IsLinked-taken_out :
    (h : Memory) (a x b : ℕ) (ys zs : List ℕ)
    → IsLinked h a (ys ++ x ∷ zs) b
    → b ≢ x
    → IsNotIn b (ys ++ x ∷ zs)
    → IsDistinct (a ∷ (ys ++ x ∷ zs))
    → IsLinked (taken_out x h) a (ys ++ zs) b
IsLinked-taken_out h a x b [] [] l bx nb d = (
  subst (λ k. (taken_out x h).next k ≡ b) l.1 (next-at_prev h x (λ e. d.0.0 (sym e ∙ l.1)) ∙ l.2.0),
  subst (λ k. (taken_out x h).prev k ≡ a) l.2.0 (prev-at_next h x (λ e. bx (sym l.2.0 ∙ e)) ∙ l.1),
)
IsLinked-taken_out h a x b [] (z ∷ zs) l bx nb d = (
  subst (λ k. (taken_out x h).next k ≡ z) l.1 (next-at_prev h x (λ e. d.0.0 (sym e ∙ l.1)) ∙ l.2.0),
  subst (λ k. (taken_out x h).prev k ≡ a) l.2.0
      (prev-at_next h x (λ e. d.1.0.0 (sym l.2.0 ∙ e)) ∙ l.1),
  IsLinked-same h (taken_out x h) z b zs
      (All-both (z ∷ zs) (λ y y_x y_a. next-taken_out h x y y_x (λ e. y_a (e ∙ l.1))) d.1.0 d.0.1)
      (All-both (zs ++ b ∷ []) (λ y y_x y_z. prev-taken_out h x y y_x (λ e. y_z (e ∙ l.2.0)))
        (IsNotIn-append x zs (b ∷ []) d.1.0.1 (bx, tt))
        (IsNotIn-append z zs (b ∷ []) d.1.1.0 (λ e. nb.1.0 (sym e), tt)))
      l.2.2,
)
IsLinked-taken_out h a x b (y ∷ ys) zs l bx nb d = (
  next-taken_out h x a (λ e. middle_ne a x (y ∷ ys) zs d.0 (sym e))
        (λ e. last_of-middle y a x ys zs d.0 (sym (e ∙ prev-middle h y x b ys zs l.2)))
      ∙ l.0,
  prev-taken_out h x y (λ e. middle_ne y x ys zs d.1.0 (sym e))
        (λ e.
          first_of-IsNotIn y b zs (IsNotIn-after y x ys zs d.1.0) (λ z. nb.0 (sym z))
            (sym (e ∙ next-middle h y x b ys zs l.2)))
      ∙ l.1,
  IsLinked-taken_out h y x b ys zs l.2 bx nb.1 d.1,
)

IsNotIn-remove : (n x : ℕ) (ys zs : List ℕ) → IsNotIn n (ys ++ x ∷ zs) → IsNotIn n (ys ++ zs)
IsNotIn-remove n x [] zs h = h.1
IsNotIn-remove n x (y ∷ ys) zs h = (h.0, IsNotIn-remove n x ys zs h.1)

-- A node is neither before nor behind itself.
distinct_before : (x : ℕ) (ys zs : List ℕ) → IsDistinct (ys ++ x ∷ zs) → IsNotIn x ys
distinct_before x [] zs d = tt
distinct_before x (y ∷ ys) zs d =
    (λ e. middle_ne y x ys zs d.0 (sym e), distinct_before x ys zs d.1)

distinct_after : (x : ℕ) (ys zs : List ℕ) → IsDistinct (ys ++ x ∷ zs) → IsNotIn x zs
distinct_after x [] zs d = d.0
distinct_after x (y ∷ ys) zs d = distinct_after x ys zs d.1

IsDistinct-remove : (x : ℕ) (ys zs : List ℕ) → IsDistinct (ys ++ x ∷ zs) → IsDistinct (ys ++ zs)
IsDistinct-remove x [] zs d = d.1
IsDistinct-remove x (y ∷ ys) zs d = (IsNotIn-remove y x ys zs d.0, IsDistinct-remove x ys zs d.1)

-- `cr_list_del` takes a node out of the ring, wherever it is, and the others stay in their order.
pub IsRing-del :
    (h : Memory) (head x : ℕ) (ys zs : List ℕ)
    → IsRing h head (ys ++ x ∷ zs)
    → (h' : Memory) × (cr_list_del x h ≡ some h') × IsRing h' head (ys ++ zs) × (h'.next x ≡ 0)
IsRing-del h head x ys zs r =
    let n : head ≢ x = λ e. middle_ne head x ys zs r.distinct.0 (sym e) in
    let next_ne : h.next x ≢ x = λ e.
      first_of-IsNotIn x head zs (distinct_after x ys zs r.distinct.1) n
        (sym (next-middle h head x head ys zs r.linked) ∙ e) in
    let prev_ne : h.prev x ≢ x = λ e.
      last_of-IsNotIn head x ys (n, distinct_before x ys zs r.distinct.1)
        (sym (prev-middle h head x head ys zs r.linked) ∙ e) in
    (
      taken_out x h,
      rw
          (
            ne→eqb (h.next x) x next_ne,
            ne→eqb (h.prev x) x prev_ne,
            ne→eqb x (h.prev x) (λ e. prev_ne (sym e)),
          )
          refl,
      record {
        linked = IsLinked-taken_out h head x head ys zs r.linked n r.distinct.0 r.distinct;
        distinct = IsDistinct-remove x (head ∷ ys) zs r.distinct;
      },
      put_self (put h.next (h.prev x) (h.next x)) x 0,
    )
