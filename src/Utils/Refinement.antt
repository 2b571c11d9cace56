-- ===== src/Utils/Refinement.antt =====
-- Any sequence of the calls of utils/list.c on a ring, as changes of a list.
use pma.Base.{
  ℕ, suc, ◌+◌, ◌≤◌, ◌<◌, ◌≡◌, refl, sym, subst, ap, ◌∙◌, ◌≢◌, Option, some, none, if◌then◌else◌,
  ◌==◌, List, [], ◌∷◌, ◌++◌, arith, length, ne→eqb, eqb_refl, length-append,
}
use pma.Base.Outcome.{ok}
use pma.Base.Arrays.{put, put_self}
use pma.Utils.{
  Memory, StackItems, cr_list_add, cr_list_add_tail, cr_list_add_in_order, cr_list_del,
  cr_list_empty, cr_stack_push, cr_stack_pop,
}
use pma.Utils.Ring.{IsNotIn, IsDistinct, IsRing, IsRing-add_tail, IsRing-add, middle_ne}
use pma.Utils.Unlink.{is_nil, IsRing-del, cr_list_empty_lem}
use pma.Utils.Ordered.{insert_in_order, IsRing-add_in_order}

pub data Operation : Type 0 where
  add : ℕ → Operation
  add_tail : ℕ → Operation
  add_in_order : ℕ → ℕ → Operation
  del : ℕ → Operation

abbrev remove_node : ℕ → List ℕ → List ℕ
remove_node n [] = []
remove_node n (x ∷ xs) = if x == n then xs else x ∷ remove_node n xs

module _ (head : ℕ) (v : ℕ → ℕ) where
  -- On the list of the nodes.
  abbrev pub on_list : Operation → List ℕ → List ℕ
  on_list (add n) xs = n ∷ xs
  on_list (add_tail n) xs = xs ++ n ∷ []
  on_list (add_in_order n key) xs = insert_in_order n key v xs
  on_list (del n) xs = remove_node n xs

  abbrev pub on_memory : ℕ → Operation → Memory → Option Memory
  on_memory fuel (add n) h = some (cr_list_add n head h)
  on_memory fuel (add_tail n) h = some (cr_list_add_tail n head h)
  on_memory fuel (add_in_order n key) h = cr_list_add_in_order fuel n head key v h
  on_memory fuel (del n) h = cr_list_del n h

  -- What is added is no node of the ring, and what is taken out is one.
  abbrev pub IsAllowed : Operation → List ℕ → Type 0
  IsAllowed (add n) xs = IsNotIn n (head ∷ xs)
  IsAllowed (add_tail n) xs = IsNotIn n (head ∷ xs)
  IsAllowed (add_in_order n key) xs = IsNotIn n (head ∷ xs)
  IsAllowed (del n) xs = (ys : List ℕ) × (zs : List ℕ) × (xs ≡ ys ++ n ∷ zs)

  abbrev pub run_list : List Operation → List ℕ → List ℕ
  run_list [] xs = xs
  run_list (o ∷ ops) xs = run_list ops (on_list o xs)

  unfoldable pub run_memory : ℕ → List Operation → Memory → Option Memory
  run_memory fuel [] h = some h
  run_memory fuel (o ∷ ops) h = elim (on_memory fuel o h) [
    | none ↦ none
    | some h' ↦ run_memory fuel ops h'
  ]

  abbrev pub AreAllowed : List Operation → List ℕ → Type 0
  AreAllowed [] xs = Unit
  AreAllowed (o ∷ ops) xs = IsAllowed o xs × AreAllowed ops (on_list o xs)

  remove_node-middle :
      (n : ℕ) (ys zs : List ℕ) → IsDistinct (ys ++ n ∷ zs) → remove_node n (ys ++ n ∷ zs) ≡ ys ++ zs
  remove_node-middle n [] zs d = rw (eqb_refl n) refl
  remove_node-middle n (y ∷ ys) zs d =
      rw (ne→eqb y n (λ e. middle_ne y n ys zs d.0 (sym e)))
        (ap (λ k. y ∷ k) (remove_node-middle n ys zs d.1))

  length-insert_in_order :
      (n key : ℕ) (xs : List ℕ) → length (insert_in_order n key v xs) ≡ suc (length xs)
  length-insert_in_order n key [] = refl
  length-insert_in_order n key (x ∷ xs) = ground (arith, length-insert_in_order n key xs)

  length-remove_node : (n : ℕ) (xs : List ℕ) → length (remove_node n xs) ≤ length xs
  length-remove_node n [] = omega arith
  length-remove_node n (x ∷ xs) = ground (arith, length-remove_node n xs)

  length-on_list : (o : Operation) (xs : List ℕ) → length (on_list o xs) ≤ suc (length xs)
  length-on_list (add n) xs = omega arith
  length-on_list (add_tail n) xs = omega (arith, length-append xs (n ∷ []))
  length-on_list (add_in_order n key) xs = omega (arith, length-insert_in_order n key xs)
  length-on_list (del n) xs = omega (arith, length-remove_node n xs)

  IsRing-on_memory :
      (fuel : ℕ) (o : Operation) (h : Memory) (xs : List ℕ)
      → IsRing h head xs
      → IsAllowed o xs
      → length xs < fuel
      → (h' : Memory) × (on_memory fuel o h ≡ some h') × IsRing h' head (on_list o xs)
  IsRing-on_memory fuel (add n) h xs r a l =
      (cr_list_add n head h, refl, IsRing-add h head n xs r a)
  IsRing-on_memory fuel (add_tail n) h xs r a l =
      (cr_list_add_tail n head h, refl, IsRing-add_tail h head n xs r a)
  IsRing-on_memory fuel (add_in_order n key) h xs r a l =
      IsRing-add_in_order fuel head n key v h xs r a l
  IsRing-on_memory fuel (del n) h xs r a l =
      let (ys, zs, e) = a in
      let r' = subst (IsRing h head) e r in
      let (h', run, ring, z) = IsRing-del h head n ys zs r' in
      (
        h',
        run,
        subst (IsRing h' head)
            (sym (ap (remove_node n) e ∙ remove_node-middle n ys zs r'.distinct.1)) ring,
      )

  IsRing-run_memory :
      (fuel : ℕ) (ops : List Operation) (h : Memory) (xs : List ℕ)
      → IsRing h head xs
      → AreAllowed ops xs
      → length ops + length xs < fuel
      → (h' : Memory) × (run_memory fuel ops h ≡ some h') × IsRing h' head (run_list ops xs)
  unfolding run_memory
  IsRing-run_memory fuel [] h xs r a l = (h, refl, r)
  IsRing-run_memory fuel (o ∷ ops) h xs r a l =
      let (h1, e1, r1) = IsRing-on_memory fuel o h xs r a.0 (omega arith) in
      let le = length-on_list o xs in
      let (h2, e2, r2) = IsRing-run_memory fuel ops h1 (on_list o xs) r1 a.1 (omega arith) in
      (h2, rw (run_memory, e1) e2, r2)

  -- From a ring whose nodes are a list on, any calls that add nodes which are not in the ring and take out nodes
  -- which are end, with more turns for the insertion by key than there can be nodes, in a ring whose
  -- nodes are the list after the same changes, and which counts as empty when that list is.
  pub run_memory-refines :
      (fuel : ℕ) (ops : List Operation) (h : Memory) (xs : List ℕ)
      → IsRing h head xs
      → AreAllowed ops xs
      → length ops + length xs < fuel
      → (h' : Memory) × (run_memory fuel ops h ≡ some h')
        × IsRing h' head (run_list ops xs)
        × (cr_list_empty head h' ≡ is_nil (run_list ops xs))
  run_memory-refines fuel ops h xs r a l =
      let (h', e, r') = IsRing-run_memory fuel ops h xs r a l in
      (h', e, r', cr_list_empty_lem h' head (run_list ops xs) r')

-- An item that is pushed on a stack, at an address that is not in it, is the next one to be popped, and then
-- the nodes of the stack are those before.
pub cr_stack_push-pop :
    (node item stack : ℕ) (st : StackItems) (xs : List ℕ)
    → IsRing st.ptrs stack xs
    → IsNotIn node (stack ∷ xs)
    → item ≢ 0
    → stack ≢ 0
    → (st' : StackItems) × (st'' : StackItems) × (cr_stack_push node item stack st ≡ ok st')
      × (cr_stack_pop stack st' ≡ ok (item, st''))
      × IsRing st''.ptrs stack xs
unfolding cr_stack_push cr_stack_pop
cr_stack_push-pop node item stack st xs r ni i s =
    let h1 = cr_list_add node stack st.ptrs in
    let r1 = IsRing-add st.ptrs stack node xs r ni in
    let (h2, run, r2, z) = IsRing-del h1 stack node [] xs r1 in
    let st1 : StackItems = record { ptrs = h1; item = put st.item node item } in
    let st2 : StackItems = record st1 { ptrs = h2 } in
    (
      st1,
      st2,
      rw (ne→eqb item 0 i, ne→eqb stack 0 s) refl,
      rw (ne→eqb stack 0 s, r1.linked.0, run)
          (ap (λ k. ok (put st.item node item k, st2)) r1.linked.0
            ∙ ap (λ k. ok (k, st2)) (put_self st.item node item)),
      r2,
    )
