-- ===== src/Comm/Routers/Transfer.antt =====
-- What the base module packs into a packet is what the information module takes out of it.
use mathlib.Core.Option
use pma.Base.{
  ℕ, ◌*◌, ◌/◌, ◌%◌, ◌^◌, ◌<◌, ◌≤◌, ◌≡◌, refl, ◌∙◌, ap, inl, inr, false, Option, none, some, List,
  [], ◌∷◌, map, ◌==◌, if◌then◌else◌, length, All, ltb, Bool-cases, arith, eqb→eq,
}
use pma.Base.Outcome.{ok}
use pma.Comm.Routers.{
  RouterEntry, copy_routers, pma_lists, save_router_list_to_xml, pma_list_handle, set_all,
  set_neighbor_agent_address, IfNeighbor, int_of_bytes,
}

abbrev pub IsInt32 : RouterEntry → Type 0
IsInt32 t = (t.devid < 2 ^ 32) × (t.rid < 2 ^ 32) × (t.ip_addr < 2 ^ 32)

int_of_bytes-bytes :
    (n : ℕ)
    → n < 2 ^ 32
    → int_of_bytes (n % 256) (n / 256 % 256) (n / 2 ^ 16 % 256) (n / 2 ^ 24 % 256) ≡ n
int_of_bytes-bytes n l = omega arith

pub pma_lists-copy_routers :
    (list : List RouterEntry) → All IsInt32 list → pma_lists (copy_routers list) ≡ list
unfolding pma_lists
pma_lists-copy_routers [] h = refl
pma_lists-copy_routers (t ∷ list) ((d, r, i), h) =
    rw
      (
        pma_lists-copy_routers list h,
        int_of_bytes-bytes t.devid d,
        int_of_bytes-bytes t.rid r,
        int_of_bytes-bytes t.ip_addr i,
      )
      refl

length-copy_routers : (list : List RouterEntry) → length (copy_routers list) ≡ 12 * length list
length-copy_routers [] = refl
length-copy_routers (t ∷ list) = omega (arith, length-copy_routers list)

-- An interface's neighbour after a router of the list.
abbrev pub known_to : RouterEntry → IfNeighbor → IfNeighbor
known_to t n = if n.rid == t.rid then record n { devid = t.devid; agent_addr = t.ip_addr } else n

-- And after the whole list: the last router with its number counts.
abbrev pub known_to_all : List RouterEntry → IfNeighbor → IfNeighbor
known_to_all [] n = n
known_to_all (t ∷ list) n = known_to_all list (known_to t n)

-- The neighbour at the first interface that leads to a router.
abbrev pub first_with : ℕ → List IfNeighbor → Option IfNeighbor
first_with rid [] = none
first_with rid (n ∷ ns) = if n.rid == rid then some n else first_with rid ns

abbrev set_first : RouterEntry → List IfNeighbor → List IfNeighbor
set_first t [] = []
set_first t (n ∷ ns) = if n.rid == t.rid then known_to t n ∷ ns else n ∷ set_first t ns

set_neighbor-eq-set_first :
    (t : RouterEntry) (ns : List IfNeighbor)
    → set_neighbor_agent_address t.devid t.rid t.ip_addr (map some ns)
      ≡ ok (map some (set_first t ns))
unfolding set_neighbor_agent_address
set_neighbor-eq-set_first t [] = refl
set_neighbor-eq-set_first t (n ∷ ns) = elim (Bool-cases (n.rid == t.rid)) [
  | inl q ↦ rw (set_neighbor-eq-set_first t ns, q) refl
  | inr q ↦ rw (set_neighbor-eq-set_first t ns, q) refl
]

first_with-other :
    (rid : ℕ) (t : RouterEntry) (ns : List IfNeighbor)
    → (t.rid == rid) ≡ false
    → first_with rid ns ≡ Option.map (known_to t) (first_with rid ns)
first_with-other rid t [] o = refl
first_with-other rid t (n ∷ ns) o = elim (Bool-cases (n.rid == rid)) [
  | inl p ↦ let other : (n.rid == t.rid) ≡ false = ground arith in rw (p, other) refl
  | inr p ↦ rw p (first_with-other rid t ns o)
]

first_with-set_first :
    (rid : ℕ) (t : RouterEntry) (ns : List IfNeighbor)
    → first_with rid (set_first t ns) ≡ Option.map (known_to t) (first_with rid ns)
first_with-set_first rid t [] = refl
first_with-set_first rid t (n ∷ ns) = elim (Bool-cases (n.rid == t.rid)) [
  | inl q ↦ elim (Bool-cases (n.rid == rid)) [
    | inl p ↦ rw (q, p) (rw q refl)
    | inr p ↦ rw (q, p) (first_with-other rid t ns (let e = eqb→eq n.rid t.rid q in ground arith))
  ]
  | inr q ↦ elim (Bool-cases (n.rid == rid)) [
    | inl p ↦ rw (q, p) (rw q refl)
    | inr p ↦ rw (q, p) (first_with-set_first rid t ns)
  ]
]

set_all-eq-ok :
    (list : List RouterEntry) (ns : List IfNeighbor)
    → (ns' : List IfNeighbor) × (set_all list (map some ns) ≡ ok (map some ns'))
      × ((rid : ℕ) → first_with rid ns' ≡ Option.map (known_to_all list) (first_with rid ns))
unfolding set_all
set_all-eq-ok [] ns = (ns, refl, λ rid. map_id (first_with rid ns))
  where
    map_id : (o : Option IfNeighbor) → o ≡ Option.map (λ n. n) o
    map_id none = refl
    map_id (some n) = refl
set_all-eq-ok (t ∷ list) ns =
    let (ns', e, h) = set_all-eq-ok list (set_first t ns) in
    (
      ns',
      rw (set_neighbor-eq-set_first t ns) e,
      λ rid.
          h rid
          ∙ ap (Option.map (known_to_all list)) (first_with-set_first rid t ns)
          ∙ map_map (first_with rid ns),
    )
  where
    map_map :
        (o : Option IfNeighbor)
        → Option.map (known_to_all list) (Option.map (known_to t) o)
          ≡ Option.map (known_to_all (t ∷ list)) o
    map_map none = refl
    map_map (some n) = refl

-- A list of at most 85 routers fits into the memory that is allocated for it, and the information
-- module takes out of the packet what was put in: when each of its interfaces has a neighbour, it does
-- not crash, and the first interface to a router gets the agent and the address of the last entry
-- of the list with that router's number.
pub pma_list_handle-save :
    (list : List RouterEntry) (buff : List ℕ) (ns : List IfNeighbor)
    → length list ≤ 85
    → All IsInt32 list
    → (sent : List ℕ) × (ns' : List IfNeighbor) × (save_router_list_to_xml (some list) buff
        ≡ ok sent)
      × (pma_list_handle sent (map some ns) ≡ ok (map some ns'))
      × ((rid : ℕ) → first_with rid ns' ≡ Option.map (known_to_all list) (first_with rid ns))
unfolding save_router_list_to_xml pma_list_handle
pma_list_handle-save list buff ns few ints =
    let (ns', e, h) = set_all-eq-ok list ns in
    let fits : ltb 1024 (length (copy_routers list)) ≡ false =
      (let l = length-copy_routers list in ground arith) in
    (copy_routers list, ns', rw fits refl, rw (pma_lists-copy_routers list ints) e, h)
