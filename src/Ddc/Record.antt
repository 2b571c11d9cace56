-- ===== src/Ddc/Record.antt =====
-- `record_short_path` of ddc/ddc.c ends on a matrix that is filled, and writes only inside its arrays.
use pma.Base.{
  ℕ, zero, suc, ◌^◌, ◌≤◌, ◌<◌, ◌≡◌, refl, sym, subst, ap, ◌∙◌, ◌⊎◌, inl, inr, true, false, ◌||◌,
  arith, Bool-cases, ◌==◌, ltb, leb, List, [], ◌∷◌, All, length, get_elem?, set, some, length-set,
}
use pma.Base.Outcome.{ok, ◌>>=◌}
use pma.Ddc.{Netnode, Ridinfo, no_link}
use pma.Ddc.Matrix.{Netpath, AreaInfo}
use pma.Ddc.Paths.{
  new_path, continue_with, walk_path, add_path_of_link, add_path_of_links,
  add_path_to_area_short_path, next_path, record_pair, record_pairs, pairs_of, all_pairs,
  record_short_path,
}

get_elem?_lt {ℓ} :
    {A : Type ℓ} (xs : List A) (i : ℕ) → i < length xs → (a : A) × (get_elem? xs i ≡ some a)
get_elem?_lt [] i l = absurd (omega arith)
get_elem?_lt (x ∷ xs) zero l = (x, refl)
get_elem?_lt (x ∷ xs) (suc i) l = get_elem?_lt xs i (omega arith)

-- Every entry has no link or one of the list, and there is a place for each.
pub record IsIndexed (az : AreaInfo) : Type 0 where
  pub links :
      (i j : ℕ)
      → ((az.matrix i j).link_index ≡ no_link) ⊎ ((az.matrix i j).link_index < length az.lslist)
  pub places : length az.linkshadows ≡ length az.lslist
  pub short : length az.lslist ≤ 2 ^ 31

-- What stays while the paths of an area are recorded.
record IsKept (az az' : AreaInfo) : Type 0 where
  pub matrix : az'.matrix ≡ az.matrix
  pub nodeinfo : az'.nodeinfo ≡ az.nodeinfo
  pub indexed : IsIndexed az'
  pub paths : (ps : List Netpath) × (az'.shortpaths ≡ some ps)

IsKept-add_path_of_link :
    (i j path : ℕ) (az az' : AreaInfo)
    → IsKept az az'
    → (az'' : AreaInfo) × (add_path_of_link (az'.matrix i j).link_index path az' ≡ ok az'')
      × IsKept az az''
IsKept-add_path_of_link i j path az az' h = elim (h.indexed.links i j) [
  | inl e ↦
      let long : leb (2 ^ 31) (az'.matrix i j).link_index ≡ true = ground arith in
      (
        az',
        elim (Bool-cases (ltb (length az'.lslist) (az'.matrix i j).link_index)) [
          | inl q ↦ rw q refl
          | inr q ↦ rw (q, long) refl
        ],
        h,
      )
  | inr l ↦
      let a : ltb (length az'.lslist) (az'.matrix i j).link_index ≡ false = ground arith in
      let s = h.indexed.short in
      let b : leb (2 ^ 31) (az'.matrix i j).link_index ≡ false = ground arith in
      let (ps, e) =
        get_elem?_lt az'.linkshadows (az'.matrix i j).link_index
          (let p = h.indexed.places in omega arith) in
      (
        record az' { linkshadows = set az'.linkshadows (az'.matrix i j).link_index (path ∷ ps) },
        rw (a, b, e) refl,
        record {
          matrix = h.matrix;
          nodeinfo = h.nodeinfo;
          indexed = record {
            links = h.indexed.links;
            places =
                length-set az'.linkshadows (az'.matrix i j).link_index (path ∷ ps)
                ∙ h.indexed.places;
            short = s;
          };
          paths = h.paths;
        },
      )
]

IsKept-add_path_of_links :
    (turns : List (ℕ × ℕ)) (path : ℕ) (az az' : AreaInfo)
    → IsKept az az'
    → (az'' : AreaInfo) × (add_path_of_links turns path az' ≡ ok az'') × IsKept az az''
unfolding add_path_of_links
IsKept-add_path_of_links [] path az az' h = (az', refl, h)
IsKept-add_path_of_links (t ∷ turns) path az az' h =
    let (az1, e1, h1) = IsKept-add_path_of_link t.0 t.1 path az az' h in
    let (az2, e2, h2) = IsKept-add_path_of_links turns path az az1 h1 in
    (az2, ap (λ o. o >>= add_path_of_links turns path) e1 ∙ e2, h2)

add_path-ok :
    (i j : ℕ) (ri rj : Ridinfo) (ps : List Netpath) (az : AreaInfo)
    → az.shortpaths ≡ some ps
    → get_elem? az.nodeinfo i ≡ some ri
    → get_elem? az.nodeinfo j ≡ some rj
    → add_path_to_area_short_path i j az
      ≡ ok (record az { shortpaths = some (new_path i j ri.rid rj.rid az ∷ ps) })
add_path-ok i j ri rj ps az e ei ej = rw (add_path_to_area_short_path, e, ei, ej) refl

-- Both indices are those of routers.
abbrev IsPair : ℕ → ℕ × ℕ → Type 0
IsPair n p = p.0 < n × p.1 < n

pairs_of-IsPair :
    (n i k : ℕ) (ps : List (ℕ × ℕ))
    → i < n
    → k ≤ n
    → All (IsPair n) ps
    → All (IsPair n) (pairs_of i k ps)
pairs_of-IsPair n i zero ps l le h = h
pairs_of-IsPair n i (suc k) ps l le h =
    pairs_of-IsPair n i k ((i, k) ∷ ps) l (omega arith) ((l, omega arith), h)

all_pairs-IsPair :
    (n k : ℕ) (ps : List (ℕ × ℕ)) → k ≤ n → All (IsPair n) ps → All (IsPair n) (all_pairs n k ps)
all_pairs-IsPair n zero ps le h = h
all_pairs-IsPair n (suc k) ps le h =
    all_pairs-IsPair n k (pairs_of k n ps) (omega arith)
      (pairs_of-IsPair n k n ps (omega arith) (omega arith) h)

module _ (fuel : ℕ) (az : AreaInfo)
    (walks : (i j : ℕ)
      → i < length az.nodeinfo
      → j < length az.nodeinfo
      → (az.matrix i j).path_cost < 2000
      → (turns : List (ℕ × ℕ)) × (walk_path fuel az.matrix j i (az.matrix i j).next_hop
          ≡ some turns)) where
  IsKept-add_path :
      (i j : ℕ) (az' : AreaInfo)
      → IsKept az az'
      → i < length az.nodeinfo
      → j < length az.nodeinfo
      → (az'' : AreaInfo) × (add_path_to_area_short_path i j az' ≡ ok az'') × IsKept az az''
  IsKept-add_path i j az' h li lj =
      let (ps, e) = h.paths in
      let n = ap length h.nodeinfo in
      let (ri, ei) = get_elem?_lt az'.nodeinfo i (omega arith) in
      let (rj, ej) = get_elem?_lt az'.nodeinfo j (omega arith) in
      (
        record az' { shortpaths = some (new_path i j ri.rid rj.rid az' ∷ ps) },
        add_path-ok i j ri rj ps az' e ei ej,
        record {
          matrix = h.matrix;
          nodeinfo = h.nodeinfo;
          indexed = record {
            links = h.indexed.links;
            places = h.indexed.places;
            short = h.indexed.short;
          };
          paths = (new_path i j ri.rid rj.rid az' ∷ ps, refl);
        },
      )

  IsKept-record_pair :
      (i j : ℕ) (az' : AreaInfo)
      → IsKept az az'
      → i < length az.nodeinfo
      → j < length az.nodeinfo
      → (az'' : AreaInfo) × (record_pair fuel i j az' ≡ some (ok az'')) × IsKept az az''
  IsKept-record_pair i j az' h li lj =
      let node = az'.matrix i j in
      elim (Bool-cases (leb 2000 node.path_cost || (node.metric == 0))) [
        | inl e ↦ (az', rw e refl, h)
        | inr e ↦
            let (turns, run) =
              subst
                (λ (m : ℕ → ℕ → Netnode).
                  (m i j).path_cost < 2000
                  → (turns : List (ℕ × ℕ)) × (walk_path fuel m j i (m i j).next_hop ≡ some turns))
                (sym h.matrix) (walks i j li lj) (ground arith) in
            let (az1, e1, h1) = IsKept-add_path i j az' h li lj in
            let (az2, e2, h2) = IsKept-add_path_of_links turns (next_path az') az az1 h1 in
            (
              az2,
              rw (e, run)
                  (ap some (ap (λ o. o >>= add_path_of_links turns (next_path az')) e1 ∙ e2)),
              h2,
            )
      ]

  IsKept-record_pairs :
      (ps : List (ℕ × ℕ)) (az' : AreaInfo)
      → IsKept az az'
      → All (IsPair (length az.nodeinfo)) ps
      → (az'' : AreaInfo) × (record_pairs fuel ps az' ≡ some (ok az'')) × IsKept az az''
  unfolding record_pairs
  IsKept-record_pairs [] az' h a = (az', refl, h)
  IsKept-record_pairs (p ∷ ps) az' h a =
      let (az1, e1, h1) = IsKept-record_pair p.0 p.1 az' h a.0.0 a.0.1 in
      let (az2, e2, h2) = IsKept-record_pairs ps az1 h1 a.1 in
      (az2, ap (λ o. continue_with o (λ az'. record_pairs fuel ps az')) e1 ∙ e2, h2)

  pub record_short_path-total :
      (ps : List Netpath)
      → az.shortpaths ≡ some ps
      → IsIndexed az
      → (az' : AreaInfo) × (record_short_path fuel az ≡ some (ok az')) × (az'.matrix ≡ az.matrix)
  record_short_path-total ps e h =
      let n = length az.nodeinfo in
      let (az', run, k) =
        IsKept-record_pairs (all_pairs n n []) az
          (record { matrix = refl; nodeinfo = refl; indexed = h; paths = (ps, e) })
          (all_pairs-IsPair n n [] (omega arith) tt) in
      (az', run, k.matrix)
