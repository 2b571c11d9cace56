-- ===== src/Lsd/Periodic/Entries.antt =====
-- What the periodic flood does to the entries of the database (lsd/lsd_flood.c).
use pma.Base.{
  ℕ, Bool, ◌≡◌, refl, sym, ◌∙◌, ap, ◌≢◌, true, false, Option, none, some, List, [], ◌∷◌, map,
  if◌then◌else◌, ◌==◌, arith, All, Bool-cases, Option-cases, inl, inr,
}
use pma.Base.Outcome.{Outcome, ok, ◌>>=◌}
use pma.Lsdb.{LinkStateKey, LinkState, next_u32, is_keys_equals, cr_lsdb_link_state_find}
use pma.Lsdb.Invariant.{IsValid}
use pma.Lsdb.Find.{find-key}
use pma.Lsdb.Update.{update-total, keys_eq}
use pma.Lsd.{Lsa, BackboneEth, Zone}
use pma.Lsd.Flood.{flood_lsa_spread, flood_add_flood_lsa}
use pma.Lsd.Accept.{lsdb_to_lsa_info}
use pma.Lsd.Hello.{hello_get_neighbor_info}
use pma.Lsd.Handler.{link_key}
use pma.Lsd.Periodic.{
  AccessEth, LsdRouter, each_zone, access_key, spread_again, spread_accesses, spread_backbones,
  spread_local_link_state, flood_period,
}

-- An entry without its sequence number.
abbrev pub unnumbered : Option LinkState → Option LinkState
unnumbered none = none
unnumbered (some s) = some (record s { seq = 0 })

-- The hello master has been allocated.
abbrev pub HasHello : BackboneEth → Type 0
HasHello e = e.hello_master ≢ none

pub record IsReady (z : Zone) : Type 0 where
  pub valid : IsValid z.lsdb
  pub hellos : All HasHello z.backbones

-- The same entries, but for their numbers.
pub record Renumbered (z z' : Zone) : Type 0 where
  pub ready : IsReady z'
  pub same :
      (k : LinkStateKey)
      → unnumbered (cr_lsdb_link_state_find k z'.lsdb)
        ≡ unnumbered (cr_lsdb_link_state_find k z.lsdb)

Renumbered-refl : (z : Zone) → IsReady z → Renumbered z z
Renumbered-refl z r = record { ready = r; same = λ k. refl }

Renumbered-trans : (z z' z'' : Zone) → Renumbered z z' → Renumbered z' z'' → Renumbered z z''
Renumbered-trans z z' z'' a b = record { ready = b.ready; same = λ k. b.same k ∙ a.same k }

hello-flood_add :
    (l : Lsa) (e : BackboneEth) → (flood_add_flood_lsa l e).hello_master ≡ e.hello_master
unfolding flood_add_flood_lsa
hello-flood_add l e = ground arith

All-flood_add :
    (l : Lsa) (es : List BackboneEth)
    → All HasHello es
    → All HasHello (map (flood_add_flood_lsa l) es)
All-flood_add l [] h = tt
All-flood_add l (e ∷ es) h = (λ q. h.0 (sym (hello-flood_add l e) ∙ q), All-flood_add l es h.1)

renumber :
    (n : ℕ) (old : LinkState) (o : Option LinkState) (b : Bool)
    → (b ≡ true → o ≡ some old)
    → unnumbered (if b then some (record old { seq = n }) else o) ≡ unnumbered o
renumber n old o true h = sym (ap unnumbered (h refl))
renumber n old o false h = refl

abbrev Result : Outcome Zone → Zone → Type 0
Result o z = (z' : Zone) × (o ≡ ok z') × Renumbered z z'

spread_again-Renumbered : (k : LinkStateKey) (z : Zone) → IsReady z → Result (spread_again k z) z
unfolding spread_again flood_lsa_spread
spread_again-Renumbered k z r = elim (Option-cases (cr_lsdb_link_state_find k z.lsdb)) [
  | inl absent ↦ (z, rw (absent, spread_again) refl, Renumbered-refl z r)
  | inr (old, here) ↦
      let s : LinkState = record old { seq = next_u32 old.seq } in
      let own = find-key k z.lsdb old r.valid here in
      let found = ap (λ q. cr_lsdb_link_state_find q z.lsdb) own ∙ here in
      let (db, run, v, f) = update-total s old z.lsdb r.valid found in
      (
        record z {
          lsdb = db;
          backbones = map (flood_add_flood_lsa (lsdb_to_lsa_info s)) z.backbones;
        },
        rw (here, spread_again, run) refl,
        record {
          ready = record { valid = v; hellos = All-flood_add _ z.backbones r.hellos };
          same = λ j.
              ap unnumbered (f j)
              ∙ renumber (next_u32 old.seq) old (cr_lsdb_link_state_find j z.lsdb)
                  (is_keys_equals old.key j)
                  (λ hit.
                    ap (λ q. cr_lsdb_link_state_find q z.lsdb) (sym (keys_eq old.key j hit))
                    ∙ found);
        },
      )
]

-- Each zone of a list against the one in the same place.
abbrev pub AllRenumbered : List Zone → List Zone → Type 0
AllRenumbered [] [] = Unit
AllRenumbered (z ∷ zs) (z' ∷ zs') = Renumbered z z' × AllRenumbered zs zs'
AllRenumbered _ _ = ⊥

abbrev Results : Outcome (List Zone) → List Zone → Type 0
Results o zs = (zs' : List Zone) × (o ≡ ok zs') × AllRenumbered zs zs'

all-IsReady : (zs zs' : List Zone) → AllRenumbered zs zs' → All IsReady zs'
all-IsReady [] [] a = tt
all-IsReady [] (z ∷ zs') a = absurd a
all-IsReady (z ∷ zs) [] a = absurd a
all-IsReady (z ∷ zs) (z' ∷ zs') a = (a.0.ready, all-IsReady zs zs' a.1)

AllRenumbered-refl : (zs : List Zone) → All IsReady zs → AllRenumbered zs zs
AllRenumbered-refl [] r = tt
AllRenumbered-refl (z ∷ zs) r = (Renumbered-refl z r.0, AllRenumbered-refl zs r.1)

AllRenumbered-trans :
    (zs zs' zs'' : List Zone)
    → AllRenumbered zs zs'
    → AllRenumbered zs' zs''
    → AllRenumbered zs zs''
AllRenumbered-trans [] [] zs'' a b = b
AllRenumbered-trans [] (y ∷ ys) zs'' a b = absurd a
AllRenumbered-trans (z ∷ zs) [] zs'' a b = absurd a
AllRenumbered-trans (z ∷ zs) (y ∷ ys) [] a b = absurd b
AllRenumbered-trans (z ∷ zs) (y ∷ ys) (x ∷ xs) a b =
    (Renumbered-trans z y x a.0 b.0, AllRenumbered-trans zs ys xs a.1 b.1)

each_zone-Renumbered :
    (f : Zone → Outcome Zone)
    → ((z : Zone) → IsReady z → Result (f z) z)
    → (zs : List Zone) → All IsReady zs
    → Results (each_zone f zs) zs
each_zone-Renumbered f h [] r = ([], refl, tt)
each_zone-Renumbered f h (z ∷ zs) r =
    let (z', run, a) = h z r.0 in
    let (zs', runs, as') = each_zone-Renumbered f h zs r.1 in
    (z' ∷ zs', rw (run, runs) refl, (a, as'))

accesses-Renumbered :
    (es : List AccessEth) (zs : List Zone) → All IsReady zs → Results (spread_accesses es zs) zs
unfolding spread_accesses
accesses-Renumbered [] zs r = (zs, refl, AllRenumbered-refl zs r)
accesses-Renumbered (e ∷ es) zs r =
    let (zs1, run1, a1) =
      each_zone-Renumbered (λ z. spread_again (access_key z e) z)
        (λ z q. spread_again-Renumbered (access_key z e) z q) zs r in
    let (zs2, run2, a2) = accesses-Renumbered es zs1 (all-IsReady zs zs1 a1) in
    (zs2, rw (run1, run2) refl, AllRenumbered-trans zs zs1 zs2 a1 a2)

one_backbone :
    (e : BackboneEth) (z : Zone)
    → HasHello e
    → IsReady z
    → Result
        (hello_get_neighbor_info e
          >>= (λ n. if n.rt_id == 0 then ok z else spread_again (link_key z e n) z))
        z
unfolding hello_get_neighbor_info
one_backbone e z met r = elim (Option-cases e.hello_master) [
  | inl absent ↦ absurd (met absent)
  | inr (m, here) ↦ elim (Bool-cases (m.neighbor.rt_id == 0)) [
    | inl unmet ↦ (z, ground arith, Renumbered-refl z r)
    | inr known ↦
        let (z', run, a) = spread_again-Renumbered (link_key z e m.neighbor) z r in
        (z', ground arith, a)
  ]
]

backbones-Renumbered :
    (es : List BackboneEth) (z : Zone)
    → All HasHello es
    → IsReady z
    → Result (spread_backbones es z) z
unfolding spread_backbones
backbones-Renumbered [] z met r = (z, refl, Renumbered-refl z r)
backbones-Renumbered (e ∷ es) z met r =
    let (z1, run1, a1) = one_backbone e z met.0 r in
    let (z2, run2, a2) = backbones-Renumbered es z1 met.1 a1.ready in
    (z2, ap (λ o. o >>= spread_backbones es) run1 ∙ run2, Renumbered-trans z z1 z2 a1 a2)

-- In a router with valid databases and a hello master on each backbone interface, the periodic flood
-- never crashes; it arms its timer again and leaves the access interfaces, and in every zone it keeps
-- the database valid and changes no entry but for its sequence number.
pub spread_local-Renumbered :
    (r : LsdRouter)
    → All IsReady r.azs
    → (r' : LsdRouter) × (spread_local_link_state r ≡ ok r')
      × AllRenumbered r.azs r'.azs
      × (r'.accesses ≡ r.accesses)
      × (r'.periodctrl ≡ some flood_period)
unfolding spread_local_link_state
spread_local-Renumbered r ready =
    let (zs1, run1, a1) = accesses-Renumbered r.accesses r.azs ready in
    let (zs2, run2, a2) =
      each_zone-Renumbered (λ z. spread_backbones z.backbones z)
        (λ z q. backbones-Renumbered z.backbones z q.hellos q) zs1 (all-IsReady r.azs zs1 a1) in
    (
      record r { azs = zs2; periodctrl = some flood_period },
      rw (run1, run2) refl,
      AllRenumbered-trans r.azs zs1 zs2 a1 a2,
      refl,
      refl,
    )
