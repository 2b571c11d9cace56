-- ===== src/Lsd/Accept/Order.antt =====
-- Advertisements of one link in any order leave the newest, and a repeated one changes nothing
-- (lsd/lsd_utils.c).
use pma.Base.{
  ℕ, ◌+◌, ◌-◌, ◌%◌, ◌^◌, ◌≡◌, refl, sym, ◌∙◌, subst, ap, ◌≢◌, true, false, Option, none, some, List,
  [], ◌∷◌, map, if◌then◌else◌, ltb, arith, All,
}
use pma.Base.Outcome.{Outcome, ok, ◌>>=◌, ok-injective}
use pma.Lsdb.{Timeval, LinkStateKey, LinkState, cr_lsdb_link_state_find}
use pma.Lsdb.Invariant.{IsValid}
use pma.Lsd.{Lsa, Zone}
use pma.Lsd.Accept.{
  accept_lsa_into_lsdb, accept_known, check_local_lsdb, is_out_of_date, lsa_to_lsdb_info, usecs,
}
use pma.Lsd.Accept.Total.{Accepted, accept-total, installs, keys_refl, compare_lem}

-- An entry that was just written is not out of date.
pub fresh_now : (now : Timeval) (s : LinkState) → s.age ≡ now → is_out_of_date now s ≡ false
unfolding is_out_of_date
fresh_now now s e = ground (arith, zero_elapsed (usecs now))
  where
    zero_elapsed : (n : ℕ) → (n + (2 ^ 64 - n % 2 ^ 64)) % 2 ^ 64 ≡ 0
    zero_elapsed n = omega arith

-- What the database holds under a key is not out of date.
abbrev pub IsFresh : Timeval → Option LinkState → Type 0
IsFresh now none = Unit
IsFresh now (some s) = is_out_of_date now s ≡ false

abbrev pub seq_of : Option LinkState → Option ℕ
seq_of none = none
seq_of (some s) = some s.seq

abbrev pub larger : ℕ → ℕ → ℕ
larger a b = if ltb a b then b else a

-- The greatest of some numbers and of one that there may be.
abbrev pub greatest : Option ℕ → List ℕ → Option ℕ
greatest o [] = o
greatest o (s ∷ ss) = elim (greatest o ss) [ none ↦ some s | some t ↦ some (larger s t) ]

pub accept_all : Timeval → List (ℕ × Lsa) → Zone → Outcome Zone
accept_all now [] z = ok z
accept_all now ((i, l) ∷ ls) z = accept_lsa_into_lsdb now i l z >>= accept_all now ls

abbrev pub seqs : List (ℕ × Lsa) → List ℕ
seqs = map (λ (i, l). l.seq)

with_one :
    (o : Option ℕ) (s : ℕ) (ss : List ℕ) → greatest (greatest o (s ∷ [])) ss ≡ greatest o (s ∷ ss)
with_one o s [] = refl
with_one o s (t ∷ ss) = ground (arith, with_one o s ss)

module _ (now : Timeval) (k : LinkStateKey) where
  one-newest :
      (i : ℕ) (l : Lsa) (z z' : Zone)
      → l.key ≡ k
      → k.rt_id ≢ z.r_id
      → IsFresh now (cr_lsdb_link_state_find k z.lsdb)
      → Accepted now i l z z'
      → (seq_of (cr_lsdb_link_state_find k z'.lsdb)
          ≡ greatest (seq_of (cr_lsdb_link_state_find k z.lsdb)) (l.seq ∷ []))
        × IsFresh now (cr_lsdb_link_state_find k z'.lsdb)
  unfolding lsa_to_lsdb_info
  one-newest i l z z' e foreign fresh a =
      ground (arith, a.finds k, keys_refl l.key k e, fresh_now now (lsa_to_lsdb_info now l) refl)

  -- When advertisements of one link of another router, whose number is not 0, are accepted into a
  -- valid database at one time, through whatever interfaces and in whatever order, and the entry that
  -- the database held, if any, is not out of date at that time, the daemon does not crash, and the
  -- database stays valid and ends with the greatest of their sequence numbers and of the one it held.
  pub accept_all-newest :
      (ls : List (ℕ × Lsa)) (z : Zone)
      → IsValid z.lsdb
      → All (λ (i, l). l.key ≡ k) ls
      → k.rt_id ≢ 0
      → k.rt_id ≢ z.r_id
      → IsFresh now (cr_lsdb_link_state_find k z.lsdb)
      → (z' : Zone) × (accept_all now ls z ≡ ok z')
        × IsValid z'.lsdb
        × (seq_of (cr_lsdb_link_state_find k z'.lsdb)
            ≡ greatest (seq_of (cr_lsdb_link_state_find k z.lsdb)) (seqs ls))
  unfolding accept_all
  accept_all-newest [] z v same nz foreign fresh = (z, refl, v, refl)
  accept_all-newest ((i, l) ∷ ls) z v same nz foreign fresh =
      let nz' : l.key.rt_id ≢ 0 = λ e. nz (ap (λ (q : LinkStateKey). q.rt_id) (sym same.0) ∙ e) in
      let (z1, run, a) = accept-total now i l z v nz' in
      let (seq1, fresh1) = one-newest i l z z1 same.0 foreign fresh a in
      let foreign1 : k.rt_id ≢ z1.r_id = λ e. foreign (e ∙ a.same_ids.0) in
      let (z2, run2, v2, seq2) = accept_all-newest ls z1 a.valid same.1 nz foreign1 fresh1 in
      (
        z2,
        rw run run2,
        v2,
        seq2
            ∙ ap (λ o. greatest o (seqs ls)) seq1
            ∙ with_one (seq_of (cr_lsdb_link_state_find k z.lsdb)) l.seq (seqs ls),
      )

held-same :
    (now : Timeval) (j : ℕ) (l : Lsa) (z : Zone)
    → l.key.rt_id ≢ z.r_id
    → cr_lsdb_link_state_find l.key z.lsdb ≡ some (lsa_to_lsdb_info now l)
    → accept_lsa_into_lsdb now j l z ≡ ok z
unfolding accept_lsa_into_lsdb check_local_lsdb accept_known lsa_to_lsdb_info
held-same now j l z foreign here = ground (
  arith,
  compare_lem (lsa_to_lsdb_info now l) (lsa_to_lsdb_info now l) refl,
  fresh_now now (lsa_to_lsdb_info now l) refl,
)

installs-foreign :
    (now : Timeval) (l : Lsa) (z : Zone) → installs now l z ≡ true → l.key.rt_id ≢ z.r_id
installs-foreign now l z e = ground arith

-- An advertisement that was installed changes nothing when it comes again at the same time,
-- through whatever interface: it is neither stored nor forwarded nor sent back.
pub accept_twice :
    (now : Timeval) (i j : ℕ) (l : Lsa) (z z' : Zone)
    → IsValid z.lsdb
    → l.key.rt_id ≢ 0
    → installs now l z ≡ true
    → accept_lsa_into_lsdb now i l z ≡ ok z'
    → accept_lsa_into_lsdb now j l z' ≡ ok z'
accept_twice now i j l z z' v nz e run =
    let (z1, run1, a) = accept-total now i l z v nz in
    let same : z1 ≡ z' = ok-injective (sym run1 ∙ run) in
    subst (λ y. accept_lsa_into_lsdb now j l y ≡ ok y) same
      (held-same now j l z1 (λ c. installs-foreign now l z e (c ∙ a.same_ids.0))
        (a.finds l.key ∙ rw (e, keys_refl l.key l.key refl)))
