-- ===== src/Modules/Register.antt =====
-- Registrations one after the other.
use pma.Base.{
  sym, ◌<◌, zero, ℕ, ◌+◌, ◌≡◌, refl, Bool, true, false, ◌||◌, not, Option, none, some, List, [],
  ◌∷◌, if◌then◌else◌, ◌==◌, leb, All, Bool-cases, inl, inr, suc, eqb→eq, arith,
}
use pma.Base.Outcome.{Outcome, ok, ◌>>=◌}
use pma.Base.Arrays.{put}
use pma.Modules.{
  refused, known, fresh, Registered, ModuleRegister, Registry, module_manager_init, wrong_id,
  wrong_fd, modlist_names, find_register_table_by_id, handle_local_module_register, answer_register,
  count_module,
}

-- A packet MODREG, the socket it comes from, and what the base module meets.
pub record Registration : Type 0 where
  pub m_id : ℕ
  pub m_sockfd : ℕ
  pub answered : Bool
  pub has_list : Bool

abbrev pub handle : Registration → Registry → Outcome Registry
handle g r = handle_local_module_register g.answered g.has_list g.m_id g.m_sockfd r >>= λ a. ok a.0

abbrev pub handle_all : List Registration → Registry → Outcome Registry
handle_all [] r = ok r
handle_all (g ∷ gs) r = handle g r >>= handle_all gs

-- A number that has a name, or that is refused.
abbrev pub IsNamed : Registration → Type 0
IsNamed g = (wrong_id g.m_id || not (leb modlist_names g.m_id)) ≡ true

-- The socket of each module, 0 for none.
abbrev pub connect : Registration → (ℕ → ℕ) → ℕ → ℕ
connect g sockets =
    if wrong_id g.m_id || wrong_fd g.m_sockfd then sockets else put sockets g.m_id g.m_sockfd

abbrev pub connect_all : List Registration → (ℕ → ℕ) → ℕ → ℕ
connect_all [] sockets = sockets
connect_all (g ∷ gs) sockets = connect_all gs (connect g sockets)

abbrev pub entry : ℕ → ℕ → ModuleRegister
entry m_id fd = record { m_id = if fd == 0 then 0 else m_id; m_sockfd = fd }

abbrev pub one_if_any : ℕ → ℕ
one_if_any fd = if fd == 0 then 0 else 1

abbrev pub count_of : (ℕ → ℕ) → ℕ
count_of sockets = one_if_any (sockets 1) + one_if_any (sockets 2) + one_if_any (sockets 3)

-- The table is that of the sockets.
abbrev pub IsTable : (ℕ → ℕ) → Registry → Type 0
IsTable sockets r = (i : ℕ) → r.g_m_register_table i ≡ entry i (sockets i)

count_module-other :
    (already : Registered) (m_id n : ℕ) → 3 < m_id → count_module already m_id n ≡ n
count_module-other refused m_id n l = refl
count_module-other fresh m_id n l = ground arith
count_module-other known m_id n l = refl

-- A new registration adds one to the count, and another none.
count_module-put :
    (m_id fd : ℕ) (sockets : ℕ → ℕ)
    → wrong_id m_id ≡ false
    → (fd == 0) ≡ false
    → count_module
        (if (entry m_id (sockets m_id)).m_id == m_id then known else fresh)
        m_id
        (count_of sockets)
      ≡ count_of (put sockets m_id fd)
count_module-put zero fd sockets w e = absurd (ground arith)
count_module-put (suc zero) fd sockets w e = elim (Bool-cases (sockets 1 == 0)) [
  | inl q ↦ rw (q, e) (omega arith)
  | inr q ↦ rw (q, e) (omega arith)
]
count_module-put (suc (suc zero)) fd sockets w e = elim (Bool-cases (sockets 2 == 0)) [
  | inl q ↦ rw (q, e) (omega arith)
  | inr q ↦ rw (q, e) (omega arith)
]
count_module-put (suc (suc (suc zero))) fd sockets w e = elim (Bool-cases (sockets 3 == 0)) [
  | inl q ↦ rw (q, e) (omega arith)
  | inr q ↦ rw (q, e) (omega arith)
]
count_module-put (suc (suc (suc (suc n)))) fd sockets w e =
    let m = suc (suc (suc (suc n))) in
    let e1 : (1 == m) ≡ false = ground arith in
    let e2 : (2 == m) ≡ false = ground arith in
    let e3 : (3 == m) ≡ false = ground arith in
    sym (
      rw (e1, e2, e3)
        (sym (
          count_module-other (if (entry m (sockets m)).m_id == m then known else fresh) m
            (count_of sockets) (omega arith))))

IsTable-put :
    (m_id fd : ℕ) (sockets : ℕ → ℕ) (table : ℕ → ModuleRegister)
    → ((i : ℕ) → table i ≡ entry i (sockets i))
    → (fd == 0) ≡ false
    → (i : ℕ)
    → put table m_id (record { m_id = m_id; m_sockfd = fd }) i ≡ entry i (put sockets m_id fd i)
IsTable-put m_id fd sockets table h e i = elim (Bool-cases (i == m_id)) [
  | inl q ↦ let same = eqb→eq i m_id q in rw (q, e, same) refl
  | inr q ↦ rw q (h i)
]

handle-IsTable :
    (g : Registration) (sockets : ℕ → ℕ) (r : Registry)
    → IsTable sockets r
    → IsNamed g
    → (r' : Registry) × (handle g r ≡ ok r')
      × IsTable (connect g sockets) r'
      × (g.answered ≡ true
          → r.bm_status ≡ count_of sockets
          → r'.bm_status ≡ count_of (connect g sockets))
handle-IsTable g sockets r h n = elim (Bool-cases (wrong_id g.m_id || wrong_fd g.m_sockfd)) [
  | inl w ↦ (
    r,
    elim (Bool-cases g.answered) [ inl a ↦ rw (w, a) refl | inr a ↦ rw (w, a) refl ],
    rw w h,
    λ a e. rw w e,
  )
  | inr w ↦
      let named : leb modlist_names g.m_id ≡ false = ground arith in
      let table = IsTable-put g.m_id g.m_sockfd sockets r.g_m_register_table h (ground arith) in
      let w1 : wrong_id g.m_id ≡ false = ground arith in
      let i : Registered × (ℕ → ModuleRegister) = (
        if (r.g_m_register_table g.m_id).m_id == g.m_id then known else fresh,
        put r.g_m_register_table g.m_id (record { m_id = g.m_id; m_sockfd = g.m_sockfd }),
      ) in
      (
        (answer_register g.answered g.has_list g.m_id g.m_sockfd r.bm_status i).0,
        rw (w, named) refl,
        elim (Bool-cases g.answered) [ inl a ↦ rw (w, a) table | inr a ↦ rw (w, a) table ],
        λ a e.
            rw (w, a, e, h g.m_id) (count_module-put g.m_id g.m_sockfd sockets w1 (ground arith)),
      )
]

-- Whether the answer to a registration was sent.
abbrev pub WasAnswered : Registration → Type 0
WasAnswered g = g.answered ≡ true

handle_all-IsTable :
    (gs : List Registration) (sockets : ℕ → ℕ) (r : Registry)
    → IsTable sockets r
    → All IsNamed gs
    → (r' : Registry) × (handle_all gs r ≡ ok r')
      × IsTable (connect_all gs sockets) r'
      × (All WasAnswered gs
          → r.bm_status ≡ count_of sockets
          → r'.bm_status ≡ count_of (connect_all gs sockets))
handle_all-IsTable [] sockets r h n = (r, refl, h, λ a e. e)
handle_all-IsTable (g ∷ gs) sockets r h (n, ns) =
    let (r1, e1, h1, c1) = handle-IsTable g sockets r h n in
    let (r2, e2, h2, c2) = handle_all-IsTable gs (connect g sockets) r1 h1 ns in
    (r2, rw (e1, e2) refl, h2, λ a e. c2 a.1 (c1 a.0 e))

-- The registration that a map of sockets has for a number.
abbrev pub find_socket : ℕ → (ℕ → ℕ) → Option ModuleRegister
find_socket m_id sockets =
    if sockets m_id == 0 then none else some (record { m_id = m_id; m_sockfd = sockets m_id })

find-find_socket :
    (m_id : ℕ) (sockets : ℕ → ℕ) (r : Registry)
    → IsTable sockets r
    → wrong_id m_id ≡ false
    → find_register_table_by_id m_id r.g_m_register_table ≡ find_socket m_id sockets
find-find_socket m_id sockets r h w = elim (Bool-cases (sockets m_id == 0)) [
  | inl q ↦ rw (w, h m_id, q) refl
  | inr q ↦ let some_id : (m_id == 0) ≡ false = ground arith in rw (w, h m_id, q, some_id) refl
]

-- Registrations of modules with a number from 1 to 5, or with one that is refused, never read
-- outside `modlist`; and afterwards `find_register_table_by_id` finds for each number from 1 to 9
-- the last socket that it registered with, if it did.
pub handle_all-find_socket :
    (gs : List Registration)
    → All IsNamed gs
    → (r : Registry) × (handle_all gs module_manager_init ≡ ok r)
      × ((m_id : ℕ)
          → wrong_id m_id ≡ false
          → find_register_table_by_id m_id r.g_m_register_table
            ≡ find_socket m_id (connect_all gs (λ i. 0)))
handle_all-find_socket gs n =
    let (r, e, h, c) = handle_all-IsTable gs (λ i. 0) module_manager_init (λ i. refl) n in
    (r, e, λ m_id w. find-find_socket m_id (connect_all gs (λ i. 0)) r h w)

-- When the answer to each of these registrations is sent, the base module counts the modules ICM, DBM
-- and PEM that have registered, each of them once.
pub handle_all-count_of :
    (gs : List Registration)
    → All IsNamed gs
    → All WasAnswered gs
    → (r : Registry) × (handle_all gs module_manager_init ≡ ok r)
      × (r.bm_status ≡ count_of (connect_all gs (λ i. 0)))
handle_all-count_of gs n a =
    let (r, e, h, c) = handle_all-IsTable gs (λ i. 0) module_manager_init (λ i. refl) n in
    (r, e, c a refl)
