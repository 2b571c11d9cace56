-- ===== src/Comm/Dispatch/Quiet.antt =====
-- While fewer than two modules count, the base module sends nothing but answers to registrations.
use pma.Base.{
  subst, ℕ, ◌≤◌, ◌≡◌, refl, sym, ◌∙◌, ap, inl, inr, Bool, true, false, ◌&&◌, not, Option, none,
  some, List, [], ◌∷◌, ◌++◌, map, ◌==◌, if◌then◌else◌, ltb, length, All, Bool-cases, arith, eqb→eq,
  ltb→lt,
}
use pma.Base.Outcome.{Outcome, ok, crash, ◌>>=◌, >>=-eq-ok, ok-injective}
use pma.Modules.{
  Registry, Registered, refused, fresh, known, Outgoing, handle_local_module_register,
  insert_register_table, answer_register, count_module, basemodule_check_status,
  find_register_table_by_id, ModuleRegister, icm, dbm, pem,
}
use pma.Comm.{Packet, header_size, Read, Reading, child_process, Ended}
use pma.Comm.Dispatch.{
  emit, body_len, upload_table, local_module_register, lsdb_snapshoot, network_info, add_lsa,
  update_lsa, add_route, ospf_spf_signal, send_policy, route_table, device_info, ospf_interface,
  bgp_interface, traffice_info, bgp_path_info, BaseState, Output, register_output, to_module,
  to_pms, Handler, call, forward, forward_to, call_found, register, register_with, register_icm,
  module_data_handle, module_handle, module_id_of,
}
use pma.Comm.Steps.{child_process-keeps}
use pma.Comm.Control.{run_ctl}
use pma.Comm.Routers.{save_router_list_to_xml}

abbrev is_register : Output → Bool
is_register (register_output x) = true
is_register (to_module fd t b) = false
is_register (to_pms t n b) = false

-- All that was sent belongs to a registration.
abbrev pub IsQuiet : BaseState → Type 0
IsQuiet s = All (λ o. is_register o ≡ true) s.outputs

-- The count does not fall, and while it is below two nothing else is sent.
abbrev KeepsQuiet : BaseState → BaseState → Type 0
KeepsQuiet s t =
    (s.registry.bm_status ≤ t.registry.bm_status)
    × (t.registry.bm_status ≤ 1 → IsQuiet s → IsQuiet t)

KeepsQuiet-trans : (s t u : BaseState) → KeepsQuiet s t → KeepsQuiet t u → KeepsQuiet s u
KeepsQuiet-trans s t u (a, f) (b, g) = (omega arith, λ l q. g l (f (omega arith) q))

count_module-le : (a : Registered) (m_id n : ℕ) → n ≤ count_module a m_id n
count_module-le refused m_id n = omega arith
count_module-le fresh m_id n = ground arith
count_module-le known m_id n = omega arith

answer_register-le :
    (answered has_list : Bool) (m_id fd n : ℕ) (i : Registered × (ℕ → ModuleRegister))
    → n ≤ (answer_register answered has_list m_id fd n i).0.bm_status
answer_register-le true has_list m_id fd n (a, table) = count_module-le a m_id n
answer_register-le false has_list m_id fd n (a, table) = omega arith

handle_register-le :
    (answered has_list : Bool) (m_id fd : ℕ) (r r' : Registry) (sent : List Outgoing)
    → handle_local_module_register answered has_list m_id fd r ≡ ok (r', sent)
    → r.bm_status ≤ r'.bm_status
handle_register-le answered has_list m_id fd r r' sent e =
    let (i, f, g) =
      >>=-eq-ok (insert_register_table m_id fd r.g_m_register_table)
        (λ i. ok (answer_register answered has_list m_id fd r.bm_status i)) e in
    let same : (answer_register answered has_list m_id fd r.bm_status i).0.bm_status
        ≡ r'.bm_status =
      ap (λ (x : Registry × List Outgoing). x.0.bm_status) (ok-injective g) in
    omega (arith, answer_register-le answered has_list m_id fd r.bm_status i)

All-append {ℓ κ} :
    {A : Type ℓ} (P : A → Type κ) (xs ys : List A) → All P xs → All P ys → All P (xs ++ ys)
All-append P [] ys h k = k
All-append P (x ∷ xs) ys h k = (h.0, All-append P xs ys h.1 k)

All-register_output :
    (xs : List Outgoing) → All (λ o. is_register o ≡ true) (map register_output xs)
All-register_output [] = tt
All-register_output (x ∷ xs) = (refl, All-register_output xs)

abbrev Counts : BaseState → BaseState → Type 0
Counts s t = s.registry.bm_status ≤ t.registry.bm_status

module _ (answered : Packet → BaseState → Bool) (to_xml : List ℕ → List ℕ) (fd : ℕ) where
  register_with-KeepsQuiet :
      (p : Packet) (buff : List ℕ) (s t : BaseState)
      → register_with answered to_xml fd p buff s ≡ ok t
      → Counts s t × (IsQuiet s → IsQuiet t)
  register_with-KeepsQuiet p buff s t e =
      let ((r, sent), f, g) =
        >>=-eq-ok
          (handle_local_module_register (answered p s) (not (length buff == 0))
            (module_id_of answered to_xml fd p) fd s.registry)
          (λ (a : Registry × List Outgoing). ok (record s {
            registry = a.0;
            global_pma_buff = buff;
            outputs = s.outputs ++ map register_output a.1;
          }))
          e in
      subst (λ t. Counts s t × (IsQuiet s → IsQuiet t)) (ok-injective g)
        (
          handle_register-le (answered p s) (not (length buff == 0))
              (module_id_of answered to_xml fd p) fd s.registry r sent f,
          λ q.
              All-append (λ o. is_register o ≡ true) s.outputs (map register_output sent) q
                (All-register_output sent),
        )

  register-KeepsQuiet :
      (p : Packet) (s t : BaseState)
      → register answered to_xml fd p s ≡ ok t
      → Counts s t × (IsQuiet s → IsQuiet t)
  unfolding register
  register-KeepsQuiet p s t e = elim (Bool-cases (ltb (length p.body) 4)) [
    | inl short ↦ let no : crash ≡ ok t = rw short at e in cc
    | inr long ↦ elim (Bool-cases (answered p s && (module_id_of answered to_xml fd p == icm))) [
      | inl a ↦
          let f : register_icm answered to_xml fd p s ≡ ok t = rw (long, a) at e in
          let (buff, g, h) =
            >>=-eq-ok (save_router_list_to_xml s.router_list s.global_pma_buff)
              (λ buff. register_with answered to_xml fd p buff s) f in
          register_with-KeepsQuiet p buff s t h
      | inr a ↦
          let f : register_with answered to_xml fd p s.global_pma_buff s ≡ ok t =
            rw (long, a) at e in
          register_with-KeepsQuiet p s.global_pma_buff s t f
    ]
  ]

  emit-le : (o : Output) (s t : BaseState) → emit answered to_xml fd o s ≡ ok t → Counts s t
  emit-le o s t e = subst (Counts s) (ok-injective e) (omega arith)

  same-le : (s t : BaseState) → ok s ≡ ok t → Counts s t
  same-le s t e = subst (Counts s) (ok-injective e) (omega arith)

  forward_to-le :
      (m : Option ModuleRegister) (ty : ℕ) (p : Packet) (s t : BaseState)
      → forward_to answered to_xml fd m ty p s ≡ ok t
      → Counts s t
  unfolding forward_to
  forward_to-le none ty p s t e = same-le s t e
  forward_to-le (some m) ty p s t e = elim (Bool-cases (ltb p.pkt_len header_size)) [
    | inl short ↦ let no : crash ≡ ok t = rw short at e in cc
    | inr long ↦ emit-le (to_module m.m_sockfd ty p.body) s t (rw long at e)
  ]

  forward-le :
      (m_id ty : ℕ) (p : Packet) (s t : BaseState)
      → forward answered to_xml fd m_id ty p s ≡ ok t
      → Counts s t
  unfolding forward
  forward-le m_id ty p s t e =
      forward_to-le (find_register_table_by_id m_id s.registry.g_m_register_table) ty p s t e

  upload_table-le :
      (p : Packet) (s t : BaseState) → upload_table answered to_xml fd p s ≡ ok t → Counts s t
  upload_table-le p s t e = elim (Bool-cases (ltb p.pkt_len header_size)) [
    | inl short ↦ let no : crash ≡ ok t = rw short at e in cc
    | inr long ↦ emit-le (to_pms 79 (length (to_xml p.body)) (to_xml p.body)) s t (rw long at e)
  ]

  call-le :
      (h : Handler) (p : Packet) (s t : BaseState)
      → call answered to_xml fd h p s ≡ ok t
      → Counts s t
  unfolding call
  call-le local_module_register p s t e = (register-KeepsQuiet p s t e).0
  call-le lsdb_snapshoot p s t e = emit-le (to_pms 78 (body_len answered to_xml fd p) p.body) s t e
  call-le network_info p s t e = same-le s t e
  call-le add_lsa p s t e = forward-le dbm p.pkt_type p s t e
  call-le update_lsa p s t e = forward-le dbm p.pkt_type p s t e
  call-le add_route p s t e = same-le s t e
  call-le ospf_spf_signal p s t e = forward-le dbm 31 p s t e
  call-le send_policy p s t e = forward-le pem p.pkt_type p s t e
  call-le route_table p s t e = upload_table-le p s t e
  call-le device_info p s t e = emit-le (to_pms 5 (body_len answered to_xml fd p) p.body) s t e
  call-le ospf_interface p s t e = emit-le (to_pms 9 (body_len answered to_xml fd p) p.body) s t e
  call-le bgp_interface p s t e = emit-le (to_pms 12 (body_len answered to_xml fd p) p.body) s t e
  call-le traffice_info p s t e = emit-le (to_pms 14 (body_len answered to_xml fd p) p.body) s t e
  call-le bgp_path_info p s t e = emit-le (to_pms 79 (body_len answered to_xml fd p) p.body) s t e

  registers_first : (module_handle >>= λ c. run_ctl c 1) ≡ ok (some local_module_register)
  unfolding module_handle
  registers_first = refl

  call_found-le :
      (f : Option Handler) (p : Packet) (s t : BaseState)
      → call_found answered to_xml fd f p s ≡ ok t
      → Counts s t
  unfolding call_found
  call_found-le none p s t e = same-le s t e
  call_found-le (some f) p s t e = call-le f p s t e

  found_handler : Packet → Outcome (Option Handler)
  found_handler p = module_handle >>= λ c. run_ctl c p.pkt_type

  module_data_handle-eq :
      (p : Packet) (s : BaseState)
      → module_data_handle answered to_xml fd p s ≡ (
          if not (basemodule_check_status s.registry) && not (p.pkt_type == 1)
          then ok s
          else found_handler p >>= λ f. call_found answered to_xml fd f p s)
  unfolding module_data_handle found_handler
  module_data_handle-eq p s = refl

  module_data_handle-KeepsQuiet :
      (p : Packet) (s t : BaseState)
      → module_data_handle answered to_xml fd p s ≡ ok t
      → KeepsQuiet s t
  module_data_handle-KeepsQuiet p s t e0 =
      let e = sym (module_data_handle-eq p s) ∙ e0 in
      elim (Bool-cases (ltb 1 s.registry.bm_status)) [
        | inl ready ↦
            let f : (found_handler p >>= λ f. call_found answered to_xml fd f p s) ≡ ok t =
              rw ready at e in
            let (h, g, k) =
              >>=-eq-ok (found_handler p) (λ f. call_found answered to_xml fd f p s) f in
            let le = call_found-le h p s t k in
            (le, λ l q. absurd (let r = ltb→lt 1 s.registry.bm_status ready in omega arith))
        | inr few ↦ elim (Bool-cases (p.pkt_type == 1)) [
          | inl one ↦
              let f : (found_handler p >>= λ f. call_found answered to_xml fd f p s) ≡ ok t =
                rw (few, one) at e in
              let found : found_handler p ≡ ok (some local_module_register) =
                unfold found_handler in
                subst
                  (λ ty. (module_handle >>= λ c. run_ctl c ty) ≡ ok (some local_module_register))
                  (sym (eqb→eq p.pkt_type 1 one)) registers_first in
              let g : call_found answered to_xml fd (some local_module_register) p s ≡ ok t =
                rw found at f in
              let (le, q) = register-KeepsQuiet p s t (unfold call_found call in g) in (le, λ l. q)
          | inr other ↦
              let f : ok s ≡ ok t = rw (few, other) at e in
              subst (KeepsQuiet s) (ok-injective f) (omega arith, λ l q. q)
        ]
      ]

  -- Whatever comes in on a socket: as long as fewer than two modules count at its end, all that was
  -- sent belongs to registrations, if that was so before.
  pub child_process-IsQuiet :
      (junk : List ℕ) (at : Reading) (rs : List Read) (s t : BaseState) (e : Ended)
      → child_process (module_data_handle answered to_xml fd) junk at rs s ≡ ok (e, t)
      → t.registry.bm_status ≤ 1
      → IsQuiet s
      → IsQuiet t
  child_process-IsQuiet junk at rs s t e h few q =
      (child_process-keeps (module_data_handle answered to_xml fd) junk KeepsQuiet
          (λ s. (omega arith, λ l q. q)) KeepsQuiet-trans module_data_handle-KeepsQuiet rs at s
          (e, t) h).1
        few q
