-- ===== src/Comm/Routers/Known.antt =====
-- What the list of routers holds after a text with neighbours.
use pma.Base.{
  ap, ℕ, ◌≡◌, refl, ◌∙◌, inl, inr, Option, none, some, List, [], ◌∷◌, ◌==◌, if◌then◌else◌,
  Bool-cases, Option-cases, arith, eqb→eq,
}
use pma.Comm.Routers.{
  RouterEntry, PmaElement, find_router_by_id, update_router, insert_router_list, insert_neighbors,
  or_before,
}

-- A router after an element of its agent: only the address of a known one changes.
abbrev pub known_as : ℕ → ℕ → ℕ → Option RouterEntry → RouterEntry
known_as devid rid ip_addr none = record { devid = devid; rid = rid; ip_addr = ip_addr }
known_as devid rid ip_addr (some t) = record t { ip_addr = ip_addr }

-- What the elements of one agent make of its router.
abbrev pub known_after : ℕ → ℕ → ℕ → List PmaElement → Option RouterEntry → Option RouterEntry
known_after id router_addr ctl_addr [] t = t
known_after id router_addr ctl_addr (e ∷ es) t =
    let router_addr' = or_before e.router_id router_addr in
    let ctl_addr' = or_before e.agent_control_ip ctl_addr in
    known_after id router_addr' ctl_addr' es
      (if e.id == id then some (known_as e.id router_addr' ctl_addr' t) else t)

find-update_router :
    (id devid ip_addr : ℕ) (list : List RouterEntry) (t : RouterEntry)
    → find_router_by_id devid list ≡ some t
    → find_router_by_id id (update_router devid ip_addr list)
      ≡ (if devid == id then some (record t { ip_addr = ip_addr }) else find_router_by_id id list)
unfolding find_router_by_id update_router
find-update_router id devid ip_addr [] t e = cc
find-update_router id devid ip_addr (u ∷ list) t e = elim (Bool-cases (u.devid == devid)) [
  | inl q ↦
      let same = eqb→eq u.devid devid q in
      let u_is_t : some u ≡ some t = rw q at e in rw q (ground arith)
  | inr q ↦ rw q (ground (arith, find-update_router id devid ip_addr list t (rw q at e)))
]

insert_router_list_new :
    (devid rid ip_addr : ℕ) (list : List RouterEntry)
    → find_router_by_id devid list ≡ none
    → insert_router_list devid rid ip_addr list
      ≡ record { devid = devid; rid = rid; ip_addr = ip_addr } ∷ list
unfolding insert_router_list
insert_router_list_new devid rid ip_addr list e = rw (e, insert_router_list) refl

insert_router_list_known :
    (devid rid ip_addr : ℕ) (list : List RouterEntry) (t : RouterEntry)
    → find_router_by_id devid list ≡ some t
    → insert_router_list devid rid ip_addr list ≡ update_router devid ip_addr list
unfolding insert_router_list
insert_router_list_known devid rid ip_addr list t e = rw (e, insert_router_list) refl

find-insert_router_list :
    (id devid rid ip_addr : ℕ) (list : List RouterEntry)
    → find_router_by_id id (insert_router_list devid rid ip_addr list) ≡ (
        if devid == id
        then some (known_as devid rid ip_addr (find_router_by_id devid list))
        else find_router_by_id id list)
find-insert_router_list id devid rid ip_addr list =
    elim (Option-cases (find_router_by_id devid list)) [
      | inl e ↦
          rw (insert_router_list_new devid rid ip_addr list e, e) (unfold find_router_by_id in refl)
      | inr (t, e) ↦
          rw (insert_router_list_known devid rid ip_addr list t e, e)
            (find-update_router id devid ip_addr list t e)
    ]

-- After a text with neighbours the list knows each agent as its elements give it: with the router
-- number of the first one, unless it was known before, and the address of the last one.
pub find-insert_neighbors :
    (id router_addr ctl_addr : ℕ) (es : List PmaElement) (list : List RouterEntry)
    → find_router_by_id id (insert_neighbors router_addr ctl_addr es list)
      ≡ known_after id router_addr ctl_addr es (find_router_by_id id list)
unfolding insert_neighbors
find-insert_neighbors id router_addr ctl_addr [] list = refl
find-insert_neighbors id router_addr ctl_addr (e ∷ es) list =
    let r = or_before e.router_id router_addr in
    let c = or_before e.agent_control_ip ctl_addr in
    find-insert_neighbors id r c es (insert_router_list e.id r c list)
    ∙ ap (known_after id r c es) (
        find-insert_router_list id e.id r c list ∙ elim (Bool-cases (e.id == id)) [
          | inl q ↦ let same = eqb→eq e.id id q in rw (q, same) refl
          | inr q ↦ rw q refl
        ])
