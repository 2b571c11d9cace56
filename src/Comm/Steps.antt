-- ===== src/Comm/Steps.antt =====
-- What each packet that is handled keeps, `child_process` keeps.
use pma.Base.{
  ℕ, ◌+◌, ◌-◌, ◌++◌, ◌≡◌, subst, inl, inr, Option, none, some, List, [], ◌∷◌, ◌==◌, ltb, leb,
  length, Bool-cases,
}
use pma.Base.Outcome.{Outcome, ok, crash, >>=-eq-ok, ok-injective}
use pma.Comm.{
  Packet, Read, bytes, again, failed, closed, Reading, before_header, in_body, Ended, waiting,
  closed_fd, too_long, header_of, header_size, max_buf, whole, handled, after_header, after_body,
  after_read, child_process,
}

module _ {ℓ} {S : Type ℓ} (handle : Packet → S → Outcome S) (junk : List ℕ) (R : S → S → Type 0)
    (stays : (s : S) → R s s) (trans : (s t u : S) → R s t → R t u → R s u)
    (step : (p : Packet) (s t : S) → handle p s ≡ ok t → R s t) where
  abbrev Turn : Type ℓ
  Turn = Option Ended × Reading × S

  same_state : (s : S) (e : Option Ended) (at : Reading) (t : Turn) → ok (e, at, s) ≡ ok t → R s t.2
  same_state s e at t h = subst (λ (u : Turn). R s u.2) (ok-injective h) (stays s)

  handled-keeps : (p : Packet) (s : S) (t : Turn) → handled handle junk p s ≡ ok t → R s t.2
  handled-keeps p s t h =
      let (s', e, f) = >>=-eq-ok (handle p s) (λ s'. ok (none, before_header, s')) h in
      subst (λ (u : Turn). R s u.2) (ok-injective f) (step p s s' e)

  after_header-keeps :
      (b : List ℕ) (s : S) (t : Turn) → after_header handle junk b s ≡ ok t → R s t.2
  after_header-keeps b s t h =
      let p = header_of junk b in
      elim (Bool-cases (length b == 0)) [
        | inl q ↦ same_state s (some waiting) before_header t (rw q at h)
        | inr q ↦ elim (Bool-cases (ltb p.pkt_len 4)) [
          | inl c ↦ let no : crash ≡ ok t = rw (q, c) at h in cc
          | inr c ↦ elim (Bool-cases (ltb (max_buf + header_size) p.pkt_len)) [
            | inl l ↦ same_state s (some too_long) before_header t (rw (q, c, l) at h)
            | inr l ↦ elim (Bool-cases (leb p.pkt_len header_size)) [
              | inl d ↦ handled-keeps p s t (rw (q, c, l, d) at h)
              | inr d ↦
                  same_state s none (in_body p (header_size - length b) (p.pkt_len - header_size)) t
                    (rw (q, c, l, d) at h)
            ]
          ]
        ]
      ]

  after_body-keeps :
      (p : Packet) (shift n : ℕ) (b : List ℕ) (s : S) (t : Turn)
      → after_body handle junk p shift n b s ≡ ok t
      → R s t.2
  after_body-keeps p shift n b s t h =
      let p' = record p { body = p.body ++ b } in
      elim (Bool-cases (length b == 0)) [
        | inl q ↦ same_state s (some closed_fd) before_header t (rw q at h)
        | inr q ↦ elim (Bool-cases (leb n (length b))) [
          | inl d ↦ handled-keeps (whole junk shift p') s t (rw (q, d) at h)
          | inr d ↦ same_state s none (in_body p' shift (n - length b)) t (rw (q, d) at h)
        ]
      ]

  after_read-keeps :
      (at : Reading) (r : Read) (s : S) (t : Turn) → after_read handle junk at r s ≡ ok t → R s t.2
  after_read-keeps before_header (bytes b) s t h = after_header-keeps b s t h
  after_read-keeps before_header again s t h = same_state s (some waiting) before_header t h
  after_read-keeps before_header failed s t h = same_state s (some waiting) before_header t h
  after_read-keeps before_header closed s t h = same_state s (some waiting) before_header t h
  after_read-keeps (in_body p shift n) (bytes b) s t h = after_body-keeps p shift n b s t h
  after_read-keeps (in_body p shift n) again s t h = same_state s (some waiting) before_header t h
  after_read-keeps (in_body p shift n) failed s t h =
      same_state s (some closed_fd) before_header t h
  after_read-keeps (in_body p shift n) closed s t h =
      same_state s (some closed_fd) before_header t h

  next_turn : List Read → Turn → Outcome (Ended × S)
  next_turn rs u = elim u.0 [ none ↦ child_process handle junk u.1 rs u.2 | some x ↦ ok (x, u.2) ]

  next_turn-keeps :
      (rs : List Read) (u : Turn) (t : Ended × S)
      → ((at : Reading) (s : S) → child_process handle junk at rs s ≡ ok t → R s t.1)
      → next_turn rs u ≡ ok t
      → R u.2 t.1
  unfolding next_turn
  next_turn-keeps rs (none, at, s) t ih h = ih at s h
  next_turn-keeps rs (some x, at, s) t ih h =
      subst (λ (v : Ended × S). R s v.1) (ok-injective h) (stays s)

  -- A relation of states that each packet keeps, and that can be put together, holds from the first
  -- state to the last.
  pub child_process-keeps :
      (rs : List Read) (at : Reading) (s : S) (t : Ended × S)
      → child_process handle junk at rs s ≡ ok t
      → R s t.1
  unfolding child_process next_turn
  child_process-keeps [] at s t h = subst (λ (u : Ended × S). R s u.1) (ok-injective h) (stays s)
  child_process-keeps (r ∷ rs) at s t h =
      let (u, e, f) = >>=-eq-ok (after_read handle junk at r s) (next_turn rs) h in
      trans s u.2 t.1 (after_read-keeps at r s u e)
        (next_turn-keeps rs u t (λ at' s'. child_process-keeps rs at' s' t) f)
