-- ===== src/Utils/Ini/Print.antt =====
-- What utils/ini.c reads from a file that is written line by line.
use pma.Base.{
  ℕ, suc, ◌-◌, ◌<◌, ◌≡◌, refl, ap, ◌∙◌, true, false, Option, some, none, List, [], ◌∷◌, ◌++◌, ◌==◌,
  leb, length, take, map, All, arith, eqb_refl, length-append,
}
use pma.Utils.Ini.{
  Line, Call, strtrim, before_byte, behind_byte, ends_with, trimmed_line, read_line,
  split_directive, parse_lines, parse_ini, parse_line,
}
use pma.Utils.Ini.Trim.{IsStart, IsEnd, strtrim_same, strtrim_newline}

abbrev pub section_text : List ℕ → List ℕ
section_text name = 91 ∷ (name ++ 93 ∷ [])

abbrev pub directive_text : List ℕ → List ℕ → List ℕ
directive_text key value = key ++ 61 ∷ value

-- The line of a section or a directive, with its newline.
abbrev pub print_line : Line → List ℕ
print_line Line.blank = 10 ∷ []
print_line Line.bad = 91 ∷ 93 ∷ 10 ∷ []
print_line (Line.section name) = section_text name ++ 10 ∷ []
print_line (Line.directive key value) = directive_text key value ++ 10 ∷ []

abbrev pub IsWithout : ℕ → List ℕ → Type 0
IsWithout b xs = All (λ c. (c == b) ≡ false) xs

abbrev pub IsFirstNot : ℕ → List ℕ → Type 0
IsFirstNot b [] = Unit
IsFirstNot b (c ∷ cs) = (c == b) ≡ false

-- A line without an error. A name is not empty; a key and a value have no space at either end, no `=` is in a key, which does
-- not begin with `[`; and nowhere is a `#`.
abbrev pub IsPrintable : Line → Type 0
IsPrintable (Line.section name) = IsWithout 35 name × (0 < length name)
IsPrintable (Line.directive key value) =
    IsWithout 35 key
    × IsWithout 35 value
    × IsWithout 61 key
    × IsFirstNot 91 key
    × IsStart key
    × IsEnd key
    × IsStart value
    × IsEnd value
IsPrintable Line.blank = Unit
IsPrintable Line.bad = ⊥

IsWithout-append :
    (b : ℕ) (xs ys : List ℕ) → IsWithout b xs → IsWithout b ys → IsWithout b (xs ++ ys)
IsWithout-append b [] ys h k = k
IsWithout-append b (x ∷ xs) ys h k = (h.0, IsWithout-append b xs ys h.1 k)

before_byte_without : (b : ℕ) (xs : List ℕ) → IsWithout b xs → before_byte b xs ≡ xs
before_byte_without b [] h = refl
before_byte_without b (x ∷ xs) h = rw (h.0) (ap (λ k. x ∷ k) (before_byte_without b xs h.1))

before_byte_at : (b : ℕ) (xs ys : List ℕ) → IsWithout b xs → before_byte b (xs ++ b ∷ ys) ≡ xs
before_byte_at b [] ys h = rw (eqb_refl b) refl
before_byte_at b (x ∷ xs) ys h = rw (h.0) (ap (λ k. x ∷ k) (before_byte_at b xs ys h.1))

behind_byte_at : (b : ℕ) (xs ys : List ℕ) → IsWithout b xs → behind_byte b (xs ++ b ∷ ys) ≡ some ys
behind_byte_at b [] ys h = rw (eqb_refl b) refl
behind_byte_at b (x ∷ xs) ys h = rw (h.0) (behind_byte_at b xs ys h.1)

IsEnd-append : (d : ℕ) (xs ys : List ℕ) → IsEnd (d ∷ ys) → IsEnd (xs ++ d ∷ ys)
IsEnd-append d [] ys h = h
IsEnd-append d (x ∷ []) ys h = h
IsEnd-append d (x ∷ y ∷ xs) ys h = IsEnd-append d (y ∷ xs) ys h

IsEnd-equals : (value : List ℕ) → IsEnd value → IsEnd (61 ∷ value)
IsEnd-equals [] h = refl
IsEnd-equals (v ∷ vs) h = h

ends_with-append : (c x : ℕ) (xs : List ℕ) → ends_with c (x ∷ (xs ++ c ∷ [])) ≡ true
ends_with-append c x [] = eqb_refl c
ends_with-append c x (y ∷ ys) = ends_with-append c y ys

take-append : (c : ℕ) (xs : List ℕ) → take (length xs) (xs ++ c ∷ []) ≡ xs
take-append c [] = refl
take-append c (x ∷ xs) = ap (λ k. x ∷ k) (take-append c xs)

-- A line whose text has no space at either end, once the newline and the test for comments are gone.
read_line_text :
    (x : ℕ) (xs : List ℕ)
    → IsWithout 35 (x ∷ xs)
    → IsStart (x ∷ xs)
    → IsEnd (x ∷ xs)
    → read_line (x ∷ (xs ++ 10 ∷ [])) ≡ trimmed_line (x ∷ xs)
read_line_text x xs w s e =
    ap (λ k. trimmed_line (strtrim k))
      (before_byte_without 35 (x ∷ (xs ++ 10 ∷ []))
        (w.0, IsWithout-append 35 xs (10 ∷ []) w.1 (refl, tt)))
    ∙ ap trimmed_line (strtrim_newline x xs s e)

trimmed_line_section :
    (name : List ℕ) → 0 < length name → trimmed_line (section_text name) ≡ Line.section name
trimmed_line_section name l =
    let n : length (name ++ 93 ∷ []) ≡ suc (length name) =
      omega (arith, length-append name (93 ∷ [])) in
    let long : leb (suc (length name)) 1 ≡ false = ground arith in
    let short : suc (length name) - 1 ≡ length name = omega arith in
    rw (ends_with-append 93 91 name, n, long, short, take-append 93 name) refl

split_directive_text :
    (key value : List ℕ)
    → IsPrintable (Line.directive key value)
    → split_directive (directive_text key value) ≡ Line.directive key value
split_directive_text key value h =
    rw
      (
        split_directive,
        behind_byte_at 61 key value h.2,
        before_byte_at 61 key value h.2,
        strtrim_same key h.4 h.5,
        strtrim_same value h.6 h.7,
      )
      refl

-- A printed line is read as what it is.
read_line-print_line : (l : Line) → IsPrintable l → read_line (print_line l) ≡ l
read_line-print_line Line.blank h = refl
read_line-print_line Line.bad h = elim h [ ]
read_line-print_line (Line.section name) h =
    read_line_text 91 (name ++ 93 ∷ []) (refl, IsWithout-append 35 name (93 ∷ []) h.0 (refl, tt))
      refl (IsEnd-append 93 (91 ∷ name) [] refl)
    ∙ trimmed_line_section name h.1
read_line-print_line (Line.directive [] value) h =
    read_line_text 61 value (refl, h.1) refl (IsEnd-equals value h.7)
    ∙ split_directive_text [] value h
read_line-print_line (Line.directive (k ∷ ks) value) h =
    read_line_text k (ks ++ 61 ∷ value) (IsWithout-append 35 (k ∷ ks) (61 ∷ value) h.0 (refl, h.1))
      h.4 (IsEnd-append 61 (k ∷ ks) value (IsEnd-equals value h.7))
    ∙ rw (h.3) (split_directive_text (k ∷ ks) value h)

-- The calls that some lines ask for.
abbrev pub calls_for : Option (List ℕ) → List Line → List Call
calls_for section_name [] = Call.at_end ∷ []
calls_for section_name (Line.blank ∷ ls) = calls_for section_name ls
calls_for section_name (Line.bad ∷ ls) = []
calls_for section_name (Line.section name ∷ ls) = Call.at_section name ∷ calls_for (some name) ls
calls_for section_name (Line.directive key value ∷ ls) =
    Call.at_directive section_name key value ∷ calls_for section_name ls

-- A callback that keeps its calls and returns 0.
abbrev pub keep : Call → List Call → ℕ × List Call
keep c calls = (0, calls ++ c ∷ [])

append_cons : (xs ys : List Call) (c : Call) → (xs ++ c ∷ []) ++ ys ≡ xs ++ c ∷ ys
append_cons [] ys c = refl
append_cons (x ∷ xs) ys c = ap (λ k. x ∷ k) (append_cons xs ys c)

parse_line-calls_for :
    (section_name : Option (List ℕ)) (l : Line) (ls : List Line) (calls : List Call)
    → IsPrintable l
    → (rest : Option (List ℕ) → List Call → ℕ × List Call)
    → ((name : Option (List ℕ)) (d : List Call) → rest name d ≡ (0, d ++ calls_for name ls))
    → parse_line keep section_name l calls rest ≡ (0, calls ++ calls_for section_name (l ∷ ls))
parse_line-calls_for section_name Line.blank ls calls h rest e = e section_name calls
parse_line-calls_for section_name Line.bad ls calls h rest e = elim h [ ]
parse_line-calls_for section_name (Line.section name) ls calls h rest e =
    let c = Call.at_section name in
    e (some name) (calls ++ c ∷ [])
    ∙ ap (λ k. (0, k)) (append_cons calls (calls_for (some name) ls) c)
parse_line-calls_for section_name (Line.directive key value) ls calls h rest e =
    let c = Call.at_directive section_name key value in
    e section_name (calls ++ c ∷ [])
    ∙ ap (λ k. (0, k)) (append_cons calls (calls_for section_name ls) c)

parse_lines-print_line :
    (section_name : Option (List ℕ)) (ls : List Line) (calls : List Call)
    → All IsPrintable ls
    → parse_lines keep section_name (map print_line ls) calls
      ≡ (0, calls ++ calls_for section_name ls)
unfolding parse_lines
parse_lines-print_line section_name [] calls h = refl
parse_lines-print_line section_name (l ∷ ls) calls h =
    ap
      (λ k.
        parse_line keep section_name k calls
          (λ name d'. parse_lines keep name (map print_line ls) d'))
      (read_line-print_line l h.0)
    ∙ parse_line-calls_for section_name l ls calls h.0
        (λ name d'. parse_lines keep name (map print_line ls) d')
        (λ name d'. parse_lines-print_line name ls d' h.1)

-- From a file of printed lines the reader returns 0, and it makes the calls for just these sections and
-- directives, in their order and each directive with the section that it is in, and then that at
-- the end.
pub parse_ini-print_line :
    (ls : List Line)
    → All IsPrintable ls
    → parse_ini keep (some (map print_line ls)) [] ≡ (0, calls_for none ls)
unfolding parse_ini
parse_ini-print_line ls h = parse_lines-print_line none ls [] h
