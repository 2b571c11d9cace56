-- ===== src/Utils/Ini.antt =====
-- The reader of configuration files: utils/ini.c, and `strtrim` of utils/utils.c. A text is its
-- bytes, none of which is 0. A file is the lines that `fgets` returns, one after the other.
mod Trim
mod Print
mod Tests
use pma.Base.{
  ℕ, zero, suc, ◌-◌, Bool, true, false, ◌&&◌, ◌||◌, Option, none, some, List, [], ◌∷◌,
  if◌then◌else◌, ◌==◌, leb, length, take,
}

-- `isspace` of the C locale.
abbrev pub isspace : ℕ → Bool
isspace c = (c == 32) || (leb 9 c && leb c 13)

-- The first loop of `strtrim`.
abbrev pub drop_spaces : List ℕ → List ℕ
drop_spaces [] = []
drop_spaces (c ∷ cs) = let rest = drop_spaces cs in if isspace c then rest else c ∷ cs

-- One byte in front of what the second loop of `strtrim` leaves, which goes from the end on.
abbrev pub trim_cons : ℕ → List ℕ → List ℕ
trim_cons c [] = if isspace c then [] else c ∷ []
trim_cons c (d ∷ ds) = c ∷ d ∷ ds

abbrev pub trim_end : List ℕ → List ℕ
trim_end [] = []
trim_end (c ∷ cs) = trim_cons c (trim_end cs)

-- The text afterwards; the result is its length.
abbrev pub strtrim : List ℕ → List ℕ
strtrim str = trim_end (drop_spaces str)

-- The text before the first such byte.
abbrev pub before_byte : ℕ → List ℕ → List ℕ
before_byte b [] = []
before_byte b (c ∷ cs) = let rest = before_byte b cs in if c == b then [] else c ∷ rest

-- `strsep`: what is behind the first such byte, or NULL.
abbrev pub behind_byte : ℕ → List ℕ → Option (List ℕ)
behind_byte b [] = none
behind_byte b (c ∷ cs) = let rest = behind_byte b cs in if c == b then some cs else rest

abbrev pub ends_with : ℕ → List ℕ → Bool
ends_with b [] = false
ends_with b (c ∷ []) = c == b
ends_with b (c ∷ d ∷ cs) = ends_with b (d ∷ cs)

-- What a line is: nothing, a section, a key with its value, or an error.
pub data Line : Type 0 where
  blank : Line
  section : List ℕ → Line
  directive : List ℕ → List ℕ → Line
  bad : Line

-- 35 is `#`, 91 and 93 are `[` and `]`, and 61 is `=`.
abbrev pub split_directive : List ℕ → Line
split_directive line = elim (behind_byte 61 line) [
  | none ↦ bad
  | some value ↦ directive (strtrim (before_byte 61 line)) (strtrim value)
]

abbrev pub trimmed_line : List ℕ → Line
trimmed_line [] = blank
trimmed_line (c ∷ cs) =
    if (c == 91) && ends_with 93 (c ∷ cs)
    then if leb (length cs) 1 then bad else section (take (length cs - 1) cs)
    else split_directive (c ∷ cs)

abbrev pub read_line : List ℕ → Line
read_line line = trimmed_line (strtrim (before_byte 35 line))

-- The arguments of a call of the callback, less the file and the line number, which are for messages.
pub data Call : Type 0 where
  at_section : List ℕ → Call
  at_directive : Option (List ℕ) → List ℕ → List ℕ → Call
  at_end : Call

module _ {ℓ} {D : Type ℓ} (cb : Call → D → ℕ × D) where
  -- The body of the loop of `_parse_ini`: `rest` is what becomes of the lines behind it.
  abbrev pub parse_line : Option (List ℕ) → Line → D → (Option (List ℕ) → D → ℕ × D) → ℕ × D
  parse_line section_name blank d rest = rest section_name d
  parse_line section_name bad d rest = (1, d)
  parse_line section_name (section name) d rest =
      let (ret, d') = cb (at_section name) d in if ret == 0 then rest (some name) d' else (ret, d')
  parse_line section_name (directive key value) d rest =
      let (ret, d') = cb (at_directive section_name key value) d in
      if ret == 0 then rest section_name d' else (ret, d')

  -- The loop: its result and the data, with the last call at the end of the file.
  unfoldable pub parse_lines : Option (List ℕ) → List (List ℕ) → D → ℕ × D
  parse_lines section_name [] d = cb at_end d
  parse_lines section_name (line ∷ lines) d =
      parse_line section_name (read_line line) d (λ name d'. parse_lines name lines d')

  -- `none` is a file that cannot be opened.
  unfoldable pub parse_ini : Option (List (List ℕ)) → D → ℕ × D
  unfolding parse_lines
  parse_ini none d = (1, d)
  parse_ini (some lines) d = parse_lines none lines d
