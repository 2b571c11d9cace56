-- ===== src/Utils/Ini/Tests.antt =====
-- A short configuration file, and the theorems at it.
use pma.Base.{◌≡◌, refl, none, some, List, [], ◌∷◌, map, All, arith}
use pma.Utils.Ini.{Line, parse_ini, read_line}
use pma.Utils.Ini.Print.{IsPrintable, print_line, calls_for, keep, parse_ini-print_line}

-- A section `ab` with `k=v`, and a line with nothing on it.
abbrev file : List Line
file = Line.section (97 ∷ 98 ∷ []) ∷ Line.blank ∷ Line.directive (107 ∷ []) (118 ∷ []) ∷ []

printable : All IsPrintable file
printable = (
  ((refl, (refl, tt)), omega arith),
  (tt, (((refl, tt), (refl, tt), (refl, tt), refl, refl, refl, refl, refl), tt)),
)

parse_ini-print_line_example :
    parse_ini keep (some (map print_line file)) [] ≡ (0, calls_for none file)
parse_ini-print_line_example = parse_ini-print_line file printable

-- ` k = v # c`.
first_line :
    read_line (32 ∷ 107 ∷ 32 ∷ 61 ∷ 32 ∷ 118 ∷ 32 ∷ 35 ∷ 32 ∷ 99 ∷ 10 ∷ [])
    ≡ Line.directive (107 ∷ []) (118 ∷ [])
first_line = refl
