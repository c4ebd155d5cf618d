-- ===== src/Namespace/Commands.antt =====
-- internal/server/namespace.go: the words of the cases of `prefixKeyArgs`.
use vole.Prelude.{List, [], ◌∷◌}
use vole.Prelude.Text.{Text}

abbrev pub first_key : List Text
first_key =
    (b'G' ∷ b'E' ∷ b'T' ∷ [])
    ∷ (b'S' ∷ b'E' ∷ b'T' ∷ [])
    ∷ (b'S' ∷ b'E' ∷ b'T' ∷ b'N' ∷ b'X' ∷ [])
    ∷ (b'S' ∷ b'E' ∷ b'T' ∷ b'E' ∷ b'X' ∷ [])
    ∷ (b'P' ∷ b'S' ∷ b'E' ∷ b'T' ∷ b'E' ∷ b'X' ∷ [])
    ∷ (b'T' ∷ b'Y' ∷ b'P' ∷ b'E' ∷ [])
    ∷ (b'T' ∷ b'T' ∷ b'L' ∷ [])
    ∷ (b'P' ∷ b'T' ∷ b'T' ∷ b'L' ∷ [])
    ∷ (b'E' ∷ b'X' ∷ b'P' ∷ b'I' ∷ b'R' ∷ b'E' ∷ [])
    ∷ (b'P' ∷ b'E' ∷ b'X' ∷ b'P' ∷ b'I' ∷ b'R' ∷ b'E' ∷ [])
    ∷ (b'E' ∷ b'X' ∷ b'P' ∷ b'I' ∷ b'R' ∷ b'E' ∷ b'A' ∷ b'T' ∷ [])
    ∷ (b'P' ∷ b'E' ∷ b'X' ∷ b'P' ∷ b'I' ∷ b'R' ∷ b'E' ∷ b'A' ∷ b'T' ∷ [])
    ∷ (b'P' ∷ b'E' ∷ b'R' ∷ b'S' ∷ b'I' ∷ b'S' ∷ b'T' ∷ [])
    ∷ (b'I' ∷ b'N' ∷ b'C' ∷ b'R' ∷ [])
    ∷ (b'I' ∷ b'N' ∷ b'C' ∷ b'R' ∷ b'B' ∷ b'Y' ∷ [])
    ∷ (b'D' ∷ b'E' ∷ b'C' ∷ b'R' ∷ [])
    ∷ (b'D' ∷ b'E' ∷ b'C' ∷ b'R' ∷ b'B' ∷ b'Y' ∷ [])
    ∷ (b'I' ∷ b'N' ∷ b'C' ∷ b'R' ∷ b'B' ∷ b'Y' ∷ b'F' ∷ b'L' ∷ b'O' ∷ b'A' ∷ b'T' ∷ [])
    ∷ (b'S' ∷ b'T' ∷ b'R' ∷ b'L' ∷ b'E' ∷ b'N' ∷ [])
    ∷ (b'A' ∷ b'P' ∷ b'P' ∷ b'E' ∷ b'N' ∷ b'D' ∷ [])
    ∷ (b'G' ∷ b'E' ∷ b'T' ∷ b'D' ∷ b'E' ∷ b'L' ∷ [])
    ∷ (b'G' ∷ b'E' ∷ b'T' ∷ b'S' ∷ b'E' ∷ b'T' ∷ [])
    ∷ (b'G' ∷ b'E' ∷ b'T' ∷ b'E' ∷ b'X' ∷ [])
    ∷ (b'G' ∷ b'E' ∷ b'T' ∷ b'R' ∷ b'A' ∷ b'N' ∷ b'G' ∷ b'E' ∷ [])
    ∷ (b'S' ∷ b'E' ∷ b'T' ∷ b'R' ∷ b'A' ∷ b'N' ∷ b'G' ∷ b'E' ∷ [])
    ∷ (b'R' ∷ b'A' ∷ b'T' ∷ b'E' ∷ b'L' ∷ b'I' ∷ b'M' ∷ b'I' ∷ b'T' ∷ [])
    ∷ (b'R' ∷ b'A' ∷ b'T' ∷ b'E' ∷ b'L' ∷ b'I' ∷ b'M' ∷ b'I' ∷ b'T' ∷ b'.' ∷ b'P' ∷ b'E' ∷ b'E'
        ∷ b'K' ∷ [])
    ∷ (b'R' ∷ b'A' ∷ b'T' ∷ b'E' ∷ b'L' ∷ b'I' ∷ b'M' ∷ b'I' ∷ b'T' ∷ b'.' ∷ b'R' ∷ b'E' ∷ b'S'
        ∷ b'E' ∷ b'T' ∷ [])
    ∷ (b'S' ∷ b'E' ∷ b'T' ∷ b'D' ∷ b'E' ∷ b'L' ∷ b'A' ∷ b'Y' ∷ b'E' ∷ b'D' ∷ [])
    ∷ (b'H' ∷ b'S' ∷ b'E' ∷ b'T' ∷ [])
    ∷ (b'H' ∷ b'G' ∷ b'E' ∷ b'T' ∷ [])
    ∷ (b'H' ∷ b'G' ∷ b'E' ∷ b'T' ∷ b'A' ∷ b'L' ∷ b'L' ∷ [])
    ∷ (b'H' ∷ b'D' ∷ b'E' ∷ b'L' ∷ [])
    ∷ (b'H' ∷ b'L' ∷ b'E' ∷ b'N' ∷ [])
    ∷ (b'H' ∷ b'E' ∷ b'X' ∷ b'I' ∷ b'S' ∷ b'T' ∷ b'S' ∷ [])
    ∷ (b'H' ∷ b'K' ∷ b'E' ∷ b'Y' ∷ b'S' ∷ [])
    ∷ (b'H' ∷ b'V' ∷ b'A' ∷ b'L' ∷ b'S' ∷ [])
    ∷ (b'H' ∷ b'I' ∷ b'N' ∷ b'C' ∷ b'R' ∷ b'B' ∷ b'Y' ∷ [])
    ∷ (b'H' ∷ b'I' ∷ b'N' ∷ b'C' ∷ b'R' ∷ b'B' ∷ b'Y' ∷ b'F' ∷ b'L' ∷ b'O' ∷ b'A' ∷ b'T' ∷ [])
    ∷ (b'H' ∷ b'S' ∷ b'E' ∷ b'T' ∷ b'N' ∷ b'X' ∷ [])
    ∷ (b'H' ∷ b'M' ∷ b'S' ∷ b'E' ∷ b'T' ∷ [])
    ∷ (b'H' ∷ b'M' ∷ b'G' ∷ b'E' ∷ b'T' ∷ [])
    ∷ (b'L' ∷ b'P' ∷ b'U' ∷ b'S' ∷ b'H' ∷ [])
    ∷ (b'R' ∷ b'P' ∷ b'U' ∷ b'S' ∷ b'H' ∷ [])
    ∷ (b'L' ∷ b'P' ∷ b'U' ∷ b'S' ∷ b'H' ∷ b'X' ∷ [])
    ∷ (b'R' ∷ b'P' ∷ b'U' ∷ b'S' ∷ b'H' ∷ b'X' ∷ [])
    ∷ (b'L' ∷ b'P' ∷ b'O' ∷ b'P' ∷ [])
    ∷ (b'R' ∷ b'P' ∷ b'O' ∷ b'P' ∷ [])
    ∷ (b'L' ∷ b'R' ∷ b'A' ∷ b'N' ∷ b'G' ∷ b'E' ∷ [])
    ∷ (b'L' ∷ b'L' ∷ b'E' ∷ b'N' ∷ [])
    ∷ (b'L' ∷ b'I' ∷ b'N' ∷ b'D' ∷ b'E' ∷ b'X' ∷ [])
    ∷ (b'L' ∷ b'S' ∷ b'E' ∷ b'T' ∷ [])
    ∷ (b'L' ∷ b'I' ∷ b'N' ∷ b'S' ∷ b'E' ∷ b'R' ∷ b'T' ∷ [])
    ∷ (b'L' ∷ b'P' ∷ b'O' ∷ b'S' ∷ [])
    ∷ (b'S' ∷ b'A' ∷ b'D' ∷ b'D' ∷ [])
    ∷ (b'S' ∷ b'R' ∷ b'E' ∷ b'M' ∷ [])
    ∷ (b'S' ∷ b'M' ∷ b'E' ∷ b'M' ∷ b'B' ∷ b'E' ∷ b'R' ∷ b'S' ∷ [])
    ∷ (b'S' ∷ b'I' ∷ b'S' ∷ b'M' ∷ b'E' ∷ b'M' ∷ b'B' ∷ b'E' ∷ b'R' ∷ [])
    ∷ (b'S' ∷ b'C' ∷ b'A' ∷ b'R' ∷ b'D' ∷ [])
    ∷ (b'S' ∷ b'R' ∷ b'A' ∷ b'N' ∷ b'D' ∷ b'M' ∷ b'E' ∷ b'M' ∷ b'B' ∷ b'E' ∷ b'R' ∷ [])
    ∷ (b'S' ∷ b'P' ∷ b'O' ∷ b'P' ∷ [])
    ∷ (b'Z' ∷ b'A' ∷ b'D' ∷ b'D' ∷ [])
    ∷ (b'Z' ∷ b'R' ∷ b'A' ∷ b'N' ∷ b'G' ∷ b'E' ∷ [])
    ∷ (b'Z' ∷ b'R' ∷ b'A' ∷ b'N' ∷ b'G' ∷ b'E' ∷ b'B' ∷ b'Y' ∷ b'S' ∷ b'C' ∷ b'O' ∷ b'R' ∷ b'E'
        ∷ [])
    ∷ (b'Z' ∷ b'R' ∷ b'E' ∷ b'V' ∷ b'R' ∷ b'A' ∷ b'N' ∷ b'G' ∷ b'E' ∷ b'B' ∷ b'Y' ∷ b'S' ∷ b'C'
        ∷ b'O' ∷ b'R' ∷ b'E' ∷ [])
    ∷ (b'Z' ∷ b'R' ∷ b'E' ∷ b'V' ∷ b'R' ∷ b'A' ∷ b'N' ∷ b'G' ∷ b'E' ∷ [])
    ∷ (b'Z' ∷ b'R' ∷ b'E' ∷ b'M' ∷ [])
    ∷ (b'Z' ∷ b'S' ∷ b'C' ∷ b'O' ∷ b'R' ∷ b'E' ∷ [])
    ∷ (b'Z' ∷ b'C' ∷ b'A' ∷ b'R' ∷ b'D' ∷ [])
    ∷ (b'Z' ∷ b'R' ∷ b'A' ∷ b'N' ∷ b'K' ∷ [])
    ∷ (b'Z' ∷ b'R' ∷ b'E' ∷ b'V' ∷ b'R' ∷ b'A' ∷ b'N' ∷ b'K' ∷ [])
    ∷ (b'Z' ∷ b'C' ∷ b'O' ∷ b'U' ∷ b'N' ∷ b'T' ∷ [])
    ∷ (b'Z' ∷ b'I' ∷ b'N' ∷ b'C' ∷ b'R' ∷ b'B' ∷ b'Y' ∷ [])
    ∷ (b'Z' ∷ b'L' ∷ b'E' ∷ b'X' ∷ b'C' ∷ b'O' ∷ b'U' ∷ b'N' ∷ b'T' ∷ [])
    ∷ (b'Z' ∷ b'R' ∷ b'A' ∷ b'N' ∷ b'G' ∷ b'E' ∷ b'B' ∷ b'Y' ∷ b'L' ∷ b'E' ∷ b'X' ∷ [])
    ∷ (b'X' ∷ b'A' ∷ b'D' ∷ b'D' ∷ [])
    ∷ (b'X' ∷ b'R' ∷ b'A' ∷ b'N' ∷ b'G' ∷ b'E' ∷ [])
    ∷ (b'X' ∷ b'R' ∷ b'E' ∷ b'V' ∷ b'R' ∷ b'A' ∷ b'N' ∷ b'G' ∷ b'E' ∷ [])
    ∷ (b'X' ∷ b'L' ∷ b'E' ∷ b'N' ∷ [])
    ∷ (b'X' ∷ b'R' ∷ b'E' ∷ b'A' ∷ b'D' ∷ [])
    ∷ (b'S' ∷ b'E' ∷ b'T' ∷ b'B' ∷ b'I' ∷ b'T' ∷ [])
    ∷ (b'G' ∷ b'E' ∷ b'T' ∷ b'B' ∷ b'I' ∷ b'T' ∷ [])
    ∷ (b'B' ∷ b'I' ∷ b'T' ∷ b'C' ∷ b'O' ∷ b'U' ∷ b'N' ∷ b'T' ∷ [])
    ∷ (b'B' ∷ b'I' ∷ b'T' ∷ b'P' ∷ b'O' ∷ b'S' ∷ [])
    ∷ (b'P' ∷ b'F' ∷ b'A' ∷ b'D' ∷ b'D' ∷ [])
    ∷ (b'P' ∷ b'F' ∷ b'C' ∷ b'O' ∷ b'U' ∷ b'N' ∷ b'T' ∷ [])
    ∷ (b'G' ∷ b'E' ∷ b'O' ∷ b'A' ∷ b'D' ∷ b'D' ∷ [])
    ∷ (b'G' ∷ b'E' ∷ b'O' ∷ b'P' ∷ b'O' ∷ b'S' ∷ [])
    ∷ (b'G' ∷ b'E' ∷ b'O' ∷ b'D' ∷ b'I' ∷ b'S' ∷ b'T' ∷ [])
    ∷ (b'G' ∷ b'E' ∷ b'O' ∷ b'S' ∷ b'E' ∷ b'A' ∷ b'R' ∷ b'C' ∷ b'H' ∷ [])
    ∷ (b'O' ∷ b'B' ∷ b'J' ∷ b'E' ∷ b'C' ∷ b'T' ∷ [])
    ∷ (b'E' ∷ b'X' ∷ b'P' ∷ b'I' ∷ b'R' ∷ b'E' ∷ b'T' ∷ b'I' ∷ b'M' ∷ b'E' ∷ [])
    ∷ (b'P' ∷ b'E' ∷ b'X' ∷ b'P' ∷ b'I' ∷ b'R' ∷ b'E' ∷ b'T' ∷ b'I' ∷ b'M' ∷ b'E' ∷ [])
    ∷ (b'T' ∷ b'O' ∷ b'U' ∷ b'C' ∷ b'H' ∷ [])
    ∷ (b'U' ∷ b'N' ∷ b'L' ∷ b'I' ∷ b'N' ∷ b'K' ∷ [])
    ∷ (b'S' ∷ b'O' ∷ b'R' ∷ b'T' ∷ [])
    ∷ (b'D' ∷ b'U' ∷ b'M' ∷ b'P' ∷ [])
    ∷ (b'R' ∷ b'E' ∷ b'S' ∷ b'T' ∷ b'O' ∷ b'R' ∷ b'E' ∷ [])
    ∷ (b'D' ∷ b'E' ∷ b'B' ∷ b'U' ∷ b'G' ∷ [])
    ∷ []

abbrev pub pattern_first : List Text
pattern_first = (b'K' ∷ b'E' ∷ b'Y' ∷ b'S' ∷ []) ∷ []

abbrev pub all_keys : List Text
all_keys =
    (b'D' ∷ b'E' ∷ b'L' ∷ [])
    ∷ (b'E' ∷ b'X' ∷ b'I' ∷ b'S' ∷ b'T' ∷ b'S' ∷ [])
    ∷ (b'M' ∷ b'G' ∷ b'E' ∷ b'T' ∷ [])
    ∷ []

abbrev pub alternate_keys : List Text
alternate_keys =
    (b'M' ∷ b'S' ∷ b'E' ∷ b'T' ∷ []) ∷ (b'M' ∷ b'S' ∷ b'E' ∷ b'T' ∷ b'N' ∷ b'X' ∷ []) ∷ []

abbrev pub set_keys : List Text
set_keys =
    (b'S' ∷ b'I' ∷ b'N' ∷ b'T' ∷ b'E' ∷ b'R' ∷ [])
    ∷ (b'S' ∷ b'U' ∷ b'N' ∷ b'I' ∷ b'O' ∷ b'N' ∷ [])
    ∷ (b'S' ∷ b'D' ∷ b'I' ∷ b'F' ∷ b'F' ∷ [])
    ∷ (b'S' ∷ b'I' ∷ b'N' ∷ b'T' ∷ b'E' ∷ b'R' ∷ b'S' ∷ b'T' ∷ b'O' ∷ b'R' ∷ b'E' ∷ [])
    ∷ (b'S' ∷ b'U' ∷ b'N' ∷ b'I' ∷ b'O' ∷ b'N' ∷ b'S' ∷ b'T' ∷ b'O' ∷ b'R' ∷ b'E' ∷ [])
    ∷ (b'S' ∷ b'D' ∷ b'I' ∷ b'F' ∷ b'F' ∷ b'S' ∷ b'T' ∷ b'O' ∷ b'R' ∷ b'E' ∷ [])
    ∷ []

abbrev pub rename_keys : List Text
rename_keys =
    (b'R' ∷ b'E' ∷ b'N' ∷ b'A' ∷ b'M' ∷ b'E' ∷ [])
    ∷ (b'R' ∷ b'E' ∷ b'N' ∷ b'A' ∷ b'M' ∷ b'E' ∷ b'N' ∷ b'X' ∷ [])
    ∷ []

abbrev pub copy_keys : List Text
copy_keys = (b'C' ∷ b'O' ∷ b'P' ∷ b'Y' ∷ []) ∷ []

abbrev pub move_keys : List Text
move_keys =
    (b'R' ∷ b'P' ∷ b'O' ∷ b'P' ∷ b'L' ∷ b'P' ∷ b'U' ∷ b'S' ∷ b'H' ∷ [])
    ∷ (b'L' ∷ b'M' ∷ b'O' ∷ b'V' ∷ b'E' ∷ [])
    ∷ (b'S' ∷ b'M' ∷ b'O' ∷ b'V' ∷ b'E' ∷ [])
    ∷ []

abbrev pub blocking_keys : List Text
blocking_keys =
    (b'B' ∷ b'L' ∷ b'P' ∷ b'O' ∷ b'P' ∷ []) ∷ (b'B' ∷ b'R' ∷ b'P' ∷ b'O' ∷ b'P' ∷ []) ∷ []

abbrev pub merge_keys : List Text
merge_keys = (b'P' ∷ b'F' ∷ b'M' ∷ b'E' ∷ b'R' ∷ b'G' ∷ b'E' ∷ []) ∷ []

abbrev pub bitop_keys : List Text
bitop_keys = (b'B' ∷ b'I' ∷ b'T' ∷ b'O' ∷ b'P' ∷ []) ∷ []
