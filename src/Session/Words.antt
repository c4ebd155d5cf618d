-- ===== src/Session/Words.antt =====
-- internal/server/server.go: the words of the cases of `isWriteCommand`, and those of `handleConn`.
use vole.Prelude.{List, [], ◌∷◌}
use vole.Prelude.Text.{Text}

abbrev pub multi_word : Text
multi_word = b'M' ∷ b'U' ∷ b'L' ∷ b'T' ∷ b'I' ∷ []

abbrev pub exec_word : Text
exec_word = b'E' ∷ b'X' ∷ b'E' ∷ b'C' ∷ []

abbrev pub discard_word : Text
discard_word = b'D' ∷ b'I' ∷ b'S' ∷ b'C' ∷ b'A' ∷ b'R' ∷ b'D' ∷ []

abbrev pub watch_word : Text
watch_word = b'W' ∷ b'A' ∷ b'T' ∷ b'C' ∷ b'H' ∷ []

abbrev pub unwatch_word : Text
unwatch_word = b'U' ∷ b'N' ∷ b'W' ∷ b'A' ∷ b'T' ∷ b'C' ∷ b'H' ∷ []

abbrev pub auth_word : Text
auth_word = b'A' ∷ b'U' ∷ b'T' ∷ b'H' ∷ []

abbrev pub ping_word : Text
ping_word = b'P' ∷ b'I' ∷ b'N' ∷ b'G' ∷ []

abbrev pub hello_word : Text
hello_word = b'H' ∷ b'E' ∷ b'L' ∷ b'L' ∷ b'O' ∷ []

abbrev pub write_words : List Text
write_words =
    (b'S' ∷ b'E' ∷ b'T' ∷ [])
    ∷ (b'S' ∷ b'E' ∷ b'T' ∷ b'N' ∷ b'X' ∷ [])
    ∷ (b'S' ∷ b'E' ∷ b'T' ∷ b'E' ∷ b'X' ∷ [])
    ∷ (b'P' ∷ b'S' ∷ b'E' ∷ b'T' ∷ b'E' ∷ b'X' ∷ [])
    ∷ (b'M' ∷ b'S' ∷ b'E' ∷ b'T' ∷ [])
    ∷ (b'M' ∷ b'S' ∷ b'E' ∷ b'T' ∷ b'N' ∷ b'X' ∷ [])
    ∷ (b'A' ∷ b'P' ∷ b'P' ∷ b'E' ∷ b'N' ∷ b'D' ∷ [])
    ∷ (b'I' ∷ b'N' ∷ b'C' ∷ b'R' ∷ [])
    ∷ (b'I' ∷ b'N' ∷ b'C' ∷ b'R' ∷ b'B' ∷ b'Y' ∷ [])
    ∷ (b'I' ∷ b'N' ∷ b'C' ∷ b'R' ∷ b'B' ∷ b'Y' ∷ b'F' ∷ b'L' ∷ b'O' ∷ b'A' ∷ b'T' ∷ [])
    ∷ (b'D' ∷ b'E' ∷ b'C' ∷ b'R' ∷ [])
    ∷ (b'D' ∷ b'E' ∷ b'C' ∷ b'R' ∷ b'B' ∷ b'Y' ∷ [])
    ∷ (b'D' ∷ b'E' ∷ b'L' ∷ [])
    ∷ (b'R' ∷ b'E' ∷ b'N' ∷ b'A' ∷ b'M' ∷ b'E' ∷ [])
    ∷ (b'C' ∷ b'O' ∷ b'P' ∷ b'Y' ∷ [])
    ∷ (b'E' ∷ b'X' ∷ b'P' ∷ b'I' ∷ b'R' ∷ b'E' ∷ [])
    ∷ (b'E' ∷ b'X' ∷ b'P' ∷ b'I' ∷ b'R' ∷ b'E' ∷ b'A' ∷ b'T' ∷ [])
    ∷ (b'P' ∷ b'E' ∷ b'X' ∷ b'P' ∷ b'I' ∷ b'R' ∷ b'E' ∷ [])
    ∷ (b'P' ∷ b'E' ∷ b'X' ∷ b'P' ∷ b'I' ∷ b'R' ∷ b'E' ∷ b'A' ∷ b'T' ∷ [])
    ∷ (b'P' ∷ b'E' ∷ b'R' ∷ b'S' ∷ b'I' ∷ b'S' ∷ b'T' ∷ [])
    ∷ (b'H' ∷ b'S' ∷ b'E' ∷ b'T' ∷ [])
    ∷ (b'H' ∷ b'S' ∷ b'E' ∷ b'T' ∷ b'N' ∷ b'X' ∷ [])
    ∷ (b'H' ∷ b'M' ∷ b'S' ∷ b'E' ∷ b'T' ∷ [])
    ∷ (b'H' ∷ b'I' ∷ b'N' ∷ b'C' ∷ b'R' ∷ b'B' ∷ b'Y' ∷ [])
    ∷ (b'H' ∷ b'I' ∷ b'N' ∷ b'C' ∷ b'R' ∷ b'B' ∷ b'Y' ∷ b'F' ∷ b'L' ∷ b'O' ∷ b'A' ∷ b'T' ∷ [])
    ∷ (b'H' ∷ b'D' ∷ b'E' ∷ b'L' ∷ [])
    ∷ (b'L' ∷ b'P' ∷ b'U' ∷ b'S' ∷ b'H' ∷ [])
    ∷ (b'R' ∷ b'P' ∷ b'U' ∷ b'S' ∷ b'H' ∷ [])
    ∷ (b'L' ∷ b'P' ∷ b'U' ∷ b'S' ∷ b'H' ∷ b'X' ∷ [])
    ∷ (b'R' ∷ b'P' ∷ b'U' ∷ b'S' ∷ b'H' ∷ b'X' ∷ [])
    ∷ (b'L' ∷ b'P' ∷ b'O' ∷ b'P' ∷ [])
    ∷ (b'R' ∷ b'P' ∷ b'O' ∷ b'P' ∷ [])
    ∷ (b'L' ∷ b'S' ∷ b'E' ∷ b'T' ∷ [])
    ∷ (b'L' ∷ b'I' ∷ b'N' ∷ b'S' ∷ b'E' ∷ b'R' ∷ b'T' ∷ [])
    ∷ (b'L' ∷ b'R' ∷ b'E' ∷ b'M' ∷ [])
    ∷ (b'S' ∷ b'A' ∷ b'D' ∷ b'D' ∷ [])
    ∷ (b'S' ∷ b'R' ∷ b'E' ∷ b'M' ∷ [])
    ∷ (b'S' ∷ b'M' ∷ b'O' ∷ b'V' ∷ b'E' ∷ [])
    ∷ (b'S' ∷ b'P' ∷ b'O' ∷ b'P' ∷ [])
    ∷ (b'S' ∷ b'U' ∷ b'N' ∷ b'I' ∷ b'O' ∷ b'N' ∷ b'S' ∷ b'T' ∷ b'O' ∷ b'R' ∷ b'E' ∷ [])
    ∷ (b'S' ∷ b'I' ∷ b'N' ∷ b'T' ∷ b'E' ∷ b'R' ∷ b'S' ∷ b'T' ∷ b'O' ∷ b'R' ∷ b'E' ∷ [])
    ∷ (b'S' ∷ b'D' ∷ b'I' ∷ b'F' ∷ b'F' ∷ b'S' ∷ b'T' ∷ b'O' ∷ b'R' ∷ b'E' ∷ [])
    ∷ (b'Z' ∷ b'A' ∷ b'D' ∷ b'D' ∷ [])
    ∷ (b'Z' ∷ b'R' ∷ b'E' ∷ b'M' ∷ [])
    ∷ (b'Z' ∷ b'I' ∷ b'N' ∷ b'C' ∷ b'R' ∷ b'B' ∷ b'Y' ∷ [])
    ∷ (b'Z' ∷ b'P' ∷ b'O' ∷ b'P' ∷ b'M' ∷ b'I' ∷ b'N' ∷ [])
    ∷ (b'Z' ∷ b'P' ∷ b'O' ∷ b'P' ∷ b'M' ∷ b'A' ∷ b'X' ∷ [])
    ∷ (b'Z' ∷ b'U' ∷ b'N' ∷ b'I' ∷ b'O' ∷ b'N' ∷ b'S' ∷ b'T' ∷ b'O' ∷ b'R' ∷ b'E' ∷ [])
    ∷ (b'Z' ∷ b'I' ∷ b'N' ∷ b'T' ∷ b'E' ∷ b'R' ∷ b'S' ∷ b'T' ∷ b'O' ∷ b'R' ∷ b'E' ∷ [])
    ∷ (b'X' ∷ b'A' ∷ b'D' ∷ b'D' ∷ [])
    ∷ (b'X' ∷ b'G' ∷ b'R' ∷ b'O' ∷ b'U' ∷ b'P' ∷ [])
    ∷ (b'X' ∷ b'A' ∷ b'C' ∷ b'K' ∷ [])
    ∷ (b'P' ∷ b'F' ∷ b'A' ∷ b'D' ∷ b'D' ∷ [])
    ∷ (b'P' ∷ b'F' ∷ b'M' ∷ b'E' ∷ b'R' ∷ b'G' ∷ b'E' ∷ [])
    ∷ (b'S' ∷ b'E' ∷ b'T' ∷ b'B' ∷ b'I' ∷ b'T' ∷ [])
    ∷ (b'S' ∷ b'E' ∷ b'T' ∷ b'R' ∷ b'A' ∷ b'N' ∷ b'G' ∷ b'E' ∷ [])
    ∷ (b'G' ∷ b'E' ∷ b'T' ∷ b'S' ∷ b'E' ∷ b'T' ∷ [])
    ∷ (b'G' ∷ b'E' ∷ b'T' ∷ b'D' ∷ b'E' ∷ b'L' ∷ [])
    ∷ (b'R' ∷ b'A' ∷ b'T' ∷ b'E' ∷ b'L' ∷ b'I' ∷ b'M' ∷ b'I' ∷ b'T' ∷ [])
    ∷ (b'R' ∷ b'A' ∷ b'T' ∷ b'E' ∷ b'L' ∷ b'I' ∷ b'M' ∷ b'I' ∷ b'T' ∷ b'.' ∷ b'R' ∷ b'E' ∷ b'S'
        ∷ b'E' ∷ b'T' ∷ [])
    ∷ (b'S' ∷ b'E' ∷ b'T' ∷ b'D' ∷ b'E' ∷ b'L' ∷ b'A' ∷ b'Y' ∷ b'E' ∷ b'D' ∷ [])
    ∷ (b'E' ∷ b'N' ∷ b'Q' ∷ b'U' ∷ b'E' ∷ b'U' ∷ b'E' ∷ [])
    ∷ (b'Q' ∷ b'A' ∷ b'C' ∷ b'K' ∷ [])
    ∷ (b'Q' ∷ b'N' ∷ b'A' ∷ b'C' ∷ b'K' ∷ [])
    ∷ (b'J' ∷ b'S' ∷ b'O' ∷ b'N' ∷ b'.' ∷ b'S' ∷ b'E' ∷ b'T' ∷ [])
    ∷ (b'J' ∷ b'S' ∷ b'O' ∷ b'N' ∷ b'.' ∷ b'D' ∷ b'E' ∷ b'L' ∷ [])
    ∷ (b'J' ∷ b'S' ∷ b'O' ∷ b'N' ∷ b'.' ∷ b'N' ∷ b'U' ∷ b'M' ∷ b'I' ∷ b'N' ∷ b'C' ∷ b'R' ∷ b'B'
        ∷ b'Y' ∷ [])
    ∷ (b'J' ∷ b'S' ∷ b'O' ∷ b'N' ∷ b'.' ∷ b'A' ∷ b'R' ∷ b'R' ∷ b'A' ∷ b'P' ∷ b'P' ∷ b'E' ∷ b'N'
        ∷ b'D' ∷ [])
    ∷ (b'T' ∷ b'A' ∷ b'G' ∷ [])
    ∷ (b'T' ∷ b'A' ∷ b'G' ∷ b'D' ∷ b'E' ∷ b'L' ∷ [])
    ∷ (b'T' ∷ b'S' ∷ b'.' ∷ b'A' ∷ b'D' ∷ b'D' ∷ [])
    ∷ (b'T' ∷ b'S' ∷ b'.' ∷ b'D' ∷ b'O' ∷ b'W' ∷ b'N' ∷ b'S' ∷ b'A' ∷ b'M' ∷ b'P' ∷ b'L' ∷ b'E'
        ∷ [])
    ∷ []

-- The commands that `handleConn` serves between AUTH and its last `switch`.
abbrev pub apart_words : List Text
apart_words =
    (b'S' ∷ b'U' ∷ b'B' ∷ b'S' ∷ b'C' ∷ b'R' ∷ b'I' ∷ b'B' ∷ b'E' ∷ [])
    ∷ (b'P' ∷ b'S' ∷ b'U' ∷ b'B' ∷ b'S' ∷ b'C' ∷ b'R' ∷ b'I' ∷ b'B' ∷ b'E' ∷ [])
    ∷ (b'R' ∷ b'E' ∷ b'P' ∷ b'L' ∷ b'S' ∷ b'Y' ∷ b'N' ∷ b'C' ∷ [])
    ∷ (b'R' ∷ b'E' ∷ b'P' ∷ b'L' ∷ b'P' ∷ b'E' ∷ b'E' ∷ b'R' ∷ [])
    ∷ (b'U' ∷ b'N' ∷ b'S' ∷ b'U' ∷ b'B' ∷ b'S' ∷ b'C' ∷ b'R' ∷ b'I' ∷ b'B' ∷ b'E' ∷ [])
    ∷ (b'P' ∷ b'U' ∷ b'N' ∷ b'S' ∷ b'U' ∷ b'B' ∷ b'S' ∷ b'C' ∷ b'R' ∷ b'I' ∷ b'B' ∷ b'E' ∷ [])
    ∷ (b'Q' ∷ b'U' ∷ b'I' ∷ b'T' ∷ [])
    ∷ (b'N' ∷ b'A' ∷ b'M' ∷ b'E' ∷ b'S' ∷ b'P' ∷ b'A' ∷ b'C' ∷ b'E' ∷ [])
    ∷ (b'C' ∷ b'L' ∷ b'I' ∷ b'E' ∷ b'N' ∷ b'T' ∷ [])
    ∷ []
