-- ===== src/Session/Answers.antt =====
-- internal/server/server.go, `handleConn`: the texts of its answers.
use vole.Prelude.{[], ◌∷◌}
use vole.Prelude.Text.{Text}

abbrev pub ok_text : Text
ok_text = b'O' ∷ b'K' ∷ []

abbrev pub queued_text : Text
queued_text = b'Q' ∷ b'U' ∷ b'E' ∷ b'U' ∷ b'E' ∷ b'D' ∷ []

abbrev pub nested_text : Text
nested_text =
    b'E' ∷ b'R' ∷ b'R' ∷ 32 ∷ b'M' ∷ b'U' ∷ b'L' ∷ b'T' ∷ b'I' ∷ 32 ∷ b'c' ∷ b'a' ∷ b'l' ∷ b'l'
    ∷ b's' ∷ 32 ∷ b'c' ∷ b'a' ∷ b'n' ∷ 32 ∷ b'n' ∷ b'o' ∷ b't' ∷ 32 ∷ b'b' ∷ b'e' ∷ 32 ∷ b'n' ∷ b'e'
    ∷ b's' ∷ b't' ∷ b'e' ∷ b'd' ∷ []

abbrev pub exec_text : Text
exec_text =
    b'E' ∷ b'R' ∷ b'R' ∷ 32 ∷ b'E' ∷ b'X' ∷ b'E' ∷ b'C' ∷ 32 ∷ b'w' ∷ b'i' ∷ b't' ∷ b'h' ∷ b'o'
    ∷ b'u' ∷ b't' ∷ 32 ∷ b'M' ∷ b'U' ∷ b'L' ∷ b'T' ∷ b'I' ∷ []

abbrev pub discard_text : Text
discard_text =
    b'E' ∷ b'R' ∷ b'R' ∷ 32 ∷ b'D' ∷ b'I' ∷ b'S' ∷ b'C' ∷ b'A' ∷ b'R' ∷ b'D' ∷ 32 ∷ b'w' ∷ b'i'
    ∷ b't' ∷ b'h' ∷ b'o' ∷ b'u' ∷ b't' ∷ 32 ∷ b'M' ∷ b'U' ∷ b'L' ∷ b'T' ∷ b'I' ∷ []

abbrev pub watch_text : Text
watch_text =
    b'E' ∷ b'R' ∷ b'R' ∷ 32 ∷ b'W' ∷ b'A' ∷ b'T' ∷ b'C' ∷ b'H' ∷ 32 ∷ b'i' ∷ b'n' ∷ b's' ∷ b'i'
    ∷ b'd' ∷ b'e' ∷ 32 ∷ b'M' ∷ b'U' ∷ b'L' ∷ b'T' ∷ b'I' ∷ 32 ∷ b'i' ∷ b's' ∷ 32 ∷ b'n' ∷ b'o'
    ∷ b't' ∷ 32 ∷ b'a' ∷ b'l' ∷ b'l' ∷ b'o' ∷ b'w' ∷ b'e' ∷ b'd' ∷ []

abbrev pub watch_count_text : Text
watch_count_text =
    b'E' ∷ b'R' ∷ b'R' ∷ 32 ∷ b'w' ∷ b'r' ∷ b'o' ∷ b'n' ∷ b'g' ∷ 32 ∷ b'n' ∷ b'u' ∷ b'm' ∷ b'b'
    ∷ b'e' ∷ b'r' ∷ 32 ∷ b'o' ∷ b'f' ∷ 32 ∷ b'a' ∷ b'r' ∷ b'g' ∷ b'u' ∷ b'm' ∷ b'e' ∷ b'n' ∷ b't'
    ∷ b's' ∷ 32 ∷ b'f' ∷ b'o' ∷ b'r' ∷ 32 ∷ b'W' ∷ b'A' ∷ b'T' ∷ b'C' ∷ b'H' ∷ []

abbrev pub read_only_text : Text
read_only_text =
    b'R' ∷ b'E' ∷ b'A' ∷ b'D' ∷ b'O' ∷ b'N' ∷ b'L' ∷ b'Y' ∷ 32 ∷ b'Y' ∷ b'o' ∷ b'u' ∷ 32 ∷ b'c'
    ∷ b'a' ∷ b'n' ∷ 39 ∷ b't' ∷ 32 ∷ b'w' ∷ b'r' ∷ b'i' ∷ b't' ∷ b'e' ∷ 32 ∷ b'a' ∷ b'g' ∷ b'a'
    ∷ b'i' ∷ b'n' ∷ b's' ∷ b't' ∷ 32 ∷ b'a' ∷ 32 ∷ b'r' ∷ b'e' ∷ b'a' ∷ b'd' ∷ 32 ∷ b'o' ∷ b'n'
    ∷ b'l' ∷ b'y' ∷ 32 ∷ b'r' ∷ b'e' ∷ b'p' ∷ b'l' ∷ b'i' ∷ b'c' ∷ b'a' ∷ []

abbrev pub no_auth_text : Text
no_auth_text =
    b'N' ∷ b'O' ∷ b'A' ∷ b'U' ∷ b'T' ∷ b'H' ∷ 32 ∷ b'A' ∷ b'u' ∷ b't' ∷ b'h' ∷ b'e' ∷ b'n' ∷ b't'
    ∷ b'i' ∷ b'c' ∷ b'a' ∷ b't' ∷ b'i' ∷ b'o' ∷ b'n' ∷ 32 ∷ b'r' ∷ b'e' ∷ b'q' ∷ b'u' ∷ b'i' ∷ b'r'
    ∷ b'e' ∷ b'd' ∷ b'.' ∷ []

abbrev pub no_password_text : Text
no_password_text =
    b'E' ∷ b'R' ∷ b'R' ∷ 32 ∷ b'C' ∷ b'l' ∷ b'i' ∷ b'e' ∷ b'n' ∷ b't' ∷ 32 ∷ b's' ∷ b'e' ∷ b'n'
    ∷ b't' ∷ 32 ∷ b'A' ∷ b'U' ∷ b'T' ∷ b'H' ∷ b',' ∷ 32 ∷ b'b' ∷ b'u' ∷ b't' ∷ 32 ∷ b'n' ∷ b'o' ∷ 32
    ∷ b'p' ∷ b'a' ∷ b's' ∷ b's' ∷ b'w' ∷ b'o' ∷ b'r' ∷ b'd' ∷ 32 ∷ b'i' ∷ b's' ∷ 32 ∷ b's' ∷ b'e'
    ∷ b't' ∷ []

abbrev pub auth_count_text : Text
auth_count_text =
    b'E' ∷ b'R' ∷ b'R' ∷ 32 ∷ b'w' ∷ b'r' ∷ b'o' ∷ b'n' ∷ b'g' ∷ 32 ∷ b'n' ∷ b'u' ∷ b'm' ∷ b'b'
    ∷ b'e' ∷ b'r' ∷ 32 ∷ b'o' ∷ b'f' ∷ 32 ∷ b'a' ∷ b'r' ∷ b'g' ∷ b'u' ∷ b'm' ∷ b'e' ∷ b'n' ∷ b't'
    ∷ b's' ∷ 32 ∷ b'f' ∷ b'o' ∷ b'r' ∷ 32 ∷ 39 ∷ b'a' ∷ b'u' ∷ b't' ∷ b'h' ∷ 39 ∷ 32 ∷ b'c' ∷ b'o'
    ∷ b'm' ∷ b'm' ∷ b'a' ∷ b'n' ∷ b'd' ∷ []

abbrev pub wrong_password_text : Text
wrong_password_text =
    b'W' ∷ b'R' ∷ b'O' ∷ b'N' ∷ b'G' ∷ b'P' ∷ b'A' ∷ b'S' ∷ b'S' ∷ 32 ∷ b'i' ∷ b'n' ∷ b'v' ∷ b'a'
    ∷ b'l' ∷ b'i' ∷ b'd' ∷ 32 ∷ b'p' ∷ b'a' ∷ b's' ∷ b's' ∷ b'w' ∷ b'o' ∷ b'r' ∷ b'd' ∷ []

abbrev pub err_text : Text
err_text = b'E' ∷ b'R' ∷ b'R' ∷ 32 ∷ []

abbrev pub oom_text : Text
oom_text = b'O' ∷ b'O' ∷ b'M' ∷ 32 ∷ []
