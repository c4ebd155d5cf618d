-- ===== src/Aof/Tests.antt =====
-- The log at concrete entries.
use vole.Prelude.{◌≡◌, ◌↔◌, true, [], ◌∷◌, List, arith}
use vole.Prelude.Text.{Text}
use vole.Aof.{escape, unescape, read_entries}
use vole.Aof.Escape.{is_safe, unescape-escape_iff}
use vole.Aof.Lines.{append_all, readable, read_entries-append_all}

abbrev path_text : Text
path_text = b'C' ∷ b':' ∷ 92 ∷ b'n' ∷ []

abbrev entries : List (List Text)
entries = ((b'S' ∷ b'E' ∷ b'T' ∷ []) ∷ (b'k' ∷ []) ∷ path_text ∷ []) ∷ ((b'D' ∷ []) ∷ []) ∷ []

unescape-escape_iff_example : (unescape (escape path_text) ≡ path_text) ↔ (is_safe path_text ≡ true)
unescape-escape_iff_example = unescape-escape_iff path_text

read_entries-append_all_example : read_entries (append_all entries []) ≡ readable entries
read_entries-append_all_example =
    read_entries-append_all entries (λ e. ground (arith, e), (λ e. ground (arith, e), tt))
