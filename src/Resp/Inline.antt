-- ===== src/Resp/Inline.antt =====
-- `splitInline` of internal/resp/resp.go: `strings.Fields`, for lines of ASCII bytes.
use vole.Prelude.{ℕ, Bool, ◌||◌, ◌&&◌, List, [], ◌∷◌, ◌==◌, leb, if◌then◌else◌}
use vole.Prelude.Text.{Text}

-- the white space of Unicode below 128: tab, newline, vertical tab, form feed, return, space
abbrev pub is_space : ℕ → Bool
is_space c = (leb 9 c && leb c 13) || c == 32

-- `word` is what has been read of the current field, `[]` between fields.
cons_word : Text → List Text → List Text
cons_word [] ws = ws
cons_word (c ∷ cs) ws = (c ∷ cs) ∷ ws

-- the first field of a line, up to a space, and the fields behind it
fields_from : Text → Text × List Text
fields_from [] = ([], [])
fields_from (c ∷ s) =
    let (word, ws) = fields_from s in if is_space c then ([], cons_word word ws) else (c ∷ word, ws)

-- `strings.Fields`. `splitInline` trims the line first, which leaves its fields as they are, and
-- returns nil for an empty line, as `Fields` does.
unfoldable pub split_inline : Text → List Text
unfolding fields_from cons_word
split_inline s = let (word, ws) = fields_from s in cons_word word ws
