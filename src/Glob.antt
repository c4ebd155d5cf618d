-- ===== src/Glob.antt =====
-- internal/store/store.go, `MatchGlob` and `matchBracket`: patterns of keys and channels, on bytes.
pub mod Brackets
pub mod Meaning
pub mod Complete
mod Tests
use vole.Prelude.{
  ℕ, zero, suc, Bool, true, false, not, List, [], ◌∷◌, Option, some, none, length, leb, ◌==◌, ◌&&◌,
  ◌||◌, if◌then◌else◌,
}
use vole.Prelude.Text.{Text}

-- The loop of `matchBracket`: whether `i > 0`, whether the byte matched so far, and the pattern from
-- `i` on. The result is whether it matched, with the pattern behind the bracket; `none` if no
-- bracket closes.
unfoldable pub bracket_loop : ℕ → Bool → Bool → Text → Option (Bool × Text)
bracket_loop ch started matched [] = none
bracket_loop ch started matched (c ∷ []) = if c == b']' && started then some (matched, []) else none
bracket_loop ch started matched (c ∷ d ∷ []) =
    let after_escape = bracket_loop ch true (matched || d == ch) [] in
    let after_one = bracket_loop ch true (matched || c == ch) (d ∷ []) in
    if c == b']' && started
    then some (matched, d ∷ [])
    else (if c == b'\\' then after_escape else after_one)
bracket_loop ch started matched (c ∷ d ∷ e ∷ p) =
    let after_escape = bracket_loop ch true (matched || d == ch) (e ∷ p) in
    let after_range = bracket_loop ch true (matched || leb c ch && leb ch e) p in
    let after_one = bracket_loop ch true (matched || c == ch) (d ∷ e ∷ p) in
    if c == b']' && started
    then some (matched, d ∷ e ∷ p)
    else (if c == b'\\' then after_escape else (if d == b'-' then after_range else after_one))

-- the end of `matchBracket`: the flip of a negated set, and the rest of the pattern
unfoldable pub close_bracket : Bool → Option (Bool × Text) → Option Text
close_bracket negate none = none
close_bracket negate (some (matched, rest)) =
    let hit = if negate then not matched else matched in if hit then some rest else none

-- `matchBracket`
unfoldable pub match_bracket : Text → ℕ → Option Text
unfolding bracket_loop close_bracket
match_bracket [] ch = close_bracket false (bracket_loop ch false false [])
match_bracket (c ∷ p) ch =
    if c == b'^' || c == b'!'
    then close_bracket true (bracket_loop ch false false p)
    else close_bracket false (bracket_loop ch false false (c ∷ p))

-- `for len(pattern) > 0 && pattern[0] == '*'`
unfoldable pub skip_stars : Text → Text
skip_stars [] = []
skip_stars (c ∷ p) = let rest = skip_stars p in if c == b'*' then rest else c ∷ p

-- `for i := 0; i <= len(str); i++ { if MatchGlob(pattern, str[i:]) ... }`
unfoldable pub any_suffix : (Text → Bool) → Text → Bool
any_suffix f [] = f []
any_suffix f (c ∷ s) = f (c ∷ s) || any_suffix f s

unfoldable pub is_empty : Text → Bool
is_empty [] = true
is_empty (c ∷ s) = false

-- a byte that the pattern names, and `rest` for what is behind it
unfoldable pub same_byte : ℕ → Text → (Text → Bool) → Bool
same_byte c [] rest = false
same_byte c (d ∷ s) rest = c == d && rest s

-- `MatchGlob`, with fuel for the loop and for its calls of itself: each takes a byte of the pattern
unfoldable pub match_glob : ℕ → Text → Text → Bool
unfolding match_bracket skip_stars any_suffix is_empty same_byte
match_glob fuel [] s = is_empty s
match_glob zero (c ∷ p) s = false
match_glob (suc fuel) (c ∷ p) s =
    if c == b'*'
    then (is_empty (skip_stars p) || any_suffix (match_glob fuel (skip_stars p)) s)
    else (if c == b'?'
        then (elim s [ [] ↦ false | ◌∷◌ d t ↦ match_glob fuel p t ])
        else (if c == b'['
            then (elim s [
              | [] ↦ false
              | ◌∷◌ d t ↦ elim (match_bracket p d) [
                | none ↦ false
                | some rest ↦ match_glob fuel rest t
              ]
            ])
            else (if c == b'\\'
                then (elim p [ [] ↦ false | ◌∷◌ d q ↦ same_byte d s (match_glob fuel q) ])
                else same_byte c s (match_glob fuel p))))
