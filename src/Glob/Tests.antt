-- ===== src/Glob/Tests.antt =====
-- Patterns at concrete bytes.
use vole.Prelude.{◌≡◌, refl, ◌↔◌, true, false, [], ◌∷◌, arith}
use vole.Prelude.Text.{Text}
use vole.Glob.{
  match_glob, match_bracket, bracket_loop, close_bracket, skip_stars, any_suffix, is_empty,
  same_byte,
}
use vole.Glob.Meaning.{Matches}
use vole.Glob.Complete.{match_glob_lem}

-- `h[a-e]l*`
abbrev pattern_text : Text
pattern_text = b'h' ∷ b'[' ∷ b'a' ∷ b'-' ∷ b'e' ∷ b']' ∷ b'l' ∷ b'*' ∷ []

abbrev hello : Text
hello = b'h' ∷ b'e' ∷ b'l' ∷ b'l' ∷ b'o' ∷ []

match_glob_lem_example : (match_glob 8 pattern_text hello ≡ true) ↔ Matches pattern_text hello
match_glob_lem_example = match_glob_lem 8 pattern_text hello (omega arith)

hello_matches : match_glob 8 pattern_text hello ≡ true
unfolding match_glob match_bracket bracket_loop close_bracket skip_stars any_suffix is_empty
    same_byte
hello_matches = refl

hullo_fails : match_glob 8 pattern_text (b'h' ∷ b'u' ∷ b'l' ∷ b'l' ∷ b'o' ∷ []) ≡ false
unfolding match_glob match_bracket bracket_loop close_bracket skip_stars any_suffix is_empty
    same_byte
hullo_fails = refl
