-- ===== src/Glob/Complete.antt =====
-- Enough fuel for `MatchGlob`, and that it misses nothing.
use vole.Prelude.{
  ℕ, zero, suc, ◌≤◌, ◌≡◌, refl, sym, subst, ◌∙◌, ◌↔◌, Bool, true, false, [], ◌∷◌, Option, some,
  none, length, leb, ◌==◌, ◌&&◌, ◌||◌, if◌then◌else◌, arith, Bool-cases, inl, inr,
}
use vole.Prelude.Text.{Text}
use vole.Glob.{
  match_glob, match_bracket, bracket_loop, close_bracket, skip_stars, any_suffix, is_empty,
  same_byte,
}
use vole.Glob.Brackets.{InBracket-match_bracket}
use vole.Glob.Meaning.{
  Matches, done, star_end, star_more, any_byte, bracketed, escaped, itself, special,
  match_glob-Matches,
}

-- the rest behind a bracket is no longer than the pattern
abbrev Short : ℕ → Option (Bool × Text) → Type 0
Short n none = Unit {0}
Short n (some (matched, rest)) = length rest ≤ n

Short-choice :
    (n : ℕ) (b : Bool) (o p : Option (Bool × Text))
    → Short n o
    → Short n p
    → Short n (if b then o else p)
Short-choice n true o p h k = h
Short-choice n false o p h k = k

Short-mono : (m n : ℕ) (o : Option (Bool × Text)) → m ≤ n → Short m o → Short n o
Short-mono m n none h k = tt
Short-mono m n (some (matched, rest)) h k = omega arith

bracket_loop-Short :
    (ch : ℕ) (started matched : Bool) (p : Text)
    → Short (length p) (bracket_loop ch started matched p)
unfolding bracket_loop
bracket_loop-Short ch started matched [] = tt
bracket_loop-Short ch started matched (c ∷ []) =
    Short-choice 1 (c == b']' && started) (some (matched, [])) none (omega arith) tt
bracket_loop-Short ch started matched (c ∷ d ∷ []) =
    Short-choice 2 (c == b']' && started) (some (matched, d ∷ [])) _ (omega arith) (
      Short-choice 2 (c == b'\\') (bracket_loop ch true (matched || d == ch) []) _ tt (
        Short-mono 1 2 (bracket_loop ch true (matched || c == ch) (d ∷ [])) (omega arith)
          (bracket_loop-Short ch true (matched || c == ch) (d ∷ []))))
bracket_loop-Short ch started matched (c ∷ d ∷ e ∷ p) =
    let n = length (c ∷ d ∷ e ∷ p) in
    Short-choice n (c == b']' && started) (some (matched, d ∷ e ∷ p)) _ (omega arith) (
      Short-choice n (c == b'\\') _ _
        (Short-mono (length (e ∷ p)) n (bracket_loop ch true (matched || d == ch) (e ∷ p))
          (omega arith) (bracket_loop-Short ch true (matched || d == ch) (e ∷ p)))
        (Short-choice n (d == b'-') _ _
          (Short-mono (length p) n (bracket_loop ch true (matched || leb c ch && leb ch e) p)
            (omega arith) (bracket_loop-Short ch true (matched || leb c ch && leb ch e) p))
          (Short-mono (length (d ∷ e ∷ p)) n (bracket_loop ch true (matched || c == ch) (d ∷ e ∷ p))
            (omega arith) (bracket_loop-Short ch true (matched || c == ch) (d ∷ e ∷ p)))))

close_bracket-length :
    (n : ℕ) (negate : Bool) (o : Option (Bool × Text)) (rest : Text)
    → Short n o
    → close_bracket negate o ≡ some rest
    → length rest ≤ n
unfolding close_bracket
close_bracket-length n negate none rest h e = absurd (ground (arith, e))
close_bracket-length n negate (some (matched, left)) rest h e = ground (arith, h, e)

match_bracket-length :
    (p : Text) (ch : ℕ) (rest : Text) → match_bracket p ch ≡ some rest → length rest ≤ length p
unfolding match_bracket
match_bracket-length [] ch rest e =
    close_bracket-length 0 false (bracket_loop ch false false []) rest
      (bracket_loop-Short ch false false []) e
match_bracket-length (c ∷ p) ch rest e = elim (Bool-cases (c == b'^' || c == b'!')) [
  | inl n ↦
      let k : length rest ≤ length p =
        close_bracket-length (length p) true (bracket_loop ch false false p) rest
          (bracket_loop-Short ch false false p) (rw n at e) in
      omega arith
  | inr n ↦
      close_bracket-length (length (c ∷ p)) false (bracket_loop ch false false (c ∷ p)) rest
        (bracket_loop-Short ch false false (c ∷ p)) (rw n at e)
]

-- A star before what is behind all stars.
abbrev starred : ℕ → Text → Text → Bool
starred fuel r s = is_empty r || any_suffix (match_glob fuel r) s

skip_star : (c : ℕ) (p : Text) → (c == b'*') ≡ true → skip_stars (c ∷ p) ≡ skip_stars p
unfolding skip_stars
skip_star c p e = rw e

skip_none : (c : ℕ) (p : Text) → (c == b'*') ≡ false → skip_stars (c ∷ p) ≡ c ∷ p
unfolding skip_stars
skip_none c p e = rw e

match_star :
    (fuel c : ℕ) (p s : Text)
    → (c == b'*') ≡ true
    → match_glob (suc fuel) (c ∷ p) s ≡ starred fuel (skip_stars p) s
unfolding match_glob
match_star fuel c p s e = rw (match_glob, e)

any_first : (f : Text → Bool) (s : Text) → f s ≡ true → any_suffix f s ≡ true
unfolding any_suffix
any_first f [] h = h
any_first f (d ∷ s) h = rw h

starred_first : (fuel : ℕ) (r s : Text) → match_glob fuel r s ≡ true → starred fuel r s ≡ true
starred_first fuel r s h = ground (arith, any_first (match_glob fuel r) s h)

starred_end :
    (fuel : ℕ) (p s : Text)
    → match_glob fuel p s ≡ true
    → match_glob (suc fuel) p s ≡ true
    → starred fuel (skip_stars p) s ≡ true
starred_end fuel [] s h k = unfold skip_stars is_empty in refl
starred_end fuel (c ∷ p) s h k = elim (Bool-cases (c == b'*')) [
  | inl e ↦
      subst (λ r. starred fuel r s ≡ true) (sym (skip_star c p e))
        (sym (match_star fuel c p s e) ∙ k)
  | inr e ↦
      subst (λ r. starred fuel r s ≡ true) (sym (skip_none c p e)) (starred_first fuel (c ∷ p) s h)
]

starred_more :
    (fuel : ℕ) (r : Text) (d : ℕ) (s : Text)
    → starred fuel r s ≡ true
    → starred fuel r (d ∷ s) ≡ true
unfolding any_suffix
starred_more fuel r d s h = ground (arith, h)

match_any :
    (fuel : ℕ) (p : Text) (d : ℕ) (s : Text)
    → match_glob (suc fuel) (b'?' ∷ p) (d ∷ s) ≡ match_glob fuel p s
unfolding match_glob
match_any fuel p d s = refl

match_set :
    (fuel : ℕ) (p rest : Text) (d : ℕ) (s : Text)
    → match_bracket p d ≡ some rest
    → match_glob (suc fuel) (b'[' ∷ p) (d ∷ s) ≡ match_glob fuel rest s
unfolding match_glob
match_set fuel p rest d s e = rw (match_glob, e)

match_escape :
    (fuel : ℕ) (p : Text) (d : ℕ) (s : Text)
    → match_glob (suc fuel) (b'\\' ∷ d ∷ p) (d ∷ s) ≡ match_glob fuel p s
unfolding match_glob same_byte
match_escape fuel p d s =
    let same : (d == d) ≡ true = ground arith in rw (match_glob, same_byte, same)

match_itself :
    (fuel : ℕ) (p : Text) (c : ℕ) (s : Text)
    → special c ≡ false
    → match_glob (suc fuel) (c ∷ p) (c ∷ s) ≡ match_glob fuel p s
unfolding match_glob same_byte
match_itself fuel p c s plain =
    let same : (c == c) ≡ true = ground arith in
    let no_star : (c == b'*') ≡ false = ground (arith, plain) in
    let no_any : (c == b'?') ≡ false = ground (arith, plain) in
    let no_set : (c == b'[') ≡ false = ground (arith, plain) in
    let no_escape : (c == b'\\') ≡ false = ground (arith, plain) in
    rw (match_glob, no_star, no_any, no_set, no_escape, same_byte, same)

complete : (p s : Text) → Matches p s → (fuel : ℕ) → length p ≤ fuel → match_glob fuel p s ≡ true
complete _ _ done zero h = unfold match_glob is_empty in refl
complete _ _ done (suc fuel) h = unfold match_glob is_empty in refl
complete _ _ (star_end p s m) zero h = absurd (omega arith)
complete _ _ (star_end p s m) (suc fuel) h =
    match_star fuel b'*' p s refl
    ∙ starred_end fuel p s (complete p s m fuel (omega arith))
        (complete p s m (suc fuel) (omega arith))
complete _ _ (star_more p d s m) zero h = absurd (omega arith)
complete _ _ (star_more p d s m) (suc fuel) h =
    match_star fuel b'*' p (d ∷ s) refl
    ∙ starred_more fuel (skip_stars p) d s
        (sym (match_star fuel b'*' p s refl) ∙ complete (b'*' ∷ p) s m (suc fuel) h)
complete _ _ (any_byte p d s m) zero h = absurd (omega arith)
complete _ _ (any_byte p d s m) (suc fuel) h =
    match_any fuel p d s ∙ complete p s m fuel (omega arith)
complete _ _ (bracketed p rest d s b m) zero h = absurd (omega arith)
complete _ _ (bracketed p rest d s b m) (suc fuel) h =
    let e = InBracket-match_bracket p d rest b in
    match_set fuel p rest d s e
    ∙ complete rest s m fuel (omega (arith, match_bracket-length p d rest e))
complete _ _ (escaped p d s m) zero h = absurd (omega arith)
complete _ _ (escaped p d s m) (suc fuel) h =
    match_escape fuel p d s ∙ complete p s m fuel (omega arith)
complete _ _ (itself p c s plain m) zero h = absurd (omega arith)
complete _ _ (itself p c s plain m) (suc fuel) h =
    match_itself fuel p c s plain ∙ complete p s m fuel (omega arith)

-- `MatchGlob` takes exactly the bytes that the pattern means, with a unit of fuel for each byte of
-- the pattern.
pub match_glob_lem :
    (fuel : ℕ) (p s : Text) → length p ≤ fuel → (match_glob fuel p s ≡ true) ↔ Matches p s
match_glob_lem fuel p s h = (match_glob-Matches fuel p s, λ m. complete p s m fuel h)
