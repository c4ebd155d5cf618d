-- ===== src/Glob/Meaning.antt =====
-- What a pattern means, and `MatchGlob` against it.
use vole.Prelude.{
  ℕ, zero, suc, ◌≡◌, refl, sym, subst, Bool, true, false, [], ◌∷◌, some, none, ◌==◌, ◌||◌, arith,
  Bool-cases, Option-cases, inl, inr,
}
use vole.Prelude.Text.{Text}
use vole.Glob.Brackets.{InBracket, match_bracket-InBracket}
use vole.Glob.{match_glob, match_bracket, skip_stars, any_suffix, is_empty, same_byte}

-- the bytes that a pattern gives a meaning
abbrev pub special : ℕ → Bool
special c = c == b'*' || c == b'?' || c == b'[' || c == b'\\'

-- A star stands for any bytes, a question mark for one, a bracket for one that its set means (`InBracket`); a
-- backslash takes the meaning off the byte behind it, and any other byte stands for itself.
pub data Matches : Text → Text → Type 0 where
  done : Matches [] []
  star_end : (p s : Text) → Matches p s → Matches (b'*' ∷ p) s
  star_more : (p : Text) (d : ℕ) (s : Text) → Matches (b'*' ∷ p) s → Matches (b'*' ∷ p) (d ∷ s)
  any_byte : (p : Text) (d : ℕ) (s : Text) → Matches p s → Matches (b'?' ∷ p) (d ∷ s)
  bracketed :
      (p rest : Text) (d : ℕ) (s : Text)
      → InBracket d p rest
      → Matches rest s
      → Matches (b'[' ∷ p) (d ∷ s)
  escaped : (p : Text) (d : ℕ) (s : Text) → Matches p s → Matches (b'\\' ∷ d ∷ p) (d ∷ s)
  itself : (p : Text) (c : ℕ) (s : Text) → special c ≡ false → Matches p s → Matches (c ∷ p) (c ∷ s)

unskip : (p s : Text) → Matches (skip_stars p) s → Matches p s
unfolding skip_stars
unskip [] s m = m
unskip (c ∷ p) s m = elim (Bool-cases (c == b'*')) [
  | inl e ↦ subst (λ c. Matches (c ∷ p) s) (ground arith) (star_end p s (unskip p s (rw e at m)))
  | inr e ↦ rw e at m
]

star_all : (p : Text) → Matches p [] → (s : Text) → Matches (b'*' ∷ p) s
star_all p m [] = star_end p [] m
star_all p m (d ∷ s) = star_more p d s (star_all p m s)

star_suffix :
    (f : Text → Bool) (p : Text)
    → ((s : Text) → f s ≡ true → Matches p s)
    → (s : Text) → any_suffix f s ≡ true
    → Matches (b'*' ∷ p) s
unfolding any_suffix
star_suffix f p h [] e = star_end p [] (h [] e)
star_suffix f p h (d ∷ s) e = elim (Bool-cases (f (d ∷ s))) [
  | inl here ↦ star_end p (d ∷ s) (h (d ∷ s) here)
  | inr later ↦ star_more p d s (star_suffix f p h s (ground (arith, e, later)))
]

empty_nil : (p : Text) → is_empty p ≡ true → p ≡ []
unfolding is_empty
empty_nil [] h = refl
empty_nil (c ∷ p) h = absurd (ground (arith, h))

-- One byte of the pattern, when what is behind it is understood.
module _ (fuel : ℕ) (sound_behind : (p s : Text) → match_glob fuel p s ≡ true → Matches p s) where
  sound_star :
      (p s : Text)
      → (is_empty (skip_stars p) || any_suffix (match_glob fuel (skip_stars p)) s) ≡ true
      → Matches (b'*' ∷ p) s
  sound_star p s h = elim (Bool-cases (is_empty (skip_stars p))) [
    | inl e ↦
        star_all p (unskip p [] (subst (λ q. Matches q []) (sym (empty_nil (skip_stars p) e)) done))
          s
    | inr e ↦
        star_suffix (match_glob fuel (skip_stars p)) p
          (λ t k. unskip p t (sound_behind (skip_stars p) t k)) s (ground (arith, h, e))
  ]

  sound_any :
      (p s : Text)
      → (elim s [ [] ↦ false | ◌∷◌ d t ↦ match_glob fuel p t ]) ≡ true
      → Matches (b'?' ∷ p) s
  sound_any p [] h = absurd (ground (arith, h))
  sound_any p (d ∷ t) h = any_byte p d t (sound_behind p t h)

  sound_set :
      (p s : Text)
      → (elim s [
        | [] ↦ false
        | ◌∷◌ d t ↦ elim (match_bracket p d) [ none ↦ false | some rest ↦ match_glob fuel rest t ]
      ])
        ≡ true
      → Matches (b'[' ∷ p) s
  sound_set p [] h = absurd (ground (arith, h))
  sound_set p (d ∷ t) h = elim (Option-cases (match_bracket p d)) [
    | inl e ↦ absurd (ground (arith, h, e))
    | inr (rest, e) ↦
        bracketed p rest d t (match_bracket-InBracket p d rest e) (sound_behind rest t (rw e at h))
  ]

  sound_escape :
      (p s : Text)
      → (elim p [ [] ↦ false | ◌∷◌ d q ↦ same_byte d s (match_glob fuel q) ]) ≡ true
      → Matches (b'\\' ∷ p) s
  unfolding same_byte
  sound_escape [] s h = absurd (ground (arith, h))
  sound_escape (d ∷ q) [] h = absurd (ground (arith, h))
  sound_escape (d ∷ q) (c ∷ t) h = elim (Bool-cases (d == c)) [
    | inl e ↦
        subst (λ c. Matches (b'\\' ∷ d ∷ q) (c ∷ t)) (ground arith)
          (escaped q d t (sound_behind q t (ground (arith, h, e))))
    | inr e ↦ absurd (ground (arith, h, e))
  ]

  sound_itself :
      (c : ℕ) (p s : Text)
      → special c ≡ false
      → same_byte c s (match_glob fuel p) ≡ true
      → Matches (c ∷ p) s
  unfolding same_byte
  sound_itself c p [] plain h = absurd (ground (arith, h))
  sound_itself c p (d ∷ t) plain h = elim (Bool-cases (c == d)) [
    | inl e ↦
        subst (λ d. Matches (c ∷ p) (d ∷ t)) (ground arith)
          (itself p c t plain (sound_behind p t (ground (arith, h, e))))
    | inr e ↦ absurd (ground (arith, h, e))
  ]

same_pattern : (c d : ℕ) (p s : Text) → (c == d) ≡ true → Matches (d ∷ p) s → Matches (c ∷ p) s
same_pattern c d p s e m = subst (λ c. Matches (c ∷ p) s) (ground arith) m

-- What `MatchGlob` takes, the pattern means, whatever the fuel.
pub match_glob-Matches : (fuel : ℕ) (p s : Text) → match_glob fuel p s ≡ true → Matches p s
unfolding match_glob
match_glob-Matches fuel [] s h = subst (Matches []) (sym (empty_nil s h)) done
match_glob-Matches zero (c ∷ p) s h = absurd (ground (arith, h))
match_glob-Matches (suc fuel) (c ∷ p) s h = go (match_glob-Matches fuel) h
  where
    go :
        ((p s : Text) → match_glob fuel p s ≡ true → Matches p s)
        → match_glob (suc fuel) (c ∷ p) s ≡ true
        → Matches (c ∷ p) s
    go k h = elim (Bool-cases (c == b'*')) [
      | inl e ↦ same_pattern c b'*' p s e (sound_star fuel k p s (rw (match_glob, e) at h))
      | inr not_star ↦ elim (Bool-cases (c == b'?')) [
        | inl e ↦
            same_pattern c b'?' p s e (sound_any fuel k p s (rw (match_glob, not_star, e) at h))
        | inr not_any ↦ elim (Bool-cases (c == b'[')) [
          | inl e ↦
              same_pattern c b'[' p s e
                (sound_set fuel k p s (rw (match_glob, not_star, not_any, e) at h))
          | inr not_set ↦ elim (Bool-cases (c == b'\\')) [
            | inl e ↦
                same_pattern c b'\\' p s e
                  (sound_escape fuel k p s (rw (match_glob, not_star, not_any, not_set, e) at h))
            | inr plain ↦
                sound_itself fuel k c p s (ground arith)
                  (rw (match_glob, not_star, not_any, not_set, plain) at h)
          ]
        ]
      ]
    ]
