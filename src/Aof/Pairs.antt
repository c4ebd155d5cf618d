-- ===== src/Aof/Pairs.antt =====
-- internal/server/aof.go, `strings.ReplaceAll` in `escape` and `unescapeLine`.
use vole.Prelude.{
  ℕ, ◌≡◌, refl, ap, inl, inr, Bool, false, ◌&&◌, [], ◌∷◌, ◌++◌, arith, ◌==◌, ==_iff, if◌then◌else◌,
  Bool-cases,
}
use vole.Prelude.Text.{Text}
use vole.Aof.{replace_byte, replace_pair, escape}

-- whether a text starts with a byte
unfoldable pub starts : ℕ → Text → Bool
starts b [] = false
starts b (x ∷ s) = x == b

replace_pair-skip :
    (a b c x : ℕ) (s : Text)
    → (x == a && starts b s) ≡ false
    → replace_pair a b c (x ∷ s) ≡ x ∷ replace_pair a b c s
unfolding replace_pair starts
replace_pair-skip a b c x [] h = refl
replace_pair-skip a b c x (y ∷ s) h = rw h refl

-- no pair starts with another byte, or with another one behind it
pub replace_pair-other :
    (a b c x : ℕ) (s : Text)
    → (x == a) ≡ false
    → replace_pair a b c (x ∷ s) ≡ x ∷ replace_pair a b c s
replace_pair-other a b c x s h = replace_pair-skip a b c x s (rw h refl)

pub replace_pair-next :
    (a b c x : ℕ) (s : Text)
    → starts b s ≡ false
    → replace_pair a b c (x ∷ s) ≡ x ∷ replace_pair a b c s
replace_pair-next a b c x s h = replace_pair-skip a b c x s (ground (arith, h))

pub replace_pair-hit :
    (a b c : ℕ) (s : Text) → replace_pair a b c (a ∷ b ∷ s) ≡ c ∷ replace_pair a b c s
unfolding replace_pair
replace_pair-hit a b c s = ground arith

-- what is written for one byte
abbrev pub written : ℕ → Text
written x =
    if x == 92
    then 92 ∷ 92 ∷ []
    else (if x == 9 then 92 ∷ 116 ∷ [] else (if x == 10 then 92 ∷ 110 ∷ [] else x ∷ []))

unfoldable pub flat : Text → Text
flat [] = []
flat (x ∷ s) = written x ++ flat s

pub escape-flat : (s : Text) → escape s ≡ flat s
unfolding escape flat replace_byte
escape-flat [] = refl
escape-flat (x ∷ s) = elim (Bool-cases (x == 92)) [
  | inl e ↦ rw ((==_iff x 92).0 e) (ap (λ r. 92 ∷ 92 ∷ r) (escape-flat s))
  | inr e ↦ elim (Bool-cases (x == 9)) [
    | inl f ↦ rw ((==_iff x 9).0 f) (ap (λ r. 92 ∷ 116 ∷ r) (escape-flat s))
    | inr f ↦ elim (Bool-cases (x == 10)) [
      | inl g ↦ rw ((==_iff x 10).0 g) (ap (λ r. 92 ∷ 110 ∷ r) (escape-flat s))
      | inr g ↦ rw (e, f) (rw g (ap (λ r. x ∷ r) (escape-flat s)))
    ]
  ]
]
