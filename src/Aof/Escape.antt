-- ===== src/Aof/Escape.antt =====
-- internal/server/aof.go, `escape` and `unescapeLine`: what comes back of an argument.
use vole.Aof.Pairs.{
  starts, replace_pair-other, replace_pair-next, replace_pair-hit, flat, escape-flat,
}
use vole.Prelude.{
  ℕ, ◌≡◌, ◌↔◌, refl, ap, ◌∙◌, sym, inl, inr, Bool, true, false, ◌&&◌, ◌||◌, not, [], ◌∷◌, arith,
  ◌==◌, ==_iff, if◌then◌else◌, Bool-cases,
}
use vole.Prelude.Text.{Text}
use vole.Aof.{replace_pair, escape, unescape}

-- What `\n` and `\t` of two bytes become: the backslash stays, with a byte 10 or 9 behind it.
unfoldable pub garbled : Text → Text
garbled [] = []
garbled (x ∷ []) = x ∷ []
garbled (x ∷ y ∷ s) =
    let line = 92 ∷ 10 ∷ garbled s in
    let tab = 92 ∷ 9 ∷ garbled s in
    let same = x ∷ garbled (y ∷ s) in
    if x == 92 && y == 110 then line else (if x == 92 && y == 116 then tab else same)

-- the text behind the first round of `unescapeLine`, and behind the second
after_lines : Text → Text
after_lines [] = []
after_lines (x ∷ []) = if x == 92 then 92 ∷ 92 ∷ [] else (if x == 9 then 92 ∷ 116 ∷ [] else x ∷ [])
after_lines (x ∷ y ∷ s) =
    let line = 92 ∷ 10 ∷ after_lines s in
    let back = 92 ∷ 92 ∷ after_lines (y ∷ s) in
    let tab = 92 ∷ 116 ∷ after_lines (y ∷ s) in
    let same = x ∷ after_lines (y ∷ s) in
    if x == 92 then (if y == 110 then line else back) else (if x == 9 then tab else same)

after_tabs : Text → Text
after_tabs [] = []
after_tabs (x ∷ []) = if x == 92 then 92 ∷ 92 ∷ [] else x ∷ []
after_tabs (x ∷ y ∷ s) =
    let line = 92 ∷ 10 ∷ after_tabs s in
    let tab = 92 ∷ 9 ∷ after_tabs s in
    let back = 92 ∷ 92 ∷ after_tabs (y ∷ s) in
    let same = x ∷ after_tabs (y ∷ s) in
    if x == 92 then (if y == 110 then line else (if y == 116 then tab else back)) else same

starts-flat : (y : ℕ) (s : Text) → (y == 110) ≡ false → starts 110 (flat (y ∷ s)) ≡ false
unfolding starts flat
starts-flat y s h = elim (Bool-cases (y == 92)) [
  | inl e ↦ rw e refl
  | inr e ↦ elim (Bool-cases (y == 9)) [
    | inl f ↦ rw (e, f) refl
    | inr f ↦ elim (Bool-cases (y == 10)) [
      | inl g ↦ rw (e, f) (rw g refl)
      | inr g ↦ rw (e, f) (rw g h)
    ]
  ]
]

lines-flat : (s : Text) → replace_pair 92 110 10 (flat s) ≡ after_lines s
unfolding flat after_lines
lines-flat [] = unfold replace_pair in refl
lines-flat (x ∷ []) =
    unfold replace_pair in
    elim (Bool-cases (x == 92)) [
      | inl e ↦ rw ((==_iff x 92).0 e) refl
      | inr e ↦ elim (Bool-cases (x == 9)) [
        | inl f ↦ rw ((==_iff x 9).0 f) refl
        | inr f ↦ elim (Bool-cases (x == 10)) [
          | inl g ↦ rw ((==_iff x 10).0 g) refl
          | inr g ↦ rw (e, f) (rw g refl)
        ]
      ]
    ]
lines-flat (x ∷ y ∷ s) = elim (Bool-cases (x == 92)) [
  | inl e ↦ elim (Bool-cases (y == 110)) [
    | inl f ↦
        rw ((==_iff x 92).0 e, (==_iff y 110).0 f)
          (replace_pair-next 92 110 10 92 (92 ∷ 110 ∷ flat s) (unfold starts in refl)
            ∙ ap (◌∷◌ 92) (replace_pair-hit 92 110 10 (flat s) ∙ ap (◌∷◌ 10) (lines-flat s)))
    | inr f ↦
        rw ((==_iff x 92).0 e, f)
          (replace_pair-next 92 110 10 92 (92 ∷ flat (y ∷ s)) (unfold starts in refl)
            ∙ ap (◌∷◌ 92) (
                replace_pair-next 92 110 10 92 (flat (y ∷ s)) (starts-flat y s f)
                ∙ ap (◌∷◌ 92) (lines-flat (y ∷ s))))
  ]
  | inr e ↦ elim (Bool-cases (x == 9)) [
    | inl f ↦ rw ((==_iff x 9).0 f) (
        replace_pair-next 92 110 10 92 (116 ∷ flat (y ∷ s)) (unfold starts in refl)
        ∙ ap (◌∷◌ 92) (
            replace_pair-other 92 110 10 116 (flat (y ∷ s)) refl
            ∙ ap (◌∷◌ 116) (lines-flat (y ∷ s))))
    | inr f ↦ elim (Bool-cases (x == 10)) [
      | inl g ↦
          rw ((==_iff x 10).0 g)
            (replace_pair-hit 92 110 10 (flat (y ∷ s)) ∙ ap (◌∷◌ 10) (lines-flat (y ∷ s)))
      | inr g ↦
          rw (e, f)
            (rw g
              (replace_pair-other 92 110 10 x (flat (y ∷ s)) e ∙ ap (◌∷◌ x) (lines-flat (y ∷ s))))
    ]
  ]
]

starts-after_lines :
    (y : ℕ) (s : Text) → (y == 116) ≡ false → starts 116 (after_lines (y ∷ s)) ≡ false
unfolding starts after_lines
starts-after_lines y [] h = elim (Bool-cases (y == 92)) [
  | inl e ↦ rw e refl
  | inr e ↦ elim (Bool-cases (y == 9)) [ inl f ↦ rw (e, f) refl | inr f ↦ rw (e, f) h ]
]
starts-after_lines y (z ∷ s) h = elim (Bool-cases (y == 92)) [
  | inl e ↦ elim (Bool-cases (z == 110)) [ inl f ↦ rw (e, f) refl | inr f ↦ rw (e, f) refl ]
  | inr e ↦ elim (Bool-cases (y == 9)) [ inl f ↦ rw (e, f) refl | inr f ↦ rw (e, f) h ]
]

after_lines-t : (s : Text) → after_lines (116 ∷ s) ≡ 116 ∷ after_lines s
unfolding after_lines
after_lines-t [] = refl
after_lines-t (x ∷ s) = refl

tabs-after_lines : (s : Text) → replace_pair 92 116 9 (after_lines s) ≡ after_tabs s
unfolding after_lines after_tabs
tabs-after_lines [] = unfold replace_pair in refl
tabs-after_lines (x ∷ []) =
    unfold replace_pair in
    elim (Bool-cases (x == 92)) [
      | inl e ↦ rw e refl
      | inr e ↦ elim (Bool-cases (x == 9)) [
        | inl f ↦ rw ((==_iff x 9).0 f) refl
        | inr f ↦ rw (e, f) refl
      ]
    ]
tabs-after_lines (x ∷ y ∷ s) = elim (Bool-cases (x == 92)) [
  | inl e ↦ elim (Bool-cases (y == 110)) [
    | inl f ↦
        rw (e, f)
          (replace_pair-next 92 116 9 92 (10 ∷ after_lines s) (unfold starts in refl)
            ∙ ap (◌∷◌ 92) (
                replace_pair-other 92 116 9 10 (after_lines s) refl
                ∙ ap (◌∷◌ 10) (tabs-after_lines s)))
    | inr f ↦ elim (Bool-cases (y == 116)) [
      | inl g ↦
          rw (e, f)
            (rw g (
              ap (λ r. replace_pair 92 116 9 (92 ∷ 92 ∷ r))
                (ap (λ z. after_lines (z ∷ s)) ((==_iff y 116).0 g) ∙ after_lines-t s)
              ∙ replace_pair-next 92 116 9 92 (92 ∷ 116 ∷ after_lines s) (unfold starts in refl)
              ∙ ap (◌∷◌ 92)
                  (replace_pair-hit 92 116 9 (after_lines s) ∙ ap (◌∷◌ 9) (tabs-after_lines s))))
      | inr g ↦
          rw (e, f)
            (rw g (
              replace_pair-next 92 116 9 92 (92 ∷ after_lines (y ∷ s)) (unfold starts in refl)
              ∙ ap (◌∷◌ 92) (
                  replace_pair-next 92 116 9 92 (after_lines (y ∷ s)) (starts-after_lines y s g)
                  ∙ ap (◌∷◌ 92) (tabs-after_lines (y ∷ s)))))
    ]
  ]
  | inr e ↦ elim (Bool-cases (x == 9)) [
    | inl f ↦
        rw ((==_iff x 9).0 f)
          (replace_pair-hit 92 116 9 (after_lines (y ∷ s)) ∙ ap (◌∷◌ 9) (tabs-after_lines (y ∷ s)))
    | inr f ↦
        rw (e, f)
          (replace_pair-other 92 116 9 x (after_lines (y ∷ s)) e
            ∙ ap (◌∷◌ x) (tabs-after_lines (y ∷ s)))
  ]
]

backslashes-after_tabs : (s : Text) → replace_pair 92 92 92 (after_tabs s) ≡ garbled s
unfolding after_tabs garbled
backslashes-after_tabs [] = unfold replace_pair in refl
backslashes-after_tabs (x ∷ []) =
    unfold replace_pair in
    elim (Bool-cases (x == 92)) [ inl e ↦ rw ((==_iff x 92).0 e) refl | inr e ↦ rw e refl ]
backslashes-after_tabs (x ∷ y ∷ s) = elim (Bool-cases (x == 92)) [
  | inl e ↦ elim (Bool-cases (y == 110)) [
    | inl f ↦
        rw (e, f)
          (replace_pair-next 92 92 92 92 (10 ∷ after_tabs s) (unfold starts in refl)
            ∙ ap (◌∷◌ 92) (
                replace_pair-other 92 92 92 10 (after_tabs s) refl
                ∙ ap (◌∷◌ 10) (backslashes-after_tabs s)))
    | inr f ↦ elim (Bool-cases (y == 116)) [
      | inl g ↦
          rw (e, f)
            (rw g (
              replace_pair-next 92 92 92 92 (9 ∷ after_tabs s) (unfold starts in refl)
              ∙ ap (◌∷◌ 92) (
                  replace_pair-other 92 92 92 9 (after_tabs s) refl
                  ∙ ap (◌∷◌ 9) (backslashes-after_tabs s))))
      | inr g ↦
          rw ((==_iff x 92).0 e, f)
            (rw g (
              replace_pair-hit 92 92 92 (after_tabs (y ∷ s))
              ∙ ap (◌∷◌ 92) (backslashes-after_tabs (y ∷ s))))
    ]
  ]
  | inr e ↦ rw e (
      replace_pair-other 92 92 92 x (after_tabs (y ∷ s)) e
      ∙ ap (◌∷◌ x) (backslashes-after_tabs (y ∷ s)))
]

-- What is read back of an argument is the argument with each backslash that stands before an `n` or a
-- `t` kept, and a line feed or a tab in place of that letter.
pub unescape-escape : (s : Text) → unescape (escape s) ≡ garbled s
unfolding unescape
unescape-escape s =
    ap (λ r. replace_pair 92 92 92 (replace_pair 92 116 9 (replace_pair 92 110 10 r)))
      (escape-flat s)
    ∙ ap (λ r. replace_pair 92 92 92 (replace_pair 92 116 9 r)) (lines-flat s)
    ∙ ap (replace_pair 92 92 92) (tabs-after_lines s)
    ∙ backslashes-after_tabs s

-- no backslash stands before an `n` or a `t`
unfoldable pub is_safe : Text → Bool
is_safe [] = true
is_safe (x ∷ s) = not (x == 92 && (starts 110 s || starts 116 s)) && is_safe s

garbled-safe : (s : Text) → is_safe s ≡ true → garbled s ≡ s
unfolding garbled is_safe starts
garbled-safe [] h = refl
garbled-safe (x ∷ []) h = refl
garbled-safe (x ∷ y ∷ s) h = ground (arith, garbled-safe (y ∷ s))

garbled-unsafe : (s : Text) → garbled s ≡ s → is_safe s ≡ true
unfolding garbled is_safe starts
garbled-unsafe [] h = refl
garbled-unsafe (x ∷ []) h = ground arith
garbled-unsafe (x ∷ y ∷ s) h = ground (arith, garbled-unsafe (y ∷ s))

-- An argument is read back as it was exactly when no backslash in it stands before an `n` or a `t`.
pub unescape-escape_iff : (s : Text) → (unescape (escape s) ≡ s) ↔ (is_safe s ≡ true)
unescape-escape_iff s =
    (λ h. garbled-unsafe s (sym (unescape-escape s) ∙ h), λ h. unescape-escape s ∙ garbled-safe s h)
