-- ===== src/SortedSet/Sizes.antt =====
-- `Len` behind `Add` and `Remove`.
use vole.Prelude.{
  ap, false, false, ◌==◌, none, [], ◌∷◌, length, ◌+◌, ◌≡◌, refl, if◌then◌else◌, arith, Option-cases,
  Bool-cases, inl, inr,
}
use vole.Prelude.Text.{Text}
use vole.Prelude.Map.{
  Map, lookup, delete, IsMap, lookup-has, lookup-has-some, length-put, length-delete,
}
use vole.SortedSet.{Scores, SortedSet, len, add, remove, insert_ordered, score_of}
use vole.SortedSet.Update.{scores-remove_ordered}

module _ {S : Type 0} ⦃o : Scores S⦄ where
  pub len-add :
      (z : SortedSet S) (m : Text) (s : S)
      → len (add z m s).1 ≡ len z + (if (add z m s).0 then 1 else 0)
  unfolding add insert_ordered len
  len-add z m s = elim (Option-cases (lookup m z.scores)) [
    | inl e ↦ rw (e, add) (rw (length-put m s z.scores, lookup-has m z.scores e) refl)
    | inr (old, e) ↦ elim (Bool-cases (o.eq old s)) [
      | inl same ↦ rw (e, add) (rw same (omega arith))
      | inr other ↦
          rw (e, add)
            (rw other (
              rw
                (
                  scores-remove_ordered z m old,
                  length-put m s z.scores,
                  lookup-has-some m old z.scores e,
                )
                (omega arith)))
    ]
  ]

  pub len-remove :
      (z : SortedSet S) (m : Text)
      → IsMap z.scores
      → len (remove z m).1 + (if (remove z m).0 then 1 else 0) ≡ len z
  unfolding remove len
  len-remove z m v = elim (Option-cases (lookup m z.scores)) [
    | inl e ↦ rw (e, remove) (omega arith)
    | inr (s, e) ↦
        rw (e, remove)
          (rw (scores-remove_ordered (record z { scores = delete m z.scores }) m s)
            (ground (arith, length-delete m z.scores v, lookup-has-some m s z.scores e)))
  ]

  -- a set of length 0 has no scores
  if_scores : (j : Text) (m : Map S) → (if length m == 0 then none else lookup j m) ≡ lookup j m
  unfolding lookup
  if_scores j [] = refl
  if_scores j (x ∷ m) = ap (λ b. if b then none else lookup j (x ∷ m)) nonzero
    where
      nonzero : (length (x ∷ m) == 0) ≡ false
      nonzero = ground arith

  pub score_of-no_len :
      (z : SortedSet S) (j : Text) → (if len z == 0 then none else score_of z j) ≡ score_of z j
  unfolding len score_of
  score_of-no_len z j = if_scores j z.scores
