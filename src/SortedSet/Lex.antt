-- ===== src/SortedSet/Lex.antt =====
-- `RangeByLex` of internal/store/sortedset.go: members in lexicographic order.
use vole.Prelude.{ℕ, suc, Bool, true, false, not, ◌&&◌, List, [], ◌∷◌, ◌==◌, if◌then◌else◌}
use vole.Prelude.Text.{Text, text_eq, text_lt}
use vole.Prelude.Int.{ℤ, pos, ltb_ℤ}
use vole.SortedSet.{SortedSet, ZMember}

-- `lexGTE`
lex_gte : Text → Text → Bool
lex_gte member [] = not (text_lt member [])
lex_gte member (c ∷ cs) =
    if text_eq (c ∷ cs) (b'-' ∷ [])
    then true
    else (if text_eq (c ∷ cs) (b'+' ∷ [])
        then false
        else (if c == b'['
            then not (text_lt member cs)
            else (if c == b'(' then text_lt cs member else not (text_lt member (c ∷ cs)))))

-- `lexLTE`
lex_lte : Text → Text → Bool
lex_lte member [] = not (text_lt [] member)
lex_lte member (c ∷ cs) =
    if text_eq (c ∷ cs) (b'+' ∷ [])
    then true
    else (if text_eq (c ∷ cs) (b'-' ∷ [])
        then false
        else (if c == b'['
            then not (text_lt cs member)
            else (if c == b'(' then text_lt member cs else not (text_lt (c ∷ cs) member))))

module _ {S : Type 0} where
  -- the loop of `RangeByLex`
  lex_loop : Text → Text → ℤ → ℤ → ℕ → ℕ → List (ZMember S) → List (ZMember S)
  lex_loop min max offset count skipped gathered [] = []
  lex_loop min max offset count skipped gathered (x ∷ xs) =
      let pass = lex_loop min max offset count skipped gathered xs in
      let skip = lex_loop min max offset count (suc skipped) gathered xs in
      let take_more = lex_loop min max offset count skipped (suc gathered) xs in
      if not (lex_gte x.member min)
      then pass
      else (if not (lex_lte x.member max)
          then []
          else (if ltb_ℤ (pos 0) offset && ltb_ℤ (pos skipped) offset
              then skip
              else (if ltb_ℤ (pos 0) count && not (ltb_ℤ (pos (suc gathered)) count)
                  then x ∷ []
                  else x ∷ take_more)))

  -- `RangeByLex`
  pub range_by_lex : SortedSet S → Text → Text → ℤ → ℤ → List (ZMember S)
  range_by_lex z min max offset count = lex_loop min max offset count 0 0 z.ordered
