-- ===== src/SortedSet/Update.antt =====
-- `Add`, `Remove`, `Score`, `Rank` and `Len`: the map and the slice stay one set.
use vole.Prelude.{
  ◌↔◌, ℕ, ◌+◌, ◌≡◌, refl, true, false, List, [], ◌∷◌, if◌then◌else◌, arith, Bool-cases,
  Option-cases, inl, inr, ◌∙◌, sym, ap, some, none, length, get_elem?,
}
use vole.Prelude.Text.{text_eq, text_eq_iff, text_eq_refl, Text}
use vole.Prelude.Map.{
  Map, lookup, put, delete, IsMap, lookup-put, lookup-delete, put-IsMap, delete-IsMap,
  lookup-has-some, length-delete,
}
use vole.Prelude.Slices.{insert_at}
use vole.SortedSet.{
  Scores, SortedSet, ZMember, new, len, reaches, find_pos, insert_ordered, remove_ordered, add,
  remove, score_of, rank,
}
use vole.SortedSet.Order.{Sorted}
use vole.SortedSet.Position.{
  insert_when, insert_at-first_index, find_member, Distinct, erase_member, find_member-insert_when,
  insert_when-Distinct, find_member-erase_member, erase_member-Distinct, find_pos-first_index,
  stands_at-first_index, insert_when-Sorted, erase_member-Sorted,
}

module _ {S : Type 0} ⦃o : Scores S⦄ where
  -- The slice is strictly in order, holds no member twice, and holds what the map holds.
  pub record IsValid (z : SortedSet S) : Type 0 where
    pub sorted : Sorted z.ordered
    pub distinct : Distinct z.ordered
    pub is_map : IsMap z.scores
    pub agree : (m : Text) → lookup m z.scores ≡ find_member m z.ordered

  pub new-IsValid : IsValid (new S)
  unfolding lookup find_member
  new-IsValid = record { sorted = tt; distinct = tt; is_map = tt; agree = λ m. refl }

  -- A map and a slice that hold the same have the same length.
  length-agree :
      (scores : Map S) (xs : List (ZMember S))
      → IsMap scores
      → Distinct xs
      → ((m : Text) → lookup m scores ≡ find_member m xs)
      → length scores ≡ length xs
  unfolding lookup find_member
  length-agree [] [] p d h = refl
  length-agree ((k, s) ∷ scores) [] p d h = ground (arith, h k, text_eq_refl k)
  length-agree scores (x ∷ xs) p d h = omega (
    arith,
    shorter,
    length-agree (delete x.member scores) xs (delete-IsMap x.member scores p) d.1 same,
  )
    where
      held : lookup x.member scores ≡ some x.score
      held = ground (arith, h x.member, text_eq_refl x.member)

      shorter : length (delete x.member scores) + 1 ≡ length scores
      shorter =
          ground
            (arith, length-delete x.member scores p, lookup-has-some x.member x.score scores held)

      same : (m : Text) → lookup m (delete x.member scores) ≡ find_member m xs
      same m = ground (arith, lookup-delete x.member m scores, h m, d.0, text_eq_iff x.member m)

  -- What `insertOrdered` leaves in the slice, in a sorted set.
  ordered-insert_ordered :
      (z : SortedSet S) (m : Text) (s : S)
      → Sorted z.ordered
      → (insert_ordered z m s).ordered
        ≡ insert_when (reaches s m) (record { member = m; score = s }) z.ordered
  unfolding insert_ordered
  ordered-insert_ordered z m s sorted =
      ap (λ i. insert_at i (record { member = m; score = s }) z.ordered)
        (find_pos-first_index z s m sorted)
      ∙ insert_at-first_index (reaches s m) (record { member = m; score = s }) z.ordered

  -- And `removeOrdered`.
  ordered-remove_ordered :
      (z : SortedSet S) (m : Text) (s : S)
      → Sorted z.ordered
      → find_member m z.ordered ≡ some s
      → remove_ordered z m s ≡ record z { ordered = erase_member m z.ordered }
  unfolding remove_ordered
  ordered-remove_ordered z m s sorted h =
      let (stands, gone, _) = stands_at-first_index m s z.ordered sorted h in
      rw (find_pos-first_index z s m sorted, stands, gone)

  -- A member that the slice lacks goes into the map and the slice.
  module _ (scores : Map S) (xs : List (ZMember S)) (m : Text) (s : S) (sorted : Sorted xs)
      (distinct : Distinct xs) (map : IsMap scores) (absent : find_member m xs ≡ none)
      (agree : (j : Text) → text_eq m j ≡ false → lookup j scores ≡ find_member j xs) where
    placed-IsValid : IsValid (insert_ordered (record { scores = put m s scores; ordered = xs }) m s)
    placed-IsValid = record {
      sorted = rw slice (insert_when-Sorted x xs sorted absent);
      distinct = rw slice (insert_when-Distinct (reaches s m) x xs absent distinct);
      is_map = unfold insert_ordered in put-IsMap m s scores map;
      agree = λ j. rw slice (agrees j);
    }
      where
        x : ZMember S
        x = record { member = m; score = s }

        z : SortedSet S
        z = record { scores = put m s scores; ordered = xs }

        slice : (insert_ordered z m s).ordered ≡ insert_when (reaches s m) x xs
        slice = ordered-insert_ordered z m s sorted

        agrees :
            (j : Text)
            → lookup j (insert_ordered z m s).scores
              ≡ find_member j (insert_when (reaches s m) x xs)
        agrees j =
            unfold insert_ordered in
            ground (
              arith,
              lookup-put m j s scores,
              find_member-insert_when (reaches s m) x j xs absent,
              agree j,
            )

  -- `Add` keeps the set valid.
  pub add-IsValid : (z : SortedSet S) (m : Text) (s : S) → IsValid z → IsValid (add z m s).1
  unfolding add
  add-IsValid z m s v = elim (Option-cases (lookup m z.scores)) [
    | inl new ↦
        rw (new, add)
          (placed-IsValid z.scores z.ordered m s v.sorted v.distinct v.is_map
            (sym (v.agree m) ∙ new) (λ j _. v.agree j))
    | inr (old, found) ↦ elim (Bool-cases (o.eq old s)) [
      | inl same ↦ rw (found, add, same) v
      | inr other ↦
          rw (found, add, other, ordered-remove_ordered z m old v.sorted (sym (v.agree m) ∙ found))
            (placed-IsValid z.scores (erase_member m z.ordered) m s
              (erase_member-Sorted m z.ordered v.sorted)
              (erase_member-Distinct m z.ordered v.distinct) v.is_map
              (ground (arith, find_member-erase_member m m z.ordered v.distinct, text_eq_refl m))
              (λ j ne.
                ground (arith, v.agree j, find_member-erase_member m j z.ordered v.distinct)))
    ]
  ]

  pub scores-remove_ordered :
      (z : SortedSet S) (m : Text) (s : S) → (remove_ordered z m s).scores ≡ z.scores
  unfolding remove_ordered
  scores-remove_ordered z m s = ground arith

  stored :
      (z : SortedSet S) (m : Text) (s : S) (j : Text)
      → score_of (add z m s).1 j ≡ (if text_eq m j then some s else score_of z j)
  unfolding add insert_ordered score_of
  stored z m s j = elim (Option-cases (lookup m z.scores)) [
    | inl e ↦ ground (arith, lookup-put m j s z.scores)
    | inr (old, e) ↦ ground (
      arith,
      lookup-put m j s z.scores,
      text_eq_iff m j,
      scores-remove_ordered z m old,
      o.eq_iff old s,
    )
  ]

  new_member : (z : SortedSet S) (m : Text) (s : S) → ((add z m s).0 ≡ true) ↔ (score_of z m ≡ none)
  unfolding add score_of
  new_member z m s = ground arith

  -- `Add` keeps a valid set valid, stores the score of the member and of no other, and reports
  -- exactly whether the member was new.
  pub score_of-add :
      (z : SortedSet S) (m : Text) (s : S) (j : Text)
      → IsValid z
      → IsValid (add z m s).1
        × (score_of (add z m s).1 j ≡ (if text_eq m j then some s else score_of z j))
        × (((add z m s).0 ≡ true) ↔ (score_of z m ≡ none))
  score_of-add z m s j v = (add-IsValid z m s v, stored z m s j, new_member z m s)

  taken :
      (z : SortedSet S) (m j : Text)
      → score_of (remove z m).1 j ≡ (if text_eq m j then none else score_of z j)
  unfolding remove score_of
  taken z m j = elim (Option-cases (lookup m z.scores)) [
    | inl e ↦ ground (arith, text_eq_iff m j)
    | inr (s, e) ↦ ground (
      arith,
      lookup-delete m j z.scores,
      scores-remove_ordered (record z { scores = delete m z.scores }) m s,
    )
  ]

  was_there : (z : SortedSet S) (m : Text) → ((remove z m).0 ≡ false) ↔ (score_of z m ≡ none)
  unfolding remove score_of
  was_there z m = ground arith

  remove-IsValid : (z : SortedSet S) (m : Text) → IsValid z → IsValid (remove z m).1
  unfolding remove
  remove-IsValid z m v = elim (Option-cases (lookup m z.scores)) [
    | inl absent ↦ rw (absent, remove) v
    | inr (s, found) ↦
        rw
          (
            found,
            remove,
            ordered-remove_ordered (record z { scores = delete m z.scores }) m s v.sorted
                (sym (v.agree m) ∙ found),
          )
          (record {
            sorted = erase_member-Sorted m z.ordered v.sorted;
            distinct = erase_member-Distinct m z.ordered v.distinct;
            is_map = delete-IsMap m z.scores v.is_map;
            agree = λ j. ground (
              arith,
              lookup-delete m j z.scores,
              find_member-erase_member m j z.ordered v.distinct,
              v.agree j,
            );
          })
  ]

  -- `Remove` keeps a valid set valid, takes the member away and no other, and reports exactly
  -- whether it was there.
  pub score_of-remove :
      (z : SortedSet S) (m j : Text)
      → IsValid z
      → IsValid (remove z m).1
        × (score_of (remove z m).1 j ≡ (if text_eq m j then none else score_of z j))
        × (((remove z m).0 ≡ false) ↔ (score_of z m ≡ none))
  score_of-remove z m j v = (remove-IsValid z m v, taken z m j, was_there z m)

  rank_found :
      (z : SortedSet S) (m : Text) (s : S)
      → IsValid z
      → score_of z m ≡ some s
      → (rank z m ≡ some (find_pos z s m))
        × (get_elem? z.ordered (find_pos z s m) ≡ some (record { member = m; score = s }))
  unfolding rank score_of
  rank_found z m s v found =
      let (stands, _, held) =
        stands_at-first_index m s z.ordered v.sorted (sym (v.agree m) ∙ found) in
      rw (found, rank, find_pos-first_index z s m v.sorted, stands) (refl, held)

  -- In a valid set `Rank` of a member with a score is the index of its entry in the slice; it
  -- refuses exactly the members that have no score.
  pub rank_lem :
      (z : SortedSet S) (m : Text)
      → IsValid z
      → ((s : S)
          → score_of z m ≡ some s
          → (r : ℕ) × (rank z m ≡ some r)
            × (get_elem? z.ordered r ≡ some (record { member = m; score = s })))
        × ((rank z m ≡ none) ↔ (score_of z m ≡ none))
  rank_lem z m v = (λ s h. let f = rank_found z m s v h in (find_pos z s m, f.0, f.1), none_iff)
    where
      none_iff : (rank z m ≡ none) ↔ (score_of z m ≡ none)
      none_iff = elim (Option-cases (score_of z m)) [
        | inl e ↦ (λ _. e, λ _. unfold rank score_of in ground arith)
        | inr (s, e) ↦ ground (arith, rank_found z m s v e)
      ]

  -- `Len` of a valid set is the number of entries of the slice.
  pub len-IsValid : (z : SortedSet S) → IsValid z → len z ≡ length z.ordered
  unfolding len
  len-IsValid z v = length-agree z.scores z.ordered v.is_map v.distinct v.agree
