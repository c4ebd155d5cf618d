-- ===== src/SortedSet/Position.antt =====
-- Where the binary search of a sorted set ends, and what the slice holds after an insertion or a
-- removal there.
use vole.Prelude.{
  get_elem?, ◌≡◌, refl, Bool, true, false, not, List, [], ◌∷◌, if◌then◌else◌, arith, Bool-cases,
  inl, inr, ◌∙◌, ap, Option, some, none,
}
use vole.Prelude.Text.{text_eq, text_eq_iff, text_lt_irrefl, Text}
use vole.Prelude.Slices.{
  Rises, Every, first_index, search-first_index, insert_at, remove_at, at_index,
}
use vole.SortedSet.{Scores, SortedSet, ZMember, reaches, find_pos, stands_at}
use vole.SortedSet.Order.{precedes, Sorted, reaches-precedes, precedes_trans, precedes_total}

-- A value put before the first place where a condition holds.
unfoldable pub insert_when : {A : Type 0} → (A → Bool) → A → List A → List A
insert_when f x [] = x ∷ []
insert_when f x (y ∷ ys) = if f y then x ∷ y ∷ ys else y ∷ insert_when f x ys

pub insert_at-first_index :
    {A : Type 0} (f : A → Bool) (x : A) (xs : List A)
    → insert_at (first_index f xs) x xs ≡ insert_when f x xs
unfolding insert_when first_index
insert_at-first_index f x [] = refl
insert_at-first_index f x (y ∷ ys) = elim (Bool-cases (f y)) [
  | inl e ↦ rw e
  | inr e ↦ rw e (ap (◌∷◌ y) (insert_at-first_index f x ys))
]

module _ {S : Type 0} where
  -- The score that a slice holds for a member.
  unfoldable pub find_member : Text → List (ZMember S) → Option S
  find_member m [] = none
  find_member m (x ∷ xs) = if text_eq x.member m then some x.score else find_member m xs

  -- No member stands twice.
  abbrev pub Distinct : List (ZMember S) → Type 0
  Distinct [] = Unit {0}
  Distinct (x ∷ xs) = (find_member x.member xs ≡ none) × Distinct xs

  -- A slice without the entry of a member.
  unfoldable pub erase_member : Text → List (ZMember S) → List (ZMember S)
  erase_member m [] = []
  erase_member m (x ∷ xs) = if text_eq x.member m then xs else x ∷ erase_member m xs

  pub find_member-insert_when :
      (f : ZMember S → Bool) (x : ZMember S) (j : Text) (xs : List (ZMember S))
      → find_member x.member xs ≡ none
      → find_member j (insert_when f x xs)
        ≡ (if text_eq x.member j then some x.score else find_member j xs)
  unfolding find_member insert_when
  find_member-insert_when f x j [] h = refl
  find_member-insert_when f x j (y ∷ ys) h = ground (
    arith,
    text_eq_iff x.member j,
    text_eq_iff y.member j,
    text_eq_iff y.member x.member,
    find_member-insert_when f x j ys,
  )

  pub insert_when-Distinct :
      (f : ZMember S → Bool) (x : ZMember S) (xs : List (ZMember S))
      → find_member x.member xs ≡ none
      → Distinct xs
      → Distinct (insert_when f x xs)
  unfolding insert_when
  insert_when-Distinct f x [] h d = (unfold find_member in refl, tt)
  insert_when-Distinct f x (y ∷ ys) h d = elim (Bool-cases (f y)) [
    | inl e ↦ rw e (h, d)
    | inr e ↦ rw e (apart, insert_when-Distinct f x ys (rest (text_eq_iff y.member x.member).1) d.1)
  ]
    where
      rest :
          (y.member ≡ x.member → text_eq y.member x.member ≡ true) → find_member x.member ys ≡ none
      rest k = unfold find_member in ground arith

      apart : find_member y.member (insert_when f x ys) ≡ none
      apart =
          find_member-insert_when f x y.member ys (rest (text_eq_iff y.member x.member).1)
          ∙ unfold find_member in
            ground (arith, text_eq_iff y.member x.member, text_eq_iff x.member y.member)

  pub find_member-erase_member :
      (m j : Text) (xs : List (ZMember S))
      → Distinct xs
      → find_member j (erase_member m xs) ≡ (if text_eq m j then none else find_member j xs)
  unfolding find_member erase_member
  find_member-erase_member m j [] d = ground arith
  find_member-erase_member m j (x ∷ xs) d = ground (
    arith,
    text_eq_iff m j,
    text_eq_iff x.member m,
    text_eq_iff x.member j,
    find_member-erase_member m j xs d.1,
  )

  pub erase_member-Distinct :
      (m : Text) (xs : List (ZMember S)) → Distinct xs → Distinct (erase_member m xs)
  unfolding erase_member
  erase_member-Distinct m [] d = tt
  erase_member-Distinct m (x ∷ xs) d = ground (
    arith,
    text_eq_iff m x.member,
    erase_member-Distinct m xs d.1,
    find_member-erase_member m x.member xs d.1,
  )

module _ {S : Type 0} ⦃o : Scores S⦄ where
  -- Past the first member that does not come before `x` no member comes before `x`.
  Sorted-Rises :
      (x : ZMember S) (xs : List (ZMember S)) → Sorted xs → Rises (reaches x.score x.member) xs
  Sorted-Rises x [] s = tt
  Sorted-Rises x (y ∷ ys) s = (λ h. later ys s.0 h, Sorted-Rises x ys s.1)
    where
      later :
          (zs : List (ZMember S))
          → Every (precedes y) zs
          → reaches x.score x.member y ≡ true
          → Every (reaches x.score x.member) zs
      later [] e h = tt
      later (z ∷ zs) e h = (
        ground (arith, reaches-precedes x y, reaches-precedes x z, precedes_trans y z x e.0),
        later zs e.1 h,
      )

  -- In a sorted slice `findPos` is the number of members that come before.
  pub find_pos-first_index :
      (z : SortedSet S) (score : S) (member : Text)
      → Sorted z.ordered
      → find_pos z score member ≡ first_index (reaches score member) z.ordered
  unfolding find_pos
  find_pos-first_index z score member s =
      search-first_index (reaches score member) z.ordered
        (Sorted-Rises (record { member = member; score = score }) z.ordered s)

  Every-find_member :
      (y : ZMember S) (m : Text) (s : S) (xs : List (ZMember S))
      → Every (precedes y) xs
      → find_member m xs ≡ some s
      → precedes y (record { member = m; score = s }) ≡ true
  unfolding find_member
  Every-find_member y m s [] e h = cc
  Every-find_member y m s (x ∷ xs) e h = elim (Bool-cases (text_eq x.member m)) [
    | inl k ↦ ground (arith, text_eq_iff x.member m, e.0)
    | inr k ↦ Every-find_member y m s xs e.1 (rw k at h)
  ]

  -- For a member of the slice, with its score, the search ends at its entry.
  pub stands_at-first_index :
      (m : Text) (s : S) (xs : List (ZMember S))
      → Sorted xs
      → find_member m xs ≡ some s
      → (stands_at m xs (first_index (reaches s m) xs) ≡ true)
        × (remove_at (first_index (reaches s m) xs) xs ≡ erase_member m xs)
        × (get_elem? xs (first_index (reaches s m) xs) ≡ some (record { member = m; score = s }))
  unfolding find_member erase_member first_index at_index
  stands_at-first_index m s [] sorted h = cc
  stands_at-first_index m s (x ∷ xs) sorted h = elim (Bool-cases (text_eq x.member m)) [
    | inl k ↦ rw (k, reaches_here k) (k, refl, entry k)
    | inr k ↦
        let found : find_member m xs ≡ some s = unfold find_member in rw k at h in
        let (stands, gone, held) = stands_at-first_index m s xs sorted.1 found in
        rw (k, passes found) (stands, ap (◌∷◌ x) gone, held)
  ]
    where
      reaches_here : text_eq x.member m ≡ true → reaches s m x ≡ true
      reaches_here k =
          unfold find_member in
          ground (arith, text_eq_iff x.member m, o.eq_iff x.score s, text_lt_irrefl m)

      entry : text_eq x.member m ≡ true → some x ≡ some (record { member = m; score = s })
      entry k = unfold find_member in ground (arith, text_eq_iff x.member m)

      passes : find_member m xs ≡ some s → reaches s m x ≡ false
      passes found =
          reaches-precedes (record { member = m; score = s }) x
          ∙ ap not (Every-find_member x m s xs sorted.0 found)

  Every-insert_when :
      (f g : ZMember S → Bool) (x : ZMember S) (xs : List (ZMember S))
      → f x ≡ true
      → Every f xs
      → Every f (insert_when g x xs)
  unfolding insert_when
  Every-insert_when f g x [] h e = (h, tt)
  Every-insert_when f g x (y ∷ ys) h e = elim (Bool-cases (g y)) [
    | inl k ↦ rw k (h, e)
    | inr k ↦ rw k (e.0, Every-insert_when f g x ys h e.1)
  ]

  Every-erase_member :
      (f : ZMember S → Bool) (m : Text) (xs : List (ZMember S))
      → Every f xs
      → Every f (erase_member m xs)
  unfolding erase_member
  Every-erase_member f m [] e = tt
  Every-erase_member f m (x ∷ xs) e = elim (Bool-cases (text_eq x.member m)) [
    | inl k ↦ rw k e.1
    | inr k ↦ rw k (e.0, Every-erase_member f m xs e.1)
  ]

  Every-precedes :
      (x y : ZMember S) (zs : List (ZMember S))
      → precedes x y ≡ true
      → Every (precedes y) zs
      → Every (precedes x) zs
  Every-precedes x y [] h e = tt
  Every-precedes x y (z ∷ zs) h e = (precedes_trans x y z h e.0, Every-precedes x y zs h e.1)

  pub insert_when-Sorted :
      (x : ZMember S) (xs : List (ZMember S))
      → Sorted xs
      → find_member x.member xs ≡ none
      → Sorted (insert_when (reaches x.score x.member) x xs)
  unfolding insert_when find_member
  insert_when-Sorted x [] s h = (tt, tt)
  insert_when-Sorted x (y ∷ ys) s h = elim (Bool-cases (reaches x.score x.member y)) [
    | inl k ↦ rw k ((before_y k, Every-precedes x y ys (before_y k) s.0), s)
    | inr k ↦ rw k (
      Every-insert_when (precedes y) (reaches x.score x.member) x ys
          (ground (arith, reaches-precedes x y)) s.0,
      insert_when-Sorted x ys s.1 (ground arith),
    )
  ]
    where
      apart : x ≡ y → ⊥
      apart e = ground (arith, text_eq_iff y.member x.member, ap (λ (z : ZMember S). z.member) e)

      before_y : reaches x.score x.member y ≡ true → precedes x y ≡ true
      before_y k = elim (Bool-cases (precedes x y)) [
        | inl p ↦ p
        | inr p ↦ absurd (apart (precedes_total x y p (ground (arith, reaches-precedes x y))))
      ]

  pub erase_member-Sorted :
      (m : Text) (xs : List (ZMember S)) → Sorted xs → Sorted (erase_member m xs)
  unfolding erase_member
  erase_member-Sorted m [] s = tt
  erase_member-Sorted m (x ∷ xs) s = elim (Bool-cases (text_eq x.member m)) [
    | inl k ↦ rw k s.1
    | inr k ↦ rw k (Every-erase_member (precedes x) m xs s.0, erase_member-Sorted m xs s.1)
  ]
