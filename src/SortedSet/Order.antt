-- ===== src/SortedSet/Order.antt =====
-- The order of a sorted set: by score, then by member.
use vole.Prelude.{
  ◌≡◌, Bool, true, false, not, List, [], ◌∷◌, if◌then◌else◌, arith, Bool-cases, inl, inr,
}
use vole.Prelude.Text.{text_lt, text_lt_trans, text_lt_total}
use vole.Prelude.Slices.{Every}
use vole.SortedSet.{Scores, ZMember, reaches}

module _ {S : Type 0} ⦃o : Scores S⦄ where
  -- `x` comes before `y`.
  abbrev pub precedes : ZMember S → ZMember S → Bool
  precedes x y = if o.eq x.score y.score then text_lt x.member y.member else o.lt x.score y.score

  -- Strictly increasing.
  abbrev pub Sorted : List (ZMember S) → Type 0
  Sorted [] = Unit {0}
  Sorted (x ∷ xs) = Every (precedes x) xs × Sorted xs

  pub lt_asymm : (a b : S) → o.lt a b ≡ true → o.lt b a ≡ false
  lt_asymm a b h = elim (Bool-cases (o.lt b a)) [
    | inl e ↦ cc (o.lt_trans a b a h e, o.lt_irrefl a)
    | inr e ↦ e
  ]

  -- Of two scores that differ, the one is below the other exactly if the other is not.
  pub lt_flip : (a b : S) → o.eq a b ≡ false → o.lt b a ≡ not (o.lt a b)
  lt_flip a b h = elim (Bool-cases (o.lt a b)) [
    | inl e ↦ rw e (lt_asymm a b e)
    | inr e ↦ elim (Bool-cases (o.lt b a)) [
      | inl f ↦ rw (e, f)
      | inr f ↦ cc (h, (o.eq_iff a b).1 (o.lt_total a b e f))
    ]
  ]

  -- The condition of the binary search is that the member does not come before.
  pub reaches-precedes : (x z : ZMember S) → reaches x.score x.member z ≡ not (precedes z x)
  reaches-precedes x z = elim (Bool-cases (o.eq z.score x.score)) [
    | inl e ↦ rw e
    | inr e ↦ rw e (lt_flip z.score x.score e)
  ]

  pub precedes_trans :
      (x y z : ZMember S) → precedes x y ≡ true → precedes y z ≡ true → precedes x z ≡ true
  precedes_trans x y z h k = ground (
    arith,
    o.eq_iff x.score y.score,
    o.eq_iff y.score z.score,
    o.eq_iff x.score z.score,
    o.lt_trans x.score y.score z.score,
    o.lt_irrefl x.score,
    o.lt_irrefl y.score,
    text_lt_trans x.member y.member z.member,
  )

  pub precedes_total : (x y : ZMember S) → precedes x y ≡ false → precedes y x ≡ false → x ≡ y
  precedes_total x y h k = ground (
    arith,
    o.eq_iff x.score y.score,
    o.eq_iff y.score x.score,
    o.lt_total x.score y.score,
    text_lt_total x.member y.member,
  )
