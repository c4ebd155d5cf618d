-- ===== src/Keyspace/Members.antt =====
-- internal/store/store.go, `SInter` and `SRem`: the members that they answer with, and what a watcher
-- sees of them.
use vole.Prelude.{
  ℕ, ◌≡◌, refl, ◌∙◌, ap, inl, inr, Bool, true, false, ◌||◌, List, [], ◌∷◌, ◌++◌, length, arith,
  ◌==◌, ltb, if◌then◌else◌, Bool-cases,
}
use vole.Prelude.Text.{Text, text_eq, text_eq_iff}
use vole.Prelude.Int.{ℤ}
use vole.Prelude.Limit.{keep}
use vole.Prelude.Map.{Map, lookup, has}
use vole.Keys.{keys_modified_since}
use vole.Namespace.{one_of, insert_name}
use vole.Keyspace.{Store, Answer, ok, past_deadline, is_expired}
use vole.Keyspace.Refines.{expired_key-live}
use vole.Keyspace.Plain.{exists_string-settled}
use vole.Keyspace.Listing.{map_keys, sort_keys}
use vole.Keyspace.Sets.{
  Members, set_at, beside_set, not_set, not_set_read, in_all, smallest, intersect, inter_loop,
  s_inter, s_rem, store_set, remove_members,
}

one_of-insert_name :
    (x y : Text) (ys : List Text)
    → one_of x (insert_name y ys) ≡ (if text_eq y x then true else one_of x ys)
unfolding one_of insert_name
one_of-insert_name x y [] = refl
one_of-insert_name x y (z ∷ zs) = ground (arith, one_of-insert_name x y zs)

one_of-sort_keys : (x : Text) (xs : List Text) → one_of x (sort_keys xs) ≡ one_of x xs
unfolding one_of sort_keys
one_of-sort_keys x [] = refl
one_of-sort_keys x (y ∷ ys) =
    ground (arith, one_of-insert_name x y (sort_keys ys), one_of-sort_keys x ys)

one_of-keep :
    (x : Text) (f : Text → Bool) (xs : List Text)
    → one_of x (keep f xs) ≡ (if f x then one_of x xs else false)
unfolding one_of keep
one_of-keep x f [] = ground arith
one_of-keep x f (y ∷ ys) = elim (Bool-cases (text_eq y x)) [
  | inl e ↦
      let same : f y ≡ f x = ap f ((text_eq_iff y x).0 e) in
      ground (arith, one_of-keep x f ys, e, same)
  | inr e ↦ ground (arith, one_of-keep x f ys, e)
]

one_of-map_keys : (x : Text) (m : Members) → one_of x (map_keys m) ≡ has x m
unfolding one_of map_keys has
one_of-map_keys x [] = refl
one_of-map_keys x ((y, u) ∷ m) = ground (arith, one_of-map_keys x m)

-- a member of all sets is one of the smallest
in_all-smallest :
    (x : Text) (m : Members) (ms : List Members)
    → in_all (m ∷ ms) x ≡ true
    → has x (smallest m ms) ≡ true
unfolding in_all smallest
in_all-smallest x m [] h = ground (arith, h)
in_all-smallest x m (n ∷ ms) h = elim (Bool-cases (ltb (length n) (length m))) [
  | inl e ↦ rw e (in_all-smallest x n ms (ground (arith, h)))
  | inr e ↦ rw e (in_all-smallest x m ms (ground (arith, h)))
]

one_of-intersect :
    (x : Text) (m : Members) (ms : List Members) → one_of x (intersect (m ∷ ms)) ≡ in_all (m ∷ ms) x
unfolding intersect
one_of-intersect x m ms =
    one_of-sort_keys x (keep (in_all (m ∷ ms)) (map_keys (smallest m ms)))
    ∙ one_of-keep x (in_all (m ∷ ms)) (map_keys (smallest m ms))
    ∙ elim (Bool-cases (in_all (m ∷ ms) x)) [
      | inl e ↦ rw e (one_of-map_keys x (smallest m ms) ∙ in_all-smallest x m ms e)
      | inr e ↦ rw e refl
    ]

has-empty : (x : Text) (m : Members) → (length m == 0) ≡ true → has x m ≡ false
unfolding has
has-empty x [] h = refl
has-empty x (p ∷ m) h = absurd (ground (arith, h))

in_all-append :
    (x : Text) (ms : List Members) (m : Members)
    → in_all (ms ++ m ∷ []) x ≡ (if in_all ms x then has x m else false)
unfolding in_all
in_all-append x [] m = ground arith
in_all-append x (n ∷ ms) m = ground (arith, in_all-append x ms m)

module _ {F J : Type 0} (now : ℤ) (s : Store F J) where
  -- each key can be read as a set
  abbrev pub AllSets : List Text → Type 0
  AllSets [] = Unit {0}
  AllSets (key ∷ ks) =
      (is_expired key now s ≡ false) × (not_set_read key now s ≡ false) × AllSets ks

  unfoldable pub in_every : List Text → Text → Bool
  in_every [] x = true
  in_every (key ∷ ks) x = if has x (set_at key s) then in_every ks x else false

  -- an answer of those members that `f` tells
  abbrev pub Answers : (Text → Bool) → Answer (List Text) → Type 0
  Answers f r = (out : List Text) × (r ≡ ok out) × ((x : Text) → one_of x out ≡ f x)

  inter_loop-Answers :
      (ks : List Text) (m : Members) (ms : List Members)
      → AllSets ks
      → Answers
          (λ x. if in_all (m ∷ ms) x then in_every ks x else false)
          (inter_loop ks now s (m ∷ ms))
  unfolding inter_loop in_every
  inter_loop-Answers [] m ms a =
      (intersect (m ∷ ms), refl, λ x. one_of-intersect x m ms ∙ ground arith)
  inter_loop-Answers (key ∷ ks) m ms a = elim (Bool-cases (length (set_at key s) == 0)) [
    | inl e ↦
        rw (a.0, a.1, e)
          ([], refl, λ x. unfold one_of in ground (arith, has-empty x (set_at key s) e))
    | inr e ↦
        let (out, p, q) = inter_loop-Answers ks m (ms ++ set_at key s ∷ []) a.2 in
        rw (a.0, a.1, e)
          (out, p, λ x. q x ∙ ground (arith, in_all-append x (m ∷ ms) (set_at key s)))
  ]

  -- `SInter` of keys that can all be read as sets, at least one, answers with the members that stand in
  -- each of the sets, and no others.
  pub s_inter-Answers :
      (key : Text) (ks : List Text)
      → AllSets (key ∷ ks)
      → Answers (in_every (key ∷ ks)) (s_inter (key ∷ ks) now s)
  unfolding s_inter inter_loop in_every
  s_inter-Answers key ks a = elim (Bool-cases (length (set_at key s) == 0)) [
    | inl e ↦
        rw (a.0, a.1, e)
          ([], refl, λ x. unfold one_of in ground (arith, has-empty x (set_at key s) e))
    | inr e ↦
        let (out, p, q) = inter_loop-Answers ks (set_at key s) [] a.2 in
        rw (a.0, a.1, e) (out, p, λ x. q x ∙ unfold in_all in ground arith)
  ]

  keys-store_set : (key : Text) (m : Members) → (store_set key m s).keys ≡ s.keys
  unfolding store_set
  keys-store_set key m = elim (Bool-cases (length m == 0)) [ inl e ↦ rw e refl | inr e ↦ rw e refl ]

  -- `SRem` removes members of a set, and a watcher of the key is not told: what it compares with the
  -- versions that it took is as it was before, for a key that is not past its deadline.
  pub keys_modified_since-s_rem :
      (key : Text) (xs : List Text) (versions : Map ℕ)
      → past_deadline now (lookup key s.expires) ≡ false
      → keys_modified_since versions (s_rem key xs now s).1.keys
        ≡ keys_modified_since versions s.keys
  unfolding s_rem not_set
  keys_modified_since-s_rem key xs versions h =
      elim (Bool-cases (has key s.kv || beside_set key s)) [
        | inl e ↦ rw (expired_key-live key now s h, exists_string-settled key now s h, e) refl
        | inr e ↦ elim (Bool-cases (length (set_at key s) == 0)) [
          | inl z ↦ rw (expired_key-live key now s h, exists_string-settled key now s h, e, z) refl
          | inr z ↦
              rw (expired_key-live key now s h, exists_string-settled key now s h, e, z)
                (ap (keys_modified_since versions)
                  (keys-store_set key (remove_members xs (set_at key s)).1))
        ]
      ]
