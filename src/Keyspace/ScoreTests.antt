-- ===== src/Keyspace/ScoreTests.antt =====
-- The sorted sets of the keyspace at a concrete store, with natural numbers for scores.
use vole.Prelude.{ℕ, ◌+◌, ◌≡◌, refl, false, [], ◌∷◌}
use vole.Prelude.Text.{Text, text_eq}
use vole.Prelude.Int.{pos}
use vole.Prelude.Map.{lookup, has}
use vole.Keys.{Keys}
use vole.SortedSet
use vole.SortedSet.{SortedSet, ZMember, score_of}
use vole.SortedSet.Naturals.{nat_scores}
use vole.SortedSet.Position.{find_member}
use vole.SortedSet.Update.{IsValid}
use vole.Keyspace.{Store, new_store, ok, past_deadline}
use vole.Keyspace.SortedSets.{beside_sorted, sorted_at, z_add, z_rem, z_score, z_card}
use vole.Keyspace.Scores.{scored, z_score-z_add}

abbrev a_key : Text
a_key = b'a' ∷ []

abbrev b_key : Text
b_key = b'b' ∷ []

abbrev no_keys : Keys
no_keys = record {
  version = 0;
  key_version = [];
  on_change = false;
  events = [];
  max_memory = pos 0;
  access_time = [];
}

-- the set of b with the score 5
abbrev five : SortedSet ℕ
five = record { scores = (b_key, 5) ∷ []; ordered = record { member = b_key; score = 5 } ∷ [] }

five-IsValid : IsValid five
unfolding lookup find_member text_eq has
five-IsValid = record {
  sorted = (tt, tt);
  distinct = (refl, tt);
  is_map = (refl, tt);
  agree = λ m. refl;
}

abbrev sorted : Store ℕ ℕ
sorted = record (new_store no_keys) { zsets = (a_key, five) ∷ [] }

abbrev one_more : ZMember ℕ
one_more = record { member = a_key; score = 7 }

z_score-z_add_example :
    (n : ℕ) × (u : Store ℕ ℕ) × (z_add a_key (one_more ∷ []) (pos 5) sorted ≡ (ok n, u))
    × ((j : Text)
        → z_score a_key j (pos 5) u
          ≡ ok (scored j (one_more ∷ []) (score_of (sorted_at a_key sorted) j)))
    × (z_card a_key (pos 5) u ≡ ok (SortedSet.len (sorted_at a_key sorted) + n))
unfolding past_deadline lookup has text_eq beside_sorted vole.Keyspace.SortedSets.or_new
z_score-z_add_example = z_score-z_add a_key (pos 5) sorted refl refl refl one_more [] five-IsValid
