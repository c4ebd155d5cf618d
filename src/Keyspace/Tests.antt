-- ===== src/Keyspace/Tests.antt =====
-- The keyspace at concrete stores. The scores of sorted sets and the documents do not matter here.
use vole.Keyspace.Toggles.{IsBytes, get_bit-set_bit}
use vole.Keyspace.Bytes.{get_range-set_range}
use vole.Prelude.Decimal.{decimal, append_int}
use vole.TimeSeries.{wrap64}
use vole.Keyspace.Renames.{exists_read-rename, value_result-rename}
use vole.Keyspace.Spec.{
  slot, current, value, answer, nothing, text_of, do_incr_by, settle, do_get, do_set, spec,
}
use vole.Keyspace.Bits.{set_bit, get_bit}
use vole.Keyspace.Waiters.{tally}
use vole.Keyspace.Listed.{in_order, times_held, asked}
use vole.Prelude.{◌&&◌}
use vole.Keyspace.Pages.{collect-scan, scan-none, collect}
use vole.Keyspace.Edits.{get_range, set_delayed, set_range}
use vole.Keyspace.Strings.{value_result}
use vole.Keyspace.Moves.{rename}
use vole.Keyspace.Sets.{s_inter, s_rem}
use vole.Keyspace.Listing.{map_keys, all_keys, sort_keys, scan, scan_keys}
use vole.Keyspace.Members.{AllSets, s_inter-Answers, in_every, Answers}
use vole.Keyspace.Trace.{Onward, run-promised, promised, run, Call}
use vole.Keyspace.Plain.{IsPlain}
use vole.Prelude.{
  zero, ◌-◌, ℕ, suc, ◌+◌, ◌≡◌, refl, Bool, true, false, List, [], ◌∷◌, ◌++◌, Option, some, none,
  length, arith, if◌then◌else◌, get_or, ◌==◌,
}
use vole.Prelude.Text.{Text, text_eq}
use vole.Prelude.Int.{pos, ◌+ℤ◌}
use vole.Prelude.Map.{put, has, lookup}
use vole.Keys.{Keys}
use vole.Namespace.{insert_name}
use vole.Keyspace.{
  is_visible, touch_keys, Store, new_store, past_deadline, is_expired, is_delayed, exists_read,
  holds_other, before_time, ok,
}

abbrev no_keys : Keys
no_keys = record {
  version = 0;
  key_version = [];
  on_change = false;
  events = [];
  max_memory = pos 0;
  access_time = [];
}

abbrev empty : Store ℕ ℕ
empty = new_store no_keys

abbrev a_key : Text
a_key = b'a' ∷ []

abbrev b_key : Text
b_key = b'b' ∷ []

abbrev hello : Text
hello = b'h' ∷ b'i' ∷ []

empty-IsPlain : (j : Text) → IsPlain j empty
unfolding holds_other has lookup
empty-IsPlain j = record { no_other = refl; not_delayed = refl; no_dangling = λ h. refl }

-- SET with a deadline, a read before and one behind it, and a number
abbrev calls : List Call
calls =
    record { time = pos 5; key = a_key; command = do_set hello (pos 10) }
    ∷ record { time = pos 6; key = a_key; command = do_get }
    ∷ record { time = pos 15; key = a_key; command = do_get }
    ∷ record { time = pos 16; key = a_key; command = do_incr_by (pos 7) }
    ∷ []

nothing_yet : (j : Text) → current (pos 0) j empty ≡ settle (pos 0) none
unfolding current settle slot lookup
nothing_yet j = refl

onward : Onward (pos 0) calls
onward = (omega arith, (omega arith, (omega arith, (omega arith, tt))))

run-promised_example : run calls empty ≡ promised calls (λ j. none)
run-promised_example = run-promised calls (pos 0) empty (λ j. none) empty-IsPlain nothing_yet onward

replies_of_calls :
    promised calls (λ j. none)
    ≡ nothing ∷ value (some hello) ∷ value none ∷ answer (ok (pos 7)) ∷ []
unfolding promised spec settle text_of past_deadline wrap64 ◌+ℤ◌ append_int decimal text_eq
replies_of_calls = refl

abbrev one_string : Store ℕ ℕ
one_string = record empty { kv = (a_key, hello) ∷ [] }

readable_a : exists_read a_key (pos 5) one_string ≡ true
unfolding exists_read is_expired is_delayed past_deadline before_time lookup has text_eq
readable_a = refl

get_range-set_range_example :
    (n : ℕ) × (u : Store ℕ ℕ) × (set_range 1000 a_key (pos 3) hello (pos 5) one_string
      ≡ some (ok n, u))
    × (get_range a_key (pos 3) (pos (3 + length hello - 1)) (pos 5) u ≡ ok hello)
unfolding has
get_range-set_range_example =
    get_range-set_range 1000 a_key hello 3 (pos 5) one_string (unfold holds_other in refl)
      (omega arith) (omega arith) (omega arith)

two_keys :
    length (scan_keys [] (pos 5) (record empty { kv = (b_key, hello) ∷ (a_key, hello) ∷ [] })) ≡ 2
unfolding scan_keys sort_keys all_keys map_keys is_visible is_expired is_delayed past_deadline
    before_time insert_name text_eq vole.Prelude.Limit.keep lookup vole.Prelude.Text.text_lt
two_keys = refl

abbrev two : Store ℕ ℕ
two = record empty { kv = (b_key, hello) ∷ (a_key, hello) ∷ [] }

collect-scan_example :
    (collect (suc (length (scan_keys [] (pos 5) two))) (pos 0) (λ i. scan i (pos 1) [] (pos 5) two)
      ≡ some (scan_keys [] (pos 5) two))
    × (in_order (scan_keys [] (pos 5) two) ≡ true)
    × ((j : Text)
        → tally j (scan_keys [] (pos 5) two)
          ≡ (if asked [] j && is_visible j (pos 5) two then times_held (pos 5) two j else 0))
collect-scan_example =
    collect-scan two [] (pos 5) (pos 1) 1 refl (omega arith) (omega (arith, two_keys))

scan-none_example : scan (pos 1) (pos 9223372036854775807) [] (pos 5) two ≡ none
scan-none_example =
    scan-none two [] (pos 5) (pos 9223372036854775807) 9223372036854775807 refl 1
      (omega (arith, two_keys)) (omega arith) (omega arith)

value_result-rename_example :
    ((rename a_key b_key (pos 5) one_string).0 ≡ ok tt)
    × ((j : Text)
        → value_result (pos 5) (rename a_key b_key (pos 5) one_string).1 j ≡ (
            if text_eq b_key j
            then value_result (pos 5) one_string a_key
            else (if text_eq a_key j then none else value_result (pos 5) one_string j)))
    × ((j : Text)
        → lookup j (rename a_key b_key (pos 5) one_string).1.expires ≡ (
            if text_eq b_key j
            then lookup a_key one_string.expires
            else (if text_eq a_key j then none else lookup j one_string.expires)))
unfolding text_eq
value_result-rename_example = value_result-rename a_key b_key (pos 5) one_string refl readable_a

exists_read-rename_example :
    ((rename a_key a_key (pos 5) one_string).0 ≡ ok tt)
    × (exists_read a_key (pos 6) (rename a_key a_key (pos 5) one_string).1 ≡ false)
exists_read-rename_example = exists_read-rename a_key (pos 5) one_string (pos 6) readable_a

hidden_string :
    is_delayed a_key (pos 6) (set_delayed a_key hello (pos 9) (pos 0) (pos 1) empty) ≡ true
unfolding is_delayed set_delayed before_time touch_keys put lookup ◌+ℤ◌ text_eq
hidden_string = refl

abbrev two_sets : Store ℕ ℕ
two_sets = record empty {
  sets = (a_key, (a_key, tt) ∷ (b_key, tt) ∷ []) ∷ (b_key, (b_key, tt) ∷ []) ∷ [];
}

readable_sets : AllSets (pos 5) two_sets (a_key ∷ b_key ∷ [])
unfolding is_expired past_deadline lookup vole.Keyspace.Sets.not_set_read
    vole.Keyspace.exists_string_read is_delayed before_time has vole.Keyspace.Sets.beside_set
readable_sets = (refl, refl, (refl, refl, tt))

s_inter-Answers_example :
    Answers
      (pos 5)
      two_sets
      (in_every (pos 5) two_sets (a_key ∷ b_key ∷ []))
      (s_inter (a_key ∷ b_key ∷ []) (pos 5) two_sets)
s_inter-Answers_example = s_inter-Answers (pos 5) two_sets a_key (b_key ∷ []) readable_sets

hello-IsBytes : IsBytes hello
hello-IsBytes zero = omega arith
hello-IsBytes (suc zero) = omega arith
hello-IsBytes (suc (suc i)) = omega arith

get_bit-set_bit_example :
    (bit : ℕ → ℕ) × (u : Store ℕ ℕ) × ((p : ℕ)
      → get_bit a_key (pos p) (pos 5) one_string ≡ ok (bit p))
    × (set_bit 1000 a_key (pos 17) (pos 1) (pos 5) one_string ≡ some (ok (bit 17), u))
    × ((p : ℕ) → get_bit a_key (pos p) (pos 5) u ≡ ok (if 17 == p then 1 else bit p))
unfolding has vole.Keyspace.Edits.or_empty lookup text_eq
get_bit-set_bit_example =
    get_bit-set_bit a_key (pos 5) one_string (unfold holds_other in refl) 1000 17 1 (omega arith)
      (omega arith) hello-IsBytes (omega arith)
