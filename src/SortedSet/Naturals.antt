-- ===== src/SortedSet/Naturals.antt =====
-- Natural numbers in place of the scores of internal/store/sortedset.go, for runs.
use vole.Prelude.{ℕ, ◌≡◌, true, false, arith, ltb, ◌==◌, ==_iff}
use vole.SortedSet.{Scores}

pub ltb_irrefl : (x : ℕ) → ltb x x ≡ false
ltb_irrefl x = ground arith

pub ltb_trans : (x y z : ℕ) → ltb x y ≡ true → ltb y z ≡ true → ltb x z ≡ true
ltb_trans x y z h k = ground arith

pub ltb_total : (x y : ℕ) → ltb x y ≡ false → ltb y x ≡ false → x ≡ y
ltb_total x y h k = ground arith

instance abbrev pub nat_scores : Scores ℕ
nat_scores = record {
  lt = ltb;
  eq = ◌==◌;
  eq_iff = ==_iff;
  lt_irrefl = ltb_irrefl;
  lt_trans = ltb_trans;
  lt_total = ltb_total;
}
