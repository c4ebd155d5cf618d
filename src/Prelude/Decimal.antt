-- ===== src/Prelude/Decimal.antt =====
-- Decimal numbers of Go's library: `strconv.AppendInt` and `strconv.ParseInt` in base 10, 64 bits.
use Prim.Native.Nat.{ℕ, zero, suc, ◌+◌, ◌-◌, ◌*◌, ◌/◌, ◌%◌, ◌^◌, ◌<◌, ◌≤◌}
use mathlib.Core.Path.{◌≡◌, refl, ap, sym, ◌∙◌}
use mathlib.Core.Bool.{Bool, true, false, ◌&&◌}
use mathlib.Core.Logic.{inl, inr}
use mathlib.Core.List.{[], ◌∷◌, ◌++◌}
use native.Mathlib.Omega.{arith}
use vole.Prelude.Tests.{ltb, leb, ◌==◌, if◌then◌else◌, Bool-cases, ltb→lt, lt→ltb}
use vole.Prelude.Text.{Text}
use vole.Prelude.Int.{ℤ, pos, negsuc, pos_part, neg_part}

-- the digits of a number; `f` bounds their count
digits_fuel : ℕ → ℕ → Text
digits_fuel zero n = []
digits_fuel (suc f) n =
    let rest = digits_fuel f (n / 10) ++ (48 + n % 10) ∷ [] in
    if ltb n 10 then (48 + n) ∷ [] else rest

-- the decimal digits of a number
unfoldable pub decimal : ℕ → Text
unfolding digits_fuel
decimal n = digits_fuel (suc n) n

-- `strconv.AppendInt(nil, n, 10)`
unfoldable pub append_int : ℤ → Text
unfolding decimal
append_int (pos n) = decimal n
append_int (negsuc n) = b'-' ∷ decimal (suc n)

-- What `strconv.ParseUint` finds: a number, a byte that is no digit, or a number beyond 64 bits.
pub data Digits : Type 0 where
  number : ℕ → Digits
  bad_syntax : Digits
  out_of_range : Digits

abbrev pub is_digit : ℕ → Bool
is_digit c = leb 48 c && leb c 57

-- the loop of `ParseUint`; it stops at the first digit that leaves 64 bits
unfoldable pub read_digits : ℕ → Text → Digits
read_digits acc [] = number acc
read_digits acc (c ∷ cs) =
    let next = read_digits (acc * 10 + (c - 48)) cs in
    if is_digit c
    then (if ltb (acc * 10 + (c - 48)) (2 ^ 64) then next else out_of_range)
    else bad_syntax

-- `strconv.ParseInt(s, 10, 64)`: the value, and whether the error is nil
pub record Parsed : Type 0 where
  pub value : ℤ
  pub good : Bool

-- `-n`
abbrev pub negate : ℕ → ℤ
negate zero = pos 0
negate (suc n) = negsuc n

-- the cases of `ParseInt` behind the sign
unfoldable pub with_sign : Bool → Digits → Parsed
with_sign minus bad_syntax = record { value = pos 0; good = false }
with_sign true out_of_range = record { value = negate (2 ^ 63); good = false }
with_sign false out_of_range = record { value = pos (2 ^ 63 - 1); good = false }
with_sign true (number n) =
    if ltb (2 ^ 63) n
    then record { value = negate (2 ^ 63); good = false }
    else record { value = negate n; good = true }
with_sign false (number n) =
    if ltb n (2 ^ 63)
    then record { value = pos n; good = true }
    else record { value = pos (2 ^ 63 - 1); good = false }

-- the digits behind the sign: there must be one
unsigned : Text → Digits
unsigned [] = bad_syntax
unsigned (c ∷ cs) = read_digits 0 (c ∷ cs)

unfoldable pub parse_int : Text → Parsed
unfolding unsigned with_sign read_digits
parse_int [] = record { value = pos 0; good = false }
parse_int (c ∷ cs) =
    if c == b'-'
    then with_sign true (unsigned cs)
    else (if c == b'+' then with_sign false (unsigned cs) else with_sign false (unsigned (c ∷ cs)))

-- More digits go on from the number read so far.
read_digits-append :
    (acc n : ℕ) (xs ys : Text)
    → read_digits acc xs ≡ number n
    → read_digits acc (xs ++ ys) ≡ read_digits n ys
unfolding read_digits
read_digits-append acc n [] ys h = ground arith
read_digits-append acc n (c ∷ cs) ys h =
    ground (arith, read_digits-append (acc * 10 + (c - 48)) n cs ys)

read_digits_one :
    (a d : ℕ) → d < 10 → a * 10 + d < 2 ^ 64 → read_digits a ((48 + d) ∷ []) ≡ number (a * 10 + d)
unfolding read_digits
read_digits_one a d h k = ground arith

read_digits-fuel : (f n : ℕ) → n < f → n < 2 ^ 64 → read_digits 0 (digits_fuel f n) ≡ number n
unfolding digits_fuel
read_digits-fuel zero n h k = absurd (omega arith)
read_digits-fuel (suc f) n h k = elim (Bool-cases (ltb n 10)) [
  | inl small ↦
      rw small (read_digits_one 0 n (ltb→lt n 10 small) (omega arith) ∙ ap number (omega arith))
  | inr large ↦ rw large (
      read_digits-append 0 (n / 10) (digits_fuel f (n / 10)) ((48 + n % 10) ∷ [])
        (read_digits-fuel f (n / 10) (ground arith) (omega arith))
      ∙ read_digits_one (n / 10) (n % 10) (omega arith) (omega arith)
      ∙ ap number (omega arith))
]

digits_fuel-first :
    (f n : ℕ) → n < f → (c : ℕ) × (cs : Text) × (digits_fuel f n ≡ c ∷ cs) × (is_digit c ≡ true)
unfolding digits_fuel
digits_fuel-first zero n h = absurd (omega arith)
digits_fuel-first (suc f) n h = elim (Bool-cases (ltb n 10)) [
  | inl small ↦ (48 + n, [], rw small, ground arith)
  | inr large ↦
      let (c, cs, e, d) = digits_fuel-first f (n / 10) (ground arith) in
      (c, cs ++ (48 + n % 10) ∷ [], rw (large, e), d)
]

parse_int_plain :
    (c : ℕ) (cs : Text)
    → is_digit c ≡ true
    → parse_int (c ∷ cs) ≡ with_sign false (read_digits 0 (c ∷ cs))
unfolding parse_int
parse_int_plain c cs d = ground arith

parse_int_minus :
    (c : ℕ) (cs : Text) → parse_int (b'-' ∷ c ∷ cs) ≡ with_sign true (read_digits 0 (c ∷ cs))
unfolding parse_int
parse_int_minus c cs = refl

with_sign_pos :
    (n : ℕ) → n < 2 ^ 63 → with_sign false (number n) ≡ record { value = pos n; good = true }
unfolding with_sign
with_sign_pos n h = rw (lt→ltb n (2 ^ 63) h)

with_sign_neg :
    (n : ℕ)
    → n < 2 ^ 63
    → with_sign true (number (suc n)) ≡ record { value = negsuc n; good = true }
unfolding with_sign
with_sign_neg n h = ground arith

decimal-cons : (n : ℕ) → (c : ℕ) × (cs : Text) × (decimal n ≡ c ∷ cs) × (is_digit c ≡ true)
unfolding decimal
decimal-cons n = digits_fuel-first (suc n) n (omega arith)

read_digits-decimal : (n : ℕ) → n < 2 ^ 64 → read_digits 0 (decimal n) ≡ number n
unfolding decimal
read_digits-decimal n h = read_digits-fuel (suc n) n (omega arith) h

-- `ParseInt` reads back what `AppendInt` writes.
pub parse_int-decimal :
    (n : ℕ) → n < 2 ^ 63 → parse_int (decimal n) ≡ record { value = pos n; good = true }
parse_int-decimal n h =
    let (c, cs, e, d) = decimal-cons n in
    rw e (parse_int_plain c cs d)
    ∙ ap (with_sign false) (ap (read_digits 0) (sym e) ∙ read_digits-decimal n (omega arith))
    ∙ with_sign_pos n h

-- The integers of 64 bits, in two's complement.
abbrev pub IsInt64 : ℤ → Type 0
IsInt64 i = (pos_part i < 2 ^ 63) × (neg_part i ≤ 2 ^ 63)

pub parse_int-append_int :
    (i : ℤ) → IsInt64 i → parse_int (append_int i) ≡ record { value = i; good = true }
unfolding append_int
parse_int-append_int (pos n) h = parse_int-decimal n h.0
parse_int-append_int (negsuc n) h =
    let (c, cs, e, d) = decimal-cons (suc n) in
    rw e (parse_int_minus c cs)
    ∙ ap (with_sign true) (ap (read_digits 0) (sym e) ∙ read_digits-decimal (suc n) (omega arith))
    ∙ with_sign_neg n (omega arith)

abbrev pub AllDigits : Text → Type 0
AllDigits [] = Unit {0}
AllDigits (c ∷ cs) = (is_digit c ≡ true) × AllDigits cs

AllDigits-append : (s t : Text) → AllDigits s → AllDigits t → AllDigits (s ++ t)
AllDigits-append [] t h k = k
AllDigits-append (c ∷ s) t h k = (h.0, AllDigits-append s t h.1 k)

digits_fuel-AllDigits : (f n : ℕ) → AllDigits (digits_fuel f n)
unfolding digits_fuel
digits_fuel-AllDigits zero n = tt
digits_fuel-AllDigits (suc f) n = elim (Bool-cases (ltb n 10)) [
  | inl small ↦ rw small (ground arith, tt)
  | inr large ↦ rw large (
      AllDigits-append (digits_fuel f (n / 10)) ((48 + n % 10) ∷ [])
        (digits_fuel-AllDigits f (n / 10)) (digit, tt))
]
  where
    digit : is_digit (48 + n % 10) ≡ true
    digit = ground arith

pub decimal-AllDigits : (n : ℕ) → AllDigits (decimal n)
unfolding decimal
decimal-AllDigits n = digits_fuel-AllDigits (suc n) n
