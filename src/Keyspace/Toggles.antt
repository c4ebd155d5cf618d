-- ===== src/Keyspace/Toggles.antt =====
-- internal/store/store.go, `SetBit` and `GetBit`: a bit that is set is read, and the others stay.
use vole.Prelude.{
  ◌∙◌, ltb, ℕ, zero, suc, ◌+◌, ◌-◌, ◌/◌, ◌%◌, ◌^◌, ◌<◌, ◌≡◌, ◌≢◌, refl, sym, subst, ap, inl, inr,
  Bool, true, false, [], ◌∷◌, ◌++◌, length, arith, leb, ◌==◌, if◌then◌else◌, Bool-cases, get_or,
  length-append, get_or-set_self, get_or-set_ne,
}
use vole.Prelude.Text.{Text}
use vole.Prelude.Text.{text_eq_refl}
use vole.Prelude.Int.{ℤ, pos}
use vole.Prelude.Map.{lookup, put, lookup-put_self, lookup-delete}
use vole.Keyspace.{
  some, Store, ok, past_deadline, is_expired, holds_other, delete_key, expired_key, touch_keys,
}
use vole.Keyspace.Refines.{expired_key-past, expired_key-live}
use vole.Keyspace.Plain.{settled-expired_key}
use vole.Keyspace.Bytes.{ltb-false, no_other-settled}
use vole.Keyspace.Edits.{zero_bytes, or_empty}
use vole.Keyspace.Bits.{bit_of, with_bit, bit_at, extended, put_bit, get_bit, set_bit}

eq_of_test : (a b : ℕ) → (a == b) ≡ true → a ≡ b
eq_of_test a b h = ground (arith, h)

-- the numbers under m that fail a test
failures : (ℕ → Bool) → ℕ → ℕ
failures test zero = 0
failures test (suc m) = (if test m then 0 else 1) + failures test m

-- where no number fails, each passes
passes : (test : ℕ → Bool) (m i : ℕ) → failures test m ≡ 0 → i < m → test i ≡ true
unfolding failures
passes test zero i none_fails below = absurd (omega arith)
passes test (suc m) i none_fails below = elim (Bool-cases (i == m)) [
  | inl last ↦ subst (λ k. test k ≡ true) (sym (eq_of_test i m last)) (ground (arith, none_fails))
  | inr before ↦ passes test m i (ground (arith, none_fails)) (ground (arith, before))
]

bit_test : ℕ → ℕ → ℕ → ℕ → Bool
bit_test value k j b = bit_of (with_bit value b k) j == (if k == j then value else bit_of b j)

row_test : ℕ → ℕ → ℕ → Bool
row_test value k j = failures (bit_test value k j) 256 == 0

bits_table : failures (λ v. failures (λ k. failures (row_test v k) 8 == 0) 8 == 0) 2 ≡ 0
unfolding failures bit_test row_test
bits_table = refl

-- the bits of a byte in which one bit was written
bit_of-with_bit :
    (value k j b : ℕ)
    → value < 2
    → k < 8
    → j < 8
    → b < 256
    → bit_of (with_bit value b k) j ≡ (if k == j then value else bit_of b j)
unfolding bit_test row_test
bit_of-with_bit value k j b hv hk hj hb =
    eq_of_test (bit_of (with_bit value b k) j) (if k == j then value else bit_of b j) (
      passes (bit_test value k j) 256 b
        (eq_of_test (failures (bit_test value k j) 256) 0 (
          passes (row_test value k) 8 j
            (eq_of_test (failures (row_test value k) 8) 0 (
              passes (λ i. failures (row_test value i) 8 == 0) 8 k
                (eq_of_test (failures (λ i. failures (row_test value i) 8 == 0) 8) 0 (
                  passes (λ v. failures (λ i. failures (row_test v i) 8 == 0) 8 == 0) 2 value
                    bits_table hv))
                hk))
            hj))
        hb)

get_or-zeros : (n i : ℕ) → get_or (zero_bytes n) i 0 ≡ 0
unfolding zero_bytes
get_or-zeros zero i = refl
get_or-zeros (suc n) zero = refl
get_or-zeros (suc n) (suc i) = get_or-zeros n i

get_or-append_zeros : (buf : Text) (n i : ℕ) → get_or (buf ++ zero_bytes n) i 0 ≡ get_or buf i 0
get_or-append_zeros [] n i = get_or-zeros n i
get_or-append_zeros (b ∷ buf) n zero = refl
get_or-append_zeros (b ∷ buf) n (suc i) = get_or-append_zeros buf n i

get_or-extended : (buf : Text) (n i : ℕ) → get_or (extended buf n) i 0 ≡ get_or buf i 0
unfolding extended
get_or-extended buf n i = elim (Bool-cases (leb (length buf) n)) [
  | inl h ↦ rw h (get_or-append_zeros buf (n + 1 - length buf) i)
  | inr h ↦ rw h refl
]

length-zeros : (n : ℕ) → length (zero_bytes n) ≡ n
unfolding zero_bytes
length-zeros zero = refl
length-zeros (suc n) = ap suc (length-zeros n)

length-extended : (buf : Text) (n : ℕ) → n < length (extended buf n)
unfolding extended
length-extended buf n =
    ground (
      arith,
      length-append buf (zero_bytes (n + 1 - length buf)),
      length-zeros (n + 1 - length buf),
    )

-- each byte is below 256
abbrev pub IsBytes : Text → Type 0
IsBytes buf = (i : ℕ) → get_or buf i 0 < 256

same_place : (o p : ℕ) → o / 8 ≡ p / 8 → (7 - o % 8 == 7 - p % 8) ≡ (o == p)
same_place o p h = ground arith

other_place : (o p : ℕ) → (o / 8 == p / 8) ≡ false → (o == p) ≡ false
other_place o p h = ground arith

ne_of_test : (a b : ℕ) → (a == b) ≡ false → a ≢ b
ne_of_test a b h e = ground (arith, h, e)

-- the bit of an offset behind the write of another
pub bit_at-put_bit :
    (buf : Text) (o p value : ℕ)
    → IsBytes buf
    → value < 2
    → bit_at (put_bit buf o value) p ≡ (if o == p then value else bit_at buf p)
unfolding bit_at put_bit
bit_at-put_bit buf o p value bytes hv = elim (Bool-cases (o / 8 == p / 8)) [
  | inl e ↦
      let q : p / 8 ≡ o / 8 = sym (eq_of_test (o / 8) (p / 8) e) in
      let b : Text = extended buf (o / 8) in
      rw
        (
          q,
          get_or-set_self b (o / 8) (with_bit value (get_or b (o / 8) 0) (7 - o % 8)) 0
              (length-extended buf (o / 8)),
          bit_of-with_bit value (7 - o % 8) (7 - p % 8) (get_or b (o / 8) 0) hv (omega arith)
              (omega arith)
              (subst (λ x. x < 256) (sym (get_or-extended buf (o / 8) (o / 8))) (bytes (o / 8))),
          get_or-extended buf (o / 8) (o / 8),
          same_place o p (sym q),
        )
        refl
  | inr e ↦
      let b : Text = extended buf (o / 8) in
      rw
        (
          get_or-set_ne b (o / 8) (p / 8) (with_bit value (get_or b (o / 8) 0) (7 - o % 8)) 0
              (ne_of_test (o / 8) (p / 8) e),
          get_or-extended buf (o / 8) (p / 8),
          other_place o p e,
        )
        refl
]

zero_bit : ℕ → Bool
zero_bit k = bit_of 0 k == 0

zero_table : failures zero_bit 8 ≡ 0
unfolding failures zero_bit
zero_table = refl

no_bits : (p : ℕ) → bit_at [] p ≡ 0
unfolding bit_at zero_bit
no_bits p =
    eq_of_test (bit_of 0 (7 - p % 8)) 0 (passes zero_bit 8 (7 - p % 8) zero_table (omega arith))

bit_at-extended : (buf : Text) (o : ℕ) → bit_at (extended buf (o / 8)) o ≡ bit_at buf o
unfolding bit_at
bit_at-extended buf o = rw (get_or-extended buf (o / 8) (o / 8)) refl

ltb_low : (a : ℕ) → a < 2 → ltb (1 + 0) (a + 0) ≡ false
ltb_low a h = ground arith

module _ {F J : Type 0} (key : Text) (now : ℤ) (s : Store F J)
    (plain : holds_other key s ≡ false) where
  -- the bytes that the commands find
  abbrev bytes_now : Text
  bytes_now = or_empty (lookup key (expired_key key now s).1.kv)

  get_bit-now : (p : ℕ) → get_bit key (pos p) now s ≡ ok (bit_at bytes_now p)
  unfolding get_bit is_expired or_empty
  get_bit-now p = elim (Bool-cases (past_deadline now (lookup key s.expires))) [
    | inl e ↦
        rw (ltb-false p, e, expired_key-past key now s e)
          (unfold delete_key in
            rw (lookup-delete key key s.kv, text_eq_refl key) (ap ok (sym (no_bits p))))
    | inr e ↦ rw (ltb-false p, e, expired_key-live key now s e, plain) refl
  ]

  bytes_now-IsBytes : IsBytes (or_empty (lookup key s.kv)) → IsBytes bytes_now
  unfolding or_empty
  bytes_now-IsBytes h = elim (Bool-cases (past_deadline now (lookup key s.expires))) [
    | inl e ↦
        rw (expired_key-past key now s e) (
          unfold delete_key in rw (lookup-delete key key s.kv, text_eq_refl key) (λ i. omega arith))
    | inr e ↦ rw (expired_key-live key now s e) h
  ]

  set_bit-some :
      (max_alloc o value : ℕ)
      → o / 8 < max_alloc
      → value < 2
      → set_bit max_alloc key (pos o) (pos value) now s
        ≡ some (
          ok (bit_at bytes_now o),
          touch_keys (key ∷ []) now (record ((expired_key key now s).1) {
            kv = put key (put_bit bytes_now o value) (expired_key key now s).1.kv;
          }),
        )
  unfolding set_bit
  set_bit-some max_alloc o value m h =
      let fits : ltb max_alloc (o / 8 + 1) ≡ false = ground arith in
      rw
        (
          ltb-false o,
          ltb-false value,
          ltb_low value h,
          no_other-settled key now s plain,
          bit_at-extended bytes_now o,
          fits,
        )
        (ground arith)

  get_bit-written :
      (buf : Text) (p : ℕ)
      → get_bit key (pos p) now (
          touch_keys
            (key ∷ [])
            now
            (record ((expired_key key now s).1) { kv = put key buf (expired_key key now s).1.kv }))
        ≡ ok (bit_at buf p)
  unfolding get_bit is_expired touch_keys holds_other or_empty
  get_bit-written buf p =
      rw
        (
          ltb-false p,
          settled-expired_key key now s,
          no_other-settled key now s plain,
          lookup-put_self key buf (expired_key key now s).1.kv,
        )
        refl

  -- `SetBit` at a key that holds no value of another type answers with the bit that stood there, and
  -- behind it `GetBit` reads the bit that was set at its offset and every other bit as before. The offset is
  -- an `int64`, the byte of the bit is one up to which `make` allocates, and the bytes of the string are below 256.
  pub get_bit-set_bit :
      (max_alloc o value : ℕ)
      → o < 2 ^ 63
      → o / 8 < max_alloc
      → IsBytes (or_empty (lookup key s.kv))
      → value < 2
      → (bit : ℕ → ℕ) × (u : Store F J) × ((p : ℕ) → get_bit key (pos p) now s ≡ ok (bit p))
        × (set_bit max_alloc key (pos o) (pos value) now s ≡ some (ok (bit o), u))
        × ((p : ℕ) → get_bit key (pos p) now u ≡ ok (if o == p then value else bit p))
  get_bit-set_bit max_alloc o value in_range m bytes h =
      let t : Store F J = (expired_key key now s).1 in
      let buf : Text = put_bit bytes_now o value in
      (
        bit_at bytes_now,
        touch_keys (key ∷ []) now (record t { kv = put key buf t.kv }),
        get_bit-now,
        set_bit-some max_alloc o value m h,
        λ p.
            get_bit-written buf p
            ∙ ap ok (bit_at-put_bit bytes_now o p value (bytes_now-IsBytes bytes) h),
      )
