-- ===== src/Keyspace/Bytes.antt =====
-- internal/store/store.go, `SetRange` and `GetRange`: what is written at an offset is read there.
use vole.Prelude.{
  [], ◌∷◌, inr, inl, Bool-cases, append_assoc, subst, if◌then◌else◌, ℕ, zero, suc, ◌+◌, ◌-◌, ◌^◌,
  ◌≤◌, ◌<◌, ◌≡◌, refl, sym, ap, ◌∙◌, true, false, ◌++◌, some, length, take, drop, arith, ltb,
  length-append, length-take, take-length, drop-length,
}
use vole.Prelude.Text.{text_eq_refl, Text}
use vole.Prelude.Int.{pos}
use vole.Keyspace.Pages.{plus_pos, wrap64_small}
use vole.Keyspace.{past_deadline, is_expired, touch_keys, expired_key, holds_other, ℤ, Store, ok}
use vole.Keyspace.Refines.{expired_key-past, expired_key-live, holds_other-delete_key}
use vole.Keyspace.Plain.{settled-expired_key}
use vole.Prelude.Map.{lookup, put, lookup-put_self}
use vole.Keyspace.Edits.{
  or_empty, get_range, store_range, set_range, set_range_bytes, get_range_bytes, zero_bytes,
}

pub ltb-false : (a : ℕ) → ltb (a + 0) 0 ≡ false
ltb-false a = ground arith

ltb_ge : (a b : ℕ) → b ≤ a → ltb (a + 0) (b + 0) ≡ false
ltb_ge a b h = ground arith

ltb_lt : (a b : ℕ) → a < b → ltb (a + 0) (b + 0) ≡ true
ltb_lt a b h = ground arith

length-zero_bytes : (n : ℕ) → length (zero_bytes n) ≡ n
unfolding zero_bytes
length-zero_bytes zero = refl
length-zero_bytes (suc n) = ap suc (length-zero_bytes n)

-- the buffer is long enough
unfoldable pub buffer : ℕ → Text → Text → Text
buffer offset value current =
    if ltb (length current) (offset + length value)
    then current ++ zero_bytes (offset + length value - length current)
    else current

abbrev spliced : ℕ → Text → Text → Text
spliced offset value buf = take offset buf ++ value ++ drop (offset + length value) buf

set_range_bytes-some :
    (max_alloc offset : ℕ) (value current : Text)
    → offset + length value < 2 ^ 63
    → offset + length value ≤ max_alloc
    → set_range_bytes max_alloc offset value current
      ≡ some (spliced offset value (buffer offset value current))
unfolding set_range_bytes buffer
set_range_bytes-some max_alloc offset value current h m =
    rw (plus_pos offset (length value), wrap64_small (offset + length value) h) (ground arith)

length-buffer :
    (offset : ℕ) (value current : Text)
    → offset + length value ≤ length (buffer offset value current)
unfolding buffer
length-buffer offset value current = ground (
  arith,
  length-append current (zero_bytes (offset + length value - length current)),
  length-zero_bytes (offset + length value - length current),
)

get_range_bytes-middle :
    (start n : ℕ) (str : Text)
    → 0 < n
    → start + n ≤ length str
    → get_range_bytes (pos start) (pos (start + n - 1)) str ≡ take n (drop start str)
unfolding get_range_bytes
get_range_bytes-middle start n str h k =
    rw
      (
        ltb-false (start + n - 1),
        ltb-false start,
        ltb_lt (start + n - 1) (length str) (omega arith),
        ltb-false start,
        ltb_ge (start + n - 1) start (omega arith),
        ltb_lt start (length str) (omega arith),
      )
      (rw (plus_pos (start + n - 1) 1, n_bytes) refl)
  where
    n_bytes : start + n - 1 + 1 - start ≡ n
    n_bytes = omega arith

unwrap : {s t : Text} → some s ≡ some t → s ≡ t
unwrap e = ground (arith, e)

take-splice : (a b c : Text) → take (length b) (drop (length a) (a ++ b ++ c)) ≡ b
take-splice a b c = rw (append_assoc a b c, drop-length a (b ++ c)) (take-length b c)

-- The bytes that `SetRange` stores at an offset are those that `GetRange` reads from there: the whole
-- value, whatever the old bytes were, when the value is not empty and ends before 2^63 and within what
-- `make` allocates.
pub get_range_bytes-set_range_bytes :
    (max_alloc offset : ℕ) (value current buf : Text)
    → 0 < length value
    → offset + length value < 2 ^ 63
    → offset + length value ≤ max_alloc
    → set_range_bytes max_alloc offset value current ≡ some buf
    → get_range_bytes (pos offset) (pos (offset + length value - 1)) buf ≡ value
get_range_bytes-set_range_bytes max_alloc offset value current buf h k m e =
    let b : Text = buffer offset value current in
    let room : offset + length value ≤ length b = length-buffer offset value current in
    let same : spliced offset value b ≡ buf =
      unwrap (sym (set_range_bytes-some max_alloc offset value current k m) ∙ e) in
    let front : length (take offset b) ≡ offset = length-take offset b ∙ omega arith in
    subst (λ t. get_range_bytes (pos offset) (pos (offset + length value - 1)) t ≡ value) same
      (get_range_bytes-middle offset (length value) (spliced offset value b) h (
          omega (
            arith,
            length-append (take offset b ++ value) (drop (offset + length value) b),
            length-append (take offset b) value,
            front,
          ))
        ∙ subst (λ m. take (length value) (drop m (spliced offset value b)) ≡ value) front
            (take-splice (take offset b) value (drop (offset + length value) b)))

pub no_other-settled :
    {F J : Type 0} (key : Text) (now : ℤ) (s : Store F J)
    → holds_other key s ≡ false
    → holds_other key (expired_key key now s).1 ≡ false
no_other-settled key now s h = elim (Bool-cases (past_deadline now (lookup key s.expires))) [
  | inl e ↦
      rw (expired_key-past key now s e)
        (ground (arith, h, holds_other-delete_key key now s key, text_eq_refl key))
  | inr e ↦ rw (expired_key-live key now s e) h
]

-- `SetRange` at a key that holds no value of another type succeeds, and `GetRange` over the same bytes
-- then reads the value back, whatever stood there: for a value that is not empty, at an offset such
-- that it ends before 2^63 and within the bytes that `make` allocates.
pub get_range-set_range :
    {F J : Type 0} (max_alloc : ℕ) (key value : Text) (offset : ℕ) (now : ℤ) (s : Store F J)
    → holds_other key s ≡ false
    → 0 < length value
    → offset + length value < 2 ^ 63
    → offset + length value ≤ max_alloc
    → (n : ℕ) × (u : Store F J) × (set_range max_alloc key (pos offset) value now s
        ≡ some (ok n, u))
      × (get_range key (pos offset) (pos (offset + length value - 1)) now u ≡ ok value)
unfolding set_range store_range get_range touch_keys is_expired holds_other or_empty
get_range-set_range {F} {J} max_alloc key value offset now s plain h k m =
    let t : Store F J = (expired_key key now s).1 in
    let current : Text = or_empty (lookup key t.kv) in
    let buf : Text = spliced offset value (buffer offset value current) in
    let e : set_range_bytes max_alloc offset value current ≡ some buf =
      set_range_bytes-some max_alloc offset value current k m in
    let p : holds_other key t ≡ false = no_other-settled key now s plain in
    (
      length buf,
      touch_keys (key ∷ []) now (record t { kv = put key buf t.kv }),
      rw (p, ltb-false offset, e) refl,
      rw (settled-expired_key key now s, p, lookup-put_self key buf t.kv)
          (ap ok (get_range_bytes-set_range_bytes max_alloc offset value current buf h k m e)),
    )
