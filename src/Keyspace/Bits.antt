-- ===== src/Keyspace/Bits.antt =====
-- internal/store/store.go, `popcount` to `BitPos`: strings as bitmaps, the highest bit of a byte first.
-- A byte is a number below 256.
use Prim.Native.Nat.{bit_and, bit_or, bit_xor}
use vole.Prelude.{
  ltb, ℕ, zero, suc, ◌+◌, ◌-◌, ◌*◌, ◌/◌, ◌%◌, ◌^◌, Bool, true, false, not, ◌&&◌, ◌||◌, List, [],
  ◌∷◌, ◌++◌, Option, some, none, length, take, drop, leb, ◌==◌, if◌then◌else◌, get_or, set, map,
  max,
}
use vole.Prelude.Text.{Text}
use vole.Prelude.Int.{ℤ, pos, negsuc, pos_part, ltb_ℤ, ◌+ℤ◌, ◌-ℤ◌}
use vole.Prelude.Map.{lookup, put}
use vole.Keyspace.{
  Store, Answer, ok, fail, wrong_type, bad_bit_offset, bad_bit, bad_operation, one_source_key,
  touch_keys, is_expired, holds_other, delete_key, expired_key,
}
use vole.Keyspace.Edits.{or_empty, zero_bytes}

-- the loop of `popcount`; a byte is 0 after eight shifts
unfoldable pub popcount_loop : ℕ → ℕ → ℕ
popcount_loop zero b = 0
popcount_loop (suc fuel) b =
    let rest = bit_and b 1 + popcount_loop fuel (b / 2) in if b == 0 then 0 else rest

-- `popcount`
abbrev pub popcount : ℕ → ℕ
popcount b = popcount_loop 8 b

-- `(b >> k) & 1`
abbrev pub bit_of : ℕ → ℕ → ℕ
bit_of b k = bit_and (b / 2 ^ k) 1

-- `b |= 1 << k` and `b &^= 1 << k`
abbrev pub with_bit : ℕ → ℕ → ℕ → ℕ
with_bit value b k = if value == 1 then bit_or b (2 ^ k) else bit_and b (255 - 2 ^ k)

-- the bit of an offset in a buffer; a byte behind the end reads as 0
unfoldable pub bit_at : Text → ℕ → ℕ
bit_at buf offset = bit_of (get_or buf (offset / 8) 0) (7 - offset % 8)

-- the buffer of `SetBit`, extended by zero bytes up to the byte of the offset
unfoldable pub extended : Text → ℕ → Text
extended buf i = if leb (length buf) i then buf ++ zero_bytes (i + 1 - length buf) else buf

unfoldable pub put_bit : Text → ℕ → ℕ → Text
put_bit buf offset value =
    let b = extended buf (offset / 8) in
    set b (offset / 8) (with_bit value (get_or b (offset / 8) 0) (7 - offset % 8))

-- the bounds of `BitCount` and `BitPos`: the first byte and the last one
unfoldable pub byte_bounds : Option (ℤ × ℤ) → ℕ → ℤ × ℤ
byte_bounds none n = (pos 0, pos n -ℤ pos 1)
byte_bounds (some (start, end)) n =
    let start₁ = (if ltb_ℤ start (pos 0) then pos n +ℤ start else start) in
    let end₁ = (if ltb_ℤ end (pos 0) then pos n +ℤ end else end) in
    (
      (if ltb_ℤ start₁ (pos 0) then pos 0 else start₁),
      (if ltb_ℤ end₁ (pos n) then end₁ else pos n -ℤ pos 1),
    )

-- the bytes between the bounds; none where the first is behind the last
unfoldable pub bytes_between : ℤ × ℤ → Text → Text
bytes_between (start, end) bytes =
    if ltb_ℤ end start
    then []
    else take (pos_part (end +ℤ pos 1) - pos_part start) (drop (pos_part start) bytes)

unfoldable pub count_bits : Text → ℕ
count_bits [] = 0
count_bits (b ∷ bs) = popcount b + count_bits bs

-- the inner loop of `BitPos`: the place in a byte, from the highest bit on
unfoldable pub place_in : ℕ → ℕ → ℕ → Option ℕ
place_in zero b bit = none
place_in (suc j) b bit =
    let rest = place_in j b bit in if bit_of b j == bit then some (7 - j) else rest

-- the outer loop of `BitPos`, from the byte i on
unfoldable pub find_bit : Text → ℕ → ℕ → Option ℕ
find_bit [] i bit = none
find_bit (b ∷ bs) i bit = elim (place_in 8 b bit) [
  | none ↦ find_bit bs (i + 1) bit
  | some j ↦ some (i * 8 + j)
]

-- what `BitPos` answers where the loop finds nothing
unfoldable pub or_behind : Bool → ℕ → ℕ → Option ℕ → ℤ
or_behind bounded bit n (some p) = pos p
or_behind bounded bit n none = if bit == 0 && not bounded then pos (n * 8) else negsuc 0

unfoldable pub has_bounds : Option (ℤ × ℤ) → Bool
has_bounds none = false
has_bounds (some b) = true

-- `BitPos` on the bytes of a value
unfoldable pub bit_pos_bytes : ℕ → Option (ℤ × ℤ) → Text → ℤ
bit_pos_bytes bit bounds bytes =
    let (start, end) = byte_bounds bounds (length bytes) in
    if ltb_ℤ end start
    then negsuc 0
    else or_behind (has_bounds bounds) bit (length bytes)
        (find_bit (bytes_between (start, end) bytes) (pos_part start) bit)

-- the operation of `BitOp`, in capitals
pub data BitOperation : Type 0 where
  op_and op_or op_xor op_not op_unknown : BitOperation

-- one buffer into the result, byte by byte; a buffer that ends goes on with zero bytes
unfoldable pub merge : (ℕ → ℕ → ℕ) → Text → Text → Text
merge f [] buf = []
merge f (r ∷ rs) [] = f r 0 ∷ merge f rs []
merge f (r ∷ rs) (b ∷ bs) = f r b ∷ merge f rs bs

unfoldable pub merge_all : (ℕ → ℕ → ℕ) → Text → List Text → Text
merge_all f r [] = r
merge_all f r (buf ∷ bufs) = merge_all f (merge f r buf) bufs

unfoldable pub longest : List Text → ℕ
longest [] = 0
longest (buf ∷ bufs) = max (length buf) (longest bufs)

unfoldable pub full_bytes : ℕ → Text
full_bytes zero = []
full_bytes (suc n) = 255 ∷ full_bytes n

-- The result of an operation; OR and XOR with 0 leave a byte as it is, so that they may go on behind
-- the end of a shorter buffer too.
unfoldable pub bit_result : BitOperation → List Text → Option Text
bit_result op_and bufs = some (merge_all bit_and (full_bytes (longest bufs)) bufs)
bit_result op_or bufs = some (merge_all bit_or (zero_bytes (longest bufs)) bufs)
bit_result op_xor bufs = some (merge_all bit_xor (zero_bytes (longest bufs)) bufs)
bit_result op_not [] = some []
bit_result op_not (buf ∷ bufs) = some (map (λ b. 255 - b) buf)
bit_result op_unknown bufs = none

unfoldable pub pos_in : ℕ → Option (ℤ × ℤ) → Option Text → ℤ
pos_in bit bounds none = if bit == 0 then pos 0 else negsuc 0
pos_in bit bounds (some bytes) = bit_pos_bytes bit bounds bytes

unfoldable pub is_not : BitOperation → Bool
is_not op_and = false
is_not op_or = false
is_not op_xor = false
is_not op_not = true
is_not op_unknown = false

unfoldable pub cons_buf : Text → Option (List Text) → Option (List Text)
cons_buf buf none = none
cons_buf buf (some bufs) = some (buf ∷ bufs)

module _ {F J : Type 0} where
  -- `SetBit` for an offset of `int64`; `none` where `make` panics, as it does on more than `max_alloc` bytes
  unfoldable pub set_bit : ℕ → Text → ℤ → ℤ → ℤ → Store F J → Option (Answer ℕ × Store F J)
  set_bit max_alloc key offset value now s =
      if ltb_ℤ offset (pos 0)
      then some (fail bad_bit_offset, s)
      else (if ltb_ℤ value (pos 0) || ltb_ℤ (pos 1) value
          then some (fail bad_bit, s)
          else (let s₁ = (expired_key key now s).1 in
              if holds_other key s₁
              then some (fail wrong_type, s₁)
              else (let buf = or_empty (lookup key s₁.kv) in
                  let o = pos_part offset in
                  if not (ltb (o / 8) (length buf)) && ltb max_alloc (o / 8 + 1)
                  then none
                  else some (
                    ok (bit_at (extended buf (o / 8)) o),
                    touch_keys (key ∷ []) now
                        (record s₁ { kv = put key (put_bit buf o (pos_part value)) s₁.kv }),
                  ))))

  -- `GetBit`
  unfoldable pub get_bit : Text → ℤ → ℤ → Store F J → Answer ℕ
  get_bit key offset now s =
      if ltb_ℤ offset (pos 0)
      then fail bad_bit_offset
      else (if is_expired key now s
          then ok 0
          else (if holds_other key s
              then fail wrong_type
              else ok (bit_at (or_empty (lookup key s.kv)) (pos_part offset))))

  -- `BitCount`, with bounds or without
  unfoldable pub bit_count : Text → Option (ℤ × ℤ) → ℤ → Store F J → Answer ℕ
  bit_count key bounds now s =
      if is_expired key now s
      then ok 0
      else (if holds_other key s
          then fail wrong_type
          else (let bytes = or_empty (lookup key s.kv) in
              ok (count_bits (bytes_between (byte_bounds bounds (length bytes)) bytes))))

  -- `BitPos`; -1 stands for no such bit
  unfoldable pub bit_pos : Text → ℕ → Option (ℤ × ℤ) → ℤ → Store F J → Answer ℤ
  bit_pos key bit bounds now s =
      if is_expired key now s
      then ok (if bit == 0 then pos 0 else negsuc 0)
      else (if holds_other key s then fail wrong_type else ok (pos_in bit bounds (lookup key s.kv)))

  -- the first loop of `BitOp`: the buffers, or the error
  unfoldable pub read_bufs : List Text → ℤ → Store F J → Option (List Text) × Store F J
  read_bufs [] now s = (some [], s)
  read_bufs (key ∷ ks) now s =
      let s₁ = (expired_key key now s).1 in
      let (rest, s₂) = read_bufs ks now s₁ in
      if holds_other key s₁ then (none, s₁) else (cons_buf (or_empty (lookup key s₁.kv)) rest, s₂)

  -- the end of `BitOp`, with the result
  unfoldable pub store_result : Text → ℤ → Store F J → Option Text → Answer ℕ × Store F J
  store_result dest now s none = (fail bad_operation, s)
  store_result dest now s (some r) =
      let s₁ = delete_key dest now s in
      (ok (length r), touch_keys (dest ∷ []) now (record s₁ { kv = put dest r s₁.kv }))

  unfoldable pub combine :
      BitOperation → Text → ℤ → Option (List Text) × Store F J → Answer ℕ × Store F J
  combine op dest now (none, s) = (fail wrong_type, s)
  combine op dest now (some bufs, s) = store_result dest now s (bit_result op bufs)

  -- `BitOp`
  unfoldable pub bit_op : BitOperation → Text → List Text → ℤ → Store F J → Answer ℕ × Store F J
  bit_op op dest ks now s =
      if is_not op && not (length ks == 1)
      then (fail one_source_key, s)
      else combine op dest now (read_bufs ks now s)
