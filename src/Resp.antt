-- ===== src/Resp.antt =====
-- internal/resp/resp.go: the wire format. A reader is what is still unread of the connection's
-- bytes; an error or a panic ends the connection, so nothing is kept of the input then. A writer
-- is the bytes that it has buffered; a write to the buffer does not fail.
pub mod Inline
pub mod Lines
pub mod Commands
pub mod Replies
pub mod Fuel
mod Tests
use vole.Prelude.{
  ℕ, zero, suc, ◌+◌, ◌*◌, ◌≡◌, Bool, true, false, List, [], ◌∷◌, ◌++◌, length, take, drop, ltb, leb,
  ◌==◌, ◌&&◌, if◌then◌else◌,
}
use vole.Prelude.Text.{Text}
use vole.Prelude.Int.{ℤ, pos, negsuc}
use vole.Prelude.Decimal.{parse_int, append_int, decimal, Parsed}
use vole.Resp.Inline.{split_inline}

pub data Error : Type 0 where
  eof unexpected_eof bad_number bad_terminator : Error
  not_bulk unknown_type : ℕ → Error

-- What a read ends in: a value with the input behind it, an error, a run-time panic, or, in the
-- model only, no fuel.
pub data Outcome (A : Type 0) : Type 0 where
  ok : A → Text → Outcome A
  err : Error → Outcome A
  panic : Outcome A
  out_of_fuel : Outcome A

abbrev pub Reader : Type 0 → Type 0
Reader A = Text → Outcome A

infixl 5 ◌>>=◌
abbrev pub ◌>>=◌ : {A B : Type 0} → Reader A → (A → Reader B) → Reader B
◌>>=◌ m f s = elim (m s) [
  | ok a t ↦ f a t
  | err e ↦ err e
  | panic ↦ panic
  | out_of_fuel ↦ out_of_fuel
]

abbrev pub return : {A : Type 0} → A → Reader A
return a s = ok a s

abbrev pub fail : {A : Type 0} → Error → Reader A
fail e s = err e

abbrev pub crash : {A : Type 0} → Reader A
crash s = panic

-- `r.r.ReadByte()`
unfoldable pub read_byte : Reader ℕ
read_byte [] = err eof
read_byte (c ∷ s) = ok c s

-- `r.r.ReadString('\n')`, the line without its end
unfoldable pub read_string : Reader Text
read_string [] = err eof
read_string (c ∷ s) = if c == 10 then ok [] s else elim (read_string s) [
  | ok line t ↦ ok (c ∷ line) t
  | err e ↦ err e
  | panic ↦ panic
  | out_of_fuel ↦ out_of_fuel
]

-- `strings.TrimSuffix(line, "\r")`
unfoldable pub trim_return : Text → Text
trim_return [] = []
trim_return (c ∷ []) = if c == 13 then [] else c ∷ []
trim_return (c ∷ d ∷ s) = c ∷ trim_return (d ∷ s)

-- `readLine`
unfoldable pub read_line : Reader Text
unfolding read_string trim_return
read_line = do line ← read_string; return (trim_return line)

-- `readLen`
unfoldable pub read_len : Reader ℤ
unfolding read_line
read_len = do
  line ← read_line
  let n = parse_int line
  if n.good then return n.value else fail bad_number

-- `io.ReadFull(r.r, buf)` for a buffer of `n` bytes
unfoldable pub read_full : ℕ → Reader Text
read_full n s =
    if leb n (length s)
    then ok (take n s) (drop n s)
    else (if length s == 0 then err eof else err unexpected_eof)

-- `buf[l] == '\r' && buf[l+1] == '\n'`
unfoldable pub ends_line : ℕ → Text → Bool
ends_line zero (c ∷ d ∷ s) = c == 13 && d == 10
ends_line zero s = false
ends_line (suc l) [] = false
ends_line (suc l) (c ∷ s) = ends_line l s

-- `max_alloc` is the size in bytes up to which the Go run time allocates; `make` panics above it
-- and on a negative size. A string header takes 16 bytes, a `Value` 64: a
-- byte and a Boolean, each filled up to 8, a string, an integer and a slice of 24.
module _ (max_alloc : ℕ) where
  -- the bytes of a bulk string and the test of its terminator, for the length that was read:
  -- `make([]byte, l+2)`, `io.ReadFull`, `buf[l] != '\r'`, `string(buf[:l])`
  pub read_body : ℤ → Reader Text
  read_body (pos l) = if ltb max_alloc (l + 2) then crash else do
    buf ← read_full (l + 2)
    if ends_line l buf then return (take l buf) else fail bad_terminator
  read_body (negsuc zero) = do _ ← read_full 1; crash
  read_body (negsuc (suc zero)) = crash
  read_body (negsuc (suc (suc n))) = crash

  -- one round of the loop of `ReadCommand`
  read_bulk : Reader Text
  read_bulk = do
    t ← read_byte
    if t == b'$' then (do l ← read_len; read_body l) else fail (not_bulk t)

  -- the loop of `ReadCommand`
  read_bulks : ℕ → Reader (List Text)
  read_bulks zero = return []
  read_bulks (suc n) = do part ← read_bulk; parts ← read_bulks n; return (part ∷ parts)

  -- the parts behind a count: `make([]string, 0, n)` and the loop
  read_parts : ℤ → Reader (List Text)
  read_parts (pos n) = if ltb max_alloc (16 * n) then crash else read_bulks n
  read_parts (negsuc n) = crash

  -- `ReadCommand`
  pub read_command : Reader (List Text)
  read_command = do
    b ← read_byte
    if b == b'*'
        then (do n ← read_len; read_parts n)
        else (do line ← read_string; return (split_inline (b ∷ line)))

-- A value as `ReadValue` builds it, one case for each use of the struct's fields.
mutual
  pub data Value : Type 0 where
    simple : Text → Value
    failure : Text → Value
    integer : ℤ → Value
    bulk : Text → Value
    null_bulk : Value
    array : Values → Value
    null_array : Value

  pub data Values : Type 0 where
    nil : Values
    cons : Value → Values → Values

module _ (max_alloc : ℕ) where
  -- the case of `BulkString` behind the length
  read_bulk_value : ℤ → Reader Value
  read_bulk_value (negsuc zero) = return null_bulk
  read_bulk_value (negsuc (suc n)) = crash
  read_bulk_value (pos l) = do text ← read_body max_alloc (pos l); return (bulk text)

  -- the end of the case of `Integer`
  read_integer : Parsed → Reader Value
  read_integer n = if n.good then return (integer n.value) else fail bad_number

  -- the items behind a count, read by `one`: `make([]Value, 0, n)` and the loop
  read_items : Reader Value → ℕ → Reader Values
  read_items one zero = return nil
  read_items one (suc n) = do item ← one; items ← read_items one n; return (cons item items)

  read_array : Reader Value → ℤ → Reader Value
  read_array one (negsuc zero) = return null_array
  read_array one (negsuc (suc n)) = crash
  read_array one (pos n) =
      if ltb max_alloc (64 * n) then crash else (do items ← read_items one n; return (array items))

  -- the switch on the first byte; `one` reads a value inside an array
  read_typed : Reader Value → ℕ → Reader Value
  read_typed one b =
      if b == b'+'
      then (do line ← read_line; return (simple line))
      else (if b == b'-'
          then (do line ← read_line; return (failure line))
          else (if b == b':'
              then (do line ← read_line; read_integer (parse_int line))
              else (if b == b'$'
                  then (do l ← read_len; read_bulk_value l)
                  else (if b == b'*'
                      then (do n ← read_len; read_array one n)
                      else fail (unknown_type b)))))

  -- `ReadValue`, on fuel: one unit for each level of arrays
  pub read_value : ℕ → Reader Value
  read_value zero = λ s. out_of_fuel
  read_value (suc f) = do b ← read_byte; read_typed (read_value f) b

-- `Simple`, `Error`, `Int`, `Bulk`, `Null`, `ArrayLen` and `NullArray`: the bytes that they write
pub write_simple : Text → Text
write_simple s = b'+' ∷ s ++ 13 ∷ 10 ∷ []

pub write_error : Text → Text
write_error s = b'-' ∷ s ++ 13 ∷ 10 ∷ []

pub write_int : ℤ → Text
write_int n = b':' ∷ append_int n ++ 13 ∷ 10 ∷ []

pub write_bulk : Text → Text
write_bulk s = b'$' ∷ decimal (length s) ++ 13 ∷ 10 ∷ (s ++ 13 ∷ 10 ∷ [])

pub write_null : Text
write_null = b'$' ∷ b'-' ∷ b'1' ∷ 13 ∷ 10 ∷ []

pub write_array_len : ℕ → Text
write_array_len n = b'*' ∷ decimal n ++ 13 ∷ 10 ∷ []

pub write_null_array : Text
write_null_array = b'*' ∷ b'-' ∷ b'1' ∷ 13 ∷ 10 ∷ []

-- the loop of `Command`
write_bulks : List Text → Text
write_bulks [] = []
write_bulks (arg ∷ args) = write_bulk arg ++ write_bulks args

-- `Command`
pub write_command : List Text → Text
write_command args = write_array_len (length args) ++ write_bulks args
