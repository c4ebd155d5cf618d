-- ===== src/Resp/Replies.antt =====
-- What the writers put on the wire for a value, and `ReadValue` on it.
use vole.Prelude.{
  ℕ, zero, suc, ◌+◌, ◌*◌, ◌^◌, ◌<◌, ◌≤◌, ◌≡◌, refl, ◌∙◌, ap, false, [], ◌∷◌, ◌++◌, length, ltb,
  arith, append_assoc, max,
}
use vole.Prelude.Text.{Text}
use vole.Prelude.Int.{pos, negsuc}
use vole.Prelude.Decimal.{append_int, decimal, parse_int, parse_int-append_int, IsInt64}
use vole.Resp.{
  Reader, ok, ◌>>=◌, return, read_byte, read_len, read_line, read_body, Value, Values, simple,
  failure, integer, bulk, null_bulk, array, null_array, nil, cons, read_bulk_value, read_integer,
  read_items, read_array, read_typed, read_value, write_simple, write_error, write_int, write_bulk,
  write_null, write_array_len, write_null_array,
}
use vole.Resp.Lines.{
  bind-ok, IsLine, read_line-append, read_len-decimal, read_len-append_int, append_int-IsLine,
}
use vole.Resp.Commands.{read_body-append}

-- `replies` is the bytes of a value, made of the writers' calls.
unfoldable mutual
  unfolding write_simple write_error write_int write_bulk write_null write_array_len
      write_null_array

  pub reply : Value → Text
  reply (simple s) = write_simple s
  reply (failure s) = write_error s
  reply (integer n) = write_int n
  reply (bulk s) = write_bulk s
  reply null_bulk = write_null
  reply (array items) = write_array_len (size items) ++ replies items
  reply null_array = write_null_array

  pub replies : Values → Text
  replies nil = []
  replies (cons v items) = reply v ++ replies items

  pub size : Values → ℕ
  size nil = 0
  size (cons v items) = suc (size items)

-- how deep arrays are nested
unfoldable mutual
  pub depth : Value → ℕ
  depth (simple s) = 1
  depth (failure s) = 1
  depth (integer n) = 1
  depth (bulk s) = 1
  depth null_bulk = 1
  depth (array items) = suc (depths items)
  depth null_array = 1

  pub depths : Values → ℕ
  depths nil = 0
  depths (cons v items) = max (depth v) (depths items)

module _ (max_alloc : ℕ) where
  -- The lines hold no newline, the numbers have 64 bits, and bulk strings and arrays can be
  -- allocated.
  unfoldable mutual
    pub Writable : Value → Type 0
    Writable (simple s) = IsLine s
    Writable (failure s) = IsLine s
    Writable (integer n) = IsInt64 n
    Writable (bulk s) = length s + 2 ≤ max_alloc
    Writable null_bulk = Unit {0}
    Writable (array items) = (64 * size items ≤ max_alloc) × AllWritable items
    Writable null_array = Unit {0}

    pub AllWritable : Values → Type 0
    AllWritable nil = Unit {0}
    AllWritable (cons v items) = Writable v × AllWritable items

module _ (max_alloc : ℕ) (small : max_alloc < 2 ^ 63) where
  read_bulk_value-append :
      (one : Reader Value) (s rest : Text)
      → length s + 2 ≤ max_alloc
      → read_typed max_alloc one b'$'
          (decimal (length s) ++ 13 ∷ 10 ∷ ((s ++ 13 ∷ 10 ∷ []) ++ rest))
        ≡ ok (bulk s) rest
  unfolding read_typed read_bulk_value
  read_bulk_value-append one s rest h =
      bind-ok read_len (read_bulk_value max_alloc)
        (decimal (length s) ++ 13 ∷ 10 ∷ ((s ++ 13 ∷ 10 ∷ []) ++ rest))
        (read_len-decimal (length s) ((s ++ 13 ∷ 10 ∷ []) ++ rest) (omega arith))
      ∙ ap (read_bulk_value max_alloc (pos (length s))) (append_assoc s (13 ∷ 10 ∷ []) rest)
      ∙ bind-ok (read_body max_alloc (pos (length s))) (λ text. return (bulk text))
          (s ++ 13 ∷ 10 ∷ rest) (read_body-append max_alloc small s rest h)

  minus_one : (rest : Text) → read_len (b'-' ∷ b'1' ∷ 13 ∷ 10 ∷ rest) ≡ ok (negsuc 0) rest
  minus_one rest = unfold append_int in read_len-append_int (negsuc 0) rest (omega arith)

  array_fits :
      (f : ℕ) (items : Values) (rest : Text)
      → 64 * size items ≤ max_alloc
      → (s : Text) → read_items max_alloc (read_value max_alloc f) (size items) s ≡ ok items rest
      → read_array max_alloc (read_value max_alloc f) (pos (size items)) s ≡ ok (array items) rest
  unfolding read_array
  array_fits f items rest h s e =
      let fits : ltb max_alloc (64 * size items) ≡ false = ground arith in
      rw fits (
        bind-ok (read_items max_alloc (read_value max_alloc f) (size items))
          (λ items. return (array items)) s e)

  mutual
    unfolding read_value read_typed read_byte reply write_simple write_error write_int write_bulk
        write_null write_array_len write_null_array depth Writable read_items read_integer
        read_bulk_value read_array

    reads_reply :
        (f : ℕ) (v : Value) (rest : Text)
        → depth v ≤ f
        → Writable max_alloc v
        → read_value max_alloc f (reply v ++ rest) ≡ ok v rest
    reads_reply zero (simple s) rest d w = absurd (omega arith)
    reads_reply zero (failure s) rest d w = absurd (omega arith)
    reads_reply zero (integer s) rest d w = absurd (omega arith)
    reads_reply zero (bulk s) rest d w = absurd (omega arith)
    reads_reply zero null_bulk rest d w = absurd (omega arith)
    reads_reply zero (array s) rest d w = absurd (omega arith)
    reads_reply zero null_array rest d w = absurd (omega arith)
    reads_reply (suc f) (simple s) rest d w =
        ap (read_line >>= (λ line. return (simple line))) (append_assoc s (13 ∷ 10 ∷ []) rest)
        ∙ bind-ok read_line (λ line. return (simple line)) (s ++ 13 ∷ 10 ∷ rest)
            (read_line-append s rest w)
    reads_reply (suc f) (failure s) rest d w =
        ap (read_line >>= (λ line. return (failure line))) (append_assoc s (13 ∷ 10 ∷ []) rest)
        ∙ bind-ok read_line (λ line. return (failure line)) (s ++ 13 ∷ 10 ∷ rest)
            (read_line-append s rest w)
    reads_reply (suc f) (integer s) rest d w =
        ap (read_line >>= (λ line. read_integer max_alloc (parse_int line)))
          (append_assoc (append_int s) (13 ∷ 10 ∷ []) rest)
        ∙ bind-ok read_line (λ line. read_integer max_alloc (parse_int line))
            (append_int s ++ 13 ∷ 10 ∷ rest)
            (read_line-append (append_int s) rest (append_int-IsLine s))
        ∙ ap (λ n. read_integer max_alloc n rest) (parse_int-append_int s w)
    reads_reply (suc f) (bulk s) rest d w =
        ap (read_typed max_alloc (read_value max_alloc f) b'$')
          (append_assoc (decimal (length s)) (13 ∷ 10 ∷ (s ++ 13 ∷ 10 ∷ [])) rest)
        ∙ read_bulk_value-append (read_value max_alloc f) s rest w
    reads_reply (suc f) null_bulk rest d w =
        bind-ok read_len (read_bulk_value max_alloc) (b'-' ∷ b'1' ∷ 13 ∷ 10 ∷ rest) (minus_one rest)
    reads_reply (suc f) (array s) rest d w =
        ap (read_len >>= read_array max_alloc (read_value max_alloc f)) (
          append_assoc (decimal n ++ 13 ∷ 10 ∷ []) (replies s) rest
          ∙ append_assoc (decimal n) (13 ∷ 10 ∷ []) (replies s ++ rest))
        ∙ bind-ok read_len (read_array max_alloc (read_value max_alloc f))
            (decimal n ++ 13 ∷ 10 ∷ (replies s ++ rest))
            (read_len-decimal n (replies s ++ rest) (omega arith))
        ∙ array_fits f s rest w.0 (replies s ++ rest) (reads_replies f s rest (omega arith) w.1)
      where
        n : ℕ
        n = size s
    reads_reply (suc f) null_array rest d w =
        bind-ok read_len (read_array max_alloc (read_value max_alloc f))
          (b'-' ∷ b'1' ∷ 13 ∷ 10 ∷ rest) (minus_one rest)

    reads_replies :
        (f : ℕ) (items : Values) (rest : Text)
        → depths items ≤ f
        → AllWritable max_alloc items
        → read_items max_alloc (read_value max_alloc f) (size items) (replies items ++ rest)
          ≡ ok items rest
    reads_replies f nil rest d w = refl
    reads_replies f (cons v items) rest d w =
        ap (read_value max_alloc f >>= more) (append_assoc (reply v) (replies items) rest)
        ∙ bind-ok (read_value max_alloc f) more (reply v ++ (replies items ++ rest))
            (reads_reply f v (replies items ++ rest) (omega arith) w.0)
        ∙ bind-ok (read_items max_alloc (read_value max_alloc f) (size items))
            (λ items. return (cons v items)) (replies items ++ rest)
            (reads_replies f items rest (omega arith) w.1)
      where
        more : Value → Reader Values
        more item = do
          items ← read_items max_alloc (read_value max_alloc f) (size items)
          return (cons item items)

  -- What the writers put on the wire for a value, `ReadValue` reads as that value, and it leaves
  -- what follows unread: for lines without a newline, 64-bit numbers, and bulk strings and arrays
  -- that can be allocated, with a unit of fuel for each level of arrays.
  pub read_value-reply :
      (f : ℕ) (v : Value) (rest : Text)
      → depth v ≤ f
      → Writable max_alloc v
      → read_value max_alloc f (reply v ++ rest) ≡ ok v rest
  read_value-reply = reads_reply
