-- ===== src/Resp/Commands.antt =====
-- `Writer.Command` against `Reader.ReadCommand`, and the counts that crash a reader.
use vole.Prelude.{
  ℕ, ◌+◌, ◌*◌, ◌^◌, ◌<◌, ◌≤◌, ◌≡◌, refl, sym, ◌∙◌, ap, true, false, List, [], ◌∷◌, ◌++◌, length,
  take, ltb, if◌then◌else◌, arith, append_assoc, length-append, take-length,
}
use vole.Prelude.Text.{Text}
use vole.Prelude.Int.{pos, negsuc}
use vole.Prelude.Decimal.{append_int, decimal}
use vole.Resp.{
  Reader, ok, panic, ◌>>=◌, return, fail, bad_terminator, read_byte, read_len, read_full, ends_line,
  read_body, read_bulk, read_bulks, read_parts, read_command, write_bulk, write_bulks,
  write_array_len, write_command,
}
use vole.Resp.Lines.{bind-ok, read_len-decimal, read_len-append_int, read_full-append}

ends_line-append : (s : Text) → ends_line (length s) (s ++ 13 ∷ 10 ∷ []) ≡ true
unfolding ends_line
ends_line-append [] = refl
ends_line-append (c ∷ s) = ends_line-append s

module _ (max_alloc : ℕ) (small : max_alloc < 2 ^ 63) where
  -- Each text can be allocated together with its terminator.
  abbrev pub Fits : List Text → Type 0
  Fits [] = Unit {0}
  Fits (s ∷ ss) = (length s + 2 ≤ max_alloc) × Fits ss

  pub read_body-append :
      (s rest : Text)
      → length s + 2 ≤ max_alloc
      → read_body max_alloc (pos (length s)) (s ++ 13 ∷ 10 ∷ rest) ≡ ok s rest
  unfolding read_body
  read_body-append s rest h =
      let fits : ltb max_alloc (length s + 2) ≡ false = ground arith in
      rw fits (
        ap (λ t. (read_full (length s + 2) >>= check) t) (sym (append_assoc s (13 ∷ 10 ∷ []) rest))
        ∙ bind-ok (read_full (length s + 2)) check ((s ++ 13 ∷ 10 ∷ []) ++ rest) whole
        ∙ rw (ends_line-append s, take-length s (13 ∷ 10 ∷ [])))
    where
      check : Text → Reader Text
      check buf =
          if ends_line (length s) buf then return (take (length s) buf) else fail bad_terminator

      whole : read_full (length s + 2) ((s ++ 13 ∷ 10 ∷ []) ++ rest) ≡ ok (s ++ 13 ∷ 10 ∷ []) rest
      whole =
          let n : length s + 2 ≡ length (s ++ 13 ∷ 10 ∷ []) =
            omega (arith, length-append s (13 ∷ 10 ∷ [])) in
          rw n (read_full-append (s ++ 13 ∷ 10 ∷ []) rest)

  read_bulk-append :
      (s rest : Text)
      → length s + 2 ≤ max_alloc
      → read_bulk max_alloc (write_bulk s ++ rest) ≡ ok s rest
  unfolding read_bulk write_bulk read_byte
  read_bulk-append s rest h =
      ap (read_len >>= read_body max_alloc)
        (append_assoc (decimal (length s)) (13 ∷ 10 ∷ (s ++ 13 ∷ 10 ∷ [])) rest)
      ∙ bind-ok read_len (read_body max_alloc)
          (decimal (length s) ++ 13 ∷ 10 ∷ ((s ++ 13 ∷ 10 ∷ []) ++ rest))
          (read_len-decimal (length s) ((s ++ 13 ∷ 10 ∷ []) ++ rest) (omega arith))
      ∙ ap (read_body max_alloc (pos (length s))) (append_assoc s (13 ∷ 10 ∷ []) rest)
      ∙ read_body-append s rest h

  read_bulks-append :
      (args : List Text) (rest : Text)
      → Fits args
      → read_bulks max_alloc (length args) (write_bulks args ++ rest) ≡ ok args rest
  unfolding read_bulks write_bulks
  read_bulks-append [] rest h = refl
  read_bulks-append (s ∷ args) rest h =
      ap (read_bulk max_alloc >>= more) (append_assoc (write_bulk s) (write_bulks args) rest)
      ∙ bind-ok (read_bulk max_alloc) more (write_bulk s ++ (write_bulks args ++ rest))
          (read_bulk-append s (write_bulks args ++ rest) h.0)
      ∙ bind-ok (read_bulks max_alloc (length args)) (λ parts. return (s ∷ parts))
          (write_bulks args ++ rest) (read_bulks-append args rest h.1)
    where
      more : Text → Reader (List Text)
      more part = do parts ← read_bulks max_alloc (length args); return (part ∷ parts)

  -- A command that `Command` writes is what `ReadCommand` reads, and what follows it stays
  -- unread, whatever bytes the words hold: for a limit of allocations below 2 ^ 63 that each word
  -- fits with its terminator, and the slice of the words too.
  pub read_command-write_command :
      (args : List Text) (rest : Text)
      → Fits args
      → 16 * length args ≤ max_alloc
      → read_command max_alloc (write_command args ++ rest) ≡ ok args rest
  unfolding read_command write_command write_array_len read_byte
  read_command-write_command args rest h k =
      let fits : ltb max_alloc (16 * length args) ≡ false = ground arith in
      let n = length args in
      ap (read_len >>= read_parts max_alloc) (
        append_assoc (decimal n ++ 13 ∷ 10 ∷ []) (write_bulks args) rest
        ∙ append_assoc (decimal n) (13 ∷ 10 ∷ []) (write_bulks args ++ rest))
      ∙ bind-ok read_len (read_parts max_alloc) (decimal n ++ 13 ∷ 10 ∷ (write_bulks args ++ rest))
          (read_len-decimal n (write_bulks args ++ rest) (omega arith))
      ∙ unfold read_parts in rw fits (read_bulks-append args rest h)

  -- A command that starts with a negative count of 64 bits makes `ReadCommand` panic, whatever
  -- follows.
  pub read_command-negative :
      (n : ℕ) (rest : Text)
      → n < 2 ^ 63
      → read_command max_alloc (b'*' ∷ append_int (negsuc n) ++ 13 ∷ 10 ∷ rest) ≡ panic
  unfolding read_command read_byte
  read_command-negative n rest h =
      bind-ok read_len (read_parts max_alloc) (append_int (negsuc n) ++ 13 ∷ 10 ∷ rest)
        (read_len-append_int (negsuc n) rest (omega arith))
      ∙ unfold read_parts in refl
