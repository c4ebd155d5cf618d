-- ===== src/Resp/Lines.antt =====
-- Lines and lengths on the wire.
use vole.Prelude.{
  ℕ, suc, ◌^◌, ◌<◌, ◌≡◌, refl, sym, ◌∙◌, ap, true, false, [], ◌∷◌, ◌++◌, length, leb, ◌==◌,
  if◌then◌else◌, arith, append_assoc, length-append, take-length, drop-length,
}
use vole.Prelude.Text.{Text}
use vole.Prelude.Int.{ℤ, pos, negsuc}
use vole.Prelude.Decimal.{
  parse_int, append_int, decimal, Parsed, AllDigits, decimal-AllDigits, parse_int-append_int,
  IsInt64,
}
use vole.Resp.{
  Reader, ◌>>=◌, return, fail, bad_number, ok, read_string, trim_return, read_line, read_len,
  read_full,
}

-- A step that succeeds hands its value and the rest on.
pub bind-ok :
    {A B : Type 0} (m : Reader A) (f : A → Reader B) (s : Text) {a : A} {t : Text}
    → m s ≡ ok a t
    → (m >>= f) s ≡ f a t
bind-ok m f s h = rw (h, ◌>>=◌)

-- No byte of the text is a newline.
abbrev pub IsLine : Text → Type 0
IsLine [] = Unit {0}
IsLine (c ∷ s) = ((c == 10) ≡ false) × IsLine s

read_string-append : (s rest : Text) → IsLine s → read_string (s ++ 10 ∷ rest) ≡ ok s rest
unfolding read_string
read_string-append [] rest h = refl
read_string-append (c ∷ s) rest h = rw (h.0, read_string-append s rest h.1)

IsLine-return : (s : Text) → IsLine s → IsLine (s ++ 13 ∷ [])
IsLine-return [] h = (refl, tt)
IsLine-return (c ∷ s) h = (h.0, IsLine-return s h.1)

trim_return-append : (s : Text) → trim_return (s ++ 13 ∷ []) ≡ s
unfolding trim_return
trim_return-append [] = refl
trim_return-append (c ∷ []) = refl
trim_return-append (c ∷ d ∷ s) = ap (◌∷◌ c) (trim_return-append (d ∷ s))

-- A line that ends in return and newline is read without the two.
pub read_line-append : (s rest : Text) → IsLine s → read_line (s ++ 13 ∷ 10 ∷ rest) ≡ ok s rest
unfolding read_line
read_line-append s rest h =
    ap read_line (sym (append_assoc s (13 ∷ []) (10 ∷ rest)))
    ∙ bind-ok read_string (λ line. return (trim_return line)) (s ++ 13 ∷ [] ++ 10 ∷ rest)
        (read_string-append (s ++ 13 ∷ []) rest (IsLine-return s h))
    ∙ ap (λ line. ok line rest) (trim_return-append s)

AllDigits-IsLine : (s : Text) → AllDigits s → IsLine s
AllDigits-IsLine [] h = tt
AllDigits-IsLine (c ∷ s) h = (ground arith, AllDigits-IsLine s h.1)

pub append_int-IsLine : (i : ℤ) → IsLine (append_int i)
unfolding append_int
append_int-IsLine (pos n) = AllDigits-IsLine (decimal n) (decimal-AllDigits n)
append_int-IsLine (negsuc n) =
    (refl, AllDigits-IsLine (decimal (suc n)) (decimal-AllDigits (suc n)))

-- A length is read back.
pub read_len-append_int :
    (i : ℤ) (rest : Text) → IsInt64 i → read_len (append_int i ++ 13 ∷ 10 ∷ rest) ≡ ok i rest
unfolding read_len
read_len-append_int i rest h =
    bind-ok read_line check (append_int i ++ 13 ∷ 10 ∷ rest)
      (read_line-append (append_int i) rest (append_int-IsLine i))
    ∙ ap (λ (n : Parsed). (if n.good then return n.value else fail bad_number) rest)
        (parse_int-append_int i h)
  where
    check : Text → Reader ℤ
    check line = let n = parse_int line in if n.good then return n.value else fail bad_number

pub read_len-decimal :
    (n : ℕ) (rest : Text) → n < 2 ^ 63 → read_len (decimal n ++ 13 ∷ 10 ∷ rest) ≡ ok (pos n) rest
read_len-decimal n rest h = unfold append_int in read_len-append_int (pos n) rest (h, omega arith)

pub read_full-append : (s rest : Text) → read_full (length s) (s ++ rest) ≡ ok s rest
unfolding read_full
read_full-append s rest =
    let fits : leb (length s) (length (s ++ rest)) ≡ true = ground (arith, length-append s rest) in
    rw (fits, take-length s rest, drop-length s rest)
