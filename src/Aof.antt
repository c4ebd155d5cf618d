-- ===== src/Aof.antt =====
-- internal/server/aof.go, `Append`, `Reset`, `verifyAndParseLine`, `escape` and `unescapeLine`: the lines of
-- the append-only file. The file is the text of its bytes; what the operating system does when a write
-- or a sync fails is left out.
pub mod Escape
pub mod Pairs
pub mod Fields
pub mod Lines
mod Tests
use vole.Prelude.{
  ℕ, zero, suc, ◌+◌, ◌-◌, ◌*◌, ◌/◌, ◌%◌, Bool, true, false, ◌&&◌, ◌||◌, List, [], ◌∷◌, ◌++◌, map,
  Option, some, none, length, leb, ltb, ◌==◌, if◌then◌else◌, take,
}
use vole.Prelude.Text.{Text}
use vole.Prelude.Crc.{checksum_ieee}

-- `strings.ReplaceAll` of one byte
unfoldable pub replace_byte : ℕ → Text → Text → Text
replace_byte c new [] = []
replace_byte c new (x ∷ s) = (if x == c then new else x ∷ []) ++ replace_byte c new s

-- `strings.ReplaceAll` of the bytes a and b by the byte c, from the left
unfoldable pub replace_pair : ℕ → ℕ → ℕ → Text → Text
replace_pair a b c [] = []
replace_pair a b c (x ∷ []) = x ∷ []
replace_pair a b c (x ∷ y ∷ s) =
    let hit = c ∷ replace_pair a b c s in
    let miss = x ∷ replace_pair a b c (y ∷ s) in if x == a && y == b then hit else miss

-- `escape`
unfoldable pub escape : Text → Text
escape s =
    replace_byte 10 (b'\\' ∷ b'n' ∷ [])
      (replace_byte 9 (b'\\' ∷ b't' ∷ []) (replace_byte b'\\' (b'\\' ∷ b'\\' ∷ []) s))

-- one round of the loop of `unescapeLine`
unfoldable pub unescape : Text → Text
unescape part =
    replace_pair b'\\' b'\\' b'\\' (replace_pair b'\\' b't' 9 (replace_pair b'\\' b'n' 10 part))

-- `strings.Split` at a byte; the text before the first one, and the rest
unfoldable pub split_byte : ℕ → Text → Text × List Text
split_byte c [] = ([], [])
split_byte c (x ∷ s) =
    let (first, rest) = split_byte c s in if x == c then ([], first ∷ rest) else (x ∷ first, rest)

unfoldable pub split_text : ℕ → Text → List Text
split_text c s = let (first, rest) = split_byte c s in first ∷ rest

-- `unescapeLine`
unfoldable pub unescape_line : Text → List Text
unescape_line line = map unescape (split_text 9 line)

-- the loop of `Append`: the arguments with tabs between them
unfoldable pub join_escaped : List Text → Text
join_escaped [] = []
join_escaped (arg ∷ []) = escape arg
join_escaped (arg ∷ next ∷ args) = escape arg ++ 9 ∷ join_escaped (next ∷ args)

unfoldable pub hex_digit : ℕ → ℕ
hex_digit d = if ltb d 10 then 48 + d else 87 + d

-- `%08x`
unfoldable pub hex : ℕ → ℕ → Text
hex zero n = []
hex (suc w) n = hex w (n / 16) ++ hex_digit (n % 16) ∷ []

-- the value of a digit for `strconv.ParseUint` with base 16
unfoldable pub hex_value : ℕ → Option ℕ
hex_value c =
    if leb 48 c && leb c 57
    then some (c - 48)
    else (if leb 97 c && leb c 102
        then some (c - 87)
        else (if leb 65 c && leb c 70 then some (c - 55) else none))

-- `strconv.ParseUint(s, 16, 32)` of eight bytes, which leave no 32 bits
unfoldable pub read_hex : ℕ → Text → Option ℕ
read_hex acc [] = some acc
read_hex acc (c ∷ s) = elim (hex_value c) [ none ↦ none | some d ↦ read_hex (acc * 16 + d) s ]

-- the line that `Append` writes, without its end
unfoldable pub line_of : List Text → Text
line_of args = join_escaped args ++ 9 ∷ b'#' ∷ hex 8 (checksum_ieee (join_escaped args))

-- `Append`, on the bytes of the file
unfoldable pub append_entry : List Text → Text → Text
append_entry args file = file ++ line_of args ++ 10 ∷ []

-- `Reset`
abbrev reset_file : Text → Text
reset_file file = []

-- `args[len(args)-1]`, with what stands before it
unfoldable pub split_last : Text → List Text → List Text × Text
split_last x [] = ([], x)
split_last x (y ∷ xs) = let (front, last) = split_last y xs in (x ∷ front, last)

-- `line[:strings.LastIndex(line, "\t")]`
unfoldable pub before_last_tab : Text → Option Text
before_last_tab [] = none
before_last_tab (c ∷ s) = elim (before_last_tab s) [
  | some content ↦ some (c ∷ content)
  | none ↦ if c == 9 then some [] else none
]

-- the test of the checksum, for the digits behind `#`
unfoldable pub check_sum : List Text → Text → Option Text → Option (List Text)
check_sum args digits none = none
check_sum args digits (some content) = elim (read_hex 0 digits) [
  | none ↦ none
  | some expected ↦ if expected == checksum_ieee content then some args else none
]

-- the tests of `verifyAndParseLine` on the last argument
unfoldable pub check_last : Text → List Text → List Text × Text → Option (List Text)
check_last line args (front, []) = some args
check_last line args (front, c ∷ digits) =
    if c == b'#' && length digits == 8
    then check_sum front digits (before_last_tab line)
    else some args

-- `verifyAndParseLine`; none is the answer `false`
unfoldable pub verify_and_parse_line : Text → Option (List Text)
verify_and_parse_line line = elim (unescape_line line) [
  | [] ↦ some []
  | x ∷ xs ↦ check_last line (x ∷ xs) (split_last x xs)
]

-- `dropCR` of the scanner's split function
unfoldable pub drop_cr : Text → Text
drop_cr [] = []
drop_cr (x ∷ []) = if x == 13 then [] else x ∷ []
drop_cr (x ∷ y ∷ s) = x ∷ drop_cr (y ∷ s)

-- `bufio.MaxScanTokenSize`, which the scanner of `ReplayAOF` keeps
abbrev pub max_token : ℕ
max_token = 65536

-- the lines that the scanner finds, and whether it ends without an error: a line that fills its buffer
-- ends it with one, and nothing behind the last line feed is no line
unfoldable pub scan_pieces : List Text → List Text × Bool
scan_pieces [] = ([], true)
scan_pieces ([] ∷ []) = ([], true)
scan_pieces (line ∷ rest) =
    let (lines, good) = scan_pieces rest in
    if ltb (length line) max_token then (drop_cr line ∷ lines, good) else ([], false)

-- the loop of `ReplayAOF` over the lines: what each gives, and the error of the scanner
unfoldable pub read_entries : Text → List (Option (List Text)) × Bool
read_entries file =
    let (lines, good) = scan_pieces (split_text 10 file) in (map verify_and_parse_line lines, good)
