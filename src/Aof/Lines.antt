-- ===== src/Aof/Lines.antt =====
-- internal/server/aof.go, `Append` and `verifyAndParseLine`: what is read back of a file of entries.
use vole.Aof.Fields.{
  lacks, lacks-append, split_text-append, split_text-lacks, before_last_tab-append, unescape-lacks,
  length-hex, lacks-hex, read_hex-hex, lacks-escape, lacks-join_escaped,
}
use vole.Prelude.{
  ℕ, ◌≡◌, ◌≢◌, refl, ap, ap₂, ◌∙◌, sym, inl, inr, Bool, true, false, ◌||◌, List, [], ◌∷◌, ◌++◌, map,
  Option, some, length, arith, ltb, ◌==◌, ==_iff, if◌then◌else◌, Bool-cases, append_assoc,
  append-nil,
}
use vole.Prelude.Text.{Text}
use vole.Prelude.Crc.{checksum_ieee, checksum_ieee-lt}
use vole.Aof.{
  escape, unescape, split_byte, split_text, unescape_line, join_escaped, hex, line_of, append_entry,
  split_last, before_last_tab, check_sum, check_last, verify_and_parse_line, drop_cr, scan_pieces,
  read_entries, max_token,
}
use vole.Aof.Escape.{garbled, unescape-escape}

-- the last field of a line
abbrev sum_field : Text → Text
sum_field content = b'#' ∷ hex 8 (checksum_ieee content)

lacks-sum_field :
    (b : ℕ) (content : Text) → (ltb b 35 || b == 92) ≡ true → lacks b (sum_field content) ≡ true
unfolding lacks
lacks-sum_field b content h = ground (arith, lacks-hex b 8 (checksum_ieee content), h)

fields :
    (x : Text) (xs : List Text) (last : Text)
    → lacks 9 last ≡ true
    → split_text 9 (join_escaped (x ∷ xs) ++ 9 ∷ last) ≡ map escape (x ∷ xs) ++ last ∷ []
unfolding join_escaped
fields x [] last h =
    split_text-append 9 (escape x) last (lacks-escape 9 x refl)
    ∙ ap (λ r. escape x ∷ r) (split_text-lacks 9 last h)
fields x (y ∷ xs) last h =
    ap (split_text 9) (append_assoc (escape x) (9 ∷ join_escaped (y ∷ xs)) (9 ∷ last))
    ∙ split_text-append 9 (escape x) (join_escaped (y ∷ xs) ++ 9 ∷ last) (lacks-escape 9 x refl)
    ∙ ap (λ r. escape x ∷ r) (fields y xs last h)

map-garbled : (xs : List Text) → map unescape (map escape xs) ≡ map garbled xs
map-garbled [] = refl
map-garbled (x ∷ xs) = ap₂ (λ y ys. y ∷ ys) (unescape-escape x) (map-garbled xs)

map-snoc :
    (f : Text → Text) (xs : List Text) (y : Text) → map f (xs ++ y ∷ []) ≡ map f xs ++ f y ∷ []
map-snoc f [] y = refl
map-snoc f (x ∷ xs) y = ap (λ r. f x ∷ r) (map-snoc f xs y)

split_last-snoc : (x : Text) (xs : List Text) (y : Text) → split_last x (xs ++ y ∷ []) ≡ (x ∷ xs, y)
unfolding split_last
split_last-snoc x [] y = refl
split_last-snoc x (z ∷ xs) y = rw (split_last-snoc z xs y) refl

unescape_line-line_of :
    (x : Text) (xs : List Text)
    → unescape_line (line_of (x ∷ xs))
      ≡ garbled x ∷ (map garbled xs ++ sum_field (join_escaped (x ∷ xs)) ∷ [])
unfolding unescape_line line_of
unescape_line-line_of x xs =
    let last = sum_field (join_escaped (x ∷ xs)) in
    ap (map unescape) (fields x xs last (lacks-sum_field 9 (join_escaped (x ∷ xs)) refl))
    ∙ map-snoc unescape (map escape (x ∷ xs)) last
    ∙ ap₂ (λ ys y. ys ++ y ∷ []) (map-garbled (x ∷ xs))
        (unescape-lacks last (lacks-sum_field 92 (join_escaped (x ∷ xs)) refl))

check_sum-sum_field :
    (args : List Text) (content : Text)
    → check_sum args (hex 8 (checksum_ieee content)) (some content) ≡ some args
unfolding check_sum
check_sum-sum_field args content =
    rw (check_sum, read_hex-hex 8 (checksum_ieee content) (checksum_ieee-lt content))
      (rw ((==_iff (checksum_ieee content) (checksum_ieee content)).1 refl) refl)

check_last-sum_field :
    (line content : Text) (args front : List Text)
    → before_last_tab line ≡ some content
    → check_last line args (front, sum_field content) ≡ some front
unfolding check_last
check_last-sum_field line content args front h =
    rw (check_last, length-hex 8 (checksum_ieee content), h) (check_sum-sum_field front content)

-- `verifyAndParseLine` of a line that `Append` wrote
verify_and_parse_line-line_of :
    (x : Text) (xs : List Text)
    → verify_and_parse_line (line_of (x ∷ xs)) ≡ some (map garbled (x ∷ xs))
unfolding verify_and_parse_line
verify_and_parse_line-line_of x xs =
    let content = join_escaped (x ∷ xs) in
    let cut : before_last_tab (line_of (x ∷ xs)) ≡ some content =
      unfold line_of in
      before_last_tab-append content (sum_field content) (lacks-sum_field 9 content refl) in
    rw (verify_and_parse_line, unescape_line-line_of x xs)
      (rw (split_last-snoc (garbled x) (map garbled xs) (sum_field content)) (
        check_last-sum_field (line_of (x ∷ xs)) content
          (garbled x ∷ (map garbled xs ++ sum_field content ∷ [])) (map garbled (x ∷ xs)) cut))

drop_cr-append : (s : Text) (x : ℕ) (t : Text) → drop_cr (s ++ x ∷ t) ≡ s ++ drop_cr (x ∷ t)
unfolding drop_cr
drop_cr-append [] x t = refl
drop_cr-append (y ∷ []) x t = refl
drop_cr-append (y ∷ z ∷ s) x t = ap (λ r. y ∷ r) (drop_cr-append (z ∷ s) x t)

drop_cr-lacks : (s : Text) → lacks 13 s ≡ true → drop_cr s ≡ s
unfolding drop_cr lacks
drop_cr-lacks [] h = refl
drop_cr-lacks (x ∷ []) h = ground (arith, h)
drop_cr-lacks (x ∷ y ∷ s) h = ap (λ r. x ∷ r) (drop_cr-lacks (y ∷ s) (ground (arith, h)))

drop_cr-line_of : (args : List Text) → drop_cr (line_of args) ≡ line_of args
unfolding line_of
drop_cr-line_of args =
    drop_cr-append (join_escaped args) 9 (sum_field (join_escaped args))
    ∙ ap (λ r. join_escaped args ++ r)
        (drop_cr-lacks (9 ∷ sum_field (join_escaped args))
          (unfold lacks in lacks-sum_field 13 (join_escaped args) refl))

lacks-line_of : (args : List Text) → lacks 10 (line_of args) ≡ true
unfolding line_of
lacks-line_of args =
    lacks-append 10 (join_escaped args) (9 ∷ sum_field (join_escaped args))
      (lacks-join_escaped args) (unfold lacks in lacks-sum_field 10 (join_escaped args) refl)

-- the file after the entries are appended one by one
unfoldable pub append_all : List (List Text) → Text → Text
append_all [] file = file
append_all (args ∷ entries) file = append_all entries (append_entry args file)

lines_text : List (List Text) → Text
lines_text [] = []
lines_text (args ∷ entries) = line_of args ++ 10 ∷ lines_text entries

append_all-lines_text :
    (entries : List (List Text)) (file : Text)
    → append_all entries file ≡ file ++ lines_text entries
unfolding append_all lines_text append_entry
append_all-lines_text [] file = sym (append-nil file)
append_all-lines_text (args ∷ entries) file =
    append_all-lines_text entries (file ++ line_of args ++ 10 ∷ [])
    ∙ ap (λ r. r ++ lines_text entries) (append_assoc file (line_of args) (10 ∷ []))
    ∙ append_assoc file (line_of args ++ 10 ∷ []) (lines_text entries)
    ∙ ap (λ r. file ++ r) (append_assoc (line_of args) (10 ∷ []) (lines_text entries))

-- What the loop of `ReplayAOF` reads of entries: each is read with its arguments garbled, up to the
-- first line that does not fit the buffer of the scanner, where it ends with an error.
unfoldable pub readable : List (List Text) → List (Option (List Text)) × Bool
readable [] = ([], true)
readable (args ∷ entries) =
    let (read, good) = readable entries in
    if ltb (length (line_of args)) max_token
    then (some (map garbled args) ∷ read, good)
    else ([], false)

-- every entry has a word
abbrev AllWords : List (List Text) → Type 0
AllWords [] = Unit {0}
AllWords (args ∷ entries) = (args ≢ []) × AllWords entries

-- the scanner at a line with something behind it
scan_pieces-next :
    (line s : Text)
    → scan_pieces (line ∷ split_text 10 s) ≡ (
        let (lines, good) = scan_pieces (split_text 10 s) in
        if ltb (length line) max_token then (drop_cr line ∷ lines, good) else ([], false))
unfolding scan_pieces split_text
scan_pieces-next [] s = refl
scan_pieces-next (x ∷ line) s = refl

read_entries-next :
    (x : Text) (xs : List Text) (s : Text)
    → read_entries (line_of (x ∷ xs) ++ 10 ∷ s) ≡ (
        let (read, good) = read_entries s in
        if ltb (length (line_of (x ∷ xs))) max_token
        then (some (map garbled (x ∷ xs)) ∷ read, good)
        else ([], false))
unfolding read_entries
read_entries-next x xs s =
    rw
      (
        split_text-append 10 (line_of (x ∷ xs)) s (lacks-line_of (x ∷ xs)),
        scan_pieces-next (line_of (x ∷ xs)) s,
        drop_cr-line_of (x ∷ xs),
      )
      (elim (Bool-cases (ltb (length (line_of (x ∷ xs))) max_token)) [
        | inl e ↦ rw e (rw (verify_and_parse_line-line_of x xs) refl)
        | inr e ↦ rw e refl
      ])

read_entries-lines_text :
    (entries : List (List Text))
    → AllWords entries
    → read_entries (lines_text entries) ≡ readable entries
unfolding lines_text readable
read_entries-lines_text [] w = unfold read_entries split_text split_byte scan_pieces in refl
read_entries-lines_text ([] ∷ entries) w = absurd (w.0 refl)
read_entries-lines_text ((x ∷ xs) ∷ entries) w =
    read_entries-next x xs (lines_text entries)
    ∙ ap
        (λ (r : List (Option (List Text)) × Bool).
          if ltb (length (line_of (x ∷ xs))) max_token
          then (some (map garbled (x ∷ xs)) ∷ r.0, r.1)
          else ([], false))
        (read_entries-lines_text entries w.1)

-- The file that entries with a word each were appended to, from an empty one, reads as those entries
-- with `\n` and `\t` of their arguments garbled, up to the first whose line has 65536 bytes or more:
-- there the reading ends with an error, and what follows is not read.
pub read_entries-append_all :
    (entries : List (List Text))
    → AllWords entries
    → read_entries (append_all entries []) ≡ readable entries
read_entries-append_all entries w =
    ap read_entries (append_all-lines_text entries []) ∙ read_entries-lines_text entries w
