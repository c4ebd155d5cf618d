-- ===== src/Resp/Fuel.antt =====
-- `ReadValue` ends: a unit of fuel for each byte of the input is enough.
use vole.Prelude.{
  take, ℕ, zero, suc, ◌+◌, ◌*◌, ◌<◌, ◌≤◌, ◌≡◌, Bool, true, false, [], ◌∷◌, length, drop, leb, ltb,
  ◌==◌, if◌then◌else◌, arith, Bool-cases, inl, inr, length-drop, subst,
}
use vole.Prelude.Text.{Text}
use vole.Prelude.Int.{ℤ, pos, negsuc}
use vole.Prelude.Decimal.{parse_int, Parsed}
use vole.Resp.{
  eof, failure, simple, unexpected_eof, bulk, integer, Outcome, ok, err, panic, out_of_fuel, Reader,
  ◌>>=◌, return, fail, crash, bad_number, bad_terminator, read_byte, read_string, read_line,
  trim_return, read_len, read_full, ends_line, read_body, Value, cons, array, read_bulk_value,
  read_integer, read_items, read_array, read_typed, read_value,
}

-- The outcome does not lack fuel, and leaves at most `n` bytes unread.
abbrev pub Within : {A : Type 0} → ℕ → Outcome A → Type 0
Within n (ok a t) = length t ≤ n
Within n (err e) = Unit {0}
Within n panic = Unit {0}
Within n out_of_fuel = ⊥

module _ {A : Type 0} where
  Within-mono : (m n : ℕ) (o : Outcome A) → m ≤ n → Within m o → Within n o
  Within-mono m n (ok a t) h w = omega arith
  Within-mono m n (err e) h w = tt
  Within-mono m n panic h w = tt
  Within-mono m n out_of_fuel h w = w

  Within-bind :
      {B : Type 0} (n : ℕ) (m : Reader A) (f : A → Reader B) (s : Text)
      → Within n (m s)
      → ((a : A) (t : Text) → length t ≤ n → Within n (f a t))
      → Within n ((m >>= f) s)
  Within-bind {B = B} n m f s w k = go (m s) w
    where
      go :
          (o : Outcome A)
          → Within n o
          → Within n (elim o as (λ _. Outcome B) [
            | ok a t ↦ f a t
            | err e ↦ err e
            | panic ↦ panic
            | out_of_fuel ↦ out_of_fuel
          ])
      go (ok a t) v = k a t v
      go (err e) v = tt
      go panic v = tt
      go out_of_fuel v = v

  Within-choice :
      (n : ℕ) (b : Bool) (o p : Outcome A) → Within n o → Within n p → Within n (if b then o else p)
  Within-choice n true o p h k = h
  Within-choice n false o p h k = k

  Within-if :
      (n : ℕ) (b : Bool) (x y : Reader A) (s : Text)
      → Within n (x s)
      → Within n (y s)
      → Within n ((if b then x else y) s)
  Within-if n true x y s h k = h
  Within-if n false x y s h k = k

-- the outcome of a line with `c` in front of it
longer : ℕ → Outcome Text → Outcome Text
longer c o = elim o [
  | ok line t ↦ ok (c ∷ line) t
  | err e ↦ err e
  | panic ↦ panic
  | out_of_fuel ↦ out_of_fuel
]

longer-Within : (c n : ℕ) (o : Outcome Text) → Within n o → Within (suc n) (longer c o)
unfolding longer
longer-Within c n (ok line t) h = omega arith
longer-Within c n (err e) h = tt
longer-Within c n panic h = tt
longer-Within c n out_of_fuel h = h

read_string-Within : (s : Text) → Within (length s) (read_string s)
unfolding read_string longer
read_string-Within [] = tt
read_string-Within (c ∷ s) =
    Within-choice (length (c ∷ s)) (c == 10) (ok [] s) (longer c (read_string s)) (omega arith)
      (longer-Within c (length s) (read_string s) (read_string-Within s))

read_line-Within : (s : Text) → Within (length s) (read_line s)
unfolding read_line
read_line-Within s =
    Within-bind (length s) read_string (λ line. return (trim_return line)) s (read_string-Within s)
      (λ a t h. h)

read_len-Within : (s : Text) → Within (length s) (read_len s)
unfolding read_len
read_len-Within s =
    Within-bind (length s) read_line
      (λ line. let n = parse_int line in if n.good then return n.value else fail bad_number) s
      (read_line-Within s)
      (λ a t h.
        Within-if (length s) (parse_int a).good (return (parse_int a).value) (fail bad_number) t h
          tt)

length-drop_le : (n : ℕ) (s : Text) → length (drop n s) ≤ length s
length-drop_le n s = rw (length-drop n s) (omega arith)

read_full-Within : (n : ℕ) (s : Text) → Within (length s) (read_full n s)
unfolding read_full
read_full-Within n s = elim (Bool-cases (leb n (length s))) [
  | inl e ↦ rw e (length-drop_le n s)
  | inr e ↦
      rw e
        (Within-choice {A = Text} (length s) (length s == 0) (err eof) (err unexpected_eof) tt tt)
]

module _ (max_alloc : ℕ) where
  read_body-Within : (l : ℤ) (s : Text) → Within (length s) (read_body max_alloc l s)
  unfolding read_body
  read_body-Within (pos l) s =
      Within-if (length s) (ltb max_alloc (l + 2)) crash (read_full (l + 2) >>= rest) s tt (
        Within-bind (length s) (read_full (l + 2)) rest s (read_full-Within (l + 2) s) (λ buf t h.
          Within-if (length s) (ends_line l buf) (return (take l buf)) (fail bad_terminator) t h
            tt))
    where
      rest : Text → Reader Text
      rest buf = if ends_line l buf then return (take l buf) else fail bad_terminator
  read_body-Within (negsuc zero) s =
      Within-bind (length s) (read_full 1) (λ _. crash) s (read_full-Within 1 s) (λ a t h. tt)
  read_body-Within (negsuc (suc zero)) s = tt
  read_body-Within (negsuc (suc (suc n))) s = tt

  -- What a reader of items must do on inputs of less than `n` bytes.
  abbrev Reads : ℕ → Reader Value → Type 0
  Reads n one = (s : Text) → length s < n → Within (length s) (one s)

  read_items-Within :
      (one : Reader Value) (m k : ℕ)
      → Reads m one
      → (s : Text) → length s < m
      → Within (length s) (read_items max_alloc one k s)
  unfolding read_items
  read_items-Within one m zero h s p = omega arith
  read_items-Within one m (suc k) h s p =
      Within-bind (length s) one
        (λ item. read_items max_alloc one k >>= (λ items. return (cons item items))) s (h s p)
        (λ item t q.
          Within-bind (length s) (read_items max_alloc one k) (λ items. return (cons item items)) t
            (Within-mono (length t) (length s) (read_items max_alloc one k t) q
              (read_items-Within one m k h t (omega arith)))
            (λ items u r. r))

  read_bulk_value-Within : (l : ℤ) (s : Text) → Within (length s) (read_bulk_value max_alloc l s)
  unfolding read_bulk_value
  read_bulk_value-Within (negsuc zero) s = omega arith
  read_bulk_value-Within (negsuc (suc n)) s = tt
  read_bulk_value-Within (pos l) s =
      Within-bind (length s) (read_body max_alloc (pos l)) (λ text. return (bulk text)) s
        (read_body-Within (pos l) s) (λ a t h. h)

  read_array-Within :
      (one : Reader Value) (m : ℕ) (n : ℤ)
      → Reads m one
      → (s : Text) → length s < m
      → Within (length s) (read_array max_alloc one n s)
  unfolding read_array
  read_array-Within one m (negsuc zero) h s p = omega arith
  read_array-Within one m (negsuc (suc n)) h s p = tt
  read_array-Within one m (pos n) h s p =
      Within-if (length s) (ltb max_alloc (64 * n)) crash
        (read_items max_alloc one n >>= (λ items. return (array items))) s tt
        (Within-bind (length s) (read_items max_alloc one n) (λ items. return (array items)) s
          (read_items-Within one m n h s p) (λ a t q. q))

  -- A reader that starts with a line and goes on within its bytes.
  after_line :
      {A B : Type 0} (m : Reader A) (f : A → Reader B) (s : Text)
      → Within (length s) (m s)
      → ((a : A) (t : Text) → length t ≤ length s → Within (length t) (f a t))
      → Within (length s) ((m >>= f) s)
  after_line m f s w k =
      Within-bind (length s) m f s w
        (λ a t h. Within-mono (length t) (length s) (f a t) h (k a t h))

  read_integer-Within : (n : Parsed) (s : Text) → Within (length s) (read_integer max_alloc n s)
  unfolding read_integer
  read_integer-Within n s =
      Within-if (length s) n.good (return (integer n.value)) (fail bad_number) s (omega arith) tt

  read_typed-Within :
      (one : Reader Value) (m b : ℕ)
      → Reads m one
      → (s : Text) → length s < m
      → Within (length s) (read_typed max_alloc one b s)
  unfolding read_typed
  read_typed-Within one m b h s p =
      Within-if (length s) (b == b'+') (read_line >>= (λ line. return (simple line))) _ s
        (after_line read_line _ s (read_line-Within s) (λ a t q. omega arith))
        (Within-if (length s) (b == b'-') (read_line >>= (λ line. return (failure line))) _ s
          (after_line read_line _ s (read_line-Within s) (λ a t q. omega arith))
          (Within-if (length s) (b == b':')
            (read_line >>= (λ line. read_integer max_alloc (parse_int line))) _ s
            (after_line read_line _ s (read_line-Within s)
              (λ a t q. read_integer-Within (parse_int a) t))
            (Within-if (length s) (b == b'$') (read_len >>= read_bulk_value max_alloc) _ s
              (after_line read_len _ s (read_len-Within s) (λ a t q. read_bulk_value-Within a t))
              (Within-if (length s) (b == b'*') (read_len >>= read_array max_alloc one) _ s
                (after_line read_len _ s (read_len-Within s)
                  (λ a t q. read_array-Within one m a h t (omega arith)))
                tt))))

  read_value-Within :
      (f : ℕ) (s : Text) → length s < f → Within (length s) (read_value max_alloc f s)
  unfolding read_value read_byte
  read_value-Within zero s h = absurd (omega arith)
  read_value-Within (suc f) [] h = tt
  read_value-Within (suc f) (b ∷ s) h =
      Within-mono (length s) (length (b ∷ s)) (read_typed max_alloc (read_value max_alloc f) b s)
        (omega arith)
        (read_typed-Within (read_value max_alloc f) f b (read_value-Within f) s (omega arith))

  -- `ReadValue` ends on every input, in a value, an error or a panic: more fuel than there are
  -- bytes is enough.
  pub read_value-ne-out_of_fuel :
      (f : ℕ) (s : Text) → length s < f → read_value max_alloc f s ≡ out_of_fuel → ⊥
  read_value-ne-out_of_fuel f s h e = subst (λ o. Within (length s) o) e (read_value-Within f s h)
