-- ===== src/Glob/Brackets.antt =====
-- internal/store/store.go, `matchBracket`: what the text of a bracket means, without the byte that is asked for.
use vole.Prelude.{
  refl, none, Option, ◌∙◌, sym, inr, inl, Bool-cases, subst, ℕ, ◌≡◌, Bool, true, false, List, [],
  ◌∷◌, some, leb, ◌==◌, ◌&&◌, ◌||◌, arith,
}
use vole.Prelude.Text.{Text}
use vole.Glob.{not, Option, close_bracket, match_bracket, bracket_loop}

-- A set is a list of single bytes and of ranges with their ends.
pub data Item : Type 0 where
  one : ℕ → Item
  range : ℕ → ℕ → Item

abbrev pub is_in : ℕ → List Item → Bool
is_in ch [] = false
is_in ch (one c ∷ items) = c == ch || is_in ch items
is_in ch (range c e ∷ items) = leb c ch && leb ch e || is_in ch items

-- A dash with a byte behind it.
abbrev pub is_range : Text → Bool
is_range [] = false
is_range (d ∷ []) = false
is_range (d ∷ e ∷ p) = d == b'-'

-- The bracket closes the set, but not as its first byte.
abbrev closes : Bool → ℕ → Bool
closes started c = c == b']' && started

-- The text reads as the set, and what is behind the closing bracket is the rest; `started` says
-- whether an item is behind us. A backslash takes the meaning off the byte behind it.
pub data Reads : Bool → Text → List Item → Text → Type 0 where
  end : (p : Text) → Reads true (b']' ∷ p) [] p
  escaped_byte :
      (started : Bool) (d : ℕ) (p : Text) (items : List Item) (rest : Text)
      → Reads true p items rest
      → Reads started (b'\\' ∷ d ∷ p) (one d ∷ items) rest
  byte_range :
      (started : Bool) (c e : ℕ) (p : Text) (items : List Item) (rest : Text)
      → closes started c ≡ false
      → (c == b'\\') ≡ false
      → Reads true p items rest
      → Reads started (c ∷ b'-' ∷ e ∷ p) (range c e ∷ items) rest
  single :
      (started : Bool) (c : ℕ) (p : Text) (items : List Item) (rest : Text)
      → closes started c ≡ false
      → (c == b'\\') ≡ false
      → is_range p ≡ false
      → Reads true p items rest
      → Reads started (c ∷ p) (one c ∷ items) rest

-- A set that starts with `^` or `!` means the bytes that are not in what follows.
pub data InBracket : ℕ → Text → Text → Type 0 where
  in_set :
      (d : ℕ) (p : Text) (items : List Item) (rest : Text)
      → Reads false p items rest
      → is_in d items ≡ true
      → ((c : ℕ) (q : Text) → p ≡ c ∷ q → (c == b'^' || c == b'!') ≡ false)
      → InBracket d p rest
  out_of_set :
      (d c : ℕ) (p : Text) (items : List Item) (rest : Text)
      → (c == b'^' || c == b'!') ≡ true
      → Reads false p items rest
      → is_in d items ≡ false
      → InBracket d (c ∷ p) rest

-- The loop on a text that reads as a set.
bracket_loop-Reads :
    (ch : ℕ) (started matched : Bool) (p : Text) (items : List Item) (rest : Text)
    → Reads started p items rest
    → bracket_loop ch started matched p ≡ some (matched || is_in ch items, rest)
unfolding bracket_loop
bracket_loop-Reads ch _ matched _ _ _ (end []) = ground arith
bracket_loop-Reads ch _ matched _ _ _ (end (d ∷ [])) = ground arith
bracket_loop-Reads ch _ matched _ _ _ (end (d ∷ e ∷ p)) = ground arith
bracket_loop-Reads ch _ matched _ _ _ (escaped_byte started d [] items rest r) =
    ground (arith, bracket_loop-Reads ch true (matched || d == ch) [] items rest r)
bracket_loop-Reads ch _ matched _ _ _ (escaped_byte started d (e ∷ p) items rest r) =
    ground (arith, bracket_loop-Reads ch true (matched || d == ch) (e ∷ p) items rest r)
bracket_loop-Reads ch _ matched _ _ _ (byte_range started c e p items rest k n r) =
    ground
      (arith, k, n, bracket_loop-Reads ch true (matched || leb c ch && leb ch e) p items rest r)
bracket_loop-Reads ch _ matched _ _ _ (single started c [] items rest k n m r) =
    absurd (ground (arith, bracket_loop-Reads ch true (matched || c == ch) [] items rest r))
bracket_loop-Reads ch _ matched _ _ _ (single started c (d ∷ []) items rest k n m r) =
    ground (arith, k, n, bracket_loop-Reads ch true (matched || c == ch) (d ∷ []) items rest r)
bracket_loop-Reads ch _ matched _ _ _ (single started c (d ∷ e ∷ p) items rest k n m r) =
    ground
      (arith, k, n, m, bracket_loop-Reads ch true (matched || c == ch) (d ∷ e ∷ p) items rest r)

-- A text that the loop takes, as a set with the answer of the loop.
abbrev Understood : ℕ → Bool → Bool → Text → Bool → Text → Type 0
Understood ch started matched p m rest =
    (items : List Item) × Reads started p items rest × (m ≡ (matched || is_in ch items))

Understood-end :
    (ch c : ℕ) (started matched : Bool) (p : Text) (m : Bool) (rest : Text)
    → closes started c ≡ true
    → ◌≡◌ {A = Option (Bool × Text)} (some (matched, p)) (some (m, rest))
    → Understood ch started matched (c ∷ p) m rest
Understood-end ch c true matched p m rest k e =
    let bracket : b']' ≡ c = ground (arith, k) in
    let behind : p ≡ rest = ground (arith, e) in
    subst (λ r. Understood ch true matched (c ∷ p) m r) behind
      (subst (λ b. Understood ch true matched (b ∷ p) m p) bracket ([], end p, ground (arith, e)))
Understood-end ch c false matched p m rest k e = absurd (ground (arith, k))

Understood-escape :
    (ch c d : ℕ) (started matched : Bool) (p : Text) (m : Bool) (rest : Text)
    → (c == b'\\') ≡ true
    → Understood ch true (matched || d == ch) p m rest
    → Understood ch started matched (c ∷ d ∷ p) m rest
Understood-escape ch c d started matched p m rest k (items, r, e) =
    let slash : b'\\' ≡ c = ground (arith, k) in
    subst (λ b. Understood ch started matched (b ∷ d ∷ p) m rest) slash
      (one d ∷ items, escaped_byte started d p items rest r, ground (arith, e))

Understood-range :
    (ch c d e : ℕ) (started matched : Bool) (p : Text) (m : Bool) (rest : Text)
    → closes started c ≡ false
    → (c == b'\\') ≡ false
    → (d == b'-') ≡ true
    → Understood ch true (matched || leb c ch && leb ch e) p m rest
    → Understood ch started matched (c ∷ d ∷ e ∷ p) m rest
Understood-range ch c d e started matched p m rest k n g (items, r, q) =
    let dash : b'-' ≡ d = ground (arith, g) in
    subst (λ b. Understood ch started matched (c ∷ b ∷ e ∷ p) m rest) dash
      (range c e ∷ items, byte_range started c e p items rest k n r, ground (arith, q))

Understood-single :
    (ch c : ℕ) (started matched : Bool) (p : Text) (m : Bool) (rest : Text)
    → closes started c ≡ false
    → (c == b'\\') ≡ false
    → is_range p ≡ false
    → Understood ch true (matched || c == ch) p m rest
    → Understood ch started matched (c ∷ p) m rest
Understood-single ch c started matched p m rest k n g (items, r, q) =
    (one c ∷ items, single started c p items rest k n g r, ground (arith, q))

bracket_loop-Understood :
    (ch : ℕ) (started matched : Bool) (p : Text) (m : Bool) (rest : Text)
    → bracket_loop ch started matched p ≡ some (m, rest)
    → Understood ch started matched p m rest
unfolding bracket_loop
bracket_loop-Understood ch started matched [] m rest h = absurd (ground (arith, h))
bracket_loop-Understood ch started matched (c ∷ []) m rest h =
    elim (Bool-cases (closes started c)) [
      | inl k ↦ Understood-end ch c started matched [] m rest k (rw (bracket_loop, k) at h)
      | inr k ↦ absurd (ground (arith, h, k))
    ]
bracket_loop-Understood ch started matched (c ∷ d ∷ []) m rest h =
    let escape = bracket_loop-Understood ch true (matched || d == ch) [] m rest in
    let next = bracket_loop-Understood ch true (matched || c == ch) (d ∷ []) m rest in
    elim (Bool-cases (closes started c)) [
      | inl k ↦ Understood-end ch c started matched (d ∷ []) m rest k (rw (bracket_loop, k) at h)
      | inr k ↦ elim (Bool-cases (c == b'\\')) [
        | inl n ↦
            Understood-escape ch c d started matched [] m rest n
              (escape (rw (bracket_loop, k, n) at h))
        | inr n ↦
            Understood-single ch c started matched (d ∷ []) m rest k n refl
              (next (rw (bracket_loop, k, n) at h))
      ]
    ]
bracket_loop-Understood ch started matched (c ∷ d ∷ e ∷ p) m rest h =
    let escape = bracket_loop-Understood ch true (matched || d == ch) (e ∷ p) m rest in
    let ranged = bracket_loop-Understood ch true (matched || leb c ch && leb ch e) p m rest in
    let next = bracket_loop-Understood ch true (matched || c == ch) (d ∷ e ∷ p) m rest in
    elim (Bool-cases (closes started c)) [
      | inl k ↦ Understood-end ch c started matched (d ∷ e ∷ p) m rest k (rw (bracket_loop, k) at h)
      | inr k ↦ elim (Bool-cases (c == b'\\')) [
        | inl n ↦
            Understood-escape ch c d started matched (e ∷ p) m rest n
              (escape (rw (bracket_loop, k, n) at h))
        | inr n ↦ elim (Bool-cases (d == b'-')) [
          | inl g ↦
              Understood-range ch c d e started matched p m rest k n g
                (ranged (rw (bracket_loop, k, n, g) at h))
          | inr g ↦
              Understood-single ch c started matched (d ∷ e ∷ p) m rest k n g
                (next (rw (bracket_loop, k, n, g) at h))
        ]
      ]
    ]

close_bracket-some :
    (negate : Bool) (o : Option (Bool × Text)) (rest : Text)
    → close_bracket negate o ≡ some rest
    → (m : Bool) × (o ≡ some (m, rest)) × (m ≡ not negate)
unfolding close_bracket
close_bracket-some negate none rest h = absurd (ground (arith, h))
close_bracket-some negate (some (m, left)) rest h = (m, ground (arith, h), ground (arith, h))

no_bracket : (d : ℕ) → match_bracket [] d ≡ none
unfolding match_bracket bracket_loop close_bracket
no_bracket d = refl

nothing-Reads : (d : ℕ) (items : List Item) (rest : Text) → Reads false [] items rest → ⊥
unfolding bracket_loop
nothing-Reads d items rest r = ground (arith, bracket_loop-Reads d false false [] items rest r)

same_head : (c d : ℕ) (p q : Text) → c ∷ p ≡ d ∷ q → c ≡ d
same_head c d p q e = ground (arith, e)

-- A byte that `matchBracket` takes is one that the bracket means, and the rest is what is behind it.
pub match_bracket-InBracket :
    (p : Text) (d : ℕ) (rest : Text) → match_bracket p d ≡ some rest → InBracket d p rest
unfolding match_bracket
match_bracket-InBracket [] d rest h = absurd (ground (arith, h, no_bracket d))
match_bracket-InBracket (c ∷ p) d rest h = elim (Bool-cases (c == b'^' || c == b'!')) [
  | inl n ↦
      let (m, e, q) =
        close_bracket-some true (bracket_loop d false false p) rest (rw (match_bracket, n) at h) in
      let (items, r, a) = bracket_loop-Understood d false false p m rest e in
      out_of_set d c p items rest n r (sym a ∙ q)
  | inr n ↦
      let (m, e, q) =
        close_bracket-some false (bracket_loop d false false (c ∷ p)) rest
          (rw (match_bracket, n) at h) in
      let (items, r, a) = bracket_loop-Understood d false false (c ∷ p) m rest e in
      in_set d (c ∷ p) items rest r (sym a ∙ q)
        (λ b t same. subst (λ x. (x == b'^' || x == b'!') ≡ false) (same_head c b p t same) n)
]

-- It takes each byte that the bracket means.
pub InBracket-match_bracket :
    (p : Text) (d : ℕ) (rest : Text) → InBracket d p rest → match_bracket p d ≡ some rest
unfolding match_bracket close_bracket
InBracket-match_bracket _ _ _ (in_set d [] items rest r i n) = absurd (nothing-Reads d items rest r)
InBracket-match_bracket _ _ _ (in_set d (c ∷ p) items rest r i n) =
    rw (n c p refl, bracket_loop-Reads d false false (c ∷ p) items rest r, i) refl
InBracket-match_bracket _ _ _ (out_of_set d c p items rest n r i) =
    rw (n, bracket_loop-Reads d false false p items rest r, i) refl
