-- ===== src/Aof/Fields.antt =====
-- internal/server/aof.go: the fields of a line, and the digits of its checksum.
use vole.Prelude.{
  ℕ, zero, suc, ◌+◌, ◌*◌, ◌/◌, ◌%◌, ◌^◌, ◌<◌, ◌≡◌, refl, ap, ◌∙◌, inl, inr, Bool, true, false, not,
  ◌&&◌, ◌||◌, List, [], ◌∷◌, ◌++◌, some, none, length, length-append, arith, ltb, ◌==◌, ==_iff,
  Option-cases,
}
use vole.Prelude.Text.{Text}
use native.Mathlib.Nat.{pow-succ'}
use vole.Aof.{
  replace_pair, escape, unescape, split_byte, split_text, join_escaped, hex_digit, hex, hex_value,
  read_hex, before_last_tab,
}
use vole.Aof.Pairs.{flat, escape-flat}

-- a byte does not stand in a text
unfoldable pub lacks : ℕ → Text → Bool
lacks b [] = true
lacks b (x ∷ s) = not (x == b) && lacks b s

pub lacks-append :
    (b : ℕ) (s t : Text) → lacks b s ≡ true → lacks b t ≡ true → lacks b (s ++ t) ≡ true
unfolding lacks
lacks-append b [] t h k = k
lacks-append b (x ∷ s) t h k = ground (arith, lacks-append b s t)

lacks-flat : (b : ℕ) (s : Text) → (b == 9 || b == 10) ≡ true → lacks b (flat s) ≡ true
unfolding lacks flat
lacks-flat b [] h = refl
lacks-flat b (x ∷ s) h = ground (arith, lacks-flat b s, h)

split_byte-append :
    (c : ℕ) (s t : Text) → lacks c s ≡ true → split_byte c (s ++ c ∷ t) ≡ (s, split_text c t)
unfolding split_text split_byte lacks
split_byte-append c [] t h = rw ((==_iff c c).1 refl) refl
split_byte-append c (x ∷ s) t h =
    let other : (x == c) ≡ false = ground (arith, h) in
    rw (other, split_byte-append c s t (ground (arith, h))) refl

pub split_text-append :
    (c : ℕ) (s t : Text) → lacks c s ≡ true → split_text c (s ++ c ∷ t) ≡ s ∷ split_text c t
unfolding split_text
split_text-append c s t h = rw (split_byte-append c s t h) refl

split_byte-lacks : (c : ℕ) (s : Text) → lacks c s ≡ true → split_byte c s ≡ (s, [])
unfolding split_byte lacks
split_byte-lacks c [] h = refl
split_byte-lacks c (x ∷ s) h =
    let other : (x == c) ≡ false = ground (arith, h) in
    rw (other, split_byte-lacks c s (ground (arith, h))) refl

pub split_text-lacks : (c : ℕ) (s : Text) → lacks c s ≡ true → split_text c s ≡ s ∷ []
unfolding split_text
split_text-lacks c s h = rw (split_byte-lacks c s h) refl

before_last_tab-lacks : (s : Text) → lacks 9 s ≡ true → before_last_tab s ≡ none
unfolding before_last_tab lacks
before_last_tab-lacks [] h = refl
before_last_tab-lacks (x ∷ s) h = ground (arith, before_last_tab-lacks s)

pub before_last_tab-append : (s t : Text) → lacks 9 t ≡ true → before_last_tab (s ++ 9 ∷ t) ≡ some s
unfolding before_last_tab
before_last_tab-append [] t h = rw (before_last_tab-lacks t h) refl
before_last_tab-append (x ∷ s) t h = rw (before_last_tab-append s t h) refl

-- a text without backslashes is read as it stands
replace_pair-lacks : (a b c : ℕ) (s : Text) → lacks a s ≡ true → replace_pair a b c s ≡ s
unfolding replace_pair lacks
replace_pair-lacks a b c [] h = refl
replace_pair-lacks a b c (x ∷ []) h = refl
replace_pair-lacks a b c (x ∷ y ∷ s) h = ground (arith, replace_pair-lacks a b c (y ∷ s))

pub unescape-lacks : (s : Text) → lacks 92 s ≡ true → unescape s ≡ s
unfolding unescape
unescape-lacks s h =
    rw (replace_pair-lacks 92 110 10 s h)
      (rw (replace_pair-lacks 92 116 9 s h) (replace_pair-lacks 92 92 92 s h))

-- the digits of a number
pub length-hex : (w n : ℕ) → length (hex w n) ≡ w
unfolding hex
length-hex zero n = refl
length-hex (suc w) n =
    omega (arith, length-append (hex w (n / 16)) (hex_digit (n % 16) ∷ []), length-hex w (n / 16))

lacks-hex_digit : (b d : ℕ) → (ltb b 48 || b == 92) ≡ true → lacks b (hex_digit d ∷ []) ≡ true
unfolding hex_digit lacks
lacks-hex_digit b d h = ground (arith, h)

pub lacks-hex : (b w n : ℕ) → (ltb b 48 || b == 92) ≡ true → lacks b (hex w n) ≡ true
unfolding hex lacks
lacks-hex b zero n h = refl
lacks-hex b (suc w) n h =
    lacks-append b (hex w (n / 16)) (hex_digit (n % 16) ∷ []) (lacks-hex b w (n / 16) h)
      (lacks-hex_digit b (n % 16) h)

hex_value-hex_digit : (d : ℕ) → d < 16 → hex_value (hex_digit d) ≡ some d
unfolding hex_value hex_digit
hex_value-hex_digit d h = ground arith

read_hex-append :
    (acc : ℕ) (s t : Text) (m : ℕ) → read_hex acc s ≡ some m → read_hex acc (s ++ t) ≡ read_hex m t
unfolding read_hex
read_hex-append acc [] t m h = ap (λ k. read_hex k t) (ground (arith, h))
read_hex-append acc (c ∷ s) t m h = elim (Option-cases (hex_value c)) [
  | inl e ↦ absurd (ground (arith, h, e))
  | inr (d, e) ↦ rw (read_hex, e) (read_hex-append (acc * 16 + d) s t m (ground (arith, h, e)))
]

last_digit : (acc d : ℕ) → d < 16 → read_hex acc (hex_digit d ∷ []) ≡ some (acc * 16 + d)
unfolding read_hex
last_digit acc d h = rw (read_hex, hex_value-hex_digit d h) refl

pub read_hex-hex : (w n : ℕ) → n < 16 ^ w → read_hex 0 (hex w n) ≡ some n
unfolding hex
read_hex-hex zero n h = unfold read_hex in ap some (omega (arith, h))
read_hex-hex (suc w) n h =
    let grows : 16 ^ suc w ≡ 16 * 16 ^ w = pow-succ' 16 w in
    read_hex-append 0 (hex w (n / 16)) (hex_digit (n % 16) ∷ []) (n / 16)
      (read_hex-hex w (n / 16) (omega (arith, grows)))
    ∙ last_digit (n / 16) (n % 16) (omega arith)
    ∙ ap some (omega arith)

pub lacks-escape : (b : ℕ) (s : Text) → (b == 9 || b == 10) ≡ true → lacks b (escape s) ≡ true
lacks-escape b s h = ap (lacks b) (escape-flat s) ∙ lacks-flat b s h

pub lacks-join_escaped : (args : List Text) → lacks 10 (join_escaped args) ≡ true
unfolding join_escaped lacks
lacks-join_escaped [] = refl
lacks-join_escaped (arg ∷ []) = lacks-escape 10 arg refl
lacks-join_escaped (arg ∷ next ∷ args) =
    lacks-append 10 (escape arg) (9 ∷ join_escaped (next ∷ args)) (lacks-escape 10 arg refl)
      (lacks-join_escaped (next ∷ args))
