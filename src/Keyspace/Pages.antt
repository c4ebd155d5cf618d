-- ===== src/Keyspace/Pages.antt =====
-- internal/store/store.go, `Scan`: what a client collects that goes on from each cursor.
use vole.Prelude.{
  true, ◌&&◌, take-append-drop, ltb→lt, drop_all, ℕ, zero, suc, ◌+◌, ◌-◌, ◌^◌, ◌≤◌, ◌<◌, ◌≡◌, refl,
  inl, inr, sym, ap, ◌∙◌, List, [], ◌∷◌, ◌++◌, Option, some, none, length, take, drop, arith, ltb,
  if◌then◌else◌, Bool-cases,
}
use vole.Prelude.Text.{Text}
use vole.Prelude.Int.{ℤ, pos, negsuc, ltb_ℤ, ◌+ℤ◌}
use vole.TimeSeries.{wrap64}
use vole.Keyspace.{Store, is_visible}
use vole.Keyspace.Waiters.{tally}
use vole.Keyspace.Listed.{in_order, times_held, asked, scan_keys_lem}
use vole.Keyspace.Listing.{scan_keys, scan, scan_page}

-- a page, and what the client does with it; `none` is a panic, or an end of the fuel
unfoldable pub append_page : List Text → Option (List Text) → Option (List Text)
append_page page none = none
append_page page (some more) = some (page ++ more)

unfoldable pub with_page : Option (ℤ × List Text) → (ℤ → Option (List Text)) → Option (List Text)
with_page none ask = none
with_page (some (cursor, page)) ask =
    if ltb_ℤ (pos 0) cursor then append_page page (ask cursor) else some page

-- What the client collects, with fuel: it asks again until the cursor is 0.
unfoldable pub collect : ℕ → ℤ → (ℤ → Option (ℤ × List Text)) → Option (List Text)
collect zero cursor ask = none
collect (suc fuel) cursor ask = with_page (ask cursor) (λ next. collect fuel next ask)

-- the size of a page
abbrev pub page_size : ℤ → ℤ
page_size count = if ltb_ℤ (pos 0) count then count else pos 10

suc_plus : (c n : ℕ) → suc (c + n) ≡ suc c + n
suc_plus c n = omega arith

drop-drop : (c n : ℕ) (xs : List Text) → drop n (drop c xs) ≡ drop (c + n) xs
drop-drop zero n xs = ap (λ k. drop k xs) (omega arith)
drop-drop (suc c) n [] =
    rw (drop_all {A = Text} n [] (omega arith))
      (sym (drop_all {A = Text} (suc c + n) [] (omega arith)))
drop-drop (suc c) n (x ∷ xs) = drop-drop c n xs ∙ ap (λ k. drop k (x ∷ xs)) (suc_plus c n)

pub wrap64_small : (n : ℕ) → n < 2 ^ 63 → wrap64 (pos n) ≡ pos n
unfolding wrap64
wrap64_small n h = ground arith

wrap64_large : (n : ℕ) → 2 ^ 63 ≤ n → n < 2 ^ 64 → wrap64 (pos n) ≡ negsuc (2 ^ 64 - 1 - n)
unfolding wrap64
wrap64_large n h k = ground arith

pub plus_pos : (a b : ℕ) → pos a +ℤ pos b ≡ pos (a + b)
unfolding ◌+ℤ◌
plus_pos a b = ground arith

module _ (ks : List Text) (count : ℤ) (c n : ℕ) (e : page_size count ≡ pos n) where
  -- A page in the middle, the last page, and the panic.
  scan_page-middle :
      c + n < length ks
      → length ks < 2 ^ 63
      → scan_page (pos c) count ks ≡ some (pos (c + n), take n (drop c ks))
  unfolding scan_page
  scan_page-middle h k = rw (e, plus_pos c n, wrap64_small (c + n) (omega arith)) (ground arith)

  scan_page-last :
      c < length ks
      → length ks ≤ c + n
      → c + n < 2 ^ 63
      → scan_page (pos c) count ks ≡ some (pos 0, drop c ks)
  unfolding scan_page
  scan_page-last h k m = rw (e, plus_pos c n, wrap64_small (c + n) m) (ground arith)

  scan_page-none :
      c < length ks → 2 ^ 63 ≤ c + n → c + n < 2 ^ 64 → scan_page (pos c) count ks ≡ none
  unfolding scan_page
  scan_page-none h k m = rw (e, plus_pos c n, wrap64_large (c + n) k m) (ground arith)

with_page-some :
    (m : ℕ) (page : List Text) (ask : ℤ → Option (List Text))
    → 0 < m
    → with_page (some (pos m, page)) ask ≡ append_page page (ask (pos m))
unfolding with_page
with_page-some m page ask h = ground arith

-- From a cursor on, a client gets all keys that are left, each page once, and the cursor comes back
-- to 0; every page takes at least one key from those that are left.
collect_lem :
    (fuel : ℕ) (ks : List Text) (count : ℤ) (c n : ℕ)
    → page_size count ≡ pos n
    → 0 < n
    → c < length ks
    → length ks + n < 2 ^ 63
    → length ks < c + fuel
    → collect fuel (pos c) (λ i. scan_page i count ks) ≡ some (drop c ks)
unfolding collect with_page append_page
collect_lem zero ks count c n e h k m f = absurd (omega arith)
collect_lem (suc fuel) ks count c n e h k m f = elim (Bool-cases (ltb (c + n) (length ks))) [
  | inl l ↦ rw (scan_page-middle ks count c n e (ltb→lt (c + n) (length ks) l) (omega arith)) (
      with_page-some (c + n) (take n (drop c ks))
        (λ next. collect fuel next (λ i. scan_page i count ks)) (omega arith)
      ∙ ap (append_page (take n (drop c ks)))
          (collect_lem fuel ks count (c + n) n e h (ltb→lt (c + n) (length ks) l) m (omega arith))
      ∙ ap some (
          ap (λ r. take n (drop c ks) ++ r) (sym (drop-drop c n ks))
          ∙ take-append-drop n (drop c ks)))
  | inr l ↦ rw (scan_page-last ks count c n e k (ground arith) (omega arith)) refl
]

collect_all :
    (ks : List Text) (count : ℤ) (n : ℕ)
    → page_size count ≡ pos n
    → 0 < n
    → length ks + n < 2 ^ 63
    → collect (suc (length ks)) (pos 0) (λ i. scan_page i count ks) ≡ some ks
unfolding collect with_page scan_page
collect_all [] count n e h m = ground arith
collect_all (k ∷ ks) count n e h m =
    collect_lem (suc (length (k ∷ ks))) (k ∷ ks) count 0 n e h (omega arith) m (omega arith)

module _ {F J : Type 0} (s : Store F J) (pattern : Text) (now count : ℤ) (n : ℕ)
    (e : page_size count ≡ pos n) where
  -- A client that calls `Scan` from cursor 0 on and goes on from each cursor it gets, until it gets 0
  -- again, as long as the store does not change, gets a list in the order of the bytes in which each key stands
  -- that is visible and asked for by the pattern, once for each map of values that holds it, and no other
  -- key: one call more than there are keys is enough. The count and the number of keys together are below
  -- 2^63, and a count that is not positive stands for 10.
  pub collect-scan :
      0 < n
      → length (scan_keys pattern now s) + n < 2 ^ 63
      → (collect (suc (length (scan_keys pattern now s))) (pos 0) (λ i. scan i count pattern now s)
          ≡ some (scan_keys pattern now s))
        × (in_order (scan_keys pattern now s) ≡ true)
        × ((j : Text)
            → tally j (scan_keys pattern now s)
              ≡ (if asked pattern j && is_visible j now s then times_held now s j else 0))
  unfolding scan
  collect-scan h m =
      let (sorted, counted) = scan_keys_lem now s pattern in
      (collect_all (scan_keys pattern now s) count n e h m, sorted, counted)

  -- `Scan` panics where the cursor stands before the last key and the sum of cursor and count passes
  -- the largest `int64`.
  pub scan-none :
      (c : ℕ)
      → c < length (scan_keys pattern now s)
      → 2 ^ 63 ≤ c + n
      → c + n < 2 ^ 64
      → scan (pos c) count pattern now s ≡ none
  unfolding scan
  scan-none c h k m = scan_page-none (scan_keys pattern now s) count c n e h k m
