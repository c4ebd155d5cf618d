-- ===== src/Keyspace/Removals.antt =====
-- internal/store/store.go, `LRem`: how often an element goes, and what is kept.
use vole.Prelude.Text.{Text, text_eq}
use vole.Keyspace.Lists.{abs_count}
use vole.Keyspace.Blocking.{store_list}
use vole.Prelude.{List, if◌then◌else◌, ℕ, zero, suc, ◌+◌, ◌≡◌, min}
use vole.Prelude.Int.{ℤ, pos, negsuc}
use vole.Deque
use vole.Deque.{Deque}
use vole.Keyspace.Waiters.{tally}

-- what a removal is: how often the element goes, and the count of each text in what is kept
abbrev Removed : ℕ → Text → List Text → ℕ × List Text → Type 0
Removed n x items r =
    (r.0 ≡ n) × ((y : Text) → tally y items ≡ tally y r.1 + (if text_eq x y then n else 0))

-- how many of t elements a count lets go
unfoldable pub allowed : ℤ → ℕ → ℕ
allowed (pos zero) t = t
allowed (pos (suc n)) t = min (suc n) t
allowed (negsuc n) t = min (abs_count n) t
