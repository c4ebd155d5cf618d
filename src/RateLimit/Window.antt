-- ===== src/RateLimit/Window.antt =====
-- No window holds more requests than `max`.
use vole.Prelude.{ℕ, ◌≤◌, ◌≡◌, List, [], ◌∷◌, ◌++◌, Option, some, none, length, if◌then◌else◌}
use vole.Prelude.Int.{ℤ, ◌≤ℤ◌}
use vole.RateLimit.{valid_requests, decide}

-- The requests that are let through, one after another, at the given times: all of them, and those
-- that are stored.
pub record Passed : Type 0 where
  pub granted : List ℤ
  pub stored : List ℤ

-- one call at a time; `none` is a panic
unfoldable pub pass : ℤ → ℤ → ℤ → Passed → Option Passed
pass max window now p = elim (decide max window now p.stored) [
  | none ↦ none
  | some (requests, d) ↦ some (record {
    granted = (if d.allowed then p.granted ++ now ∷ [] else p.granted);
    stored = requests;
  })
]

-- what is stored is what was granted inside the window, and is not more than `max`
pub record InWindow (max : ℕ) (window now : ℤ) (p : Passed) : Type 0 where
  pub stored_eq : p.stored ≡ valid_requests now window p.granted
  pub within : length p.stored ≤ max

-- the calls one after another
unfoldable pub pass_all : ℤ → ℤ → List ℤ → Passed → Option Passed
pass_all max window [] p = some p
pass_all max window (now ∷ times) p = elim (pass max window now p) [
  | none ↦ none
  | some q ↦ pass_all max window times q
]

-- the times do not fall
abbrev pub Rising : ℤ → List ℤ → Type 0
Rising before [] = Unit {0}
Rising before (now ∷ times) = (before ≤ℤ now) × Rising now times

abbrev pub final : ℤ → List ℤ → ℤ
final before [] = before
final before (now ∷ times) = final now times
