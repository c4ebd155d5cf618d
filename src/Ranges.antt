-- ===== src/Ranges.antt =====
-- `normalizeRange` of internal/store/store.go: inclusive ranges whose ends may count from the end.
pub mod Bounds
mod Tests
use vole.Prelude.{ℕ, true, ◌||◌, Option, none, some, if◌then◌else◌}
use vole.Prelude.Int.{ℤ, pos, pos_part, ltb_ℤ, ◌+ℤ◌, ◌-ℤ◌}

-- `if i < 0 { i = length + i }`
pub from_end : ℕ → ℤ → ℤ
from_end n i = if ltb_ℤ i (pos 0) then pos n +ℤ i else i

-- `start`, counted from the end if it is negative, and at least 0
low : ℕ → ℤ → ℤ
low n start = let from = from_end n start in if ltb_ℤ from (pos 0) then pos 0 else from

-- `stop`, counted from the end if it is negative, and below the length
high : ℕ → ℤ → ℤ
high n stop = let to = from_end n stop in if ltb_ℤ to (pos n) then to else pos n -ℤ pos 1

-- the test at the end, on the two normalised ends
checked : ℕ → ℤ → ℤ → Option (ℕ × ℕ)
checked n from to =
    if ltb_ℤ to from || (if ltb_ℤ from (pos n) then ltb_ℤ to (pos 0) else true)
    then none
    else some (pos_part from, pos_part to)

-- `normalizeRange`; `none` is the result with `false`. Both ends that it returns are at least 0.
unfoldable pub normalize_range : ℤ → ℤ → ℕ → Option (ℕ × ℕ)
unfolding from_end low high checked ◌+ℤ◌ ◌-ℤ◌
normalize_range start stop n = checked n (low n start) (high n stop)
