-- ===== src/Ranges/Tests.antt =====
-- `normalizeRange` at a few inputs.
use vole.Prelude.{◌≡◌, refl, some, none}
use vole.Prelude.Int.{pos, negsuc}
use vole.Ranges.{normalize_range}

whole : normalize_range (pos 0) (negsuc 0) 5 ≡ some (0, 4)
unfolding normalize_range
whole = refl

beyond : normalize_range (pos 5) (pos 9) 5 ≡ none
unfolding normalize_range
beyond = refl
