-- ===== src/RateLimit/Tests.antt =====
-- Rate limits at concrete times.
use vole.Prelude.{List, [], ◌∷◌}
use vole.Prelude.Int.{ℤ, pos}
use vole.RateLimit.Window.{Passed}

abbrev unused : Passed
unused = record { granted = []; stored = [] }

abbrev times : List ℤ
times = pos 1 ∷ pos 2 ∷ pos 3 ∷ pos 12 ∷ []
