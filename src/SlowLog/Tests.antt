-- ===== src/SlowLog/Tests.antt =====
-- The slow log at concrete calls.
use vole.Prelude.{◌+◌, ◌≡◌, List, [], ◌∷◌, ◌++◌, some, length}
use vole.Prelude.Int.{pos}
use vole.SlowLog.Newest.{Call, record_all, slow_entries, log_of, record_all-log_of}

abbrev calls : List Call
calls =
    record { took = pos 50; words = []; from = []; at = 1 }
    ∷ record { took = pos 3; words = []; from = []; at = 2 }
    ∷ record { took = pos 80; words = []; from = []; at = 3 }
    ∷ []

record_all-log_of_example :
    record_all calls (log_of (pos 10) 1 0 [])
    ≡ some (
        log_of
          (pos 10)
          1
          (0 + length (slow_entries (pos 10) 0 calls))
          ([] ++ slow_entries (pos 10) 0 calls))
record_all-log_of_example = record_all-log_of calls (pos 10) 1 0 []
