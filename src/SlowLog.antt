-- ===== src/SlowLog.antt =====
-- internal/server/slowlog.go: the commands that took long, the newest `maxLen` of them.
pub mod Newest
mod Tests
use vole.Prelude.{
  ℕ, ◌+◌, ◌-◌, ◌^◌, ◌%◌, Bool, true, false, List, [], ◌∷◌, ◌++◌, Option, some, none, length, drop,
  get_or, collect, ltb, if◌then◌else◌, ◌||◌, not,
}
use vole.Prelude.Text.{Text}
use vole.Prelude.Int.{ℤ, pos, negsuc, ltb_ℤ, pos_part}

pub record SlowLogEntry : Type 0 where
  pub id : ℕ
  pub timestamp : ℕ
  pub duration : ℤ
  pub command : List Text
  pub client : Text

pub record SlowLog : Type 0 where
  pub entries : List SlowLogEntry
  pub threshold : ℤ
  pub max_len : ℤ
  pub next_id : ℕ

-- `NewSlowLog`
abbrev pub new_slow_log : ℤ → ℤ → SlowLog
new_slow_log threshold max_len = record {
  entries = [];
  threshold = threshold;
  max_len = max_len;
  next_id = 0;
}

-- The slice without its oldest entries if it is longer than `maxLen`; `none` is the panic of `make`
-- on a negative size.
unfoldable pub trim : ℤ → List SlowLogEntry → Option (List SlowLogEntry)
trim (negsuc n) entries = none
trim (pos n) entries =
    some (if ltb n (length entries) then drop (length entries - n) entries else entries)

-- `Record`; `next_id` is an `int64` that counts up from 0
unfoldable pub record_command : ℤ → List Text → Text → ℕ → SlowLog → Option SlowLog
unfolding trim
record_command duration command client now sl =
    if ltb_ℤ duration sl.threshold
    then some sl
    else let id = sl.next_id + 1 in
      elim (trim sl.max_len (
        sl.entries
        ++ record {
          id = id;
          timestamp = now;
          duration = duration;
          command = command;
          client = client;
        }
          ∷ [])) [
            | none ↦ none
            | some entries ↦ some (record sl { entries = entries; next_id = id })
          ]

-- `Get`: the newest first
unfoldable pub get_entries : ℤ → SlowLogEntry → SlowLog → List SlowLogEntry
get_entries count default sl =
    let n = length sl.entries in
    let m = if not (ltb_ℤ (pos 0) count) || ltb_ℤ (pos n) count then n else pos_part count in
    collect m 0 (λ i. get_or sl.entries (n - 1 - i) default)

-- `Len`
abbrev pub len : SlowLog → ℕ
len sl = length sl.entries

-- `Reset`
abbrev pub reset : SlowLog → SlowLog
reset sl = record sl { entries = [] }
