-- ===== src/Keys/Tests.antt =====
-- Watched keys at concrete changes.
use vole.Prelude.{◌≡◌, true, [], ◌∷◌, List, arith}
use vole.Prelude.Text.{Text}
use vole.Prelude.Int.{pos}
use vole.Prelude.Map.{lookup}
use vole.Keys.{Keys, key_versions, keys_modified_since, version_of, or_zero}
use vole.Keys.Watch.{
  Change, touched, forgotten, flushed, silent, run, IsBounded, shows_any, keys_modified_since-run,
}

abbrev fresh : Keys
fresh = record {
  version = 7;
  key_version = [];
  on_change = true;
  events = [];
  max_memory = pos 0;
  access_time = [];
}

abbrev changes : List Change
changes =
    touched ((b'a' ∷ []) ∷ (b'b' ∷ []) ∷ []) 5
    ∷ flushed
    ∷ forgotten (b'c' ∷ []) 6
    ∷ silent (b'x' ∷ [])
    ∷ []

abbrev watched_keys : List Text
watched_keys = (b'x' ∷ []) ∷ (b'c' ∷ []) ∷ []

fresh-IsBounded : IsBounded fresh
unfolding version_of or_zero lookup
fresh-IsBounded j = omega arith

keys_modified_since-run_example :
    keys_modified_since (key_versions watched_keys fresh) (run changes fresh)
    ≡ shows_any watched_keys fresh changes
keys_modified_since-run_example =
    keys_modified_since-run changes fresh (omega arith) fresh-IsBounded watched_keys
