-- ===== src/Session/Tests.antt =====
-- Transactions and the gate at concrete commands.
use vole.Prelude.{◌≡◌, refl, true, false, [], ◌∷◌, ◌++◌, List, some, none, if◌then◌else◌, arith}
use vole.Prelude.Text.{Text, text_eq}
use vole.Prelude.Int.{pos}
use vole.Prelude.Map.{lookup}
use vole.Keys.{Keys, touch, version_of, or_zero}
use vole.Keys.Watch.{touched, shows_any, IsBounded}
use vole.Namespace.{to_upper, one_of}
use vole.Resp.{write_simple, write_error}
use vole.Session.{Services, no_tx, run_queued, is_write_command, handle_all}
use vole.Session.Words.{multi_word, exec_word, watch_word, auth_word}
use vole.Session.Answers.{ok_text, read_only_text}
use vole.Session.Turns.{Turn, sent, others, run_turns}
use vole.Session.Watched.{run_turns-watched, run_turns-read_only}
use vole.Session.Gate.{state_of, greet_all, handle_all-locked}

abbrev no_keys : Keys
no_keys = record {
  version = 3;
  key_version = [];
  on_change = true;
  events = [];
  max_memory = pos 0;
  access_time = [];
}

-- A server that touches the key of each command, and writes it.
abbrev toy : Services Keys
toy = record {
  execute = (λ args k. (touch args 0 k, (write_simple ok_text, none)));
  keys = (λ k. k);
  read_only = (λ k. true);
  evict = (λ k. (k, none));
  propagate = (λ cmd args k. k);
  note_command = (λ cmd args k. k);
}

abbrev key_a : Text
key_a = b'a' ∷ []

abbrev set_lower : Text
set_lower = b's' ∷ b'e' ∷ b't' ∷ []

abbrev touch_a : Keys → Keys
touch_a k = touch (key_a ∷ []) 9 k

abbrev turns : List (Turn Keys)
turns = sent set_lower (key_a ∷ []) [] ∷ others touch_a ∷ []

upper_multi : to_upper multi_word ≡ multi_word
upper_multi = refl

upper_exec : to_upper exec_word ≡ exec_word
upper_exec = refl

no_keys-IsBounded : IsBounded no_keys
unfolding version_of or_zero lookup
no_keys-IsBounded j = omega arith

-- another connection comes in between the test and the command
abbrev gap : List (Keys → Keys)
gap = touch_a ∷ []

run_turns-watched_example :
    (run_turns toy
      (sent watch_word (key_a ∷ []) []
        ∷ others touch_a
        ∷ (sent multi_word [] [] ∷ (sent set_lower [] [] ∷ []) ++ sent exec_word [] gap ∷ []))
      (no_tx, no_keys)).0
    ≡ (if shows_any (key_a ∷ []) no_keys (touched (key_a ∷ []) 9 ∷ [])
        then (no_tx, touch_a no_keys)
        else (no_tx, (run_queued toy ((set_lower ∷ []) ∷ []) gap (touch_a no_keys)).0))
unfolding text_eq one_of
run_turns-watched_example =
    run_turns-watched toy watch_word multi_word exec_word key_a [] touch_a gap
      (sent set_lower [] [] ∷ []) (touched (key_a ∷ []) 9 ∷ []) no_keys refl upper_multi upper_exec
      (refl, tt) refl (omega arith) no_keys-IsBounded

run_turns-read_only_example :
    (run_turns toy (sent set_lower (key_a ∷ []) [] ∷ []) (no_tx, no_keys)
      ≡ ((no_tx, no_keys), write_error read_only_text))
    × ((run_turns toy
          (sent multi_word [] [] ∷ sent set_lower (key_a ∷ []) [] ∷ sent exec_word [] [] ∷ [])
          (no_tx, no_keys)).0
        ≡ (no_tx, touch (set_lower ∷ key_a ∷ []) 0 no_keys))
unfolding text_eq is_write_command one_of
run_turns-read_only_example =
    run_turns-read_only toy multi_word exec_word set_lower (key_a ∷ []) no_keys upper_multi
      upper_exec refl refl refl

abbrev wrong : List (List Text)
wrong = (set_lower ∷ key_a ∷ []) ∷ (auth_word ∷ set_lower ∷ []) ∷ []

handle_all-locked_example :
    (state_of (handle_all toy key_a [] wrong (false, (no_tx, no_keys)))
      ≡ some (false, (no_tx, greet_all toy wrong no_keys)))
    × (state_of (
          handle_all toy key_a []
            (wrong ++ (auth_word ∷ key_a ∷ []) ∷ [])
            (false, (no_tx, no_keys)))
        ≡ some (true, (no_tx, greet_all toy wrong no_keys)))
unfolding text_eq
handle_all-locked_example =
    handle_all-locked toy key_a [] wrong auth_word (key_a ∷ []) no_keys refl (refl, (refl, tt)) refl
      refl
