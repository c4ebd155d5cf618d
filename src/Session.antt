-- ===== src/Session.antt =====
-- internal/server/server.go, `handleConn`, `execTransaction` and `isWriteCommand`: a connection's commands
-- in the default namespace, from the gate of AUTH to MULTI, EXEC and WATCH. What the server's other parts do
-- is a record of operations on a state of theirs: the commands of `exec` are a parameter, as are
-- replication, audit and log. A write to the client does not fail.
pub mod Words
pub mod Answers
pub mod Turns
pub mod Transactions
pub mod Gate
pub mod Watched
mod Tests
use vole.Prelude.{
  ℕ, Bool, true, false, not, ◌&&◌, ◌||◌, List, [], ◌∷◌, ◌++◌, Option, some, none, length, ltb, ◌==◌,
  if◌then◌else◌,
}
use vole.Prelude.Text.{Text, text_eq}
use vole.Prelude.Map.{Map, put}
use vole.Keys.{Keys, key_versions, keys_modified_since}
use vole.Namespace.{one_of, to_upper}
use vole.Resp.{write_simple, write_error, write_array_len, write_null_array}
use vole.Session.Words.{
  multi_word, exec_word, discard_word, watch_word, unwatch_word, auth_word, ping_word, hello_word,
  write_words, apart_words,
}
use vole.Session.Answers.{
  ok_text, queued_text, nested_text, exec_text, discard_text, watch_text, watch_count_text,
  read_only_text, no_auth_text, no_password_text, auth_count_text, wrong_password_text, err_text,
  oom_text,
}

-- `connTx`; `watched` is nil, or a map
pub record ConnTx : Type 0 where
  pub active : Bool
  pub queue : List (List Text)
  pub watched : Option (Map ℕ)

abbrev pub no_tx : ConnTx
no_tx = record { active = false; queue = []; watched = none }

-- What the connection uses of the rest of the server, with its state `S`: `exec` with what it writes
-- and its error; the versions of the keys; `IsReplica() && !IsEnabled()`; `EvictIfNeeded`; what is done
-- for a write command that went well (the replicas, the peers and the audit log); and what is recorded of
-- each command (slow log, clients and metrics).
pub record Services (S : Type 0) : Type 0 where
  pub execute : List Text → S → S × (Text × Option Text)
  pub keys : S → Keys
  pub read_only : S → Bool
  pub evict : S → S × Option Text
  pub propagate : Text → List Text → S → S
  pub note_command : Text → List Text → S → S

-- `isWriteCommand`
unfoldable pub is_write_command : Text → Bool
is_write_command cmd = one_of cmd write_words

-- `_ = wr.Error("ERR " + err.Error())` where there is an error
unfoldable pub error_reply : Option Text → Text
error_reply none = []
error_reply (some e) = write_error (err_text ++ e)

-- `for k, v := range versions { tx.watched[k] = v }`
unfoldable pub merge_versions : Map ℕ → Map ℕ → Map ℕ
merge_versions [] m = m
merge_versions ((k, v) ∷ vs) m = merge_versions vs (put k v m)

unfoldable pub watched_or_empty : Option (Map ℕ) → Map ℕ
watched_or_empty none = []
watched_or_empty (some m) = m

module _ {S : Type 0} (sv : Services S) where
  -- one command of a transaction, with the bytes of its response
  unfoldable pub run_one : List Text → S → S × Text
  run_one args s = let (t, (out, e)) = sv.execute args s in (t, out ++ error_reply e)

  -- The loop of `execTransaction`, with the responses in a row. Each command takes the lock of the store for
  -- itself: `between` is what other connections do to the state before each, in order, and nothing where it
  -- ends.
  unfoldable pub run_queued : List (List Text) → List (S → S) → S → S × Text
  run_queued [] between s = (s, [])
  run_queued (args ∷ commands) [] s =
      let (t, out) = run_one args s in let (u, rest) = run_queued commands [] t in (u, out ++ rest)
  run_queued (args ∷ commands) (f ∷ between) s =
      let (t, out) = run_one args (f s) in
      let (u, rest) = run_queued commands between t in (u, out ++ rest)

  -- `execTransaction`
  unfoldable pub exec_transaction : List (List Text) → List (S → S) → S → S × Text
  exec_transaction [] between s = (s, write_array_len 0)
  exec_transaction (args ∷ commands) between s =
      let (t, out) = run_queued (args ∷ commands) between s in
      (t, write_array_len (length (args ∷ commands)) ++ out)

  -- a command that is executed at once, behind its checks
  unfoldable pub run_unchecked : Text → List Text → S → S × Text
  run_unchecked cmd args s =
      let (t, (out, e)) = sv.execute args s in
      elim e [
        | some m ↦ (sv.note_command cmd args t, out ++ error_reply (some m))
        | none ↦ (
          sv.note_command cmd args (if is_write_command cmd then sv.propagate cmd args t else t),
          out,
        )
      ]

  unfoldable pub evict_and_run : Text → List Text → S → S × Text
  evict_and_run cmd args s =
      let (t, full) = sv.evict s in
      elim full [ some e ↦ (t, write_error (oom_text ++ e)) | none ↦ run_unchecked cmd args t ]

  -- the default case where no transaction is open
  unfoldable pub run_now : Text → List Text → S → S × Text
  run_now cmd args s =
      if is_write_command cmd
      then (if sv.read_only s then (s, write_error read_only_text) else evict_and_run cmd args s)
      else run_unchecked cmd args s

  -- the cases of MULTI, EXEC, DISCARD, WATCH and UNWATCH, and the default
  unfoldable pub on_multi : ConnTx → S → (ConnTx × S) × Text
  on_multi tx s =
      if tx.active
      then ((tx, s), write_error nested_text)
      else ((record tx { active = true; queue = [] }, s), write_simple ok_text)

  unfoldable pub must_refuse : ConnTx → S → Bool
  must_refuse tx s = elim tx.watched [
    | none ↦ false
    | some versions ↦ keys_modified_since versions (sv.keys s)
  ]

  -- the test of the watched keys, which takes the lock of the store for itself, and then the commands
  unfoldable pub on_exec : List (S → S) → ConnTx → S → (ConnTx × S) × Text
  on_exec between tx s =
      let (t, out) = exec_transaction tx.queue between s in
      if not tx.active
      then ((tx, s), write_error exec_text)
      else (if must_refuse tx s then ((no_tx, s), write_null_array) else ((no_tx, t), out))

  unfoldable pub on_discard : ConnTx → S → (ConnTx × S) × Text
  on_discard tx s =
      if not tx.active
      then ((tx, s), write_error discard_text)
      else ((no_tx, s), write_simple ok_text)

  unfoldable pub on_watch : List Text → ConnTx → S → (ConnTx × S) × Text
  on_watch keys tx s =
      if tx.active
      then ((tx, s), write_error watch_text)
      else (if ltb (length keys) 1 then ((tx, s), write_error watch_count_text) else (
        (
          record tx {
            watched =
                some (merge_versions (key_versions keys (sv.keys s)) (watched_or_empty tx.watched));
          },
          s,
        ),
        write_simple ok_text,
      ))

  unfoldable pub on_unwatch : ConnTx → S → (ConnTx × S) × Text
  on_unwatch tx s = ((record tx { watched = none }, s), write_simple ok_text)

  unfoldable pub on_command : Text → List Text → ConnTx → S → (ConnTx × S) × Text
  on_command cmd args tx s =
      let (t, out) = run_now cmd args s in
      if tx.active
      then ((record tx { queue = tx.queue ++ args ∷ [] }, s), write_simple queued_text)
      else ((tx, t), out)

  -- the last `switch` of `handleConn`, for a command in capitals, and its arguments: the first, and those
  -- behind it. `between` is what others do between the locks of EXEC.
  unfoldable pub switch_command :
      Text → Text → List Text → List (S → S) → ConnTx → S → (ConnTx × S) × Text
  switch_command cmd word rest between tx s =
      if text_eq cmd multi_word
      then on_multi tx s
      else (if text_eq cmd exec_word
          then on_exec between tx s
          else (if text_eq cmd discard_word
              then on_discard tx s
              else (if text_eq cmd watch_word
                  then on_watch rest tx s
                  else (if text_eq cmd unwatch_word
                      then on_unwatch tx s
                      else on_command cmd (word ∷ rest) tx s))))

-- the cases of AUTH, for the words behind it
unfoldable pub check_password : Text → Text → Bool → Bool × Text
check_password password pw authenticated =
    if text_eq pw password
    then (true, write_simple ok_text)
    else (authenticated, write_error wrong_password_text)

unfoldable pub on_auth : Text → List Text → Bool → Bool × Text
on_auth password rest authenticated =
    if text_eq password [] then (authenticated, write_error no_password_text) else elim rest [
      | [] ↦ (authenticated, write_error auth_count_text)
      | pw ∷ more ↦ elim more [
        | [] ↦ check_password password pw authenticated
        | second ∷ others ↦
            if length others == 0
            then check_password password second authenticated
            else (authenticated, write_error auth_count_text)
      ]
    ]

-- the gate: what a client that has not authenticated may send
unfoldable pub is_locked : Text → Bool → Bool
is_locked cmd authenticated =
    not authenticated && not (one_of cmd (auth_word ∷ ping_word ∷ hello_word ∷ []))

-- the answer to a command, then what follows
abbrev pub and_next : {X : Type 0} → Option (X × Text) → (X → Option (X × Text)) → Option (X × Text)
and_next none f = none
and_next (some (x, out)) f = elim (f x) [ none ↦ none | some (y, more) ↦ some (y, out ++ more) ]

module _ {S : Type 0} (sv : Services S) (password : Text) (between : List (S → S)) where
  -- the body of the loop of `handleConn`, for the words of a command; none for the commands between AUTH and the
  -- `switch`, which other parts of the loop serve
  unfoldable pub handle_command :
      List Text → Bool × (ConnTx × S) → Option ((Bool × (ConnTx × S)) × Text)
  handle_command [] (authenticated, at) = some ((authenticated, at), [])
  handle_command (word ∷ rest) (authenticated, (tx, s)) =
      let cmd = to_upper word in
      let (passed, answer) = on_auth password rest authenticated in
      let (after, out) = switch_command sv cmd word rest between tx s in
      if is_locked cmd authenticated
      then some ((authenticated, (tx, s)), write_error no_auth_text)
      else (if text_eq cmd auth_word
          then some ((passed, (tx, s)), answer)
          else (if one_of cmd apart_words then none else some ((authenticated, after), out)))

  unfoldable pub handle_all :
      List (List Text) → Bool × (ConnTx × S) → Option ((Bool × (ConnTx × S)) × Text)
  handle_all [] at = some (at, [])
  handle_all (args ∷ commands) at = and_next (handle_command args at) (handle_all commands)
