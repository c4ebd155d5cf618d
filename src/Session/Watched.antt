-- ===== src/Session/Watched.antt =====
-- internal/server/server.go: EXEC behind a WATCH, and on a read-only replica.
use vole.Prelude.{
  subst, ℕ, ◌+◌, ◌^◌, ◌<◌, ◌≡◌, refl, ap, ◌∙◌, sym, true, false, ◌||◌, List, [], ◌∷◌, ◌++◌, some,
  length, ltb, if◌then◌else◌, arith, Bool-cases, inl, inr, append-nil,
}
use vole.Prelude.Text.{Text, text_eq}
use vole.Prelude.Map.{Map, put}
use vole.Keys.{Keys, version_of, versions_into, key_versions, keys_modified_since}
use vole.Keys.Watch.{
  Change, run, shows_any, IsBounded, Agrees, put-Agrees, differs-run, modified-put,
  keys_modified_since-run,
}
use vole.Namespace.{to_upper}
use vole.Resp.{write_simple, write_error}
use vole.Session.{
  ConnTx, no_tx, Services, merge_versions, watched_or_empty, run_one, run_queued, is_write_command,
  run_now, must_refuse, on_watch, on_command, switch_command,
}
use vole.Session.Words.{multi_word, exec_word, watch_word}
use vole.Session.Answers.{ok_text, read_only_text}
use vole.Session.Turns.{
  Turn, sent, others, is_default, AllDefault, queue_of, effect_of, run_turns,
  switch_command-default,
}
use vole.Session.Transactions.{run_turns-transaction}

versions_into-Agrees :
    (keys : List Text) (k : Keys) (m : Map ℕ) → Agrees k m → Agrees k (versions_into keys k m)
unfolding versions_into
versions_into-Agrees [] k m a = a
versions_into-Agrees (key ∷ keys) k m a =
    versions_into-Agrees keys k (put key (version_of key k) m) (put-Agrees k key m a)

module _ (cs : List Change) (k : Keys) (h : length cs + k.version < 2 ^ 64) (b : IsBounded k) where
  -- The versions that WATCH adds to the watched ones.
  modified-merge_versions :
      (vs m : Map ℕ)
      → Agrees k vs
      → Agrees k m
      → keys_modified_since (merge_versions vs m) (run cs k)
        ≡ (keys_modified_since vs (run cs k) || keys_modified_since m (run cs k))
  unfolding merge_versions keys_modified_since
  modified-merge_versions [] m av am = refl
  modified-merge_versions ((j, v) ∷ vs) m av am =
      subst
        (λ w.
          keys_modified_since (merge_versions ((j, w) ∷ vs) m) (run cs k)
          ≡ (keys_modified_since ((j, w) ∷ vs) (run cs k) || keys_modified_since m (run cs k)))
        (sym av.0)
        (modified-merge_versions vs (put j (version_of j k) m) av.1 (put-Agrees k j m am)
          ∙ ground (arith, modified-put cs k h b j m am, differs-run cs k j h b))

  modified-watched :
      (keys : List Text)
      → keys_modified_since (merge_versions (key_versions keys k) []) (run cs k)
        ≡ shows_any keys k cs
  modified-watched keys =
      modified-merge_versions (key_versions keys k) []
        (unfold key_versions in versions_into-Agrees keys k [] tt) tt
      ∙ unfold keys_modified_since in ground (arith, keys_modified_since-run cs k h b keys)

module _ {S : Type 0} (sv : Services S) where
  abbrev watching : List Text → S → ConnTx
  watching keys s = record no_tx {
    watched = some (merge_versions (key_versions keys (sv.keys s)) []);
  }

  switch_command_watch :
      (w key : Text) (keys : List Text) (between : List (S → S)) (s : S)
      → switch_command sv watch_word w (key ∷ keys) between no_tx s
        ≡ ((watching (key ∷ keys) s, s), write_simple ok_text)
  unfolding switch_command on_watch watched_or_empty text_eq
  switch_command_watch w key keys between s =
      let more : ltb (length (key ∷ keys)) 1 ≡ false = ground arith in rw more refl

  run_turns_watch :
      (w key : Text) (keys : List Text) (s : S) (ts : List (Turn S))
      → to_upper w ≡ watch_word
      → (run_turns sv (sent w (key ∷ keys) [] ∷ ts) (no_tx, s)).0
        ≡ (run_turns sv ts (watching (key ∷ keys) s, s)).0
  unfolding run_turns
  run_turns_watch w key keys s ts e = rw (e, switch_command_watch w key keys [] s) refl

  -- A connection watches keys, others change the state, and it sends MULTI, commands to be queued and EXEC. If what
  -- the others did to the versions up to EXEC is a sequence of changes, then EXEC refuses, and the state stays as
  -- the others left it, exactly when the versions show one of them (`shows_any`): the last one of a watched key
  -- is a touch or a deletion, or it is FlushDB and the key had a version. Else the commands are run in
  -- that state, whatever others do before each of them: a change that comes behind the test, at a watched key
  -- too, stops none of them. The versions were not above the counter at the WATCH, and the counter does
  -- not wrap round.
  pub run_turns-watched :
      (w m e key : Text) (keys : List Text) (f : S → S) (between : List (S → S))
      (ts : List (Turn S)) (cs : List Change) (s : S)
      → to_upper w ≡ watch_word
      → to_upper m ≡ multi_word
      → to_upper e ≡ exec_word
      → AllDefault ts
      → sv.keys (effect_of ts (f s)) ≡ run cs (sv.keys s)
      → length cs + (sv.keys s).version < 2 ^ 64
      → IsBounded (sv.keys s)
      → (run_turns sv
          (sent w (key ∷ keys) [] ∷ others f ∷ (sent m [] [] ∷ ts ++ sent e [] between ∷ []))
          (no_tx, s)).0
        ≡ (if shows_any (key ∷ keys) (sv.keys s) cs
            then (no_tx, effect_of ts (f s))
            else (no_tx, (run_queued sv (queue_of ts) between (effect_of ts (f s))).0))
  unfolding must_refuse run_turns
  run_turns-watched w m e key keys f between ts cs s kw km ke h same room bound =
      let tx = watching (key ∷ keys) s in
      let refused : must_refuse sv tx (effect_of ts (f s)) ≡ shows_any (key ∷ keys) (sv.keys s) cs =
        ap (keys_modified_since (merge_versions (key_versions (key ∷ keys) (sv.keys s)) [])) same
        ∙ modified-watched cs (sv.keys s) room bound (key ∷ keys) in
      run_turns_watch w key keys s (others f ∷ (sent m [] [] ∷ ts ++ sent e [] between ∷ [])) kw
      ∙ ap (λ x. x.0) (run_turns-transaction sv m e between ts tx (f s) km ke h refl)
      ∙ (elim (Bool-cases (shows_any (key ∷ keys) (sv.keys s) cs)) [
        | inl c ↦ rw (refused, c) refl
        | inr c ↦ rw (refused, c) refl
      ])

  -- A read-only replica refuses a write command that is sent alone: the state stays and the answer says
  -- so. The same command between MULTI and EXEC is executed there all the same: the state
  -- is what `exec` makes of it, where no other connection comes in between.
  pub run_turns-read_only :
      (m e word : Text) (rest : List Text) (s : S)
      → to_upper m ≡ multi_word
      → to_upper e ≡ exec_word
      → is_default (to_upper word) ≡ true
      → is_write_command (to_upper word) ≡ true
      → sv.read_only s ≡ true
      → (run_turns sv (sent word rest [] ∷ []) (no_tx, s)
          ≡ ((no_tx, s), write_error read_only_text))
        × ((run_turns sv (sent m [] [] ∷ sent word rest [] ∷ sent e [] [] ∷ []) (no_tx, s)).0
            ≡ (no_tx, (sv.execute (word ∷ rest) s).0))
  unfolding run_turns on_command run_now must_refuse run_queued run_one
  run_turns-read_only m e word rest s km ke d w r = (
    rw
        (
          switch_command-default sv (to_upper word) word rest [] no_tx s d,
          w,
          r,
          append-nil (write_error read_only_text),
        )
        refl,
    ap (λ x. x.0)
        (run_turns-transaction sv m e [] (sent word rest [] ∷ []) no_tx s km ke (d, tt) refl),
  )
