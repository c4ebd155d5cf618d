-- ===== src/Session/Turns.antt =====
-- internal/server/server.go, the last `switch` of `handleConn`: the commands of a connection, with what other
-- connections do to the server's state between them.
use vole.Prelude.{
  ℕ, ◌≡◌, refl, ap, ◌∙◌, sym, Bool, true, not, ◌&&◌, List, [], ◌∷◌, ◌++◌, Option, arith,
  append_assoc, append-nil,
}
use vole.Prelude.Text.{Text, text_eq}
use vole.Prelude.Map.{Map}
use vole.Namespace.{to_upper, one_of}
use vole.Resp.{write_simple}
use vole.Session.{ConnTx, Services, on_command, switch_command}
use vole.Session.Words.{
  multi_word, exec_word, discard_word, watch_word, unwatch_word, auth_word, apart_words,
}
use vole.Session.Answers.{queued_text}

-- The connection's next command, as a word, those behind it, and what others do between the locks that it
-- takes if it is EXEC; or what others do.
pub data Turn (S : Type 0) : Type 0 where
  sent : Text → List Text → List (S → S) → Turn S
  others : (S → S) → Turn S

-- A command that `handleConn` serves in no case of its own: not before the `switch`, and not in it.
abbrev pub is_default : Text → Bool
is_default cmd =
    not (text_eq cmd auth_word)
    && not (one_of cmd apart_words)
    && not (text_eq cmd multi_word)
    && not (text_eq cmd exec_word)
    && not (text_eq cmd discard_word)
    && not (text_eq cmd watch_word)
    && not (text_eq cmd unwatch_word)

module _ {S : Type 0} where
  abbrev pub queue_of : List (Turn S) → List (List Text)
  queue_of [] = []
  queue_of (sent word rest between ∷ ts) = (word ∷ rest) ∷ queue_of ts
  queue_of (others f ∷ ts) = queue_of ts

  -- What the others do in all.
  abbrev pub effect_of : List (Turn S) → S → S
  effect_of [] s = s
  effect_of (sent word rest between ∷ ts) s = effect_of ts s
  effect_of (others f ∷ ts) s = effect_of ts (f s)

  abbrev pub AllDefault : List (Turn S) → Type 0
  AllDefault [] = Unit {0}
  AllDefault (sent word rest between ∷ ts) = (is_default (to_upper word) ≡ true) × AllDefault ts
  AllDefault (others f ∷ ts) = AllDefault ts

-- One answer for each command of the queue.
abbrev pub queued_answers : List (List Text) → Text
queued_answers [] = []
queued_answers (args ∷ commands) = write_simple queued_text ++ queued_answers commands

module _ {S : Type 0} (sv : Services S) where
  unfoldable pub run_turns : List (Turn S) → ConnTx × S → (ConnTx × S) × Text
  run_turns [] at = (at, [])
  run_turns (sent word rest between ∷ ts) (tx, s) =
      let (after, out) = switch_command sv (to_upper word) word rest between tx s in
      let (last, more) = run_turns ts after in (last, out ++ more)
  run_turns (others f ∷ ts) (tx, s) = run_turns ts (tx, f s)

  pub run_turns-append :
      (ts us : List (Turn S)) (at : ConnTx × S)
      → run_turns (ts ++ us) at ≡ (
        (run_turns us (run_turns ts at).0).0,
        (run_turns ts at).1 ++ (run_turns us (run_turns ts at).0).1,
      )
  unfolding run_turns
  run_turns-append [] us at = refl
  run_turns-append (sent word rest between ∷ ts) us (tx, s) =
      let step = switch_command sv (to_upper word) word rest between tx s in
      ap (λ r. (r.0, step.1 ++ r.1)) (run_turns-append ts us step.0)
      ∙ ap (λ b. ((run_turns us (run_turns ts step.0).0).0, b))
          (sym
            (append_assoc step.1 (run_turns ts step.0).1 (run_turns us (run_turns ts step.0).0).1))
  run_turns-append (others f ∷ ts) us (tx, s) = run_turns-append ts us (tx, f s)

  pub switch_command-default :
      (cmd word : Text) (rest : List Text) (between : List (S → S)) (tx : ConnTx) (s : S)
      → is_default cmd ≡ true
      → switch_command sv cmd word rest between tx s ≡ on_command sv cmd (word ∷ rest) tx s
  unfolding switch_command
  switch_command-default cmd word rest between tx s h = ground (arith, h)

  -- In an open transaction the connection's commands are queued, and only the others change the state.
  pub run_turns-queue :
      (ts : List (Turn S)) (queue : List (List Text)) (watched : Option (Map ℕ)) (s : S)
      → AllDefault ts
      → run_turns ts (record { active = true; queue = queue; watched = watched }, s) ≡ (
        (record { active = true; queue = queue ++ queue_of ts; watched = watched }, effect_of ts s),
        queued_answers (queue_of ts),
      )
  unfolding run_turns on_command
  run_turns-queue [] queue watched s h = rw (append-nil queue) refl
  run_turns-queue (sent word rest between ∷ ts) queue watched s h =
      rw
        (
          switch_command-default (to_upper word) word rest between
              (record { active = true; queue = queue; watched = watched }) s h.0,
          run_turns-queue ts (queue ++ (word ∷ rest) ∷ []) watched s h.1,
          append_assoc queue ((word ∷ rest) ∷ []) (queue_of ts),
        )
        refl
  run_turns-queue (others f ∷ ts) queue watched s h = run_turns-queue ts queue watched (f s) h
