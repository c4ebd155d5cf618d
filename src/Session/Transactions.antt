-- ===== src/Session/Transactions.antt =====
-- internal/server/server.go: MULTI, EXEC and WATCH of a connection, with the commands of others in between.
use vole.Prelude.{
  ◌≡◌, refl, ap, sym, true, false, List, [], ◌∷◌, ◌++◌, length, if◌then◌else◌, append-nil,
  Bool-cases, inl, inr,
}
use vole.Prelude.Text.{Text, text_eq}
use vole.Namespace.{to_upper}
use vole.Resp.{write_simple, write_array_len, write_null_array}
use vole.Session.{
  ConnTx, no_tx, Services, run_queued, exec_transaction, must_refuse, on_multi, on_exec,
  switch_command,
}
use vole.Session.Words.{multi_word, exec_word}
use vole.Session.Answers.{ok_text}
use vole.Session.Turns.{
  Turn, sent, AllDefault, queue_of, effect_of, queued_answers, run_turns, run_turns-append,
  run_turns-queue,
}

module _ {S : Type 0} (sv : Services S) where
  exec_transaction-queued :
      (commands : List (List Text)) (between : List (S → S)) (s : S)
      → exec_transaction sv commands between s ≡ (
        (run_queued sv commands between s).0,
        write_array_len (length commands) ++ (run_queued sv commands between s).1,
      )
  unfolding exec_transaction run_queued
  exec_transaction-queued [] between s = ap (λ t. (s, t)) (sym (append-nil (write_array_len 0)))
  exec_transaction-queued (args ∷ commands) between s = refl

  switch_command_exec :
      (e : Text) (between : List (S → S)) (tx : ConnTx) (s : S)
      → tx.active ≡ true
      → switch_command sv exec_word e [] between tx s ≡ (
          if must_refuse sv tx s then ((no_tx, s), write_null_array) else (
            (no_tx, (run_queued sv tx.queue between s).0),
            write_array_len (length tx.queue) ++ (run_queued sv tx.queue between s).1,
          ))
  unfolding switch_command on_exec must_refuse text_eq
  switch_command_exec e between tx s a = rw (a, exec_transaction-queued tx.queue between s) refl

  run_turns_exec :
      (e : Text) (between : List (S → S)) (tx : ConnTx) (s : S)
      → to_upper e ≡ exec_word
      → tx.active ≡ true
      → run_turns sv (sent e [] between ∷ []) (tx, s) ≡ (
          if must_refuse sv tx s then ((no_tx, s), write_null_array) else (
            (no_tx, (run_queued sv tx.queue between s).0),
            write_array_len (length tx.queue) ++ (run_queued sv tx.queue between s).1,
          ))
  unfolding run_turns
  run_turns_exec e between tx s k a = elim (Bool-cases (must_refuse sv tx s)) [
    | inl r ↦ rw (k, switch_command_exec e between tx s a, r, append-nil write_null_array) refl
    | inr r ↦
        rw
          (
            k,
            switch_command_exec e between tx s a,
            r,
            append-nil (write_array_len (length tx.queue) ++ (run_queued sv tx.queue between s).1),
          )
          refl
  ]

  run_turns_multi :
      (m : Text) (tx : ConnTx) (s : S) (ts : List (Turn S))
      → to_upper m ≡ multi_word
      → tx.active ≡ false
      → run_turns sv (sent m [] [] ∷ ts) (tx, s) ≡ (
          let tail = run_turns sv ts (record tx { active = true; queue = [] }, s) in
          (tail.0, write_simple ok_text ++ tail.1))
  unfolding run_turns switch_command on_multi text_eq
  run_turns_multi m tx s ts k a = rw (k, switch_command, on_multi, a) refl

  pub run_turns-transaction :
      (m e : Text) (between : List (S → S)) (ts : List (Turn S)) (tx : ConnTx) (s : S)
      → to_upper m ≡ multi_word
      → to_upper e ≡ exec_word
      → AllDefault ts
      → tx.active ≡ false
      → run_turns sv (sent m [] [] ∷ ts ++ sent e [] between ∷ []) (tx, s) ≡ (
          if must_refuse sv tx (effect_of ts s)
          then (
            (no_tx, effect_of ts s),
            write_simple ok_text ++ (queued_answers (queue_of ts) ++ write_null_array),
          )
          else (
            (no_tx, (run_queued sv (queue_of ts) between (effect_of ts s)).0),
            write_simple ok_text
                ++ (queued_answers (queue_of ts)
                    ++ (write_array_len (length (queue_of ts))
                        ++ (run_queued sv (queue_of ts) between (effect_of ts s)).1)),
          ))
  unfolding must_refuse
  run_turns-transaction m e between ts tx s k l h a =
      let open_tx : List (List Text) → ConnTx =
        λ q. record { active = true; queue = q; watched = tx.watched } in
      let t = effect_of ts s in
      rw
        (
          run_turns_multi m tx s (ts ++ sent e [] between ∷ []) k a,
          run_turns-append sv ts (sent e [] between ∷ []) (open_tx [], s),
          run_turns-queue sv ts [] tx.watched s h,
          run_turns_exec e between (open_tx (queue_of ts)) t l refl,
        )
        (elim (Bool-cases (must_refuse sv tx t)) [ inl r ↦ rw (r) refl | inr r ↦ rw (r) refl ])
