-- ===== src/Queue/Retries.antt =====
-- A message gets `MaxRetry` tries: what every reachable state of the queues satisfies.
use vole.Prelude.{
  ◌==◌, ℕ, ◌+◌, ◌<◌, ◌≡◌, sym, subst, Bool, true, List, [], ◌∷◌, ◌++◌, some, ltb, arith, Bool-cases,
  Option-cases, inl, inr,
}
use vole.Prelude.Text.{Text}
use vole.Prelude.Map.{Map, lookup, put, delete}
use vole.Prelude.Slices.{Every}
use vole.Queue.{Queue, QueueMessage, push, take_ready, failed, release, requeue_expired, deliver}
use vole.Queue.Flow.{requeue_expired_absent, requeue_expired_early, requeue_expired_late}
use vole.Queue.Order.{TakesFirst, take_ready-TakesFirst}

-- A try is left; no try is left.
abbrev pub tries_left : QueueMessage → Bool
tries_left m = ltb m.retries m.max_retry

abbrev pub used_up : QueueMessage → Bool
used_up m = m.max_retry == m.retries

-- The message of each entry has a try left.
abbrev pub AllLeft : Map QueueMessage → Type 0
AllLeft [] = Unit {0}
AllLeft ((k, m) ∷ ps) = (tries_left m ≡ true) × AllLeft ps

-- The pending messages and those in process have a try left, the dead letters have none, and a new
-- message will have one.
pub record Tried (q : Queue) : Type 0 where
  pub pending_left : Every tries_left q.pending
  pub processing_left : AllLeft q.processing
  pub dead_used_up : Every used_up q.dead_letter
  pub some_try : 0 < q.max_retries

Every-append :
    (f : QueueMessage → Bool) (ms ns : List QueueMessage)
    → Every f ms
    → Every f ns
    → Every f (ms ++ ns)
Every-append f [] ns h k = k
Every-append f (m ∷ ms) ns h k = (h.0, Every-append f ms ns h.1 k)

put-AllLeft :
    (k : Text) (m : QueueMessage) (ps : Map QueueMessage)
    → tries_left m ≡ true
    → AllLeft ps
    → AllLeft (put k m ps)
unfolding put
put-AllLeft k m [] h a = (h, tt)
put-AllLeft k m ((j, n) ∷ ps) h a = ground (arith, h, a, put-AllLeft k m ps h a.1)

delete-AllLeft : (k : Text) (ps : Map QueueMessage) → AllLeft ps → AllLeft (delete k ps)
unfolding delete
delete-AllLeft k [] a = tt
delete-AllLeft k ((j, n) ∷ ps) a = ground (arith, a, delete-AllLeft k ps a.1)

pub push-Tried : (m : QueueMessage) (q : Queue) → tries_left m ≡ true → Tried q → Tried (push m q)
unfolding push
push-Tried m q h t = record {
  pending_left = Every-append tries_left q.pending (m ∷ []) t.pending_left (h, tt);
  processing_left = t.processing_left;
  dead_used_up = t.dead_used_up;
  some_try = t.some_try;
}

pub release-Tried : (id : Text) (q : Queue) → Tried q → Tried (release id q)
unfolding release
release-Tried id q t = record {
  pending_left = t.pending_left;
  processing_left = delete-AllLeft id q.processing t.processing_left;
  dead_used_up = t.dead_used_up;
  some_try = t.some_try;
}

pub lookup-AllLeft :
    (k : Text) (m : QueueMessage) (ps : Map QueueMessage)
    → AllLeft ps
    → lookup k ps ≡ some m
    → tries_left m ≡ true
unfolding lookup
lookup-AllLeft k m [] a e = absurd (ground (arith, e))
lookup-AllLeft k m ((j, n) ∷ ps) a e = ground (arith, a.0, e, lookup-AllLeft k m ps a.1)

pub failed-Tried :
    (now : ℕ) (m : QueueMessage) (q : Queue)
    → tries_left m ≡ true
    → Tried q
    → Tried (failed now m q)
unfolding failed
failed-Tried now m q h t = elim (Bool-cases (ltb (m.retries + 1) m.max_retry)) [
  | inl e ↦ rw e (record {
    pending_left =
        Every-append tries_left q.pending
          (record m { retries = m.retries + 1; created_at = now } ∷ []) t.pending_left (e, tt);
    processing_left = t.processing_left;
    dead_used_up = t.dead_used_up;
    some_try = t.some_try;
  })
  | inr e ↦ rw e (record {
    pending_left = t.pending_left;
    processing_left = t.processing_left;
    dead_used_up =
        Every-append used_up q.dead_letter (record m { retries = m.retries + 1 } ∷ [])
          t.dead_used_up (ground (arith, h), tt);
    some_try = t.some_try;
  })
]

take_ready-Every :
    (now : ℕ) (ms left : List QueueMessage) (m : QueueMessage)
    → Every tries_left ms
    → take_ready now ms ≡ some (m, left)
    → (tries_left m ≡ true) × Every tries_left left
take_ready-Every now ms left m h e = go (subst (TakesFirst now ms) e (take_ready-TakesFirst now ms))
  where
    split :
        (before after : List QueueMessage)
        → Every tries_left (before ++ m ∷ after)
        → (tries_left m ≡ true) × Every tries_left (before ++ after)
    split [] after k = (k.0, k.1)
    split (b ∷ before) after k = let (x, y) = split before after k.1 in (x, (k.0, y))

    go : TakesFirst now ms (some (m, left)) → (tries_left m ≡ true) × Every tries_left left
    go (before, after, whole, rest, d, r) =
        subst (λ ls. (tries_left m ≡ true) × Every tries_left ls) (sym rest)
          (split before after (subst (Every tries_left) whole h))

pub deliver-Tried :
    (now : ℕ) (m : QueueMessage) (left : List QueueMessage) (q : Queue)
    → take_ready now q.pending ≡ some (m, left)
    → Tried q
    → Tried (deliver now m left q).0
unfolding deliver
deliver-Tried now m left q e t =
    let (one_left, others) = take_ready-Every now q.pending left m t.pending_left e in
    record {
      pending_left = others;
      processing_left =
          put-AllLeft m.id (record m { ack_deadline = now + q.ack_timeout }) q.processing one_left
            t.processing_left;
      dead_used_up = t.dead_used_up;
      some_try = t.some_try;
    }

pub requeue_expired-Tried :
    (now : ℕ) (ids : List Text) (q : Queue) → Tried q → Tried (requeue_expired now ids q)
requeue_expired-Tried now [] q t = unfold requeue_expired in t
requeue_expired-Tried now (id ∷ ids) q t = elim (Option-cases (lookup id q.processing)) [
  | inl e ↦
      subst Tried (sym (requeue_expired_absent now id ids q e)) (requeue_expired-Tried now ids q t)
  | inr (m, e) ↦ elim (Bool-cases (ltb m.ack_deadline now)) [
    | inr d ↦
        subst Tried (sym (requeue_expired_early now id ids q m e d))
          (requeue_expired-Tried now ids q t)
    | inl d ↦ subst Tried (sym (requeue_expired_late now id ids q m e d)) (
        requeue_expired-Tried now ids (failed now m (release id q)) (
          failed-Tried now m (release id q) (lookup-AllLeft id m q.processing t.processing_left e)
            (release-Tried id q t)))
  ]
]
