-- ===== src/Queue/Reach.antt =====
-- The states that the calls on the queues lead to.
use vole.Prelude.{true, ℕ, ◌≡◌, sym, subst, List, arith, Bool-cases, Option-cases, inl, inr}
use vole.Prelude.Text.{Text}
use vole.Prelude.Int.{ℤ, pos, ltb_ℤ}
use vole.Queue.{
  Queues, Queue, QueueMessage, queue_or_new, failed, release, requeue_expired,
  requeue_expired_locked, deliver, enqueue, try_dequeue, dequeue, dequeue_again, register, settle,
  q_ack, q_nack,
}
use vole.Queue.Retries.{
  tries_left, lookup-AllLeft, Tried, push-Tried, release-Tried, failed-Tried, deliver-Tried,
  requeue_expired-Tried,
}
use vole.Queue.Kept.{
  settle_cases, requeue_expired_locked_cases, try_dequeue_cases, replaced, at_name,
}

-- A call, with any arguments, any readings of the clock and any order of the map.
pub data Step (s : Queues) : Queues → Type 0 where
  enqueued : (name body : Text) (delay : ℤ) (a b c : ℕ) → Step s (enqueue name body delay a b c s).0
  dequeued :
      (name : Text) (timeout : ℤ) (ids : List Text) (a b c : ℕ)
      → Step s (dequeue name timeout ids a b c s).0
  dequeued_again :
      (name : Text) (ids : List Text) (a b c : ℕ) → Step s (dequeue_again name ids a b c s).0
  acked : (name id : Text) (a : ℕ) → Step s (q_ack name id a s).0
  nacked : (name id : Text) (a b : ℕ) → Step s (q_nack name id a b s).0

pub data Reaches (s : Queues) : Queues → Type 0 where
  start : Reaches s s
  next : (t u : Queues) → Reaches s t → Step t u → Reaches s u

abbrev pub AllTried : Queues → Type 0
AllTried s = (n : Text) → Tried (queue_or_new n s.queues)

settled-AllTried :
    (name id : Text) (time : ℕ) (change : QueueMessage → Queue → Queue) (s : Queues)
    → ((m : QueueMessage) (q : Queue) → tries_left m ≡ true → Tried q → Tried (change m q))
    → AllTried s
    → AllTried (settle name id time change s).0
settled-AllTried name id time change s k t = elim (settle_cases name id time change s) [
  | inl e ↦ subst (λ o. AllTried o.0) (sym e) t
  | inr (q, m, e, f, r) ↦
      let tried : Tried q = at_name Tried s name q t e in
      subst (λ o. AllTried o.0) (sym r)
        (replaced Tried name (change m (release id q)) s.queues
          (k m (release id q) (lookup-AllLeft id m q.processing tried.processing_left f)
            (release-Tried id q tried))
          t)
]

requeued-AllTried :
    (name : Text) (now : ℕ) (ids : List Text) (s : Queues)
    → AllTried s
    → AllTried (requeue_expired_locked name now ids s)
requeued-AllTried name now ids s t = elim (requeue_expired_locked_cases name now ids s) [
  | inl (e, r) ↦ subst AllTried (sym r) t
  | inr (q, e, r) ↦ subst AllTried (sym r) (
      replaced Tried name (requeue_expired now ids q) s.queues
        (requeue_expired-Tried now ids q (at_name Tried s name q t e)) t)
]

try_dequeue-AllTried :
    (name : Text) (ids : List Text) (a b c : ℕ) (s : Queues)
    → AllTried s
    → AllTried (try_dequeue name ids a b c s).0
try_dequeue-AllTried name ids a b c s t =
    let r = requeue_expired_locked name a ids s in
    let after = requeued-AllTried name a ids s t in
    elim (try_dequeue_cases name ids a b c s) [
      | inl e ↦ subst (λ o. AllTried o.0) (sym e) after
      | inr (q, m, left, e, f, o) ↦
          subst (λ o. AllTried o.0) (sym o)
            (replaced Tried name (deliver b m left q).0 r.queues
              (deliver-Tried b m left q f (at_name Tried r name q after e)) after)
    ]

queues-dequeue :
    (name : Text) (timeout : ℤ) (ids : List Text) (a b c : ℕ) (s : Queues)
    → (dequeue name timeout ids a b c s).0.queues ≡ (try_dequeue name ids a b c s).0.queues
unfolding dequeue register
queues-dequeue name timeout ids a b c s = elim (Option-cases (try_dequeue name ids a b c s).1) [
  | inr (m, e) ↦ rw (dequeue, e)
  | inl e ↦ elim (Bool-cases (ltb_ℤ (pos 0) timeout)) [
    | inl w ↦ rw (dequeue, e, w)
    | inr w ↦ rw (dequeue, e, w)
  ]
]

Step-AllTried : (s t : Queues) → Step s t → AllTried s → AllTried t
unfolding enqueue dequeue_again q_ack q_nack
Step-AllTried s _ (enqueued name body delay a b c) v =
    replaced Tried name _ s.queues
      (push-Tried _ (queue_or_new name s.queues)
        (let t : Tried (queue_or_new name s.queues) = v name in ground (arith, t.some_try))
        (v name))
      v
Step-AllTried s _ (dequeued name timeout ids a b c) v =
    subst (λ m. (n : Text) → Tried (queue_or_new n m))
      (sym (queues-dequeue name timeout ids a b c s)) (try_dequeue-AllTried name ids a b c s v)
Step-AllTried s _ (dequeued_again name ids a b c) v = try_dequeue-AllTried name ids a b c s v
Step-AllTried s _ (acked name id a) v = settled-AllTried name id a (λ m q. q) s (λ m q h t. t) v
Step-AllTried s _ (nacked name id a b) v =
    settled-AllTried name id b (failed a) s (failed-Tried a) v

-- In every state that the calls lead to, with any arguments, times and orders, the pending
-- messages and those in process failed less than `MaxRetry` times and the dead letters exactly
-- that often, and every queue gives its messages a try: if it is so at the start.
pub Reaches-AllTried : (s t : Queues) → AllTried s → Reaches s t → AllTried t
Reaches-AllTried s _ v start = v
Reaches-AllTried s _ v (next t u r k) = Step-AllTried t u k (Reaches-AllTried s t v r)
