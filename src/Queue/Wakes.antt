-- ===== src/Queue/Wakes.antt =====
-- Which `Dequeue` an `Enqueue` wakes.
use vole.Prelude.{ℕ, suc, ◌≡◌, refl, sym, ap, subst, ◌∙◌, List, [], ◌∷◌, ◌++◌, arith, inl, inr}
use vole.Prelude.Text.{Text}
use vole.Prelude.Int.{ℤ}
use vole.Prelude.Map.{lookup-put_self}
use vole.Queue.{
  Queues, enqueue, waiters, wake_first, register, dequeue_again, requeue_expired_locked,
}
use vole.Queue.Kept.{try_dequeue_cases, requeue_expired_locked_cases}

-- `register` puts the next waiter behind the others.
waiters-register :
    (name : Text) (s : Queues)
    → waiters name (register name s).queue_waits ≡ waiters name s.queue_waits ++ s.next_waiter ∷ []
unfolding register
waiters-register name s =
    ground
      (arith, lookup-put_self name (waiters name s.queue_waits ++ s.next_waiter ∷ []) s.queue_waits)

-- What `Dequeue` does with the channels: nothing but in `register`.
abbrev pub SameWaits : Queues → Queues → Type 0
SameWaits s r = (r.queue_waits ≡ s.queue_waits) × (r.woken ≡ s.woken)

requeue_expired_locked-SameWaits :
    (name : Text) (now : ℕ) (ids : List Text) (s : Queues)
    → SameWaits s (requeue_expired_locked name now ids s)
requeue_expired_locked-SameWaits name now ids s =
    elim (requeue_expired_locked_cases name now ids s) [
      | inl (e, r) ↦ subst (SameWaits s) (sym r) (refl, refl)
      | inr (q, e, r) ↦ subst (SameWaits s) (sym r) (refl, refl)
    ]

dequeue_again-SameWaits :
    (name : Text) (ids : List Text) (expiry_time now time : ℕ) (s : Queues)
    → SameWaits s (dequeue_again name ids expiry_time now time s).0
unfolding dequeue_again
dequeue_again-SameWaits name ids expiry_time now time s =
    let same = requeue_expired_locked-SameWaits name expiry_time ids s in
    elim (try_dequeue_cases name ids expiry_time now time s) [
      | inl e ↦ subst (λ o. SameWaits s o.0) (sym e) same
      | inr (q, m, left, e, f, o) ↦ subst (λ o. SameWaits s o.0) (sym o) same
    ]

woken-enqueue :
    (name body : Text) (delay : ℤ) (id_time now time : ℕ) (s : Queues) (w x : ℕ) (ws : List ℕ)
    → waiters name s.queue_waits ≡ w ∷ x ∷ ws
    → (enqueue name body delay id_time now time s).0.woken ≡ w ∷ s.woken
unfolding enqueue wake_first
woken-enqueue name body delay id_time now time s w x ws e =
    ap (λ l. (wake_first name l s.queue_waits s.woken).1) e

-- When two `Dequeue` wait on a queue, alone, and the time of the first is up, the next `Enqueue`
-- wakes the first and nobody else, although the second still waits.
pub woken-dequeue_again :
    (name body : Text) (delay : ℤ) (ids : List Text) (a b c d e f : ℕ) (s : Queues)
    → waiters name s.queue_waits ≡ []
    → (enqueue name body delay a b c
        (dequeue_again name ids d e f (register name (register name s))).0).0.woken
      ≡ s.next_waiter ∷ s.woken
woken-dequeue_again name body delay ids a b c d e f s h =
    let waiting = register name (register name s) in
    let (waits, woken) = dequeue_again-SameWaits name ids d e f waiting in
    woken-enqueue name body delay a b c (dequeue_again name ids d e f waiting).0 s.next_waiter
      (suc s.next_waiter) [] (ap (waiters name) waits ∙ two)
    ∙ ap (◌∷◌ s.next_waiter) (woken ∙ unfold register in refl)
  where
    one_waits : waiters name (register name s).queue_waits ≡ s.next_waiter ∷ []
    one_waits = waiters-register name s ∙ ap (λ l. l ++ s.next_waiter ∷ []) h

    two :
        waiters name (register name (register name s)).queue_waits
        ≡ s.next_waiter ∷ suc s.next_waiter ∷ []
    two =
        waiters-register name (register name s)
        ∙ ap (λ l. l ++ (register name s).next_waiter ∷ []) one_waits
        ∙ unfold register in refl
