-- ===== src/Queue/Kept.antt =====
-- The operations on the store's queues keep every message: none is lost and none is doubled.
use vole.Prelude.{
  ℕ, ◌+◌, ◌^◌, ◌%◌, ◌≡◌, refl, sym, ap, subst, ◌∙◌, Bool, true, false, ◌&&◌, List, [], ◌∷◌, some,
  none, if◌then◌else◌, arith, Bool-cases, Option-cases, inl, inr, ◌⊎◌,
}
use vole.Prelude.Text.{Text, text_eq, text_eq_iff}
use vole.Prelude.Int.{ℤ}
use vole.Prelude.Map.{Map, lookup, put, lookup-put}
use vole.Keys.{touch}
use vole.Queue.{
  Queues, Queue, QueueMessage, queue_or_new, push, take_ready, failed, release, requeue_expired,
  requeue_expired_locked, deliver, enqueue, try_dequeue, settle, q_ack, q_nack, queue_id,
  new_message,
}
use vole.Queue.Flow.{
  IsValid, held, one, held-push, held-deliver, held-release, held-back, back-IsValid,
  deliver-IsValid, requeue_expired-IsValid, acked-IsValid, push-IsValid,
}

-- Every queue of the store is valid.
abbrev pub AllValid : Queues → Type 0
AllValid s = (n : Text) → IsValid (queue_or_new n s.queues)

-- How often the queue of this name holds a message with this id.
abbrev pub held_in : Text → Text → Queues → ℕ
held_in n j s = held j (queue_or_new n s.queues)

queue_or_new-put :
    (name n : Text) (q : Queue) (m : Map Queue)
    → queue_or_new n (put name q m) ≡ (if text_eq name n then q else queue_or_new n m)
queue_or_new-put name n q m = ground (arith, lookup-put name n q m)

queue_or_new-some :
    (name : Text) (q : Queue) (m : Map Queue) → lookup name m ≡ some q → queue_or_new name m ≡ q
queue_or_new-some name q m e = rw (queue_or_new, e)

-- A queue that is replaced by one with the same messages.
module _ (P : Queue → Type 0) where
  pub replaced :
      (name : Text) (q : Queue) (m : Map Queue)
      → P q
      → ((n : Text) → P (queue_or_new n m))
      → (n : Text) → P (queue_or_new n (put name q m))
  replaced name q m p all n = elim (Bool-cases (text_eq name n)) [
    | inl e ↦ subst P (sym (queue_or_new-put name n q m ∙ rw e)) p
    | inr e ↦ subst P (sym (queue_or_new-put name n q m ∙ rw e)) (all n)
  ]

  pub at_name :
      (s : Queues) (name : Text) (q : Queue)
      → ((n : Text) → P (queue_or_new n s.queues))
      → lookup name s.queues ≡ some q
      → P q
  at_name s name q all e = subst P (queue_or_new-some name q s.queues e) (all name)

-- An operation changes one queue.
changed :
    (s : Queues) (name : Text) (q r : Queue) (j : Text) (more less : ℕ)
    → queue_or_new name s.queues ≡ q
    → held j r + less ≡ held j q + more
    → (n : Text)
    → held j (queue_or_new n (put name r s.queues)) + (if text_eq name n then less else 0)
      ≡ held_in n j s + (if text_eq name n then more else 0)
changed s name q r j more less e h n = elim (Bool-cases (text_eq name n)) [
  | inl same ↦
      let here : held j (queue_or_new n (put name r s.queues)) ≡ held j r =
        subst (λ k. held j k ≡ held j r) (sym (queue_or_new-put name n r s.queues)) (rw same) in
      let there : held j q ≡ held_in n j s =
        ap (held j) (sym e) ∙ ap (λ k. held_in k j s) ((text_eq_iff name n).0 same) in
      rw (here, same, ← there) h
  | inr other ↦
      let there : held j (queue_or_new n (put name r s.queues)) ≡ held_in n j s =
        subst (λ k. held j k ≡ held_in n j s) (sym (queue_or_new-put name n r s.queues))
          (rw other) in
      rw (there, other)
]

-- What the two calls on a message in process come to.
pub settle_cases :
    (name id : Text) (time : ℕ) (change : QueueMessage → Queue → Queue) (s : Queues)
    → (settle name id time change s ≡ (s, false))
      ⊎ ((q : Queue) × (m : QueueMessage) × (lookup name s.queues ≡ some q)
          × (lookup id q.processing ≡ some m)
          × (settle name id time change s ≡ (
            record s {
              queues = put name (change m (release id q)) s.queues;
              keys = touch (name ∷ []) time s.keys;
            },
            true,
          )))
unfolding settle
settle_cases name id time change s = elim (Option-cases (lookup name s.queues)) [
  | inl e ↦ inl (rw (settle, e))
  | inr (q, e) ↦ elim (Option-cases (lookup id q.processing)) [
    | inl f ↦ inl (rw (settle, e, f))
    | inr (m, f) ↦ inr (q, m, e, f, rw (settle, e, f))
  ]
]

-- The queues are valid, and hold what they held before but for the message that was taken out, if any.
abbrev pub Takes : Text → Text → Queues → Queues × Bool → Type 0
Takes name id s r =
    AllValid r.0
    × ((n j : Text)
        → held_in n j r.0 + (if r.1 && text_eq name n && text_eq id j then 1 else 0)
          ≡ held_in n j s)

-- `QAck` on valid queues takes the message out of its queue when it returns `true`, and no other
-- message out of any queue; when it returns `false` every queue holds what it held. The queues
-- stay valid.
pub q_ack-Takes :
    (name id : Text) (time : ℕ) (s : Queues) → AllValid s → Takes name id s (q_ack name id time s)
unfolding q_ack
q_ack-Takes name id time s v = elim (settle_cases name id time (λ msg q. q) s) [
  | inl e ↦ subst (Takes name id s) (sym e) (v, λ n j. omega arith)
  | inr (q, m, e, f, r) ↦
      let valid : IsValid q = at_name IsValid s name q v e in
      subst (Takes name id s) (sym r) (
        replaced IsValid name (release id q) s.queues (acked-IsValid id m q valid f) v,
        λ n j. ground (
          arith,
          changed s name q (release id q) j 0 (one j id) (queue_or_new-some name q s.queues e)
              (ground (arith, held-release j id m q f)) n,
        ),
      )
]

-- `QNack` on valid queues moves a message in process to the pending messages or to the dead
-- letters: no queue loses or gains a message, whether it returns `true` or `false`. The queues
-- stay valid.
pub held_in-q_nack :
    (name id : Text) (now time : ℕ) (s : Queues)
    → AllValid s
    → AllValid (q_nack name id now time s).0
      × ((n j : Text) → held_in n j (q_nack name id now time s).0 ≡ held_in n j s)
unfolding q_nack
held_in-q_nack name id now time s v = elim (settle_cases name id time (failed now) s) [
  | inl e ↦ subst Same (sym e) (v, λ n j. refl)
  | inr (q, m, e, f, r) ↦
      let valid : IsValid q = at_name IsValid s name q v e in
      subst Same (sym r) (
        replaced IsValid name (failed now m (release id q)) s.queues
            (back-IsValid id now m q valid f) v,
        λ n j. ground (
          arith,
          changed s name q (failed now m (release id q)) j 0 0 (queue_or_new-some name q s.queues e)
              (ground (arith, held-back j id now m q valid f)) n,
        ),
      )
]
  where
    Same : Queues × Bool → Type 0
    Same r = AllValid r.0 × ((n j : Text) → held_in n j r.0 ≡ held_in n j s)

-- If no message of the queue has the id that `Enqueue` gives, it adds a message with the id that
-- it returns to that queue and nothing else to any queue, and valid queues stay valid.
pub held_in-enqueue :
    (name body : Text) (delay : ℤ) (id_time now time : ℕ) (s : Queues)
    → AllValid s
    → held_in name (queue_id id_time ((s.queue_seq + 1) % 2 ^ 64)) s ≡ 0
    → AllValid (enqueue name body delay id_time now time s).0
      × ((n j : Text)
          → held_in n j (enqueue name body delay id_time now time s).0
            ≡ held_in n j s
              + (if text_eq name n && text_eq (enqueue name body delay id_time now time s).1 j
                  then 1
                  else 0))
unfolding enqueue
held_in-enqueue name body delay id_time now time s v fresh = (
  replaced IsValid name (push msg q) s.queues (push-IsValid msg q (v name) fresh) v,
  λ n j. ground (
    arith,
    changed s name q (push msg q) j (one j msg.id) 0 refl (ground (arith, held-push j msg q)) n,
  ),
)
  where
    q : Queue
    q = queue_or_new name s.queues

    msg : QueueMessage
    msg = new_message (queue_id id_time ((s.queue_seq + 1) % 2 ^ 64)) body now delay q.max_retries

pub requeue_expired_locked_cases :
    (name : Text) (now : ℕ) (ids : List Text) (s : Queues)
    → ((lookup name s.queues ≡ none) × (requeue_expired_locked name now ids s ≡ s))
      ⊎ ((q : Queue) × (lookup name s.queues ≡ some q)
          × (requeue_expired_locked name now ids s
              ≡ record s { queues = put name (requeue_expired now ids q) s.queues }))
unfolding requeue_expired_locked
requeue_expired_locked_cases name now ids s = elim (Option-cases (lookup name s.queues)) [
  | inl e ↦ inl (e, rw (requeue_expired_locked, e))
  | inr (q, e) ↦ inr (q, e, rw (requeue_expired_locked, e))
]

-- The queues are valid and hold what they held before.
abbrev pub Keeps : Queues → Queues → Type 0
Keeps s r = AllValid r × ((n j : Text) → held_in n j r ≡ held_in n j s)

requeue_expired_locked-Keeps :
    (name : Text) (now : ℕ) (ids : List Text) (s : Queues)
    → AllValid s
    → Keeps s (requeue_expired_locked name now ids s)
requeue_expired_locked-Keeps name now ids s v = elim (requeue_expired_locked_cases name now ids s) [
  | inl (e, r) ↦ subst (Keeps s) (sym r) (v, λ n j. refl)
  | inr (q, e, r) ↦
      let (valid, same) = requeue_expired-IsValid now ids q (at_name IsValid s name q v e) in
      subst (Keeps s) (sym r) (
        replaced IsValid name (requeue_expired now ids q) s.queues valid v,
        λ n j. ground (
          arith,
          changed s name q (requeue_expired now ids q) j 0 0 (queue_or_new-some name q s.queues e)
              (ground (arith, same j)) n,
        ),
      )
]

-- What a round of `Dequeue` comes to: no message that is ready, or the first one, delivered.
pub try_dequeue_cases :
    (name : Text) (ids : List Text) (expiry_time now time : ℕ) (s : Queues)
    → let r = requeue_expired_locked name expiry_time ids s in
      (try_dequeue name ids expiry_time now time s ≡ (r, none))
      ⊎ ((q : Queue) × (m : QueueMessage) × (left : List QueueMessage) × (lookup name r.queues
            ≡ some q)
          × (take_ready now q.pending ≡ some (m, left))
          × (try_dequeue name ids expiry_time now time s ≡ (
            record r {
              queues = put name (deliver now m left q).0 r.queues;
              keys = touch (name ∷ []) time r.keys;
            },
            some (deliver now m left q).1,
          )))
unfolding try_dequeue
try_dequeue_cases name ids expiry_time now time s =
    let r = requeue_expired_locked name expiry_time ids s in
    elim (Option-cases (lookup name r.queues)) [
      | inl e ↦ inl (rw (try_dequeue, e))
      | inr (q, e) ↦ elim (Option-cases (take_ready now q.pending)) [
        | inl f ↦ inl (rw (try_dequeue, e, f))
        | inr ((m, left), f) ↦ inr (q, m, left, e, f, rw (try_dequeue, e, f))
      ]
    ]

-- A round of `Dequeue` on valid queues moves messages between the pending ones, those in process
-- and the dead letters: no queue loses or gains a message, and the queues stay valid.
pub try_dequeue-Keeps :
    (name : Text) (ids : List Text) (expiry_time now time : ℕ) (s : Queues)
    → AllValid s
    → Keeps s (try_dequeue name ids expiry_time now time s).0
try_dequeue-Keeps name ids expiry_time now time s v =
    let r = requeue_expired_locked name expiry_time ids s in
    let (valid_r, same) = requeue_expired_locked-Keeps name expiry_time ids s v in
    elim (try_dequeue_cases name ids expiry_time now time s) [
      | inl e ↦ subst (λ o. Keeps s o.0) (sym e) (valid_r, same)
      | inr (q, m, left, e, f, o) ↦
          let valid : IsValid q = at_name IsValid r name q valid_r e in
          subst (λ o. Keeps s o.0) (sym o)
            (
              replaced IsValid name (deliver now m left q).0 r.queues
                  (deliver-IsValid now m left q valid f) valid_r,
              λ n j. ground (
                arith,
                same n j,
                changed r name q (deliver now m left q).0 j 0 0
                    (queue_or_new-some name q r.queues e)
                    (ground (arith, held-deliver j now m left q valid f)) n,
              ),
            )
    ]
