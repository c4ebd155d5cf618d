-- ===== src/Queue.antt =====
-- internal/store/queue.go: queues whose messages are acknowledged. Times are nanoseconds; a call
-- takes the readings of the clock that it makes as arguments, and `DeadLetter`, `Pending` and
-- `Processing` are lists and a map of message values: the code never shares a message between two of
-- them. The order in which Go goes round the map of messages in process is an argument.
pub mod Flow
pub mod Kept
pub mod Retries
pub mod Order
pub mod Reach
pub mod Wakes
mod Tests
use vole.Prelude.{
  ℕ, zero, suc, ◌+◌, ◌-◌, ◌*◌, ◌^◌, ◌%◌, ◌/◌, ◌≡◌, Bool, true, false, not, List, [], ◌∷◌, ◌++◌,
  Option, some, none, length, take, ltb, leb, ◌==◌, if◌then◌else◌, min,
}
use vole.Prelude.Text.{Text, text_eq}
use vole.Prelude.Int.{ℤ, pos, pos_part, ltb_ℤ}
use vole.Prelude.Decimal.{decimal}
use vole.Prelude.Map.{Map, lookup, put, delete}
use vole.Keys.{Keys, touch}

pub record QueueMessage : Type 0 where
  pub id : Text
  pub body : Text
  pub created_at : ℕ
  pub retries : ℕ
  pub max_retry : ℕ
  pub ack_deadline : ℕ

pub record Queue : Type 0 where
  pub pending : List QueueMessage
  pub processing : Map QueueMessage
  pub dead_letter : List QueueMessage
  pub ack_timeout : ℕ
  pub max_retries : ℕ

-- the part of `Store` that the queues use, with `queueSeq`; a waiter is a number, `woken` are the
-- waiters whose channel is closed, and `next_waiter` numbers them
pub record Queues : Type 0 where
  pub queues : Map Queue
  pub queue_waits : Map (List ℕ)
  pub woken : List ℕ
  pub next_waiter : ℕ
  pub queue_seq : ℕ
  pub keys : Keys

-- `NewQueue`: 5 minutes, 3 tries
abbrev pub new_queue : Queue
new_queue = record {
  pending = [];
  processing = [];
  dead_letter = [];
  ack_timeout = 300000000000;
  max_retries = 3;
}

-- `nextQueueID`, for a time and the next number of the sequence
abbrev pub queue_id : ℕ → ℕ → Text
queue_id now seq = decimal (now / 1000000) ++ b'-' ∷ decimal seq

-- the message that `Enqueue` makes: `CreatedAt` is the time, or the time plus a positive delay
abbrev pub new_message : Text → Text → ℕ → ℤ → ℕ → QueueMessage
new_message id body now delay max_retry = record {
  id = id;
  body = body;
  created_at = (if ltb_ℤ (pos 0) delay then now + pos_part delay else now);
  retries = 0;
  max_retry = max_retry;
  ack_deadline = 0;
}

-- `q.Pending = append(q.Pending, msg)`
unfoldable pub push : QueueMessage → Queue → Queue
push msg q = record q { pending = q.pending ++ msg ∷ [] }

-- the waiter that `Enqueue` wakes: `waiters[0]`, and the others, whose entry is deleted when there
-- are none
unfoldable pub wake_first : Text → List ℕ → Map (List ℕ) → List ℕ → Map (List ℕ) × List ℕ
wake_first name [] waits woken = (waits, woken)
wake_first name (w ∷ []) waits woken = (delete name waits, w ∷ woken)
wake_first name (w ∷ x ∷ ws) waits woken = (put name (x ∷ ws) waits, w ∷ woken)

abbrev pub waiters : Text → Map (List ℕ) → List ℕ
waiters name waits = elim (lookup name waits) [ none ↦ [] | some ws ↦ ws ]

-- `s.queues[queueName]`, made when it is missing
abbrev pub queue_or_new : Text → Map Queue → Queue
queue_or_new name queues = elim (lookup name queues) [ none ↦ new_queue | some q ↦ q ]

-- `Enqueue`; the readings of the clock are those of the id, of `CreatedAt` and of the touch
unfoldable pub enqueue : Text → Text → ℤ → ℕ → ℕ → ℕ → Queues → Queues × Text
unfolding push wake_first
enqueue name body delay id_time now touch_time s =
    let seq = (s.queue_seq + 1) % 2 ^ 64 in
    let id = queue_id id_time seq in
    let q = queue_or_new name s.queues in
    let q_after = push (new_message id body now delay q.max_retries) q in
    let (waits, woken) = wake_first name (waiters name s.queue_waits) s.queue_waits s.woken in
    (
      record s {
        queues = put name q_after s.queues;
        queue_waits = waits;
        woken = woken;
        queue_seq = seq;
        keys = touch (name ∷ []) touch_time s.keys;
      },
      id,
    )

-- the first message that is not delayed, and the messages without it
unfoldable pub take_ready : ℕ → List QueueMessage → Option (QueueMessage × List QueueMessage)
take_ready now [] = none
take_ready now (msg ∷ msgs) =
    if ltb now msg.created_at
    then elim (take_ready now msgs) [ none ↦ none | some (found, left) ↦ some (found, msg ∷ left) ]
    else some (msg, msgs)

-- a message that was not acknowledged: a failure more, and the dead letters or the pending messages
unfoldable pub failed : ℕ → QueueMessage → Queue → Queue
failed now msg q =
    let again = record msg { retries = msg.retries + 1 } in
    if ltb again.retries msg.max_retry
    then record q { pending = q.pending ++ record again { created_at = now } ∷ [] }
    else record q { dead_letter = q.dead_letter ++ again ∷ [] }

-- `delete(q.Processing, id)`
unfoldable pub release : Text → Queue → Queue
release id q = record q { processing = delete id q.processing }

-- `requeueExpiredLocked` on its queue: the loop goes over the ids in some order
unfoldable pub requeue_expired : ℕ → List Text → Queue → Queue
unfolding failed release
requeue_expired now [] q = q
requeue_expired now (id ∷ ids) q = elim (lookup id q.processing) [
  | none ↦ requeue_expired now ids q
  | some msg ↦
      if ltb msg.ack_deadline now
      then requeue_expired now ids (failed now msg (release id q))
      else requeue_expired now ids q
]

-- the body of the loop of `Dequeue` for the message that it finds
unfoldable pub deliver : ℕ → QueueMessage → List QueueMessage → Queue → Queue × QueueMessage
deliver now msg left q =
    let out = record msg { ack_deadline = now + q.ack_timeout } in
    (record q { pending = left; processing = put msg.id out q.processing }, out)

-- `requeueExpiredLocked`
unfoldable pub requeue_expired_locked : Text → ℕ → List Text → Queues → Queues
unfolding requeue_expired
requeue_expired_locked name now ids s = elim (lookup name s.queues) [
  | none ↦ s
  | some q ↦ record s { queues = put name (requeue_expired now ids q) s.queues }
]

-- both rounds of `Dequeue`: the expired messages go back, then the loop over the pending ones. The
-- readings of the clock are those of `requeueExpiredLocked`, of the loop and of the touch.
unfoldable pub try_dequeue : Text → List Text → ℕ → ℕ → ℕ → Queues → Queues × Option QueueMessage
unfolding requeue_expired_locked take_ready deliver
try_dequeue name ids expiry_time now touch_time s =
    let requeued = requeue_expired_locked name expiry_time ids s in
    elim (lookup name requeued.queues) [
      | none ↦ (requeued, none)
      | some q ↦ elim (take_ready now q.pending) [
        | none ↦ (requeued, none)
        | some (msg, left) ↦
            let (q_after, out) = deliver now msg left q in
            (
              record requeued {
                queues = put name q_after requeued.queues;
                keys = touch (name ∷ []) touch_time requeued.keys;
              },
              some out,
            )
      ]
    ]

-- What the first round of `Dequeue` ends in.
pub data Dequeued : Type 0 where
  delivered : QueueMessage → Dequeued
  nothing_there : Dequeued
  waiting : ℕ → Dequeued

-- `w := &waiter{...}`, put behind the others
unfoldable pub register : Text → Queues → Queues
register name s = record s {
  queue_waits = put name (waiters name s.queue_waits ++ s.next_waiter ∷ []) s.queue_waits;
  next_waiter = suc s.next_waiter;
}

-- `Dequeue` up to the `select`
unfoldable pub dequeue : Text → ℤ → List Text → ℕ → ℕ → ℕ → Queues → Queues × Dequeued
unfolding try_dequeue register
dequeue name timeout ids expiry_time now touch_time s =
    let (s_after, found) = try_dequeue name ids expiry_time now touch_time s in
    elim found [
      | some msg ↦ (s_after, delivered msg)
      | none ↦
          if ltb_ℤ (pos 0) timeout
          then (register name s_after, waiting s_after.next_waiter)
          else (s_after, nothing_there)
    ]

-- `Dequeue` behind the `select`, which ends when the waiter is woken and when the time is up
unfoldable pub dequeue_again : Text → List Text → ℕ → ℕ → ℕ → Queues → Queues × Option QueueMessage
unfolding try_dequeue
dequeue_again name ids expiry_time now touch_time s =
    try_dequeue name ids expiry_time now touch_time s

-- a change of a message in process: `false` and no change when there is none
unfoldable pub settle : Text → Text → ℕ → (QueueMessage → Queue → Queue) → Queues → Queues × Bool
unfolding release
settle name id touch_time change s = elim (lookup name s.queues) [
  | none ↦ (s, false)
  | some q ↦ elim (lookup id q.processing) [
    | none ↦ (s, false)
    | some msg ↦ (
      record s {
        queues = put name (change msg (release id q)) s.queues;
        keys = touch (name ∷ []) touch_time s.keys;
      },
      true,
    )
  ]
]

-- `QAck`
unfoldable pub q_ack : Text → Text → ℕ → Queues → Queues × Bool
unfolding settle
q_ack name id touch_time s = settle name id touch_time (λ msg q. q) s

-- `QNack`
unfoldable pub q_nack : Text → Text → ℕ → ℕ → Queues → Queues × Bool
unfolding settle failed
q_nack name id now touch_time s = settle name id touch_time (failed now) s

-- the count of `QPeek` and `QDead`: the default for a count that is not positive, and no more than
-- there are
unfoldable pub shown : ℤ → ℕ → List QueueMessage → List QueueMessage
shown count default msgs =
    take (min (if ltb_ℤ (pos 0) count then pos_part count else default) (length msgs)) msgs

-- `QPeek`
unfoldable pub q_peek : Text → ℤ → Queues → List QueueMessage
unfolding shown
q_peek name count s = elim (lookup name s.queues) [ none ↦ [] | some q ↦ shown count 1 q.pending ]

-- `QLen`
unfoldable pub q_len : Text → Queues → ℕ
q_len name s = elim (lookup name s.queues) [ none ↦ 0 | some q ↦ length q.pending ]

-- `QInfo`
unfoldable pub q_info : Text → Queues → ℕ × ℕ × ℕ
q_info name s = elim (lookup name s.queues) [
  | none ↦ (0, 0, 0)
  | some q ↦ (length q.pending, length q.processing, length q.dead_letter)
]

-- `QDead`
unfoldable pub q_dead : Text → ℤ → Queues → List QueueMessage
unfolding shown
q_dead name count s = elim (lookup name s.queues) [
  | none ↦ []
  | some q ↦ shown count 10 q.dead_letter
]
