-- ===== src/Queue/Tests.antt =====
-- The queues at concrete messages: one is enqueued, delivered, and given back.
use vole.Prelude.{◌+◌, ◌≡◌, ◌%◌, ◌^◌, refl, false, [], ◌∷◌, arith}
use vole.Prelude.Text.{Text}
use vole.Prelude.Int.{pos}
use vole.Prelude.Map.{lookup, has}
use vole.Queue.{
  Queues, QueueMessage, new_queue, queue_id, enqueue, try_dequeue, dequeue_again, register, q_ack,
  waiters,
}
use vole.Queue.Flow.{IsValid, copies}
use vole.Queue.Kept.{
  AllValid, Takes, Keeps, held_in, held_in-enqueue, q_ack-Takes, try_dequeue-Keeps,
}
use vole.Queue.Reach.{AllTried, start, next, enqueued, Reaches-AllTried}
use vole.Queue.Wakes.{woken-dequeue_again}

abbrev jobs : Text
jobs = b'j' ∷ []

abbrev nothing : Queues
nothing = record {
  queues = [];
  queue_waits = [];
  woken = [];
  next_waiter = 0;
  queue_seq = 0;
  keys = record {
    version = 0;
    key_version = [];
    on_change = false;
    events = [];
    max_memory = pos 0;
    access_time = [];
  };
}

new_queue-IsValid : IsValid new_queue
unfolding copies has
new_queue-IsValid = record { keyed = tt; is_map = tt; once = λ j. omega arith }

nothing-AllValid : AllValid nothing
unfolding lookup
nothing-AllValid n = new_queue-IsValid

abbrev filled : Queues
filled = (enqueue jobs (b'x' ∷ []) (pos 0) 1000000 1000000 1000000 nothing).0

abbrev id_one : Text
id_one = queue_id 1000000 1

absent : held_in jobs (queue_id 1000000 ((nothing.queue_seq + 1) % 2 ^ 64)) nothing ≡ 0
unfolding copies has lookup
absent = refl

filled-AllValid : AllValid filled
filled-AllValid =
    (held_in-enqueue jobs (b'x' ∷ []) (pos 0) 1000000 1000000 1000000 nothing nothing-AllValid
      absent).0

abbrev busy : Queues
busy = (try_dequeue jobs [] 2000000 2000000 2000000 filled).0

try_dequeue-Keeps_example : Keeps filled busy
try_dequeue-Keeps_example = try_dequeue-Keeps jobs [] 2000000 2000000 2000000 filled filled-AllValid

busy-AllValid : AllValid busy
busy-AllValid = (try_dequeue-Keeps jobs [] 2000000 2000000 2000000 filled filled-AllValid).0

q_ack-Takes_example : Takes jobs id_one busy (q_ack jobs id_one 3000000 busy)
q_ack-Takes_example = q_ack-Takes jobs id_one 3000000 busy busy-AllValid

abbrev late_message : QueueMessage
late_message = record {
  id = b'a' ∷ [];
  body = [];
  created_at = 90;
  retries = 0;
  max_retry = 3;
  ack_deadline = 0;
}

abbrev on_time : QueueMessage
on_time = record {
  id = b'b' ∷ [];
  body = [];
  created_at = 10;
  retries = 0;
  max_retry = 3;
  ack_deadline = 0;
}

nothing-AllTried : AllTried nothing
unfolding lookup
nothing-AllTried n = record {
  pending_left = tt;
  processing_left = tt;
  dead_used_up = tt;
  some_try = omega arith;
}

Reaches-AllTried_example : AllTried filled
Reaches-AllTried_example =
    Reaches-AllTried nothing filled nothing-AllTried
      (next nothing filled start (enqueued jobs (b'x' ∷ []) (pos 0) 1000000 1000000 1000000))

no_waiters : waiters jobs nothing.queue_waits ≡ []
unfolding lookup
no_waiters = refl

woken-dequeue_again_example :
    (enqueue jobs
      (b'x' ∷ [])
      (pos 0)
      7
      7
      7
      (dequeue_again jobs [] 6 6 6 (register jobs (register jobs nothing))).0).0.woken
    ≡ 0 ∷ []
woken-dequeue_again_example =
    woken-dequeue_again jobs (b'x' ∷ []) (pos 0) [] 7 7 7 6 6 6 nothing no_waiters
