-- ===== src/Queue/Flow.antt =====
-- No message is lost and none is doubled: where the messages of a queue are.
use vole.Prelude.{
  ℕ, suc, ◌+◌, ◌≤◌, ◌≡◌, refl, sym, subst, ◌∙◌, true, false, List, [], ◌∷◌, ◌++◌, Option, some,
  none, ltb, if◌then◌else◌, arith, Bool-cases, Option-cases, inl, inr,
}
use vole.Prelude.Text.{Text, text_eq, text_eq_iff}
use vole.Prelude.Map.{
  Map, lookup, put, delete, has, IsMap, lookup-has-some, has-put, has-delete, delete-IsMap,
  put-IsMap,
}
use vole.Queue.{Queue, QueueMessage, push, take_ready, failed, release, requeue_expired, deliver}

-- How often the list holds a message with this id.
unfoldable pub copies : Text → List QueueMessage → ℕ
copies j [] = 0
copies j (m ∷ ms) = let rest = copies j ms in if text_eq m.id j then suc rest else rest

-- How often the queue holds a message with this id, wherever it is.
abbrev pub held : Text → Queue → ℕ
held j q = copies j q.pending + (if has j q.processing then 1 else 0) + copies j q.dead_letter

-- A message in process stands under its own id, each id once.
abbrev pub Keyed : Map QueueMessage → Type 0
Keyed [] = Unit {0}
Keyed ((k, m) ∷ ps) = (k ≡ m.id) × Keyed ps

-- The queue holds no id twice, and the messages in process stand under their ids.
pub record IsValid (q : Queue) : Type 0 where
  pub keyed : Keyed q.processing
  pub is_map : IsMap q.processing
  pub once : (j : Text) → held j q ≤ 1

copies-append :
    (j : Text) (ms ns : List QueueMessage) → copies j (ms ++ ns) ≡ copies j ms + copies j ns
unfolding copies
copies-append j [] ns = omega arith
copies-append j (m ∷ ms) ns = ground (arith, copies-append j ms ns)

put-Keyed : (m : QueueMessage) (ps : Map QueueMessage) → Keyed ps → Keyed (put m.id m ps)
unfolding put
put-Keyed m [] h = (refl, tt)
put-Keyed m ((k, n) ∷ ps) h = ground (arith, put-Keyed m ps h.1, h)

delete-Keyed : (k : Text) (ps : Map QueueMessage) → Keyed ps → Keyed (delete k ps)
unfolding delete
delete-Keyed k [] h = tt
delete-Keyed k ((j, n) ∷ ps) h = ground (arith, delete-Keyed k ps h.1, h)

pub lookup-Keyed :
    (k : Text) (m : QueueMessage) (ps : Map QueueMessage)
    → Keyed ps
    → lookup k ps ≡ some m
    → k ≡ m.id
unfolding lookup
lookup-Keyed k m [] h e = absurd (ground (arith, e))
lookup-Keyed k m ((j, n) ∷ ps) h e =
    ground (arith, text_eq_iff j k, lookup-Keyed k m ps h.1, h.0, e)

module _ (j : Text) where
  -- one, for a message with the id
  abbrev pub one : Text → ℕ
  one id = if text_eq id j then 1 else 0

  pub held-push : (m : QueueMessage) (q : Queue) → held j (push m q) ≡ held j q + one m.id
  unfolding push copies
  held-push m q = ground (arith, copies-append j q.pending (m ∷ []))

  held-failed :
      (now : ℕ) (m : QueueMessage) (q : Queue) → held j (failed now m q) ≡ held j q + one m.id
  unfolding failed copies
  held-failed now m q = elim (Bool-cases (ltb (m.retries + 1) m.max_retry)) [
    | inl e ↦ rw e (
        ground (
          arith,
          copies-append j q.pending (record m { retries = m.retries + 1; created_at = now } ∷ []),
        ))
    | inr e ↦
        rw e (
          ground (arith, copies-append j q.dead_letter (record m { retries = m.retries + 1 } ∷ [])))
  ]

  pub held-release :
      (id : Text) (m : QueueMessage) (q : Queue)
      → lookup id q.processing ≡ some m
      → held j (release id q) + one id ≡ held j q
  unfolding release
  held-release id m q e =
      ground
        (arith, has-delete id j q.processing, lookup-has-some id m q.processing e, text_eq_iff id j)

  copies-take_ready_cases :
      (now : ℕ) (x : QueueMessage) (ms : List QueueMessage)
      (o : Option (QueueMessage × List QueueMessage))
      → take_ready now ms ≡ o
      → ((m : QueueMessage) (left : List QueueMessage)
          → o ≡ some (m, left)
          → copies j ms ≡ copies j left + one m.id)
      → (m : QueueMessage) (left : List QueueMessage) → take_ready now (x ∷ ms) ≡ some (m, left)
      → copies j (x ∷ ms) ≡ copies j left + one m.id
  unfolding take_ready copies
  copies-take_ready_cases now x ms none h k m left e = ground (arith, h, e)
  copies-take_ready_cases now x ms (some (n, rest)) h k m left e =
      ground (arith, h, e, k n rest refl)

  copies-take_ready :
      (now : ℕ) (ms left : List QueueMessage) (m : QueueMessage)
      → take_ready now ms ≡ some (m, left)
      → copies j ms ≡ copies j left + one m.id
  unfolding take_ready
  copies-take_ready now [] left m e = absurd (ground (arith, e))
  copies-take_ready now (x ∷ ms) left m e =
      copies-take_ready_cases now x ms (take_ready now ms) refl
        (λ n rest. copies-take_ready now ms rest n) m left e

  pub held-deliver :
      (now : ℕ) (m : QueueMessage) (left : List QueueMessage) (q : Queue)
      → IsValid q
      → take_ready now q.pending ≡ some (m, left)
      → held j (deliver now m left q).0 ≡ held j q
  unfolding deliver
  held-deliver now m left q v e = ground (
    arith,
    has-put m.id j (record m { ack_deadline = now + q.ack_timeout }) q.processing,
    copies-take_ready now q.pending left m e,
    text_eq_iff m.id j,
    v.once j,
  )

-- A message of the queue that goes back or to the dead letters.
pub held-back :
    (j : Text) (id : Text) (now : ℕ) (m : QueueMessage) (q : Queue)
    → IsValid q
    → lookup id q.processing ≡ some m
    → held j (failed now m (release id q)) ≡ held j q
held-back j id now m q v e =
    let same = lookup-Keyed id m q.processing v.keyed e in
    subst (λ i. held j (failed now m (release i q)) ≡ held j q) (sym same)
      (held-failed j now m (release m.id q)
        ∙ held-release j m.id m q (subst (λ i. lookup i q.processing ≡ some m) same e))

processing-failed :
    (now : ℕ) (m : QueueMessage) (q : Queue) → (failed now m q).processing ≡ q.processing
unfolding failed
processing-failed now m q = ground arith

pub back-IsValid :
    (id : Text) (now : ℕ) (m : QueueMessage) (q : Queue)
    → IsValid q
    → lookup id q.processing ≡ some m
    → IsValid (failed now m (release id q))
back-IsValid id now m q v e = record {
  keyed =
      subst Keyed (sym (processing-failed now m (release id q)))
        (unfold release in delete-Keyed id q.processing v.keyed);
  is_map =
      subst IsMap (sym (processing-failed now m (release id q)))
        (unfold release in delete-IsMap id q.processing v.is_map);
  once = λ j. subst (λ n. n ≤ 1) (sym (held-back j id now m q v e)) (v.once j);
}

pub deliver-IsValid :
    (now : ℕ) (m : QueueMessage) (left : List QueueMessage) (q : Queue)
    → IsValid q
    → take_ready now q.pending ≡ some (m, left)
    → IsValid (deliver now m left q).0
deliver-IsValid now m left q v e = record {
  keyed =
      unfold deliver in
      put-Keyed (record m { ack_deadline = now + q.ack_timeout }) q.processing v.keyed;
  is_map =
      unfold deliver in
      put-IsMap m.id (record m { ack_deadline = now + q.ack_timeout }) q.processing v.is_map;
  once = λ j. subst (λ n. n ≤ 1) (sym (held-deliver j now m left q v e)) (v.once j);
}

-- One round of the loop over the messages in process.
module _ (now : ℕ) (id : Text) (ids : List Text) (q : Queue) where
  pub requeue_expired_absent :
      lookup id q.processing ≡ none → requeue_expired now (id ∷ ids) q ≡ requeue_expired now ids q
  unfolding requeue_expired
  requeue_expired_absent e = rw (requeue_expired, e)

  pub requeue_expired_early :
      (m : QueueMessage)
      → lookup id q.processing ≡ some m
      → ltb m.ack_deadline now ≡ false
      → requeue_expired now (id ∷ ids) q ≡ requeue_expired now ids q
  unfolding requeue_expired
  requeue_expired_early m e d = rw (requeue_expired, e, d)

  pub requeue_expired_late :
      (m : QueueMessage)
      → lookup id q.processing ≡ some m
      → ltb m.ack_deadline now ≡ true
      → requeue_expired now (id ∷ ids) q ≡ requeue_expired now ids (failed now m (release id q))
  unfolding requeue_expired
  requeue_expired_late m e d = rw (requeue_expired, e, d)

-- The expired messages go to the pending ones or to the dead letters, whatever the order.
pub requeue_expired-IsValid :
    (now : ℕ) (ids : List Text) (q : Queue)
    → IsValid q
    → IsValid (requeue_expired now ids q)
      × ((j : Text) → held j (requeue_expired now ids q) ≡ held j q)
requeue_expired-IsValid now [] q v = unfold requeue_expired in (v, λ j. refl)
requeue_expired-IsValid now (id ∷ ids) q v = elim (Option-cases (lookup id q.processing)) [
  | inl e ↦
      subst Kept (sym (requeue_expired_absent now id ids q e)) (requeue_expired-IsValid now ids q v)
  | inr (m, e) ↦ elim (Bool-cases (ltb m.ack_deadline now)) [
    | inr d ↦
        subst Kept (sym (requeue_expired_early now id ids q m e d))
          (requeue_expired-IsValid now ids q v)
    | inl d ↦
        let (valid, same) =
          requeue_expired-IsValid now ids (failed now m (release id q))
            (back-IsValid id now m q v e) in
        subst Kept (sym (requeue_expired_late now id ids q m e d))
          (valid, λ j. same j ∙ held-back j id now m q v e)
  ]
]
  where
    Kept : Queue → Type 0
    Kept r = IsValid r × ((j : Text) → held j r ≡ held j q)

pub acked-IsValid :
    (id : Text) (m : QueueMessage) (q : Queue)
    → IsValid q
    → lookup id q.processing ≡ some m
    → IsValid (release id q)
acked-IsValid id m q v e = record {
  keyed = unfold release in delete-Keyed id q.processing v.keyed;
  is_map = unfold release in delete-IsMap id q.processing v.is_map;
  once = λ j. omega (arith, held-release j id m q e, v.once j);
}

pub push-IsValid : (m : QueueMessage) (q : Queue) → IsValid q → held m.id q ≡ 0 → IsValid (push m q)
push-IsValid m q v h = record {
  keyed = unfold push in v.keyed;
  is_map = unfold push in v.is_map;
  once = λ j. ground (arith, held-push j m q, v.once j, text_eq_iff m.id j, h);
}
