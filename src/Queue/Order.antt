-- ===== src/Queue/Order.antt =====
-- Which message `Dequeue` delivers.
use vole.Prelude.{
  ℕ, ◌≡◌, refl, sym, ap, subst, Bool, true, false, List, [], ◌∷◌, ◌++◌, Option, some, none, ltb,
  Bool-cases, inl, inr,
}
use vole.Prelude.Slices.{Every}
use vole.Queue.{QueueMessage, take_ready}

-- The message is to be seen later.
abbrev pub delayed : ℕ → QueueMessage → Bool
delayed now m = ltb now m.created_at

-- What is taken out of the list, and what is left: the first message that is not delayed, or, when
-- all are delayed, nothing.
abbrev pub TakesFirst : ℕ → List QueueMessage → Option (QueueMessage × List QueueMessage) → Type 0
TakesFirst now ms none = Every (delayed now) ms
TakesFirst now ms (some (m, left)) =
    (before : List QueueMessage) × (after : List QueueMessage) × (ms ≡ before ++ m ∷ after)
    × (left ≡ before ++ after)
    × Every (delayed now) before
    × (delayed now m ≡ false)

-- behind a delayed message
put_before :
    QueueMessage
    → Option (QueueMessage × List QueueMessage)
    → Option (QueueMessage × List QueueMessage)
put_before x none = none
put_before x (some (found, left)) = some (found, x ∷ left)

TakesFirst-cons :
    (now : ℕ) (x : QueueMessage) (ms : List QueueMessage)
    (o : Option (QueueMessage × List QueueMessage))
    → delayed now x ≡ true
    → TakesFirst now ms o
    → TakesFirst now (x ∷ ms) (put_before x o)
unfolding put_before
TakesFirst-cons now x ms none d h = (d, h)
TakesFirst-cons now x ms (some (m, left)) d (before, after, e, f, g, r) =
    (x ∷ before, after, ap (◌∷◌ x) e, ap (◌∷◌ x) f, (d, g), r)

take_ready-cons :
    (now : ℕ) (x : QueueMessage) (ms : List QueueMessage)
    → delayed now x ≡ true
    → take_ready now (x ∷ ms) ≡ put_before x (take_ready now ms)
unfolding take_ready put_before
take_ready-cons now x ms d = rw d

take_ready-here :
    (now : ℕ) (x : QueueMessage) (ms : List QueueMessage)
    → delayed now x ≡ false
    → take_ready now (x ∷ ms) ≡ some (x, ms)
unfolding take_ready
take_ready-here now x ms d = rw d

-- The loop over the pending messages finds the first one that is not delayed and takes it out,
-- the others in their order; when every message is delayed, it finds none.
pub take_ready-TakesFirst :
    (now : ℕ) (ms : List QueueMessage) → TakesFirst now ms (take_ready now ms)
take_ready-TakesFirst now [] = unfold take_ready in tt
take_ready-TakesFirst now (x ∷ ms) = elim (Bool-cases (delayed now x)) [
  | inl d ↦
      subst (TakesFirst now (x ∷ ms)) (sym (take_ready-cons now x ms d))
        (TakesFirst-cons now x ms (take_ready now ms) d (take_ready-TakesFirst now ms))
  | inr r ↦
      subst (TakesFirst now (x ∷ ms)) (sym (take_ready-here now x ms r)) ([], ms, refl, refl, tt, r)
]
