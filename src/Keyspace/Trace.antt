-- ===== src/Keyspace/Trace.antt =====
-- internal/store/store.go: runs of the commands on strings, one after the other as the clock goes on,
-- answer as the promises of Keyspace/Spec do.
use vole.Prelude.{
  ◌≡◌, refl, inl, inr, sym, ap, ap₂, subst, ◌∙◌, true, List, [], ◌∷◌, Option, none, some, arith,
  if◌then◌else◌, Bool-cases,
}
use vole.Prelude.Text.{Text, text_eq, text_eq_iff}
use vole.Prelude.Int.{ℤ, ◌≤ℤ◌}
use vole.Prelude.Map.{lookup}
use vole.Keyspace.{Store, past_deadline}
use vole.Keyspace.Spec.{
  Slot, Command, do_set, do_set_nx, do_get, do_incr_by, do_append, do_get_set, do_get_del,
  do_expire, do_persist, do_del, Reply, current, execute, settle, slot, spec,
}
use vole.Keyspace.Plain.{IsPlain}
use vole.Keyspace.Leaves.{Leaves}
use vole.Keyspace.Commands.{refine-set_nx, refine-append, refine-incr_by}
use vole.Keyspace.Deadlines.{refine-expire, refine-persist, refine-del, refine-get_del}
use vole.Keyspace.Writes.{refine-set, refine-get, refine-get_set}

-- Each command keeps its promise.
pub refine-execute :
    {F J : Type 0} (c : Command) (key : Text) (now : ℤ) (s : Store F J)
    → IsPlain key s
    → Leaves key now s (execute c key now s) (spec c now (current now key s))
refine-execute (do_set v ttl) key now s p = refine-set key now s p v ttl
refine-execute (do_set_nx v ttl) key now s p = refine-set_nx key now s p v ttl
refine-execute do_get key now s p = refine-get key now s p
refine-execute (do_incr_by d) key now s p = refine-incr_by key now s p d
refine-execute (do_append v) key now s p = refine-append key now s p v
refine-execute (do_get_set v) key now s p = refine-get_set key now s p v
refine-execute do_get_del key now s p = refine-get_del key now s p
refine-execute (do_expire ttl) key now s p = refine-expire key now s p ttl
refine-execute do_persist key now s p = refine-persist key now s p
refine-execute do_del key now s p = refine-del key now s p

-- a command with its time and its key
pub record Call : Type 0 where
  pub time : ℤ
  pub key : Text
  pub command : Command

-- the replies of the store to the calls
unfoldable pub run : {F J : Type 0} → List Call → Store F J → List Reply
run [] s = []
run (c ∷ cs) s = let (r, t) = execute c.command c.key c.time s in r ∷ run cs t

-- the replies that are promised, where `a` has the value of each key
unfoldable pub promised : List Call → (Text → Option Slot) → List Reply
promised [] a = []
promised (c ∷ cs) a =
    let (r, o) = spec c.command c.time (settle c.time (a c.key)) in
    r ∷ promised cs (λ j. if text_eq c.key j then o else a j)

-- the clock does not go back
abbrev pub Onward : ℤ → List Call → Type 0
Onward now [] = Unit {0}
Onward now (c ∷ cs) = (now ≤ℤ c.time) × Onward c.time cs

-- What is past its deadline stays so.
past-later :
    (now later : ℤ) (d : Option ℤ)
    → now ≤ℤ later
    → past_deadline now d ≡ true
    → past_deadline later d ≡ true
unfolding past_deadline
past-later now later none h k = k
past-later now later (some t) h k = ground arith

settle-settle :
    (now later : ℤ) (o : Option Slot) → now ≤ℤ later → settle later (settle now o) ≡ settle later o
unfolding settle
settle-settle now later none h = refl
settle-settle now later (some x) h = elim (Bool-cases (past_deadline now x.deadline)) [
  | inl e ↦ rw (e, past-later now later x.deadline h e) refl
  | inr e ↦ rw e refl
]

module _ {F J : Type 0} where
  current-later :
      (now later : ℤ) (j : Text) (s : Store F J)
      → now ≤ℤ later
      → current later j s ≡ settle later (current now j s)
  unfolding current
  current-later now later j s h =
      sym (settle-settle now later (slot (lookup j s.kv) (lookup j s.expires)) h)

  -- the store has the values that `a` has
  abbrev pub Agreed : ℤ → Store F J → (Text → Option Slot) → Type 0
  Agreed now s a = (j : Text) → current now j s ≡ settle now (a j)

  Agreed-later :
      (now later : ℤ) (s : Store F J) (a : Text → Option Slot)
      → now ≤ℤ later
      → Agreed now s a
      → Agreed later s a
  Agreed-later now later s a h g j =
      current-later now later j s h ∙ ap (settle later) (g j) ∙ settle-settle now later (a j) h

  settled_current :
      (now : ℤ) (j : Text) (s : Store F J) → settle now (current now j s) ≡ current now j s
  settled_current now j s = sym (current-later now now j s (omega arith))

  Agreed-step :
      (c : Command) (key : Text) (now : ℤ) (s : Store F J) (a : Text → Option Slot)
      → IsPlain key s
      → Agreed now s a
      → Agreed now
          (execute c key now s).1
          (λ j. if text_eq key j then (spec c now (settle now (a key))).1 else a j)
  Agreed-step c key now s a p g j =
      let l = refine-execute c key now s p in
      let u : Store F J = (execute c key now s).1 in
      elim (Bool-cases (text_eq key j)) [
        | inl e ↦ rw e (
            subst (λ i. current now i u ≡ settle now (spec c now (settle now (a key))).1)
              ((text_eq_iff key j).0 e)
              (sym (settled_current now key u)
                ∙ ap (settle now) (l.changes ∙ ap (λ o. (spec c now o).1) (g key))))
        | inr e ↦ rw e (l.others j e ∙ g j)
      ]

  -- From plain values the store gives the replies that are promised, as long as the clock does not go
  -- back.
  pub run-promised :
      (cs : List Call) (now : ℤ) (s : Store F J) (a : Text → Option Slot)
      → ((j : Text) → IsPlain j s)
      → Agreed now s a
      → Onward now cs
      → run cs s ≡ promised cs a
  unfolding run promised
  run-promised [] now s a p g h = refl
  run-promised (c ∷ cs) now s a p g h =
      let l = refine-execute c.command c.key c.time s (p c.key) in
      let g₁ = Agreed-later now c.time s a h.0 g in
      ap₂ ◌∷◌ (l.replies ∙ ap (λ o. (spec c.command c.time o).0) (g₁ c.key)) (
        run-promised cs c.time (execute c.command c.key c.time s).1
          (λ j.
            if text_eq c.key j then (spec c.command c.time (settle c.time (a c.key))).1 else a j)
          (λ j. l.plain j (p j)) (Agreed-step c.command c.key c.time s a (p c.key) g₁) h.1)
