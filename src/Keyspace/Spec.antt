-- ===== src/Keyspace/Spec.antt =====
-- What the commands on strings promise, without the maps: a key has no value, or one with a text and
-- perhaps a deadline, and each command is a function of the value of its key.
use vole.Prelude.{ℕ, Bool, true, false, ◌++◌, Option, some, none, length, if◌then◌else◌}
use vole.Prelude.Text.{Text}
use vole.Prelude.Int.{ℤ, pos, ltb_ℤ, ◌+ℤ◌}
use vole.Prelude.Decimal.{append_int}
use vole.Prelude.Map.{lookup}
use vole.TimeSeries.{wrap64}
use vole.Keyspace.{Store, Answer, ok, fail, not_an_integer, past_deadline}
use vole.Keyspace.Strings.{as_number, set, set_nx, get, incr_by}
use vole.Keyspace.Edits.{append, get_set, get_del}
use vole.Keyspace.Expiry.{expire, persist}
use vole.Keyspace.Moves.{del_one}

pub record Slot : Type 0 where
  pub text : Text
  pub deadline : Option ℤ

unfoldable pub slot : Option Text → Option ℤ → Option Slot
slot none d = none
slot (some t) d = some (record { text = t; deadline = d })

unfoldable pub text_of : Option Slot → Option Text
text_of none = none
text_of (some x) = some x.text

-- a value that is past its deadline is none
unfoldable pub settle : ℤ → Option Slot → Option Slot
settle now none = none
settle now (some x) = if past_deadline now x.deadline then none else some x

-- what a client can find at a key
unfoldable pub current : {F J : Type 0} → ℤ → Text → Store F J → Option Slot
current now key s = settle now (slot (lookup key s.kv) (lookup key s.expires))

pub data Command : Type 0 where
  do_set : Text → ℤ → Command
  do_set_nx : Text → ℤ → Command
  do_get : Command
  do_incr_by : ℤ → Command
  do_append : Text → Command
  do_get_set : Text → Command
  do_get_del : Command
  do_expire : ℤ → Command
  do_persist : Command
  do_del : Command

pub data Reply : Type 0 where
  nothing : Reply
  flag : Bool → Reply
  value : Option Text → Reply
  answer : Answer ℤ → Reply
  old_value : Answer (Option Text) → Reply
  size : Answer ℕ → Reply
  count : ℕ → Reply

-- the command on the store
unfoldable pub execute : {F J : Type 0} → Command → Text → ℤ → Store F J → Reply × Store F J
execute (do_set v ttl) key now s = (nothing, set key v ttl now s)
execute (do_set_nx v ttl) key now s = let (b, t) = set_nx key v ttl now s in (flag b, t)
execute do_get key now s = let (v, t) = get key now s in (value v, t)
execute (do_incr_by d) key now s = let (a, t) = incr_by key d now s in (answer a, t)
execute (do_append v) key now s = let (a, t) = append key v now s in (size a, t)
execute (do_get_set v) key now s = let (a, t) = get_set key v now s in (old_value a, t)
execute do_get_del key now s = let (v, t) = get_del key now s in (value v, t)
execute (do_expire ttl) key now s = let (b, t) = expire key ttl now s in (flag b, t)
execute do_persist key now s = let (b, t) = persist key now s in (flag b, t)
execute do_del key now s = let (n, t) = del_one key now s in (count n, t)

abbrev pub fresh : Text → ℤ → ℤ → Slot
fresh v ttl now = record {
  text = v;
  deadline = (if ltb_ℤ (pos 0) ttl then some (now +ℤ ttl) else none);
}

unfoldable pub add_to : ℤ → Slot → Option ℤ → Reply × Option Slot
add_to d x none = (answer (fail not_an_integer), some x)
add_to d x (some n) =
    (answer (ok (wrap64 (n +ℤ d))), some (record x { text = append_int (wrap64 (n +ℤ d)) }))

unfoldable pub had : Option ℤ → Bool
had none = false
had (some t) = true

-- what the command does to the value of its key
unfoldable pub spec : Command → ℤ → Option Slot → Reply × Option Slot
spec (do_set v ttl) now o = (nothing, some (fresh v ttl now))
spec (do_set_nx v ttl) now none = (flag true, some (fresh v ttl now))
spec (do_set_nx v ttl) now (some x) = (flag false, some x)
spec do_get now o = (value (text_of o), o)
spec (do_incr_by d) now none = (
  answer (ok (wrap64 (pos 0 +ℤ d))),
  some (record { text = append_int (wrap64 (pos 0 +ℤ d)); deadline = none }),
)
spec (do_incr_by d) now (some x) = add_to d x (as_number x.text)
spec (do_append v) now none = (size (ok (length v)), some (record { text = v; deadline = none }))
spec (do_append v) now (some x) =
    (size (ok (length (x.text ++ v))), some (record x { text = x.text ++ v }))
spec (do_get_set v) now o =
    (old_value (ok (text_of o)), some (record { text = v; deadline = none }))
spec do_get_del now o = (value (text_of o), none)
spec (do_expire ttl) now none = (flag false, none)
spec (do_expire ttl) now (some x) =
    (flag true, settle now (some (record x { deadline = some (now +ℤ ttl) })))
spec do_persist now none = (flag false, none)
spec do_persist now (some x) = (flag (had x.deadline), some (record x { deadline = none }))
spec do_del now none = (count 0, none)
spec do_del now (some x) = (count 1, none)
