-- ===== src/SlowLog/Newest.antt =====
-- The slow log holds the newest entries of a log without a limit.
use vole.Prelude.{
  ℕ, zero, suc, ◌+◌, ◌-◌, ◌≤◌, ◌≡◌, refl, sym, ap, ◌∙◌, true, false, List, [], ◌∷◌, ◌++◌, Option,
  some, none, length, drop, ltb, if◌then◌else◌, arith, Bool-cases, inl, inr, length-append,
  length-drop, append_assoc, append-nil, ap₂,
}
use vole.Prelude.Text.{Text}
use vole.Prelude.Int.{ℤ, pos, ltb_ℤ}
use vole.SlowLog.{SlowLog, SlowLogEntry, trim, record_command}

-- A call of `Record`, with the time of its entry.
pub record Call : Type 0 where
  pub took : ℤ
  pub words : List Text
  pub from : Text
  pub at : ℕ

-- The entries of all the slow calls, numbered from `n + 1`.
unfoldable pub slow_entries : ℤ → ℕ → List Call → List SlowLogEntry
slow_entries threshold n [] = []
slow_entries threshold n (c ∷ cs) =
    if ltb_ℤ c.took threshold
    then slow_entries threshold n cs
    else record {
      id = n + 1;
      timestamp = c.at;
      duration = c.took;
      command = c.words;
      client = c.from;
    }
      ∷ slow_entries threshold (n + 1) cs

-- The calls one after another; `none` is a panic.
unfoldable pub record_all : List Call → SlowLog → Option SlowLog
record_all [] sl = some sl
record_all (c ∷ cs) sl = elim (record_command c.took c.words c.from c.at sl) [
  | none ↦ none
  | some sl_after ↦ record_all cs sl_after
]

-- The last `m` values.
abbrev pub newest : {A : Type 0} → ℕ → List A → List A
newest m xs = drop (length xs - m) xs

drop-append_under :
    {A : Type 0} (n : ℕ) (xs ys : List A) → n ≤ length xs → drop n (xs ++ ys) ≡ drop n xs ++ ys
drop-append_under zero xs ys h = refl
drop-append_under (suc n) [] ys h = absurd (omega arith)
drop-append_under (suc n) (x ∷ xs) ys h = drop-append_under n xs ys (omega arith)

drop-nil : {A : Type 0} (n : ℕ) → [] ≡ drop {A = A} n []
drop-nil zero = refl
drop-nil (suc n) = refl

drop-drop : {A : Type 0} (m n : ℕ) (xs : List A) → drop m (drop n xs) ≡ drop (n + m) xs
drop-drop m zero xs = let same : m ≡ 0 + m = omega arith in ap (λ k. drop k xs) same
drop-drop {A = A} zero (suc n) [] = drop-nil (suc n + 0)
drop-drop {A = A} (suc m) (suc n) [] = drop-nil (suc n + suc m)
drop-drop m (suc n) (x ∷ xs) =
    let same : suc (n + m) ≡ suc n + m = omega arith in
    drop-drop m n xs ∙ ap (λ k. drop k (x ∷ xs)) same

-- What is older than the newest is not looked at again.
newest-append :
    {A : Type 0} (m : ℕ) (xs ys : List A) → newest m (newest m xs ++ ys) ≡ newest m (xs ++ ys)
newest-append m xs ys =
    let k = length xs - m in
    let count : k + (length (drop k xs ++ ys) - m) ≡ length (xs ++ ys) - m =
      omega (arith, length-append (drop k xs) ys, length-append xs ys, length-drop k xs) in
    ap (drop (length (drop k xs ++ ys) - m)) (sym (drop-append_under k xs ys (omega arith)))
    ∙ drop-drop (length (drop k xs ++ ys) - m) k (xs ++ ys)
    ∙ ap (λ n. drop n (xs ++ ys)) count

trim-newest : (m : ℕ) (entries : List SlowLogEntry) → trim (pos m) entries ≡ some (newest m entries)
unfolding trim
trim-newest m entries = elim (Bool-cases (ltb m (length entries))) [
  | inl e ↦ rw e
  | inr e ↦ let none_over : length entries - m ≡ 0 = ground arith in rw (e, none_over)
]

slow_entries-fast :
    (c : Call) (cs : List Call) (threshold : ℤ) (n : ℕ)
    → ltb_ℤ c.took threshold ≡ true
    → slow_entries threshold n (c ∷ cs) ≡ slow_entries threshold n cs
unfolding slow_entries
slow_entries-fast c cs threshold n fast = rw fast

slow_entries-slow :
    (c : Call) (cs : List Call) (threshold : ℤ) (n : ℕ)
    → ltb_ℤ c.took threshold ≡ false
    → slow_entries threshold n (c ∷ cs)
      ≡ record {
        id = n + 1;
        timestamp = c.at;
        duration = c.took;
        command = c.words;
        client = c.from;
      }
        ∷ slow_entries threshold (n + 1) cs
unfolding slow_entries
slow_entries-slow c cs threshold n slow = rw slow

record_all-cons :
    (c : Call) (cs : List Call) (sl sl_after : SlowLog)
    → record_command c.took c.words c.from c.at sl ≡ some sl_after
    → record_all (c ∷ cs) sl ≡ record_all cs sl_after
unfolding record_all
record_all-cons c cs sl sl_after e = rw (record_all, e)

abbrev entry : Call → ℕ → SlowLogEntry
entry c n = record {
  id = n + 1;
  timestamp = c.at;
  duration = c.took;
  command = c.words;
  client = c.from;
}

-- the log when it holds the newest of these entries
abbrev pub log_of : ℤ → ℕ → ℕ → List SlowLogEntry → SlowLog
log_of threshold m n old = record {
  entries = newest m old;
  threshold = threshold;
  max_len = pos m;
  next_id = n;
}

record_command-trim :
    (c : Call) (sl : SlowLog) (entries : List SlowLogEntry)
    → ltb_ℤ c.took sl.threshold ≡ false
    → trim sl.max_len (sl.entries ++ entry c sl.next_id ∷ []) ≡ some entries
    → record_command c.took c.words c.from c.at sl
      ≡ some (record sl { entries = entries; next_id = sl.next_id + 1 })
unfolding record_command
record_command-trim c sl entries slow e = rw (record_command, slow, e)

record_command-slow :
    (c : Call) (threshold : ℤ) (m n : ℕ) (old : List SlowLogEntry)
    → ltb_ℤ c.took threshold ≡ false
    → record_command c.took c.words c.from c.at (log_of threshold m n old)
      ≡ some (log_of threshold m (n + 1) (old ++ entry c n ∷ []))
record_command-slow c threshold m n old slow =
    record_command-trim c (log_of threshold m n old) (newest m (old ++ entry c n ∷ [])) slow (
      trim-newest m (newest m old ++ entry c n ∷ [])
      ∙ ap some (newest-append m old (entry c n ∷ [])))

record_command-fast :
    (c : Call) (sl : SlowLog)
    → ltb_ℤ c.took sl.threshold ≡ true
    → record_command c.took c.words c.from c.at sl ≡ some sl
unfolding record_command
record_command-fast c sl fast = rw fast

-- Any calls of `Record`: the log holds the newest `maxLen` of the entries it held and of those of
-- the calls that took the threshold or more, oldest first, numbered on without a gap.
pub record_all-log_of :
    (cs : List Call) (threshold : ℤ) (m n : ℕ) (old : List SlowLogEntry)
    → record_all cs (log_of threshold m n old)
      ≡ some (
          log_of threshold m
            (n + length (slow_entries threshold n cs))
            (old ++ slow_entries threshold n cs))
record_all-log_of [] threshold m n old =
    unfold record_all slow_entries in
    let same : n ≡ n + 0 = omega arith in
    ap (λ k. some (log_of threshold m k old)) same
    ∙ ap (λ xs. some (log_of threshold m (n + 0) xs)) (sym (append-nil old))
record_all-log_of (c ∷ cs) threshold m n old = elim (Bool-cases (ltb_ℤ c.took threshold)) [
  | inl fast ↦
      record_all-cons c cs (log_of threshold m n old) (log_of threshold m n old)
        (record_command-fast c (log_of threshold m n old) fast)
      ∙ record_all-log_of cs threshold m n old
      ∙ ap (λ es. some (log_of threshold m (n + length es) (old ++ es)))
          (sym (slow_entries-fast c cs threshold n fast))
  | inr slow ↦
      let count : n + 1 + length (slow_entries threshold (n + 1) cs)
          ≡ n + suc (length (slow_entries threshold (n + 1) cs)) =
        omega arith in
      record_all-cons c cs (log_of threshold m n old)
        (log_of threshold m (n + 1) (old ++ entry c n ∷ []))
        (record_command-slow c threshold m n old slow)
      ∙ record_all-log_of cs threshold m (n + 1) (old ++ entry c n ∷ [])
      ∙ ap₂ (λ k es. some (log_of threshold m k es)) count
          (append_assoc old (entry c n ∷ []) (slow_entries threshold (n + 1) cs))
      ∙ ap (λ es. some (log_of threshold m (n + length es) (old ++ es)))
          (sym (slow_entries-slow c cs threshold n slow))
]
