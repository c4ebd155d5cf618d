-- ===== src/Keys/Watch.antt =====
-- internal/store/store.go: the versions of keys behind changes of the store, which WATCH and EXEC rest on.
use vole.Prelude.{
  ℕ, ◌+◌, ◌^◌, ◌%◌, ◌<◌, ◌≤◌, ◌≡◌, refl, ◌∙◌, Bool, true, false, not, ◌||◌, List, [], ◌∷◌, some,
  length, ◌==◌, if◌then◌else◌, arith,
}
use native.Mathlib.Nat.{mod-eq_of_lt}
use vole.Prelude.Text.{Text, text_eq, text_eq_iff}
use vole.Prelude.Map.{Map, lookup, put, lookup-put}
use vole.Keys.{
  Keys, put_all, touch, touch_no_event, forget, flush_keys, version_of, or_zero, versions_into,
  key_versions, keys_modified_since,
}

-- The key is in the list.
abbrev pub among : Text → List Text → Bool
among j [] = false
among j (key ∷ keys) = if text_eq key j then true else among j keys

lookup-put_all :
    (keys : List Text) (v : ℕ) (m : Map ℕ) (j : Text)
    → lookup j (put_all keys v m) ≡ (if among j keys then some v else lookup j m)
unfolding put_all
lookup-put_all [] v m j = refl
lookup-put_all (key ∷ keys) v m j =
    ground (arith, lookup-put_all keys v (put key v m) j, lookup-put key j v m)

-- No key has a version above the counter.
abbrev pub IsBounded : Keys → Type 0
IsBounded k = (j : Text) → version_of j k ≤ k.version

-- A change of the store: a touch of keys, a key that is deleted, `FlushDB`, or a change of a key's value that
-- touches nothing, as `SRem` makes it.
pub data Change : Type 0 where
  touched : List Text → ℕ → Change
  forgotten : Text → ℕ → Change
  flushed : Change
  silent : Text → Change

abbrev apply : Change → Keys → Keys
apply (touched keys now) k = touch keys now k
apply (forgotten key now) k = forget key now k
apply flushed k = flush_keys k
apply (silent key) k = k

abbrev pub run : List Change → Keys → Keys
run [] k = k
run (c ∷ cs) k = run cs (apply c k)

-- What the changes leave of the version that a key had: it is as it was, a later one, or none.
pub data Fate : Type 0 where
  kept later cleared : Fate

abbrev pub next_fate : Text → Change → Fate → Fate
next_fate j (touched keys now) f = if among j keys then later else f
next_fate j (forgotten key now) f = if text_eq key j then later else f
next_fate j flushed f = cleared
next_fate j (silent key) f = f

abbrev pub fate_of : Text → List Change → Fate → Fate
fate_of j [] f = f
fate_of j (c ∷ cs) f = fate_of j cs (next_fate j c f)

-- A watcher that took its versions at `k` is shown the changes of the key: where the last of them is a touch
-- or a deletion of the key, or `FlushDB` and the key had a version.
abbrev pub shows_key : Text → Keys → List Change → Bool
shows_key j k cs = elim (fate_of j cs kept) [
  | kept ↦ false
  | later ↦ true
  | cleared ↦ not (version_of j k == 0)
]

-- It is shown those of one of the keys of the list.
abbrev pub shows_any : List Text → Keys → List Change → Bool
shows_any [] k cs = false
shows_any (key ∷ keys) k cs = shows_key key k cs || shows_any keys k cs

abbrev Stated : Text → Keys → Keys → Fate → Type 0
Stated j k₀ k kept = version_of j k ≡ version_of j k₀
Stated j k₀ k later = k₀.version < version_of j k
Stated j k₀ k cleared = version_of j k ≡ 0

version-apply :
    (c : Change) (k : Keys)
    → k.version + 1 < 2 ^ 64
    → (k.version ≤ (apply c k).version) × ((apply c k).version ≤ k.version + 1)
unfolding touch forget touch_no_event flush_keys
version-apply (touched keys now) k h =
    let e = mod-eq_of_lt h in (omega (arith, e), omega (arith, e))
version-apply (forgotten key now) k h =
    let e = mod-eq_of_lt h in (omega (arith, e), omega (arith, e))
version-apply flushed k h = let e = mod-eq_of_lt h in (omega (arith, e), omega (arith, e))
version-apply (silent key) k h = (omega arith, omega arith)

Stated-if :
    (j : Text) (k₀ k l : Keys) (f : Fate) (b : Bool)
    → k₀.version ≤ k.version
    → version_of j l ≡ (if b then k.version + 1 else version_of j k)
    → Stated j k₀ k f
    → Stated j k₀ l (if b then later else f)
Stated-if j k₀ k l f true h e s = omega (arith, e)
Stated-if j k₀ k l kept false h e s = e ∙ s
Stated-if j k₀ k l later false h e s = omega (arith, e, s)
Stated-if j k₀ k l cleared false h e s = e ∙ s

apply-Stated :
    (c : Change) (k₀ k : Keys) (j : Text) (f : Fate)
    → k.version + 1 < 2 ^ 64
    → k₀.version ≤ k.version
    → Stated j k₀ k f
    → Stated j k₀ (apply c k) (next_fate j c f)
unfolding touch forget touch_no_event flush_keys version_of or_zero
apply-Stated (touched keys now) k₀ k j f h l s =
    let next : (k.version + 1) % 2 ^ 64 ≡ k.version + 1 = mod-eq_of_lt h in
    Stated-if j k₀ k (touch keys now k) f (among j keys) l
      (rw (lookup-put_all keys ((k.version + 1) % 2 ^ 64) k.key_version j, next) (ground arith)) s
apply-Stated (forgotten key now) k₀ k j f h l s =
    let next : (k.version + 1) % 2 ^ 64 ≡ k.version + 1 = mod-eq_of_lt h in
    Stated-if j k₀ k (forget key now k) f (text_eq key j) l
      (rw (lookup-put_all (key ∷ []) ((k.version + 1) % 2 ^ 64) k.key_version j, next)
        (ground arith))
      s
apply-Stated flushed k₀ k j f h l s = unfold lookup in refl
apply-Stated (silent key) k₀ k j f h l s = s

run-Stated :
    (cs : List Change) (k₀ k : Keys) (j : Text) (f : Fate)
    → length cs + k.version < 2 ^ 64
    → k₀.version ≤ k.version
    → Stated j k₀ k f
    → Stated j k₀ (run cs k) (fate_of j cs f)
run-Stated [] k₀ k j f h l s = s
run-Stated (c ∷ cs) k₀ k j f h l s =
    let room : k.version + 1 < 2 ^ 64 = omega arith in
    let (more, less) = version-apply c k room in
    run-Stated cs k₀ (apply c k) j (next_fate j c f) (omega (arith, less)) (omega (arith, more))
      (apply-Stated c k₀ k j f room l s)

-- The test of one key.
pub differs-run :
    (cs : List Change) (k : Keys) (j : Text)
    → length cs + k.version < 2 ^ 64
    → IsBounded k
    → not (version_of j (run cs k) == version_of j k) ≡ shows_key j k cs
differs-run cs k j h b = go (fate_of j cs kept) (run-Stated cs k k j kept h (omega arith) refl)
  where
    go :
        (f : Fate)
        → Stated j k (run cs k) f
        → not (version_of j (run cs k) == version_of j k)
          ≡ (elim f [ kept ↦ false | later ↦ true | cleared ↦ not (version_of j k == 0) ])
    go kept s = ground (arith, s)
    go later s = ground (arith, s, b j)
    go cleared s = ground (arith, s)

-- Every entry is the version of its key.
abbrev pub Agrees : Keys → Map ℕ → Type 0
Agrees k [] = Unit {0}
Agrees k ((j, v) ∷ m) = (v ≡ version_of j k) × Agrees k m

pub put-Agrees :
    (k : Keys) (j : Text) (m : Map ℕ) → Agrees k m → Agrees k (put j (version_of j k) m)
unfolding put
put-Agrees k j [] a = (refl, tt)
put-Agrees k j ((i, v) ∷ m) a = ground (arith, text_eq_iff i j, put-Agrees k j m a.1, a)

module _ (cs : List Change) (k : Keys) (h : length cs + k.version < 2 ^ 64) (b : IsBounded k) where
  pub modified-put :
      (j : Text) (m : Map ℕ)
      → Agrees k m
      → keys_modified_since (put j (version_of j k) m) (run cs k)
        ≡ (shows_key j k cs || keys_modified_since m (run cs k))
  unfolding put keys_modified_since
  modified-put j [] a = ground (arith, differs-run cs k j h b)
  modified-put j ((i, v) ∷ m) a = ground (
    arith,
    differs-run cs k j h b,
    differs-run cs k i h b,
    text_eq_iff i j,
    modified-put j m a.1,
    a.0,
  )

  modified-versions_into :
      (keys : List Text) (m : Map ℕ)
      → Agrees k m
      → keys_modified_since (versions_into keys k m) (run cs k)
        ≡ (shows_any keys k cs || keys_modified_since m (run cs k))
  unfolding versions_into
  modified-versions_into [] m a = refl
  modified-versions_into (key ∷ keys) m a =
      modified-versions_into keys (put key (version_of key k) m) (put-Agrees k key m a)
      ∙ ground (arith, modified-put key m a)

  -- `KeysModifiedSince` of the versions that `KeyVersions` gave, after any changes of the store: it is true when,
  -- and only when, of one of the keys the last change that versions show is a touch or a deletion, or it is
  -- `FlushDB` and the key had a version. So a watched key that had none, is set and flushed, passes for
  -- unmodified, and so does one whose value is changed without a touch. The versions of the keys are not
  -- above the counter, and the counter does not wrap round.
  pub keys_modified_since-run :
      (keys : List Text)
      → keys_modified_since (key_versions keys k) (run cs k) ≡ shows_any keys k cs
  unfolding key_versions
  keys_modified_since-run keys =
      modified-versions_into keys [] tt ∙ unfold keys_modified_since in ground arith
