-- ===== src/Namespace/Apart.antt =====
-- internal/server/namespace.go: the keys of two namespaces, and a key behind its prefix.
use vole.Prelude.{
  ◌≢◌, sym, ◌∙◌, append_assoc, List, Option, Bool, ℕ, ◌≡◌, refl, ap, ap₂, true, false, ◌||◌, [],
  ◌∷◌, ◌++◌, some, none, arith, ◌↔◌,
}
use vole.Prelude.Text.{Text, text_eq, text_eq_iff}
use vole.Prelude.Map.{Map, has, has-put, has-delete}
use vole.Prelude.{if◌then◌else◌}
use vole.Namespace.Commands.{
  pattern_first, first_key, all_keys, alternate_keys, set_keys, rename_keys, copy_keys, move_keys,
  merge_keys,
}
use vole.Namespace.{
  to_upper, one_of, prefix_args, prefix_key_args, prefix_first, prefix_all, prefix_alternate,
  prefix_two, Namespace, contains_colon, create, drop_namespace, without_prefix, strip_key_prefix,
}

without_prefix-append : (prefix key : Text) → without_prefix prefix (prefix ++ key) ≡ some key
unfolding without_prefix
without_prefix-append [] key = refl
without_prefix-append (p ∷ prefix) key = ground (arith, without_prefix-append prefix key)

-- A key that was given a prefix is the key again when the prefix is stripped.
pub strip_key_prefix-append : (prefix key : Text) → strip_key_prefix (prefix ++ key) prefix ≡ key
unfolding strip_key_prefix
strip_key_prefix-append prefix key = rw (strip_key_prefix, without_prefix-append prefix key)

abbrev tail : Text → Text
tail [] = []
tail (c ∷ s) = s

abbrev head : Text → ℕ
head [] = 0
head (c ∷ s) = c

-- a text is split at its first colon in one way
pieces_apart :
    (m n k l : Text)
    → contains_colon m ≡ false
    → contains_colon n ≡ false
    → m ++ b':' ∷ k ≡ n ++ b':' ∷ l
    → (m ≡ n) × (k ≡ l)
unfolding contains_colon
pieces_apart [] [] k l a b e = (refl, ap tail e)
pieces_apart [] (d ∷ n) k l a b e = absurd (let same : b':' ≡ d = ap head e in ground (arith, b))
pieces_apart (c ∷ m) [] k l a b e = absurd (let same : c ≡ b':' = ap head e in ground (arith, a))
pieces_apart (c ∷ m) (d ∷ n) k l a b e =
    let (names, keys) = pieces_apart m n k l (ground (arith, a)) (ground (arith, b)) (ap tail e) in
    (ap₂ ◌∷◌ (ap head e) names, keys)

-- The cases of the `switch` in which the first argument is a key, whatever stands behind it.
abbrev pub starts_with_key : Text → Bool
starts_with_key cmd =
    one_of cmd first_key
    || one_of cmd all_keys
    || one_of cmd set_keys
    || one_of cmd merge_keys
    || one_of cmd alternate_keys
    || one_of cmd rename_keys
    || one_of cmd copy_keys
    || one_of cmd move_keys

-- The first argument of a command that `prefixKeyArgs` hands on.
abbrev pub key_of : Option (List Text) → Option Text
key_of none = none
key_of (some []) = none
key_of (some (word ∷ [])) = none
key_of (some (word ∷ key ∷ args)) = some key

none_left :
    (a b c d e f g i p : Bool)
    → (a || b || c || d || e || f || g || i) ≡ true
    → (a || p) ≡ false
    → (b || c || d) ≡ false
    → e ≡ false
    → (f || g || i) ≡ false
    → ⊥
none_left a b c d e f g i p h j k l m = ground arith

module _ (prefix word key : Text) where
  -- the first argument of the list is the key with its prefix
  abbrev Starts : List Text → Type 0
  Starts args = key_of (some (word ∷ args)) ≡ some (prefix ++ key)

  pick :
      (b : Bool) (xs ys : List Text)
      → Starts xs
      → (b ≡ false → Starts ys)
      → Starts (if b then xs else ys)
  pick true xs ys h k = h
  pick false xs ys h k = k refl

  two-Starts : (rest : List Text) → Starts (prefix_two prefix (key ∷ rest))
  unfolding prefix_two
  two-Starts [] = refl
  two-Starts (b ∷ rest) = refl

  alternate-Starts : (rest : List Text) → Starts (prefix_alternate prefix (key ∷ rest))
  unfolding prefix_alternate
  alternate-Starts [] = refl
  alternate-Starts (b ∷ rest) = refl

  prefix_args-Starts :
      (cmd : Text) (rest : List Text)
      → starts_with_key cmd ≡ true
      → Starts (prefix_args prefix cmd (key ∷ rest))
  unfolding prefix_args prefix_first prefix_all
  prefix_args-Starts cmd rest h =
      pick (one_of cmd first_key || one_of cmd pattern_first) _ _ refl (λ a.
        pick (one_of cmd all_keys || one_of cmd set_keys || one_of cmd merge_keys) _ _ refl (λ b.
          pick (one_of cmd alternate_keys) _ _ (alternate-Starts rest) (λ c.
            pick (one_of cmd rename_keys || one_of cmd copy_keys || one_of cmd move_keys) _ _
              (two-Starts rest)
              (λ d. absurd (
                none_left (one_of cmd first_key) (one_of cmd all_keys) (one_of cmd set_keys)
                  (one_of cmd merge_keys) (one_of cmd alternate_keys) (one_of cmd rename_keys)
                  (one_of cmd copy_keys) (one_of cmd move_keys) (one_of cmd pattern_first) h a b c
                  d)))))

key_of-prefix_key_args :
    (name word key : Text) (rest : List Text)
    → starts_with_key (to_upper word) ≡ true
    → key_of (prefix_key_args (word ∷ key ∷ rest) (name ++ b':' ∷ [])) ≡ some (name ++ b':' ∷ key)
unfolding prefix_key_args
key_of-prefix_key_args [] word key rest h =
    prefix_args-Starts (b':' ∷ []) word key (to_upper word) rest h
key_of-prefix_key_args (c ∷ name) word key rest h =
    prefix_args-Starts (c ∷ name ++ b':' ∷ []) word key (to_upper word) rest h
    ∙ ap (λ k. some (c ∷ k)) (append_assoc name (b':' ∷ []) key)

-- Commands in two namespaces other than the default one, with different names that hold no colon, never reach the
-- same key by their first argument, whatever the keys, and whatever stands behind them: what
-- `prefixKeyArgs` makes of one is another key than what it makes of the other. The words are those of
-- the cases in which the first argument is a key.
pub prefix_key_args_apart :
    (m n word verb key other : Text) (rest more : List Text)
    → contains_colon m ≡ false
    → contains_colon n ≡ false
    → m ≢ n
    → starts_with_key (to_upper word) ≡ true
    → starts_with_key (to_upper verb) ≡ true
    → key_of (prefix_key_args (word ∷ key ∷ rest) (m ++ b':' ∷ []))
      ≢ key_of (prefix_key_args (verb ∷ other ∷ more) (n ++ b':' ∷ []))
prefix_key_args_apart m n word verb key other rest more a b d h k e =
    d
      (pieces_apart m n key other a b (
        unsome (
          sym (key_of-prefix_key_args m word key rest h)
          ∙ e
          ∙ key_of-prefix_key_args n verb other more k))).0
  where
    unsome : {x y : Text} → some x ≡ some y → x ≡ y
    unsome e = ground (arith, e)

-- No namespace has a colon in its name.
abbrev pub Plain : {S : Type 0} → Map (Namespace S) → Type 0
Plain nm = (name : Text) → has name nm ≡ true → contains_colon name ≡ false

-- `Create` and `Drop` leave no namespace with a colon in its name, whatever they return, if there
-- was none; `Create` fails exactly on an empty name, a name with a colon and a name that is there.
pub create-Plain :
    {S : Type 0} (name : Text) (store : S) (now : ℕ) (nm : Map (Namespace S))
    → Plain nm
    → Plain (create name store now nm).0
      × Plain (drop_namespace name nm).0
      × (((create name store now nm).1 ≡ none)
          ↔ ((text_eq name [] || contains_colon name || has name nm) ≡ false))
unfolding create drop_namespace
create-Plain name store now nm h = (
  λ j. ground (
    arith,
    h j,
    has-put name j (record { name = name; held_store = store; created = now }) nm,
    text_eq_iff name j,
  ),
  λ j. ground (arith, h j, has-delete name j nm),
  (λ e. ground (arith, e), λ e. ground (arith, e)),
)
