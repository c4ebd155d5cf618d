-- ===== src/Namespace.antt =====
-- internal/server/namespace.go: named namespaces, and the prefix that keeps their keys apart. The
-- store of a namespace is a parameter. A word of a command is in ASCII: that is where `ToUpper`
-- changes single bytes.
pub mod Commands
pub mod Apart
mod Tests
use vole.Prelude.{
  ℕ, suc, ◌+◌, ◌-◌, Bool, true, false, List, [], ◌∷◌, ◌++◌, Option, some, none, length, ltb, leb,
  ◌==◌, ◌&&◌, ◌||◌, if◌then◌else◌, map, reverse,
}
use vole.Prelude.Text.{Text, text_eq, text_lt}
use vole.Prelude.Map.{Map, lookup, put, delete, has}
use vole.Namespace.Commands.{
  first_key, pattern_first, all_keys, alternate_keys, set_keys, rename_keys, copy_keys, move_keys,
  blocking_keys, merge_keys, bitop_keys,
}

pub data NamespaceError : Type 0 where
  empty_name colon_in_name already_exists default_dropped does_not_exist : NamespaceError

abbrev pub default_name : Text
default_name = b'd' ∷ b'e' ∷ b'f' ∷ b'a' ∷ b'u' ∷ b'l' ∷ b't' ∷ []

-- `strings.Contains(name, ":")`
unfoldable pub contains_colon : Text → Bool
contains_colon [] = false
contains_colon (c ∷ s) = if c == b':' then true else contains_colon s

pub record Namespace (S : Type 0) : Type 0 where
  pub name : Text
  pub held_store : S
  pub created : ℕ

module _ {S : Type 0} where
  -- `NewNamespaceManager`
  abbrev pub new_manager : S → ℕ → Map (Namespace S)
  new_manager store now =
      (default_name, record { name = default_name; held_store = store; created = now }) ∷ []

  -- `Create`, with the new store
  unfoldable pub create :
      Text → S → ℕ → Map (Namespace S) → Map (Namespace S) × Option NamespaceError
  create name store now nm =
      if text_eq name []
      then (nm, some empty_name)
      else (if contains_colon name
          then (nm, some colon_in_name)
          else (if has name nm
              then (nm, some already_exists)
              else (put name (record { name = name; held_store = store; created = now }) nm, none)))

  -- `Drop`
  unfoldable pub drop_namespace :
      Text → Map (Namespace S) → Map (Namespace S) × Option NamespaceError
  drop_namespace name nm =
      if text_eq name default_name
      then (nm, some default_dropped)
      else (if has name nm then (delete name nm, none) else (nm, some does_not_exist))

-- `sort.Strings`, which is one of the library: the names in the order of their bytes
unfoldable pub insert_name : Text → List Text → List Text
insert_name x [] = x ∷ []
insert_name x (y ∷ ys) = let rest = insert_name x ys in if text_lt y x then y ∷ rest else x ∷ y ∷ ys

unfoldable pub list_names : {S : Type 0} → Map (Namespace S) → List Text
unfolding insert_name
list_names [] = []
list_names ((name, ns) ∷ nm) = insert_name name (list_names nm)

-- `strings.ToUpper`
abbrev pub upper : ℕ → ℕ
upper c = if leb 97 c && leb c 122 then c - 32 else c

abbrev pub to_upper : Text → Text
to_upper s = map upper s

-- the word is in a list of a `case`
unfoldable pub one_of : Text → List Text → Bool
one_of cmd [] = false
one_of cmd (w ∷ ws) = if text_eq w cmd then true else one_of cmd ws

-- The loops of the cases, on the arguments behind the command.
unfoldable pub prefix_all : Text → List Text → List Text
prefix_all prefix [] = []
prefix_all prefix (a ∷ args) = (prefix ++ a) ∷ prefix_all prefix args

unfoldable pub prefix_first : Text → List Text → List Text
prefix_first prefix [] = []
prefix_first prefix (a ∷ args) = (prefix ++ a) ∷ args

unfoldable pub prefix_two : Text → List Text → List Text
prefix_two prefix [] = []
prefix_two prefix (a ∷ []) = (prefix ++ a) ∷ []
prefix_two prefix (a ∷ b ∷ args) = (prefix ++ a) ∷ (prefix ++ b) ∷ args

unfoldable pub prefix_alternate : Text → List Text → List Text
prefix_alternate prefix [] = []
prefix_alternate prefix (a ∷ []) = (prefix ++ a) ∷ []
prefix_alternate prefix (a ∷ b ∷ args) = (prefix ++ a) ∷ b ∷ prefix_alternate prefix args

unfoldable pub prefix_but_last : Text → List Text → List Text
prefix_but_last prefix [] = []
prefix_but_last prefix (a ∷ []) = a ∷ []
prefix_but_last prefix (a ∷ b ∷ args) = (prefix ++ a) ∷ prefix_but_last prefix (b ∷ args)

unfoldable pub prefix_but_first : Text → List Text → List Text
unfolding prefix_all
prefix_but_first prefix [] = []
prefix_but_first prefix (a ∷ args) = a ∷ prefix_all prefix args

-- the switch, on the upper-case word and the arguments behind it
unfoldable pub prefix_args : Text → Text → List Text → List Text
unfolding one_of prefix_all prefix_first prefix_two prefix_alternate prefix_but_last
    prefix_but_first
prefix_args prefix cmd args =
    if one_of cmd first_key || one_of cmd pattern_first
    then prefix_first prefix args
    else (if one_of cmd all_keys || one_of cmd set_keys || one_of cmd merge_keys
        then prefix_all prefix args
        else (if one_of cmd alternate_keys
            then prefix_alternate prefix args
            else (if one_of cmd rename_keys || one_of cmd copy_keys || one_of cmd move_keys
                then prefix_two prefix args
                else (if one_of cmd blocking_keys
                    then prefix_but_last prefix args
                    else (if one_of cmd bitop_keys then prefix_but_first prefix args else args)))))

-- `prefixKeyArgs`; `none` is the panic of `args[0]` on no arguments
unfoldable pub prefix_key_args : List Text → Text → Option (List Text)
unfolding prefix_args
prefix_key_args args [] = some args
prefix_key_args [] (p ∷ prefix) = none
prefix_key_args (a ∷ args) (p ∷ prefix) = some (a ∷ prefix_args (p ∷ prefix) (to_upper a) args)

-- `strings.TrimPrefix`
unfoldable pub without_prefix : Text → Text → Option Text
without_prefix [] key = some key
without_prefix (p ∷ prefix) [] = none
without_prefix (p ∷ prefix) (c ∷ key) = if p == c then without_prefix prefix key else none

-- `stripKeyPrefix`
unfoldable pub strip_key_prefix : Text → Text → Text
unfolding without_prefix
strip_key_prefix key prefix = elim (without_prefix prefix key) [ none ↦ key | some rest ↦ rest ]
