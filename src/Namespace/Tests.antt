-- ===== src/Namespace/Tests.antt =====
-- Namespaces at concrete names.
use vole.Prelude.{◌≢◌, ℕ, ◌≡◌, refl, false, [], ◌∷◌, ◌++◌, subst, Bool-cases, inl, inr, arith}
use vole.Prelude.Text.{Text, text_eq, text_eq_iff}
use vole.Prelude.Map.{Map, has}
use vole.Namespace.{
  one_of, prefix_key_args, Namespace, new_manager, contains_colon, strip_key_prefix, default_name,
}
use vole.Namespace.Apart.{Plain, strip_key_prefix-append, key_of, prefix_key_args_apart}

abbrev app : Text
app = b'a' ∷ b'p' ∷ b'p' ∷ []

abbrev key_x : Text
key_x = b'x' ∷ []

abbrev manager : Map (Namespace ℕ)
manager = new_manager 0 0

strip_key_prefix-append_example : strip_key_prefix (app ++ b'k' ∷ []) app ≡ b'k' ∷ []
strip_key_prefix-append_example = strip_key_prefix-append app (b'k' ∷ [])

abbrev web : Text
web = b'w' ∷ b'e' ∷ b'b' ∷ []

abbrev get_word : Text
get_word = b'g' ∷ b'e' ∷ b't' ∷ []

prefix_key_args_apart_example :
    key_of (prefix_key_args (get_word ∷ key_x ∷ []) (app ++ b':' ∷ []))
    ≢ key_of (prefix_key_args (get_word ∷ key_x ∷ []) (web ++ b':' ∷ []))
unfolding contains_colon one_of text_eq
prefix_key_args_apart_example =
    prefix_key_args_apart app web get_word get_word key_x key_x [] [] refl refl
      (λ e. ground (arith, e)) refl refl

manager-Plain : Plain manager
unfolding has contains_colon
manager-Plain name h = elim (Bool-cases (text_eq default_name name)) [
  | inl e ↦ subst (λ n. contains_colon n ≡ false) ((text_eq_iff default_name name).0 e) refl
  | inr e ↦ absurd (ground (arith, h, e))
]
