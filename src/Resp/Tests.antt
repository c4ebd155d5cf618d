-- ===== src/Resp/Tests.antt =====
-- The wire format at concrete inputs.
use vole.Prelude.{ℕ, ◌≤◌, ◌≡◌, refl, subst, List, [], ◌∷◌, ◌++◌, arith}
use vole.Prelude.Text.{Text}
use vole.Prelude.Int.{negsuc}
use vole.Resp.{
  read_byte, read_string, ok, out_of_fuel, Value, simple, integer, bulk, null_bulk, array, nil,
  cons, read_command, read_value, write_command,
}
use vole.Resp.Inline.{split_inline}
use vole.Resp.Commands.{read_command-write_command}
use vole.Resp.Replies.{reply, depth, Writable, size, read_value-reply}
use vole.Resp.Fuel.{read_value-ne-out_of_fuel}

abbrev limit : ℕ
limit = 1000000

abbrev set_words : List Text
set_words = (b'S' ∷ b'E' ∷ b'T' ∷ []) ∷ (b'k' ∷ []) ∷ (13 ∷ 10 ∷ []) ∷ []

abbrev nested : Value
nested = array (
    cons (integer (negsuc 11))
      (cons (array (cons (bulk (10 ∷ [])) nil)) (cons null_bulk (cons (simple (b'O' ∷ [])) nil))))

read_command-write_command_example :
    read_command limit (write_command set_words ++ b'*' ∷ []) ≡ ok set_words (b'*' ∷ [])
read_command-write_command_example =
    read_command-write_command limit (omega arith) set_words (b'*' ∷ [])
      (omega arith, (omega arith, (omega arith, tt))) (omega arith)

nested-depth : depth nested ≤ 3
unfolding depth
nested-depth = subst (λ n. n ≤ 3) three (omega arith)
  where
    three : 3 ≡ depth nested
    three = refl

nested-Writable : Writable limit nested
unfolding Writable size
nested-Writable = (
  omega arith,
  ((omega arith, omega arith), ((omega arith, (omega arith, tt)), (tt, ((refl, tt), tt)))),
)

read_value-reply_example : read_value limit 3 (reply nested ++ b'x' ∷ []) ≡ ok nested (b'x' ∷ [])
read_value-reply_example =
    read_value-reply limit (omega arith) 3 nested (b'x' ∷ []) nested-depth nested-Writable

read_value-ne-out_of_fuel_example : read_value limit 4 (b'*' ∷ b'1' ∷ 10 ∷ []) ≡ out_of_fuel → ⊥
read_value-ne-out_of_fuel_example =
    read_value-ne-out_of_fuel limit 4 (b'*' ∷ b'1' ∷ 10 ∷ []) (omega arith)

inline_run :
    read_command limit (b'G' ∷ b'E' ∷ b'T' ∷ 32 ∷ 32 ∷ b'k' ∷ 13 ∷ 10 ∷ [])
    ≡ ok ((b'G' ∷ b'E' ∷ b'T' ∷ []) ∷ (b'k' ∷ []) ∷ []) []
inline_run = unfold read_command read_byte read_string split_inline in refl
