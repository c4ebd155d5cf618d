-- ===== src/Session/Gate.antt =====
-- internal/server/server.go, the gate of `handleConn`: what a client does that has not authenticated.
use vole.Prelude.{
  ◌≡◌, refl, ap, ◌∙◌, sym, Bool, true, false, ◌&&◌, ◌||◌, List, [], ◌∷◌, ◌++◌, Option, some, none,
  if◌then◌else◌, arith, append-nil, Bool-cases, inl, inr,
}
use vole.Prelude.Text.{Text, text_eq, text_eq_iff}
use vole.Namespace.{to_upper, one_of}
use vole.Session.{
  ConnTx, no_tx, Services, run_now, on_command, switch_command, check_password, on_auth, is_locked,
  handle_command, handle_all, and_next,
}
use vole.Session.Words.{auth_word, ping_word, hello_word}

-- The words behind AUTH, a password or a user name and a password, give the server's password.
abbrev gives_password : Text → List Text → Bool
gives_password password [] = false
gives_password password (pw ∷ []) = text_eq pw password
gives_password password (user ∷ pw ∷ []) = text_eq pw password
gives_password password (user ∷ pw ∷ x ∷ rest) = false

-- The commands of the list are no AUTH with the password.
abbrev AllWrong : Text → List (List Text) → Type 0
AllWrong password [] = Unit {0}
AllWrong password ([] ∷ commands) = AllWrong password commands
AllWrong password ((word ∷ rest) ∷ commands) =
    ((text_eq (to_upper word) auth_word && gives_password password rest) ≡ false)
    × AllWrong password commands

-- The state of an answer.
abbrev pub state_of : {X : Type 0} → Option (X × Text) → Option X
state_of none = none
state_of (some (x, out)) = some x

abbrev and_then : {X : Type 0} → Option X → (X → Option X) → Option X
and_then none f = none
and_then (some x) f = f x

state_of-and_next :
    {X : Type 0} (r : Option (X × Text)) (f : X → Option (X × Text))
    → state_of (and_next r f) ≡ and_then (state_of r) (λ x. state_of (f x))
state_of-and_next {X = X} none f = refl
state_of-and_next {X = X} (some (x, out)) f = last (f x)
  where
    last :
        (q : Option (X × Text))
        → state_of (elim q [ none ↦ none | some (y, more) ↦ some (y, out ++ more) ]) ≡ state_of q
    last none = refl
    last (some (y, more)) = refl

on_auth-gives_password :
    (password : Text) (rest : List Text)
    → text_eq password [] ≡ false
    → (on_auth password rest false).0 ≡ gives_password password rest
unfolding on_auth check_password
on_auth-gives_password password [] h = rw h refl
on_auth-gives_password password (pw ∷ []) h = ground (arith, h)
on_auth-gives_password password (user ∷ pw ∷ []) h = ground (arith, h)
on_auth-gives_password password (user ∷ pw ∷ x ∷ rest) h = ground (arith, h)

text_eq-false : (s t : Text) → text_eq s t ≡ false → text_eq t s ≡ false
text_eq-false s t h = elim (Bool-cases (text_eq t s)) [
  | inl e ↦ absurd (ground (arith, h, (text_eq_iff s t).1 (sym ((text_eq_iff t s).0 e))))
  | inr e ↦ e
]

is_locked_unknown :
    (cmd : Text)
    → text_eq cmd auth_word ≡ false
    → text_eq cmd ping_word ≡ false
    → text_eq cmd hello_word ≡ false
    → is_locked cmd false ≡ true
unfolding is_locked one_of
is_locked_unknown cmd a p h =
    rw
      (text_eq-false cmd auth_word a, text_eq-false cmd ping_word p, text_eq-false cmd hello_word h)
      refl

module _ {S : Type 0} (sv : Services S) where
  -- What a command does of a client that has not authenticated.
  abbrev greet : List Text → S → S
  greet [] s = s
  greet (word ∷ rest) s =
      let t = (run_now sv (to_upper word) (word ∷ rest) s).0 in
      if text_eq (to_upper word) ping_word || text_eq (to_upper word) hello_word then t else s

  abbrev pub greet_all : List (List Text) → S → S
  greet_all [] s = s
  greet_all (args ∷ commands) s = greet_all commands (greet args s)

module _ {S : Type 0} (sv : Services S) (password : Text) (between : List (S → S)) where
  handle_command_empty :
      (at : Bool × (ConnTx × S)) → handle_command sv password between [] at ≡ some (at, [])
  unfolding handle_command
  handle_command_empty at = refl

  handle_command-locked :
      (word : Text) (rest : List Text) (s : S)
      → text_eq password [] ≡ false
      → (text_eq (to_upper word) auth_word && gives_password password rest) ≡ false
      → state_of (handle_command sv password between (word ∷ rest) (false, (no_tx, s)))
        ≡ some (false, (no_tx, greet sv (word ∷ rest) s))
  unfolding handle_command one_of switch_command on_command text_eq is_locked
  handle_command-locked word rest s n h = elim (Bool-cases (text_eq (to_upper word) ping_word)) [
    | inl p ↦ let e = (text_eq_iff (to_upper word) ping_word).0 p in rw e refl
    | inr p ↦ elim (Bool-cases (text_eq (to_upper word) hello_word)) [
      | inl q ↦ let e = (text_eq_iff (to_upper word) hello_word).0 q in rw e refl
      | inr q ↦ elim (Bool-cases (text_eq (to_upper word) auth_word)) [
        | inl a ↦
            let e = (text_eq_iff (to_upper word) auth_word).0 a in
            let wrong : gives_password password rest ≡ false = ground (arith, h, a) in
            rw e (ap (λ b. some (b, (no_tx, s))) (on_auth-gives_password password rest n ∙ wrong))
        | inr a ↦ rw (is_locked_unknown (to_upper word) a p q, p, q) refl
      ]
    ]
  ]

  -- The wrong commands in front change the state as `greet_all` does, and leave the client locked out.
  handle_all-append :
      (wrong commands : List (List Text)) (s : S)
      → text_eq password [] ≡ false
      → AllWrong password wrong
      → state_of (handle_all sv password between (wrong ++ commands) (false, (no_tx, s)))
        ≡ state_of (handle_all sv password between commands (false, (no_tx, greet_all sv wrong s)))
  unfolding handle_all
  handle_all-append [] commands s n h = refl
  handle_all-append ([] ∷ wrong) commands s n h =
      state_of-and_next (handle_command sv password between [] (false, (no_tx, s)))
        (handle_all sv password between (wrong ++ commands))
      ∙ rw (handle_command_empty (false, (no_tx, s))) (handle_all-append wrong commands s n h)
  handle_all-append ((word ∷ rest) ∷ wrong) commands s n h =
      state_of-and_next (handle_command sv password between (word ∷ rest) (false, (no_tx, s)))
        (handle_all sv password between (wrong ++ commands))
      ∙ rw (handle_command-locked word rest s n h.0)
          (handle_all-append wrong commands (greet sv (word ∷ rest) s) n h.1)

  -- The gate holds. Where the server has a password, a client that has sent no AUTH with it, whatever else,
  -- has run PING and HELLO alone: it is still locked out, with no transaction open and no key
  -- watched. An AUTH with the password, behind those commands, lets it in, and changes nothing else.
  pub handle_all-locked :
      (wrong : List (List Text)) (word : Text) (rest : List Text) (s : S)
      → text_eq password [] ≡ false
      → AllWrong password wrong
      → to_upper word ≡ auth_word
      → gives_password password rest ≡ true
      → (state_of (handle_all sv password between wrong (false, (no_tx, s)))
          ≡ some (false, (no_tx, greet_all sv wrong s)))
        × (state_of
              (handle_all sv password between (wrong ++ (word ∷ rest) ∷ []) (false, (no_tx, s)))
            ≡ some (true, (no_tx, greet_all sv wrong s)))
  unfolding handle_all handle_command is_locked one_of text_eq
  handle_all-locked wrong word rest s n h e g = (
    ap (λ w. state_of (handle_all sv password between w (false, (no_tx, s))))
          (sym (append-nil wrong))
        ∙ handle_all-append wrong [] s n h,
    handle_all-append wrong ((word ∷ rest) ∷ []) s n h
        ∙ rw e (
            ap (λ b. some (b, (no_tx, greet_all sv wrong s)))
              (on_auth-gives_password password rest n ∙ g)),
  )
