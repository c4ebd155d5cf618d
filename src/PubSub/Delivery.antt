-- ===== src/PubSub/Delivery.antt =====
-- A send to a closed channel, and the copy of the subscribers that `Publish` sends to.
use vole.Prelude.{
  ℕ, ◌≡◌, refl, subst, ◌∙◌, Bool, true, false, List, [], ◌∷◌, ◌++◌, Option, some, none, ◌==◌,
  if◌then◌else◌, arith, Bool-cases, Option-cases, inl, inr,
}
use vole.Prelude.Text.{Text}
use vole.PubSub.{
  PubSub, Channel, Message, plain, members_of, addressed, recipients, pattern_subs, send, send_all,
  close_channel, unsubscribe,
}

-- The channel is open.
unfoldable pub open_in : ℕ → List Channel → Bool
open_in ch [] = false
open_in ch (c ∷ cs) = let rest = open_in ch cs in if c.number == ch then true else rest

-- The channel is among the numbers.
abbrev pub member : ℕ → List ℕ → Bool
member ch [] = false
member ch (c ∷ cs) = if c == ch then true else member ch cs

targets : ℕ → List (ℕ × Message) → Bool
targets ch [] = false
targets ch ((c, m) ∷ rs) = if c == ch then true else targets ch rs

send-none : (ch : ℕ) (m : Message) (cs : List Channel) → open_in ch cs ≡ false → send ch m cs ≡ none
unfolding send open_in
send-none ch m [] h = refl
send-none ch m (c ∷ cs) h = elim (Bool-cases (c.number == ch)) [
  | inl e ↦ absurd (ground (arith, h, e))
  | inr e ↦ rw (e, send-none ch m cs (rw e at h))
]

open_in-send_cases :
    (ch d : ℕ) (m : Message) (c : Channel) (cs : List Channel) (o : Option (List Channel × ℕ))
    → send d m cs ≡ o
    → ((rest : List Channel) (k : ℕ) → o ≡ some (rest, k) → open_in ch rest ≡ open_in ch cs)
    → (after : List Channel) (n : ℕ) → send d m (c ∷ cs) ≡ some (after, n)
    → open_in ch after ≡ open_in ch (c ∷ cs)
unfolding send open_in
open_in-send_cases ch d m c cs none e k after n h = ground (arith, e, h)
open_in-send_cases ch d m c cs (some (rest, i)) e k after n h = ground (arith, e, h, k rest i refl)

open_in-send :
    (ch d : ℕ) (m : Message) (cs after : List Channel) (n : ℕ)
    → send d m cs ≡ some (after, n)
    → open_in ch after ≡ open_in ch cs
open_in-send ch d m [] after n h = unfold send in absurd (ground (arith, h))
open_in-send ch d m (c ∷ cs) after n h =
    open_in-send_cases ch d m c cs (send d m cs) refl (λ rest k. open_in-send ch d m cs rest k)
      after n h

open_in-close_channel : (ch : ℕ) (cs : List Channel) → open_in ch (close_channel ch cs) ≡ false
unfolding open_in close_channel
open_in-close_channel ch [] = refl
open_in-close_channel ch (c ∷ cs) = ground (arith, open_in-close_channel ch cs)

send_all-none :
    (ch : ℕ) (rs : List (ℕ × Message)) (cs : List Channel)
    → targets ch rs ≡ true
    → open_in ch cs ≡ false
    → send_all rs cs ≡ none
unfolding targets send_all
send_all-none ch [] cs t h = absurd (ground (arith, t))
send_all-none ch ((d, m) ∷ rs) cs t h = elim (Bool-cases (d == ch)) [
  | inl e ↦ rw (send_all, send-none d m cs (subst (λ k. open_in k cs ≡ false) (ground arith) h))
  | inr e ↦ elim (Option-cases (send d m cs)) [
    | inl f ↦ rw (send_all, f)
    | inr ((after, n), f) ↦
        rw (
          send_all,
          f,
          send_all-none ch rs after (rw e at t) (open_in-send ch d m cs after n f ∙ h),
        )
  ]
]

targets-addressed :
    (ch : ℕ) (m : Message) (chs : List ℕ) (rs : List (ℕ × Message))
    → member ch chs ≡ true
    → targets ch (addressed m chs ++ rs) ≡ true
unfolding targets
targets-addressed ch m [] rs h = absurd (ground (arith, h))
targets-addressed ch m (c ∷ chs) rs h = ground (arith, h, targets-addressed ch m chs rs)

-- When a direct subscriber of the channel unsubscribes between the copy of the subscribers that
-- `Publish` makes and its sends, the sends panic.
pub send_all-unsubscribe :
    (name message : Text) (ch : ℕ) (p : PubSub)
    → member ch (members_of name p.subs) ≡ true
    → send_all (recipients name message p) (unsubscribe name ch p).channels ≡ none
send_all-unsubscribe name message ch p h =
    send_all-none ch (recipients name message p) (unsubscribe name ch p).channels
      (targets-addressed ch (plain message) (members_of name p.subs)
        (pattern_subs name message p.psubs) h)
      (unfold unsubscribe in open_in-close_channel ch p.channels)
