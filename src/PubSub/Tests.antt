-- ===== src/PubSub/Tests.antt =====
-- A subscriber that leaves while a message is published.
use vole.Prelude.{◌≡◌, refl, true, [], ◌∷◌, none}
use vole.Prelude.Text.{Text, text_eq}
use vole.Prelude.Map.{lookup}
use vole.PubSub.{PubSub, members_of, recipients, send_all, unsubscribe}
use vole.PubSub.Delivery.{member, send_all-unsubscribe}

abbrev news : Text
news = b'n' ∷ []

abbrev board : PubSub
board = record {
  subs = (news, 0 ∷ 1 ∷ []) ∷ [];
  psubs = [];
  channels = record { number = 0; waiting = [] } ∷ record { number = 1; waiting = [] } ∷ [];
  next_channel = 2;
}

subscribed : member 1 (members_of news board.subs) ≡ true
unfolding lookup text_eq
subscribed = refl

send_all-unsubscribe_example :
    send_all (recipients news (b'm' ∷ []) board) (unsubscribe news 1 board).channels ≡ none
send_all-unsubscribe_example = send_all-unsubscribe news (b'm' ∷ []) 1 board subscribed
