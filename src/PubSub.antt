-- ===== src/PubSub.antt =====
-- internal/server/pubsub.go: subscriptions to channels and to patterns. A Go channel is a number; what
-- waits in it is a list, of 128 messages at most. A send to a channel that was closed panics: `none`.
-- The order in which Go goes round the maps is that of the lists.
pub mod Delivery
mod Tests
use vole.Prelude.{
  ℕ, suc, ◌+◌, Bool, true, false, not, List, [], ◌∷◌, ◌++◌, Option, some, none, length, ltb, ◌==◌,
  if◌then◌else◌,
}
use vole.Prelude.Text.{Text, text_eq}
use vole.Prelude.Map.{Map, lookup, put, delete}
use vole.Glob.{match_glob}

-- A message in a channel: the data alone, or with the pattern and the channel's name.
pub data Message : Type 0 where
  plain : Text → Message
  matched : (pattern_text channel_name data_text : Text) → Message

pub record Channel : Type 0 where
  pub number : ℕ
  pub waiting : List Message

pub record PubSub : Type 0 where
  pub subs : Map (List ℕ)
  pub psubs : Map (List ℕ)
  pub channels : List Channel
  pub next_channel : ℕ

-- `make(chan string, 128)`
abbrev pub channel_capacity : ℕ
channel_capacity = 128

-- `NewPubSub`
abbrev pub new_pub_sub : PubSub
new_pub_sub = record { subs = []; psubs = []; channels = []; next_channel = 0 }

abbrev pub members_of : Text → Map (List ℕ) → List ℕ
members_of key m = elim (lookup key m) [ none ↦ [] | some chs ↦ chs ]

-- a new channel: `make`
abbrev opened : PubSub → List Channel
opened p = record { number = p.next_channel; waiting = [] } ∷ p.channels

-- `Subscribe`
unfoldable pub subscribe : Text → PubSub → PubSub × ℕ
subscribe name p = (
  record p {
    subs = put name (p.next_channel ∷ members_of name p.subs) p.subs;
    channels = opened p;
    next_channel = suc p.next_channel;
  },
  p.next_channel,
)

-- `PSubscribe`
unfoldable pub p_subscribe : Text → PubSub → PubSub × ℕ
p_subscribe name p = (
  record p {
    psubs = put name (p.next_channel ∷ members_of name p.psubs) p.psubs;
    channels = opened p;
    next_channel = suc p.next_channel;
  },
  p.next_channel,
)

-- `delete(p.subs[channel], ch)`
unfoldable pub without : ℕ → List ℕ → List ℕ
without ch [] = []
without ch (c ∷ cs) = let rest = without ch cs in if c == ch then rest else c ∷ rest

-- the deletion, and that of a key whose last channel goes
unfoldable pub drop_member : Text → ℕ → Map (List ℕ) → Map (List ℕ)
unfolding without
drop_member key ch m = elim (without ch (members_of key m)) [
  | [] ↦ delete key m
  | ◌∷◌ c cs ↦ put key (c ∷ cs) m
]

-- `close(ch)`
unfoldable pub close_channel : ℕ → List Channel → List Channel
close_channel ch [] = []
close_channel ch (c ∷ cs) =
    let rest = close_channel ch cs in if c.number == ch then rest else c ∷ rest

-- `Unsubscribe`
unfoldable pub unsubscribe : Text → ℕ → PubSub → PubSub
unfolding drop_member close_channel
unsubscribe name ch p = record p {
  subs = drop_member name ch p.subs;
  channels = close_channel ch p.channels;
}

-- `PUnsubscribe`
unfoldable pub p_unsubscribe : Text → ℕ → PubSub → PubSub
unfolding drop_member close_channel
p_unsubscribe name ch p = record p {
  psubs = drop_member name ch p.psubs;
  channels = close_channel ch p.channels;
}

-- `select { case ch <- message: n++; default: }`: the channels, and 1 if the message is taken
unfoldable pub send : ℕ → Message → List Channel → Option (List Channel × ℕ)
send ch message [] = none
send ch message (c ∷ cs) =
    let rest = send ch message cs in
    if c.number == ch
    then some (
        if ltb (length c.waiting) channel_capacity
        then (record c { waiting = c.waiting ++ message ∷ [] } ∷ cs, 1)
        else (c ∷ cs, 0))
    else elim rest [ none ↦ none | some (cs_after, n) ↦ some (c ∷ cs_after, n) ]

-- the loops over the subscribers that were copied
unfoldable pub send_all : List (ℕ × Message) → List Channel → Option (List Channel × ℕ)
unfolding send
send_all [] channels = some (channels, 0)
send_all ((ch, message) ∷ rest) channels = elim (send ch message channels) [
  | none ↦ none
  | some (after_one, n) ↦ elim (send_all rest after_one) [
    | none ↦ none
    | some (after_all, m) ↦ some (after_all, n + m)
  ]
]

abbrev pub addressed : Message → List ℕ → List (ℕ × Message)
addressed message [] = []
addressed message (ch ∷ chs) = (ch, message) ∷ addressed message chs

-- the pattern subscribers whose pattern matches the channel
unfoldable pub pattern_subs : Text → Text → Map (List ℕ) → List (ℕ × Message)
unfolding match_glob
pattern_subs name message [] = []
pattern_subs name message ((p, chs) ∷ psubs) =
    let rest = pattern_subs name message psubs in
    if match_glob (length p) p name then addressed (matched p name message) chs ++ rest else rest

-- `Publish` under its lock: the subscribers that are copied, each with its message
abbrev pub recipients : Text → Text → PubSub → List (ℕ × Message)
recipients name message p =
    addressed (plain message) (members_of name p.subs) ++ pattern_subs name message p.psubs

-- `Publish` when nothing comes between the copy and the sends
unfoldable pub publish : Text → Text → PubSub → Option (PubSub × ℕ)
unfolding send_all pattern_subs
publish name message p = elim (send_all (recipients name message p) p.channels) [
  | none ↦ none
  | some (channels, n) ↦ some (record p { channels = channels }, n)
]
