-- ===== src/Clients.antt =====
-- internal/server/clients.go: the connected clients. The map from ids to clients is a list of the
-- clients, each under its id; `FormatList` is formatted output and is left out.
use vole.Prelude.{
  ℕ, ◌+◌, ◌^◌, ◌%◌, Bool, true, false, List, [], ◌∷◌, Option, some, none, length, ltb, ◌==◌,
  if◌then◌else◌,
}
use vole.Prelude.Text.{Text}

pub record ClientInfo : Type 0 where
  pub id : ℕ
  pub addr : Text
  pub name : Text
  pub connected_at : ℕ
  pub last_cmd : Text
  pub last_cmd_at : Option ℕ
  pub db : ℕ
  pub flags : Text

-- `ClientManager`, with the counter `clientIDSeq`
pub record ClientManager : Type 0 where
  pub clients : List ClientInfo
  pub client_id_seq : ℕ

-- `NewClientManager`, at a value of the counter
abbrev pub new_manager : ℕ → ClientManager
new_manager seq = record { clients = []; client_id_seq = seq }

-- `c, ok := cm.clients[id]`
unfoldable pub find : ℕ → List ClientInfo → Option ClientInfo
find id [] = none
find id (c ∷ cs) = if c.id == id then some c else find id cs

-- `cm.clients[c.ID] = c`
unfoldable pub store_client : ClientInfo → List ClientInfo → List ClientInfo
store_client c [] = c ∷ []
store_client c (d ∷ cs) = let rest = store_client c cs in if d.id == c.id then c ∷ cs else d ∷ rest

-- `delete(cm.clients, id)`
unfoldable pub remove_client : ℕ → List ClientInfo → List ClientInfo
remove_client id [] = []
remove_client id (c ∷ cs) = let rest = remove_client id cs in if c.id == id then rest else c ∷ rest

-- a change of the client with an id, if there is one
unfoldable pub update_client : ℕ → (ClientInfo → ClientInfo) → List ClientInfo → List ClientInfo
update_client id f [] = []
update_client id f (c ∷ cs) =
    let rest = update_client id f cs in if c.id == id then f c ∷ cs else c ∷ rest

-- `Register`
unfoldable pub register : Text → ℕ → ClientManager → ClientManager × ℕ
unfolding store_client
register addr now cm =
    let id = (cm.client_id_seq + 1) % 2 ^ 64 in
    let c : ClientInfo = record {
      id = id;
      addr = addr;
      name = [];
      connected_at = now;
      last_cmd = [];
      last_cmd_at = none;
      db = 0;
      flags = b'N' ∷ [];
    } in
    (record { clients = store_client c cm.clients; client_id_seq = id }, id)

-- `Unregister`
unfoldable pub unregister : ℕ → ClientManager → ClientManager
unfolding remove_client
unregister id cm = record cm { clients = remove_client id cm.clients }

-- `SetName`
unfoldable pub set_name : ℕ → Text → ClientManager → ClientManager
unfolding update_client
set_name id name cm = record cm {
  clients = update_client id (λ c. record c { name = name }) cm.clients;
}

-- `GetName`
unfoldable pub get_name : ℕ → ClientManager → Text
unfolding find
get_name id cm = elim (find id cm.clients) [ none ↦ [] | some c ↦ c.name ]

-- `RecordCommand`
unfoldable pub record_command : ℕ → Text → ℕ → ClientManager → ClientManager
unfolding update_client
record_command id cmd now cm = record cm {
  clients = update_client id (λ c. record c { last_cmd = cmd; last_cmd_at = some now }) cm.clients;
}

-- `List`: `sort.Slice` by id
unfoldable pub insert_client : ClientInfo → List ClientInfo → List ClientInfo
insert_client c [] = c ∷ []
insert_client c (d ∷ cs) =
    let rest = insert_client c cs in if ltb d.id c.id then d ∷ rest else c ∷ d ∷ cs

unfoldable pub sort_clients : List ClientInfo → List ClientInfo
unfolding insert_client
sort_clients [] = []
sort_clients (c ∷ cs) = insert_client c (sort_clients cs)

unfoldable pub list_clients : ClientManager → List ClientInfo
unfolding sort_clients
list_clients cm = sort_clients cm.clients

-- `Count`
abbrev pub count : ClientManager → ℕ
count cm = length cm.clients

-- `Kill`
unfoldable pub kill : ℕ → ClientManager → ClientManager × Bool
unfolding find remove_client
kill id cm = elim (find id cm.clients) [
  | none ↦ (cm, false)
  | some c ↦ (record cm { clients = remove_client id cm.clients }, true)
]
