-- ===== src/Cluster.antt =====
-- internal/server/cluster.go: the nodes of the cluster, and the hash slots of the keys. The times of a node
-- are nanoseconds. `sort.Slice` is one of the library; of equal identifiers it keeps the order here.
-- What a node answers to a ping is an argument, as is the reading of the clock.
pub mod Slots
pub mod Tags
pub mod Changes
pub mod Rebalance
pub mod Marks
pub mod Reach
mod Tests
use vole.Prelude.{
  ℕ, zero, suc, ◌+◌, ◌-◌, ◌*◌, ◌/◌, ◌%◌, Bool, true, false, not, ◌&&◌, ◌||◌, List, [], ◌∷◌, ◌++◌,
  map, reverse, Option, some, none, length, get_elem?, set, leb, ltb, ◌==◌, if◌then◌else◌, take,
  drop,
}
use vole.Prelude.Text.{Text, text_eq, text_lt}
use vole.Prelude.Int.{ℤ, pos, negsuc, ltb_ℤ, ◌+ℤ◌}
use vole.Prelude.Crc.{checksum_ieee}
use vole.Aof.{split_text}

abbrev pub slot_count : ℕ
slot_count = 16384

pub data NodeState : Type 0 where
  online failing offline : NodeState

pub record Node : Type 0 where
  pub id : Text
  pub addr : Text
  pub start : ℤ
  pub end : ℤ
  pub is_self : Bool
  pub state : NodeState
  pub last_ping : ℤ
  pub last_pong : ℤ
  pub joined_at : ℤ

pub record Cluster : Type 0 where
  pub nodes : List Node
  pub self : Node

-- `strings.IndexByte`
unfoldable pub index_byte : ℕ → Text → Option ℕ
index_byte b [] = none
index_byte b (c ∷ s) = elim (index_byte b s) [
  | none ↦ if c == b then some 0 else none
  | some i ↦ if c == b then some 0 else some (i + 1)
]

-- the part of a key that is hashed, for the text behind the first brace
unfoldable pub tag_in : Text → Text → Text
tag_in key inner = elim (index_byte b'}' inner) [
  | none ↦ key
  | some end ↦ if ltb 0 end then take end inner else key
]

unfoldable pub hash_tag : Text → Text
hash_tag key = elim (index_byte b'{' key) [
  | none ↦ key
  | some start ↦ tag_in key (drop (start + 1) key)
]

-- `Slot`
unfoldable pub slot_of : Text → ℕ
slot_of key = checksum_ieee (hash_tag key) % slot_count

-- `sort.Slice` by the identifiers
unfoldable pub insert_node : Node → List Node → List Node
insert_node x [] = x ∷ []
insert_node x (y ∷ ys) =
    let rest = insert_node x ys in if text_lt y.id x.id then y ∷ rest else x ∷ y ∷ ys

unfoldable pub sort_nodes : List Node → List Node
sort_nodes [] = []
sort_nodes (x ∷ xs) = insert_node x (sort_nodes xs)

-- `n - 1`
abbrev pub minus_one : ℕ → ℤ
minus_one zero = negsuc 0
minus_one (suc n) = pos n

-- the slots of the i-th of n nodes
unfoldable pub with_slots : ℕ → ℕ → ℕ → Node → Node
with_slots width n i x = record x {
  start = pos (i * width);
  end = (if suc i == n then pos (slot_count - 1) else minus_one (suc i * width));
}

-- the loop of `assignSlots`
unfoldable pub assign_loop : ℕ → ℕ → ℕ → List Node → List Node
assign_loop width n i [] = []
assign_loop width n i (x ∷ xs) = with_slots width n i x ∷ assign_loop width n (suc i) xs

-- `assignSlots`
unfoldable pub assign_slots : List Node → List Node
assign_slots nodes = let n = length nodes in assign_loop (slot_count / n) n 0 (sort_nodes nodes)

-- `strings.TrimSpace` of ASCII
abbrev pub is_space : ℕ → Bool
is_space c = c == 32 || (leb 9 c && leb c 13)

unfoldable pub trim_left : Text → Text
trim_left [] = []
trim_left (c ∷ s) = let rest = trim_left s in if is_space c then rest else c ∷ s

unfoldable pub trim_space : Text → Text
trim_space s = reverse (trim_left (reverse (trim_left s)))

abbrev pub new_node : Text → Text → ℤ → Node
new_node id addr now = record {
  id = id;
  addr = addr;
  start = pos 0;
  end = pos 0;
  is_self = false;
  state = online;
  last_ping = pos 0;
  last_pong = now;
  joined_at = now;
}

-- a peer, `id@addr` or an address alone
unfoldable pub peer_node : Text → List Text → ℤ → Node
peer_node peer (id ∷ addr ∷ []) now = new_node id addr now
peer_node peer (id ∷ rest) now = new_node id peer now
peer_node peer [] now = new_node [] peer now

-- the loop of `NewCluster` over the peers
unfoldable pub peer_nodes : List Text → ℤ → List Node
peer_nodes [] now = []
peer_nodes (p ∷ ps) now =
    let rest = peer_nodes ps now in
    if text_eq (trim_space p) []
    then rest
    else peer_node (trim_space p) (split_text b'@' (trim_space p)) now ∷ rest

-- `nodes[i].Self = true` for the nodes with the identifier
unfoldable pub mark_self : Text → List Node → List Node
mark_self id [] = []
mark_self id (x ∷ xs) =
    (if text_eq x.id id then record x { is_self = true } else x) ∷ mark_self id xs

-- the last node with the identifier, in the loops that keep `self`
unfoldable pub find_self : Text → Node → List Node → Node
find_self id self [] = self
find_self id self (x ∷ xs) = find_self id (if text_eq x.id id then x else self) xs

abbrev pub self_node : Text → Text → ℤ → Node
self_node id addr now = record (new_node id addr now) { end = pos (slot_count - 1); is_self = true }

-- `NewCluster`
unfoldable pub new_cluster : Text → Text → Text → ℤ → Cluster
new_cluster id addr peers now =
    let self = self_node id addr now in
    let nodes = mark_self id (assign_slots (self ∷ peer_nodes (split_text b',' peers) now)) in
    record { nodes = nodes; self = find_self id self nodes }

-- the condition of `Owner`
unfoldable pub covers : ℕ → Node → Bool
covers slot x = not (ltb_ℤ (pos slot) x.start) && not (ltb_ℤ x.end (pos slot))

-- the loop of `Owner`
unfoldable pub owner_in : ℕ → List Node → Node → Node
owner_in slot [] self = self
owner_in slot (x ∷ xs) self = let rest = owner_in slot xs self in if covers slot x then x else rest

-- `Owner`
unfoldable pub owner : Text → Cluster → Node
owner key c = owner_in (slot_of key) c.nodes c.self

-- `SelfOwns`
unfoldable pub self_owns : Text → Cluster → Bool
self_owns key c = text_eq (owner key c).id c.self.id

-- the test of `ensureOwns` in internal/server/server.go: the first key that another node owns, or that has
-- another slot where the cluster has several nodes
pub data Ownership : Type 0 where
  owned : Ownership
  cross_slot : Ownership
  moved : ℕ → Text → Ownership

unfoldable pub same_slots : ℕ → List Text → Bool
same_slots slot [] = true
same_slots slot (key ∷ ks) = slot_of key == slot && same_slots slot ks

unfoldable pub check_owners : List Text → Cluster → Ownership
check_owners [] c = owned
check_owners (key ∷ ks) c =
    let rest = check_owners ks c in
    if self_owns key c then rest else moved (slot_of key) (owner key c).addr

unfoldable pub ensure_owns : List Text → Cluster → Ownership
ensure_owns [] c = owned
ensure_owns (key ∷ ks) c =
    if ltb 0 (length ks) && ltb 1 (length c.nodes) && not (same_slots (slot_of key) ks)
    then cross_slot
    else check_owners (key ∷ ks) c
