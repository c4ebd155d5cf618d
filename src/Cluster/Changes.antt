-- ===== src/Cluster/Changes.antt =====
-- internal/server/cluster.go: what pings, `Meet`, `Forget` and `Reset` do to a cluster, and `rebalanceSlots`.
use vole.Prelude.{
  ℕ, suc, ◌-◌, ◌/◌, Bool, true, false, ◌||◌, List, [], ◌∷◌, ◌++◌, some, none, length, get_elem?,
  set, ◌==◌, if◌then◌else◌,
}
use vole.Prelude.Text.{Text, text_eq, text_lt}
use vole.Prelude.Int.{ℤ, pos, negsuc, ltb_ℤ, ◌+ℤ◌}
use vole.Cluster.{
  slot_count, online, failing, offline, Node, Cluster, with_slots, new_node, find_self,
}

-- what a ping does to its node: the times of the reading before and behind it
unfoldable pub pinged_node : Bool → ℤ → ℤ → Node → Node
pinged_node good now later x =
    if good then record x { last_ping = now; last_pong = later; state = online } else record x {
      last_ping = now;
      state = (if ltb_ℤ (x.last_pong +ℤ pos 30000000000) later then offline else failing);
    }

-- the result of a ping in `pingPeers`, for the first node with the identifier
unfoldable pub pinged : Text → Bool → ℤ → ℤ → List Node → List Node
pinged id good now later [] = []
pinged id good now later (x ∷ xs) =
    let rest = x ∷ pinged id good now later xs in
    if text_eq x.id id then pinged_node good now later x ∷ xs else rest

-- the condition of `rebalanceSlots`
unfoldable pub is_active : Node → Bool
is_active x = x.is_self || (elim x.state [ online ↦ true | failing ↦ false | offline ↦ false ])

-- the indices of the active nodes, with their identifiers
unfoldable pub active_from : ℕ → List Node → List (Text × ℕ)
active_from i [] = []
active_from i (x ∷ xs) =
    let rest = active_from (suc i) xs in if is_active x then (x.id, i) ∷ rest else rest

unfoldable pub insert_index : Text × ℕ → List (Text × ℕ) → List (Text × ℕ)
insert_index x [] = x ∷ []
insert_index x (y ∷ ys) =
    let rest = insert_index x ys in if text_lt y.0 x.0 then y ∷ rest else x ∷ y ∷ ys

unfoldable pub sort_indices : List (Text × ℕ) → List (Text × ℕ)
sort_indices [] = []
sort_indices (x ∷ xs) = insert_index x (sort_indices xs)

-- `c.nodes[i].Start = -1` and `End` likewise
unfoldable pub clear_slots : List Node → List Node
clear_slots [] = []
clear_slots (x ∷ xs) = record x { start = negsuc 0; end = negsuc 0 } ∷ clear_slots xs

-- the nodes with the slots of the j-th active one at its index
unfoldable pub set_slots : ℕ → ℕ → ℕ → ℕ → List Node → List Node
set_slots width n j idx nodes = elim (get_elem? nodes idx) [
  | none ↦ nodes
  | some x ↦ set nodes idx (with_slots width n j x)
]

-- the loop of `rebalanceSlots` over the active nodes
unfoldable pub rebalance_loop : ℕ → ℕ → ℕ → List (Text × ℕ) → List Node → List Node
rebalance_loop width n j [] nodes = nodes
rebalance_loop width n j ((_, idx) ∷ active) nodes =
    rebalance_loop width n (suc j) active (set_slots width n j idx nodes)

-- `rebalanceSlots`
unfoldable pub rebalance : Cluster → Cluster
rebalance c =
    let active = active_from 0 c.nodes in
    let n = length active in
    let nodes = rebalance_loop (slot_count / n) n 0 (sort_indices active) (clear_slots c.nodes) in
    if n == 0 then c else record { nodes = nodes; self = find_self c.self.id c.self nodes }

unfoldable pub has_addr : Text → List Node → Bool
has_addr addr [] = false
has_addr addr (x ∷ xs) = if text_eq x.addr addr then true else has_addr addr xs

-- `Meet`, with the identifier that `fetchNodeID` found; whether there is no error
unfoldable pub meet : Text → Text → ℤ → Cluster → Cluster × Bool
meet addr id now c =
    if has_addr addr c.nodes
    then (c, true)
    else (if text_eq id []
        then (c, false)
        else (rebalance (record c { nodes = c.nodes ++ new_node id addr now ∷ [] }), true))

unfoldable pub without_node : Text → List Node → List Node
without_node id [] = []
without_node id (x ∷ xs) =
    let rest = without_node id xs in if text_eq x.id id then rest else x ∷ rest

unfoldable pub has_id : Text → List Node → Bool
has_id id [] = false
has_id id (x ∷ xs) = if text_eq x.id id then true else has_id id xs

-- `Forget`; whether there is no error
unfoldable pub forget_node : Text → Cluster → Cluster × Bool
forget_node id c =
    if text_eq id c.self.id
    then (c, false)
    else (if has_id id c.nodes
        then (rebalance (record c { nodes = without_node id c.nodes }), true)
        else (c, false))

-- `Reset`
unfoldable pub reset_cluster : Cluster → Cluster
reset_cluster c =
    let self = record c.self { start = pos 0; end = pos (slot_count - 1); state = online } in
    record { nodes = self ∷ []; self = self }
