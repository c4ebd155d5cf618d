-- ===== src/Cluster/Reach.antt =====
-- internal/server/cluster.go: the clusters that its operations lead to.
use vole.Prelude.{
  ap₂, ◌/◌, ℕ, ◌+◌, ◌<◌, ◌≡◌, refl, ap, ◌∙◌, Bool, true, false, List, [], ◌∷◌, ◌++◌, length,
  if◌then◌else◌, arith, ◌==◌, Bool-cases, inl, inr,
}
use vole.Prelude.Text.{Text, text_eq, text_eq_refl}
use vole.Prelude.Int.{ℤ}
use vole.Aof.{split_text}
use vole.Cluster.{
  slot_count, Node, Cluster, slot_of, assign_slots, peer_nodes, mark_self, self_node, new_node,
  new_cluster, covers, owner,
}
use vole.Cluster.Changes.{
  pinged_node, pinged, active_from, rebalance_loop, sort_indices, clear_slots, rebalance, has_addr,
  meet, without_node, has_id, forget_node, reset_cluster,
}
use vole.Cluster.Slots.{owners, owners-assign_slots, owners-mark_self, covers-owner_in, slot_of-lt}
use vole.Cluster.Rebalance.{owners-rebalance}
use vole.Cluster.Marks.{
  marks, has_mark, all_marked, marks-rebalance, marks-rebalance_loop, marks-clear_slots,
  marks-pinged, marks-append, has_mark-append, all_marked-append, without_node_lem,
  all_marked-mark_self, has_mark-mark_assigned, id-find_self, is_self-find_self, active_from-ne,
}

-- The clusters that the operations lead to. A node that is met answers with another identifier than the
-- cluster's own. The result of a ping may come for any identifier.
pub data Reached : Cluster → Type 0 where
  founded : (id addr peers : Text) (now : ℤ) → Reached (new_cluster id addr peers now)
  met :
      (addr id : Text) (now : ℤ) (c : Cluster)
      → text_eq id c.self.id ≡ false
      → Reached c
      → Reached (meet addr id now c).0
  forgot : (id : Text) (c : Cluster) → Reached c → Reached (forget_node id c).0
  was_reset : (c : Cluster) → Reached c → Reached (reset_cluster c)
  heard :
      (id : Text) (good : Bool) (now later : ℤ) (c : Cluster)
      → Reached c
      → Reached (record c { nodes = pinged id good now later c.nodes })

-- The nodes hold the cluster's own, marked as that, and one of them has each slot.
pub record IsWhole (c : Cluster) : Type 0 where
  pub has_own : has_mark c.self.id (marks c.nodes) ≡ true
  pub own_marked : all_marked c.self.id (marks c.nodes) ≡ true
  pub self_marked : c.self.is_self ≡ true
  pub one_owner : (slot : ℕ) → slot < slot_count → owners slot c.nodes ≡ 1

self-rebalance :
    (c : Cluster)
    → c.self.is_self ≡ true
    → all_marked c.self.id (marks c.nodes) ≡ true
    → ((rebalance c).self.id ≡ c.self.id) × ((rebalance c).self.is_self ≡ true)
unfolding rebalance
self-rebalance c s m =
    let active = active_from 0 c.nodes in
    let nodes =
      rebalance_loop (slot_count / length active) (length active) 0 (sort_indices active)
        (clear_slots c.nodes) in
    let marked : all_marked c.self.id (marks nodes) ≡ true =
      ap (all_marked c.self.id) (
        marks-rebalance_loop (slot_count / length active) (length active) 0 (sort_indices active)
          (clear_slots c.nodes)
        ∙ marks-clear_slots c.nodes)
      ∙ m in
    elim (Bool-cases (length active == 0)) [
      | inl e ↦ rw e (refl, s)
      | inr e ↦ rw e (
        id-find_self c.self.id c.self nodes refl,
        is_self-find_self c.self.id c.self nodes s marked,
      )
    ]

rebalance-IsWhole :
    (c : Cluster)
    → has_mark c.self.id (marks c.nodes) ≡ true
    → all_marked c.self.id (marks c.nodes) ≡ true
    → c.self.is_self ≡ true
    → IsWhole (rebalance c)
rebalance-IsWhole c h m s =
    let (same, own) = self-rebalance c s m in
    record {
      has_own = ap₂ has_mark same (marks-rebalance c) ∙ h;
      own_marked = ap₂ all_marked same (marks-rebalance c) ∙ m;
      self_marked = own;
      one_owner = λ slot k. owners-rebalance slot c k (active_from-ne c.self.id 0 c.nodes h m);
    }

new_cluster-IsWhole : (id addr peers : Text) (now : ℤ) → IsWhole (new_cluster id addr peers now)
unfolding new_cluster
new_cluster-IsWhole id addr peers now =
    let self = self_node id addr now in
    let others = peer_nodes (split_text b',' peers) now in
    let nodes = mark_self id (assign_slots (self ∷ others)) in
    let same = id-find_self id self nodes refl in
    let marked = all_marked-mark_self id (assign_slots (self ∷ others)) in
    record {
      has_own =
          ap (λ i. has_mark i (marks nodes)) same ∙ has_mark-mark_assigned id self others refl;
      own_marked = ap (λ i. all_marked i (marks nodes)) same ∙ marked;
      self_marked = is_self-find_self id self nodes refl marked;
      one_owner = λ slot k.
          owners-mark_self slot id (assign_slots (self ∷ others))
          ∙ owners-assign_slots slot self others k;
    }

meet-IsWhole :
    (addr id : Text) (now : ℤ) (c : Cluster)
    → text_eq id c.self.id ≡ false
    → IsWhole c
    → IsWhole (meet addr id now c).0
unfolding meet
meet-IsWhole addr id now c h w = elim (Bool-cases (has_addr addr c.nodes)) [
  | inl e ↦ rw e w
  | inr e ↦ elim (Bool-cases (text_eq id [])) [
    | inl g ↦ rw (e, g) w
    | inr g ↦
        rw (e, g)
          (rebalance-IsWhole (record c { nodes = c.nodes ++ new_node id addr now ∷ [] })
            (ap (has_mark c.self.id) (marks-append c.nodes (new_node id addr now ∷ []))
              ∙ has_mark-append c.self.id (marks c.nodes) ((id, false) ∷ [])
              ∙ rw w.has_own refl)
            (ap (all_marked c.self.id) (marks-append c.nodes (new_node id addr now ∷ []))
              ∙ all_marked-append c.self.id (marks c.nodes) ((id, false) ∷ [])
              ∙ rw (w.own_marked, h) refl)
            w.self_marked)
  ]
]

forget_node-IsWhole : (id : Text) (c : Cluster) → IsWhole c → IsWhole (forget_node id c).0
unfolding forget_node
forget_node-IsWhole id c w = elim (Bool-cases (text_eq id c.self.id)) [
  | inl e ↦ rw e w
  | inr e ↦ elim (Bool-cases (has_id id c.nodes)) [
    | inl g ↦
        let same = without_node_lem c.self.id id c.nodes e in
        rw (e, g)
          (rebalance-IsWhole (record c { nodes = without_node id c.nodes }) (same.0 ∙ w.has_own)
            (same.1 ∙ w.own_marked) w.self_marked)
    | inr g ↦ rw (e, g) w
  ]
]

reset_cluster-IsWhole : (c : Cluster) → IsWhole c → IsWhole (reset_cluster c)
unfolding reset_cluster owners covers
reset_cluster-IsWhole c w = record {
  has_own = rw (text_eq_refl c.self.id) refl;
  own_marked = rw (text_eq_refl c.self.id, w.self_marked) refl;
  self_marked = w.self_marked;
  one_owner = λ slot k. ground (arith, k);
}

owners-pinged :
    (slot : ℕ) (id : Text) (good : Bool) (now later : ℤ) (xs : List Node)
    → owners slot (pinged id good now later xs) ≡ owners slot xs
unfolding owners pinged pinged_node covers
owners-pinged slot id good now later [] = refl
owners-pinged slot id good now later (x ∷ xs) = elim (Bool-cases (text_eq x.id id)) [
  | inl e ↦ elim (Bool-cases good) [ inl g ↦ rw (e, g) refl | inr g ↦ rw (e, g) refl ]
  | inr e ↦
      rw e
        (ap (λ n. (if covers slot x then 1 else 0) + n) (owners-pinged slot id good now later xs))
]

Reached-IsWhole : (c : Cluster) → Reached c → IsWhole c
Reached-IsWhole _ (founded id addr peers now) = new_cluster-IsWhole id addr peers now
Reached-IsWhole _ (met addr id now c h r) = meet-IsWhole addr id now c h (Reached-IsWhole c r)
Reached-IsWhole _ (forgot id c r) = forget_node-IsWhole id c (Reached-IsWhole c r)
Reached-IsWhole _ (was_reset c r) = reset_cluster-IsWhole c (Reached-IsWhole c r)
Reached-IsWhole _ (heard id good now later c r) =
    let w = Reached-IsWhole c r in
    record {
      has_own = ap (has_mark c.self.id) (marks-pinged id good now later c.nodes) ∙ w.has_own;
      own_marked =
          ap (all_marked c.self.id) (marks-pinged id good now later c.nodes) ∙ w.own_marked;
      self_marked = w.self_marked;
      one_owner = λ slot k. owners-pinged slot id good now later c.nodes ∙ w.one_owner slot k;
    }

-- In every cluster that calls of `NewCluster`, `Meet`, `Forget` and `Reset` and the results of pings lead
-- to, the slot of a key is one of the 16384, one node has it and no other, and `Owner` answers with that
-- node. The nodes that are met answer with other identifiers than the cluster's own.
pub Reached-owners :
    (c : Cluster) (key : Text)
    → Reached c
    → (slot_of key < slot_count)
      × (owners (slot_of key) c.nodes ≡ 1)
      × (covers (slot_of key) (owner key c) ≡ true)
unfolding owner
Reached-owners c key r =
    let one = (Reached-IsWhole c r).one_owner (slot_of key) (slot_of-lt key) in
    (slot_of-lt key, one, covers-owner_in (slot_of key) c.nodes c.self (omega (arith, one)))
