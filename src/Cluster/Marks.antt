-- ===== src/Cluster/Marks.antt =====
-- internal/server/cluster.go: the identifiers of the nodes, with their field `Self`, in the operations on the nodes.
use vole.Prelude.{
  subst, ℕ, zero, suc, ◌/◌, ◌<◌, ◌≡◌, refl, ap, ◌∙◌, sym, Bool, true, false, not, ◌&&◌, ◌||◌, List,
  [], ◌∷◌, ◌++◌, length, arith, ◌==◌, Bool-cases, inl, inr,
}
use vole.Prelude.Text.{Text, text_eq, text_eq_iff, text_eq_refl, text_lt}
use vole.Prelude.Int.{ℤ}
use vole.Cluster.{
  slot_count, Node, Cluster, insert_node, sort_nodes, with_slots, assign_loop, assign_slots,
  mark_self, find_self,
}
use vole.Cluster.Changes.{
  pinged_node, pinged, is_active, active_from, sort_indices, clear_slots, set_slots, rebalance_loop,
  rebalance, without_node,
}
use vole.Cluster.Rebalance.{update, set_slots-update}

abbrev pub marks : List Node → List (Text × Bool)
marks [] = []
marks (x ∷ xs) = (x.id, x.is_self) ∷ marks xs

-- A node has the identifier.
abbrev pub has_mark : Text → List (Text × Bool) → Bool
has_mark id [] = false
has_mark id ((i, b) ∷ ms) = text_eq i id || has_mark id ms

-- The nodes with the identifier are marked as the node itself.
abbrev pub all_marked : Text → List (Text × Bool) → Bool
all_marked id [] = true
all_marked id ((i, b) ∷ ms) = (not (text_eq i id) || b) && all_marked id ms

marks-update :
    (f : Node → Node) (i : ℕ) (xs : List Node)
    → ((x : Node) → (f x).id ≡ x.id)
    → ((x : Node) → (f x).is_self ≡ x.is_self)
    → marks (update f i xs) ≡ marks xs
unfolding update
marks-update f i [] g h = refl
marks-update f zero (x ∷ xs) g h = rw (g x, h x) refl
marks-update f (suc i) (x ∷ xs) g h = ap (λ r. (x.id, x.is_self) ∷ r) (marks-update f i xs g h)

marks-set_slots : (width n j i : ℕ) (xs : List Node) → marks (set_slots width n j i xs) ≡ marks xs
unfolding with_slots
marks-set_slots width n j i xs =
    ap marks (set_slots-update width n j i xs)
    ∙ marks-update (with_slots width n j) i xs (λ x. refl) (λ x. refl)

pub marks-rebalance_loop :
    (width n j : ℕ) (ix : List (Text × ℕ)) (xs : List Node)
    → marks (rebalance_loop width n j ix xs) ≡ marks xs
unfolding rebalance_loop
marks-rebalance_loop width n j [] xs = refl
marks-rebalance_loop width n j (a ∷ ix) xs =
    marks-rebalance_loop width n (suc j) ix (set_slots width n j a.1 xs)
    ∙ marks-set_slots width n j a.1 xs

pub marks-clear_slots : (xs : List Node) → marks (clear_slots xs) ≡ marks xs
unfolding clear_slots
marks-clear_slots [] = refl
marks-clear_slots (x ∷ xs) = ap (λ r. (x.id, x.is_self) ∷ r) (marks-clear_slots xs)

pub marks-rebalance : (c : Cluster) → marks (rebalance c).nodes ≡ marks c.nodes
unfolding rebalance
marks-rebalance c =
    let active = active_from 0 c.nodes in
    let n = length active in
    elim (Bool-cases (n == 0)) [
      | inl e ↦ rw e refl
      | inr e ↦ rw e (
          marks-rebalance_loop (slot_count / n) n 0 (sort_indices active) (clear_slots c.nodes)
          ∙ marks-clear_slots c.nodes)
    ]

pub marks-pinged :
    (id : Text) (good : Bool) (now later : ℤ) (xs : List Node)
    → marks (pinged id good now later xs) ≡ marks xs
unfolding pinged pinged_node
marks-pinged id good now later [] = refl
marks-pinged id good now later (x ∷ xs) = elim (Bool-cases (text_eq x.id id)) [
  | inl e ↦ elim (Bool-cases good) [ inl g ↦ rw (e, g) refl | inr g ↦ rw (e, g) refl ]
  | inr e ↦ rw e (ap (λ r. (x.id, x.is_self) ∷ r) (marks-pinged id good now later xs))
]

pub marks-append : (xs ys : List Node) → marks (xs ++ ys) ≡ marks xs ++ marks ys
marks-append [] ys = refl
marks-append (x ∷ xs) ys = ap (λ r. (x.id, x.is_self) ∷ r) (marks-append xs ys)

pub has_mark-append :
    (id : Text) (ms ns : List (Text × Bool))
    → has_mark id (ms ++ ns) ≡ (has_mark id ms || has_mark id ns)
has_mark-append id [] ns = refl
has_mark-append id ((i, b) ∷ ms) ns = ground (arith, has_mark-append id ms ns)

pub all_marked-append :
    (id : Text) (ms ns : List (Text × Bool))
    → all_marked id (ms ++ ns) ≡ (all_marked id ms && all_marked id ns)
all_marked-append id [] ns = refl
all_marked-append id ((i, b) ∷ ms) ns = ground (arith, all_marked-append id ms ns)

-- Nodes of another identifier that go change nothing for this one.
pub without_node_lem :
    (id out : Text) (xs : List Node)
    → text_eq out id ≡ false
    → (has_mark id (marks (without_node out xs)) ≡ has_mark id (marks xs))
      × (all_marked id (marks (without_node out xs)) ≡ all_marked id (marks xs))
unfolding without_node
without_node_lem id out [] h = (refl, refl)
without_node_lem id out (x ∷ xs) h = elim (Bool-cases (text_eq x.id out)) [
  | inl e ↦
      let other : text_eq x.id id ≡ false =
        subst (λ t. text_eq t id ≡ false) (sym ((text_eq_iff x.id out).0 e)) h in
      rw (e, other) (without_node_lem id out xs h)
  | inr e ↦ rw e (ground (arith, without_node_lem id out xs h))
]

-- A new cluster's nodes.
pub all_marked-mark_self :
    (id : Text) (xs : List Node) → all_marked id (marks (mark_self id xs)) ≡ true
unfolding mark_self
all_marked-mark_self id [] = refl
all_marked-mark_self id (x ∷ xs) = elim (Bool-cases (text_eq x.id id)) [
  | inl e ↦ rw e (ground (arith, all_marked-mark_self id xs))
  | inr e ↦ rw e (ground (arith, e, all_marked-mark_self id xs))
]

has_mark-mark_self :
    (id : Text) (xs : List Node) → has_mark id (marks (mark_self id xs)) ≡ has_mark id (marks xs)
unfolding mark_self
has_mark-mark_self id [] = refl
has_mark-mark_self id (x ∷ xs) = elim (Bool-cases (text_eq x.id id)) [
  | inl e ↦ rw (e, e) refl
  | inr e ↦ rw (e, e) (has_mark-mark_self id xs)
]

has_mark-assign_loop :
    (id : Text) (width n i : ℕ) (xs : List Node)
    → has_mark id (marks (assign_loop width n i xs)) ≡ has_mark id (marks xs)
unfolding assign_loop with_slots
has_mark-assign_loop id width n i [] = refl
has_mark-assign_loop id width n i (x ∷ xs) =
    ap (λ b. text_eq x.id id || b) (has_mark-assign_loop id width n (suc i) xs)

has_mark-insert_node :
    (id : Text) (x : Node) (xs : List Node)
    → has_mark id (marks (insert_node x xs)) ≡ has_mark id (marks (x ∷ xs))
unfolding insert_node
has_mark-insert_node id x [] = refl
has_mark-insert_node id x (y ∷ ys) = elim (Bool-cases (text_lt y.id x.id)) [
  | inl e ↦ rw e (ground (arith, has_mark-insert_node id x ys))
  | inr e ↦ rw e refl
]

pub has_mark-mark_assigned :
    (id : Text) (x : Node) (xs : List Node)
    → x.id ≡ id
    → has_mark id (marks (mark_self id (assign_slots (x ∷ xs)))) ≡ true
unfolding assign_slots sort_nodes
has_mark-mark_assigned id x xs e =
    let n = length (x ∷ xs) in
    has_mark-mark_self id (assign_slots (x ∷ xs))
    ∙ has_mark-assign_loop id (slot_count / n) n 0 (sort_nodes (x ∷ xs))
    ∙ has_mark-insert_node id x (sort_nodes xs)
    ∙ rw (e, text_eq_refl id) refl

-- The node that stands for the node itself.
pub id-find_self :
    (id : Text) (self : Node) (xs : List Node) → self.id ≡ id → (find_self id self xs).id ≡ id
unfolding find_self
id-find_self id self [] e = e
id-find_self id self (x ∷ xs) e = elim (Bool-cases (text_eq x.id id)) [
  | inl h ↦ rw (find_self, h) (id-find_self id x xs ((text_eq_iff x.id id).0 h))
  | inr h ↦ rw (find_self, h) (id-find_self id self xs e)
]

pub is_self-find_self :
    (id : Text) (self : Node) (xs : List Node)
    → self.is_self ≡ true
    → all_marked id (marks xs) ≡ true
    → (find_self id self xs).is_self ≡ true
unfolding find_self
is_self-find_self id self [] e m = e
is_self-find_self id self (x ∷ xs) e m = elim (Bool-cases (text_eq x.id id)) [
  | inl h ↦ rw (find_self, h) (is_self-find_self id x xs (ground (arith, m, h)) (ground (arith, m)))
  | inr h ↦ rw (find_self, h) (is_self-find_self id self xs e (ground (arith, m)))
]

pub active_from-ne :
    (id : Text) (k : ℕ) (xs : List Node)
    → has_mark id (marks xs) ≡ true
    → all_marked id (marks xs) ≡ true
    → 0 < length (active_from k xs)
unfolding active_from is_active
active_from-ne id k [] h m = absurd (ground (arith, h))
active_from-ne id k (x ∷ xs) h m = elim (Bool-cases (text_eq x.id id)) [
  | inl e ↦ ground (arith, m, e)
  | inr e ↦ ground (arith, active_from-ne id (suc k) xs (ground (arith, h, e)) (ground (arith, m)))
]
