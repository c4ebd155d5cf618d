-- ===== src/Cluster/Rebalance.antt =====
-- internal/server/cluster.go, `rebalanceSlots`: the slots of the active nodes.
use vole.Prelude.{
  ==_iff, subst, ℕ, zero, suc, ◌+◌, ◌*◌, ◌/◌, ◌<◌, ◌≡◌, refl, ap, ◌∙◌, sym, Bool, true, false, not,
  ◌&&◌, ◌||◌, List, [], ◌∷◌, Option, some, none, length, get_elem?, set, ltb, ◌==◌, if◌then◌else◌,
  arith, Bool-cases, inl, inr,
}
use native.Mathlib.Nat.{suc-mul}
use vole.Prelude.Text.{Text, text_lt}
use vole.Cluster.{slot_count, Node, Cluster, covers, with_slots}
use vole.Cluster.Changes.{
  is_active, active_from, insert_index, sort_indices, clear_slots, set_slots, rebalance_loop,
  rebalance,
}
use vole.Cluster.Slots.{owners, covers-with_slots, covers_last}

-- The index is in the list.
unfoldable pub holds : ℕ → List (Text × ℕ) → Bool
holds i [] = false
holds i ((id, j) ∷ ix) = j == i || holds i ix

-- No index stands twice in the list.
abbrev pub Distinct : List (Text × ℕ) → Type 0
Distinct [] = Unit {0}
Distinct ((id, i) ∷ ix) = (holds i ix ≡ false) × Distinct ix

-- There is a node at the index, without the slot.
unfoldable is_free : ℕ → List Node → ℕ → Bool
is_free slot [] i = false
is_free slot (x ∷ xs) zero = not (covers slot x)
is_free slot (x ∷ xs) (suc i) = is_free slot xs i

abbrev AllFree : ℕ → List Node → List (Text × ℕ) → Type 0
AllFree slot nodes ix = (i : ℕ) → holds i ix ≡ true → is_free slot nodes i ≡ true

-- The node at an index, changed.
unfoldable pub update : (Node → Node) → ℕ → List Node → List Node
update f i [] = []
update f zero (x ∷ xs) = f x ∷ xs
update f (suc i) (x ∷ xs) = x ∷ update f i xs

pub set_slots-update :
    (width n j i : ℕ) (nodes : List Node)
    → set_slots width n j i nodes ≡ update (with_slots width n j) i nodes
unfolding set_slots update
set_slots-update width n j i [] = refl
set_slots-update width n j zero (x ∷ xs) = refl
set_slots-update width n j (suc i) (x ∷ xs) =
    go (get_elem? xs i) ∙ ap (λ r. x ∷ r) (set_slots-update width n j i xs)
  where
    go :
        (o : Option Node)
        → (elim o as (λ _. List Node) [
          | none ↦ x ∷ xs
          | some y ↦ x ∷ set xs i (with_slots width n j y)
        ])
          ≡ x ∷ (elim o as (λ _. List Node) [
            | none ↦ xs
            | some y ↦ set xs i (with_slots width n j y)
          ])
    go none = refl
    go (some y) = refl

is_free-update :
    (f : Node → Node) (slot i k : ℕ) (nodes : List Node)
    → (i == k) ≡ false
    → is_free slot (update f i nodes) k ≡ is_free slot nodes k
unfolding update is_free
is_free-update f slot i k [] h = refl
is_free-update f slot zero zero (x ∷ xs) h = absurd (ground (arith, h))
is_free-update f slot zero (suc k) (x ∷ xs) h = refl
is_free-update f slot (suc i) zero (x ∷ xs) h = refl
is_free-update f slot (suc i) (suc k) (x ∷ xs) h = is_free-update f slot i k xs (ground (arith, h))

-- A node that had not the slot, and has it behind the change or not.
owners-update :
    (f : Node → Node) (good : Bool) (slot i : ℕ) (nodes : List Node)
    → ((x : Node) → covers slot (f x) ≡ good)
    → is_free slot nodes i ≡ true
    → owners slot (update f i nodes) ≡ (if good then 1 else 0) + owners slot nodes
unfolding update is_free owners
owners-update f good slot i [] g h = absurd (ground (arith, h))
owners-update f good slot zero (x ∷ xs) g h = rw (g x) (ground (arith, h))
owners-update f good slot (suc i) (x ∷ xs) g h = ground (arith, owners-update f good slot i xs g h)

holds-insert_index :
    (i : ℕ) (a : Text × ℕ) (ix : List (Text × ℕ)) → holds i (insert_index a ix) ≡ holds i (a ∷ ix)
unfolding holds insert_index
holds-insert_index i a [] = refl
holds-insert_index i a (b ∷ ix) = ground (arith, holds-insert_index i a ix)

holds-sort_indices : (i : ℕ) (ix : List (Text × ℕ)) → holds i (sort_indices ix) ≡ holds i ix
unfolding holds sort_indices
holds-sort_indices i [] = refl
holds-sort_indices i (a ∷ ix) =
    holds-insert_index i a (sort_indices ix) ∙ ap (λ b. (a.1 == i) || b) (holds-sort_indices i ix)

insert_index-Distinct :
    (a : Text × ℕ) (ix : List (Text × ℕ))
    → holds a.1 ix ≡ false
    → Distinct ix
    → Distinct (insert_index a ix)
unfolding holds insert_index
insert_index-Distinct a [] h d = (refl, tt)
insert_index-Distinct a (b ∷ ix) h d =
    let rest = insert_index-Distinct a ix (ground (arith, h)) d.1 in
    elim (Bool-cases (text_lt b.0 a.0)) [
      | inl e ↦ rw e (holds-insert_index b.1 a ix ∙ ground (arith, h, d.0), rest)
      | inr e ↦ rw e (h, d)
    ]

sort_indices-Distinct : (ix : List (Text × ℕ)) → Distinct ix → Distinct (sort_indices ix)
unfolding sort_indices
sort_indices-Distinct [] d = tt
sort_indices-Distinct (a ∷ ix) d =
    insert_index-Distinct a (sort_indices ix) (holds-sort_indices a.1 ix ∙ d.0)
      (sort_indices-Distinct ix d.1)

length-insert_index :
    (a : Text × ℕ) (ix : List (Text × ℕ)) → length (insert_index a ix) ≡ suc (length ix)
unfolding insert_index
length-insert_index a [] = refl
length-insert_index a (b ∷ ix) = ground (arith, length-insert_index a ix)

length-sort_indices : (ix : List (Text × ℕ)) → length (sort_indices ix) ≡ length ix
unfolding sort_indices
length-sort_indices [] = refl
length-sort_indices (a ∷ ix) =
    length-insert_index a (sort_indices ix) ∙ ap suc (length-sort_indices ix)

-- The indices of the active nodes: none is below the first, and none stands twice.
holds_below : (i k : ℕ) (nodes : List Node) → i < k → holds i (active_from k nodes) ≡ false
unfolding holds active_from
holds_below i k [] h = refl
holds_below i k (x ∷ xs) h = ground (arith, h, holds_below i (suc k) xs (omega (arith, h)))

active_from-Distinct : (k : ℕ) (nodes : List Node) → Distinct (active_from k nodes)
unfolding active_from
active_from-Distinct k [] = tt
active_from-Distinct k (x ∷ xs) = elim (Bool-cases (is_active x)) [
  | inl e ↦ rw e (holds_below k (suc k) xs (omega arith), active_from-Distinct (suc k) xs)
  | inr e ↦ rw e (active_from-Distinct (suc k) xs)
]

owners-clear_slots : (slot : ℕ) (nodes : List Node) → owners slot (clear_slots nodes) ≡ 0
unfolding owners clear_slots covers
owners-clear_slots slot [] = refl
owners-clear_slots slot (x ∷ xs) = ground (arith, owners-clear_slots slot xs)

-- Every node that is cleared has no slot, at the index that the loop counts to.
is_free-clear_slots :
    (slot i k : ℕ) (nodes : List Node)
    → holds (i + k) (active_from k nodes) ≡ true
    → is_free slot (clear_slots nodes) i ≡ true
unfolding holds active_from is_free clear_slots covers
is_free-clear_slots slot i k [] h = absurd (ground (arith, h))
is_free-clear_slots slot zero k (x ∷ xs) h = ground arith
is_free-clear_slots slot (suc i) k (x ∷ xs) h =
    is_free-clear_slots slot i (suc k) xs (ground (arith, h))

ne-of_holds :
    (i k : ℕ) (ix : List (Text × ℕ)) → holds i ix ≡ false → holds k ix ≡ true → (i == k) ≡ false
ne-of_holds i k ix h g = elim (Bool-cases (i == k)) [
  | inl e ↦ absurd (ground (arith, g, subst (λ m. holds m ix ≡ false) ((==_iff i k).0 e) h))
  | inr e ↦ e
]

owners-rebalance_loop :
    (width n j slot : ℕ) (a : Text × ℕ) (ix : List (Text × ℕ)) (nodes : List Node)
    → j + suc (length ix) ≡ n
    → slot < slot_count
    → Distinct (a ∷ ix)
    → AllFree slot nodes (a ∷ ix)
    → owners slot (rebalance_loop width n j (a ∷ ix) nodes)
      ≡ (if ltb slot (j * width) then 0 else 1) + owners slot nodes
unfolding rebalance_loop holds
owners-rebalance_loop width n j slot a [] nodes e k d f =
    ap (owners slot) (set_slots-update width n j a.1 nodes)
    ∙ owners-update (with_slots width n j) (not (ltb slot (j * width))) slot a.1 nodes
        (λ x. covers_last width n j slot x (ground (arith, e)) k) (f a.1 (ground arith))
    ∙ ground arith
owners-rebalance_loop width n j slot a (b ∷ ix) nodes e k d f =
    let further : suc j * width ≡ j * width + width = suc-mul j width in
    let next = update (with_slots width n j) a.1 nodes in
    let here : owners slot next
        ≡ (if not (ltb slot (j * width)) && ltb slot (suc j * width) then 1 else 0)
          + owners slot nodes =
      owners-update (with_slots width n j) (not (ltb slot (j * width)) && ltb slot (suc j * width))
        slot a.1 nodes (λ x. covers-with_slots width n j slot x (ground (arith, e)))
        (f a.1 (ground arith)) in
    let free : AllFree slot next (b ∷ ix) = (λ i h.
      is_free-update (with_slots width n j) slot a.1 i nodes (ne-of_holds a.1 i (b ∷ ix) d.0 h)
      ∙ f i (ground (arith, h))) in
    ap (λ s. owners slot (rebalance_loop width n (suc j) (b ∷ ix) s))
      (set_slots-update width n j a.1 nodes)
    ∙ owners-rebalance_loop width n (suc j) slot b ix next (omega (arith, e)) k d.1 free
    ∙ ground (arith, here, further)

-- Where a node is active, one node has each slot, whoever had it before.
pub owners-rebalance :
    (slot : ℕ) (c : Cluster)
    → slot < slot_count
    → 0 < length (active_from 0 c.nodes)
    → owners slot (rebalance c).nodes ≡ 1
unfolding rebalance
owners-rebalance slot c k h =
    let active = active_from 0 c.nodes in
    let some_active : (length active == 0) ≡ false = ground (arith, h) in
    rw some_active (
      one (sort_indices active) (length-sort_indices active)
        (sort_indices-Distinct active (active_from-Distinct 0 c.nodes))
        (λ i g.
          is_free-clear_slots slot i 0 c.nodes
            (ap (λ m. holds m active) (omega arith) ∙ sym (holds-sort_indices i active) ∙ g)))
  where
    one :
        (ix : List (Text × ℕ))
        → length ix ≡ length (active_from 0 c.nodes)
        → Distinct ix
        → AllFree slot (clear_slots c.nodes) ix
        → owners slot (
            rebalance_loop
              (slot_count / length (active_from 0 c.nodes))
              (length (active_from 0 c.nodes))
              0
              ix
              (clear_slots c.nodes))
          ≡ 1
    one [] e d f = absurd (omega (arith, e, h))
    one (a ∷ ix) e d f =
        owners-rebalance_loop (slot_count / length (active_from 0 c.nodes))
          (length (active_from 0 c.nodes)) 0 slot a ix (clear_slots c.nodes) (omega (arith, e)) k d
          f
        ∙ ground (arith, owners-clear_slots slot c.nodes)
