-- ===== src/Cluster/Slots.antt =====
-- internal/server/cluster.go, `assignSlots` and `Owner`: the nodes that have a slot.
use vole.Prelude.{
  ℕ, zero, suc, ◌+◌, ◌*◌, ◌/◌, ◌<◌, ◌≡◌, refl, ap, ◌∙◌, inl, inr, true, false, not, ◌&&◌, List, [],
  ◌∷◌, length, arith, ltb, ◌==◌, if◌then◌else◌, Bool-cases,
}
use vole.Prelude.Text.{Text, text_eq}
use vole.Prelude.Int.{pos, ltb_ℤ}
use vole.Cluster.{
  slot_count, Node, slot_of, insert_node, sort_nodes, minus_one, with_slots, assign_loop,
  assign_slots, mark_self, covers, owner_in,
}
use native.Mathlib.Nat.{suc-mul}

-- how many nodes have a slot
unfoldable pub owners : ℕ → List Node → ℕ
owners slot [] = 0
owners slot (x ∷ xs) = (if covers slot x then 1 else 0) + owners slot xs

between_lem :
    (start m slot : ℕ)
    → (not (ltb_ℤ (pos slot) (pos start)) && not (ltb_ℤ (minus_one m) (pos slot)))
      ≡ (not (ltb slot start) && ltb slot m)
between_lem start zero slot = ground arith
between_lem start (suc m) slot = ground arith

-- a node in the middle has the slots from its start to the next one's
pub covers-with_slots :
    (width n i slot : ℕ) (x : Node)
    → (suc i == n) ≡ false
    → covers slot (with_slots width n i x)
      ≡ (not (ltb slot (i * width)) && ltb slot (suc i * width))
unfolding covers with_slots
covers-with_slots width n i slot x h = rw h (between_lem (i * width) (suc i * width) slot)

pub covers_last :
    (width n i slot : ℕ) (x : Node)
    → (suc i == n) ≡ true
    → slot < slot_count
    → covers slot (with_slots width n i x) ≡ not (ltb slot (i * width))
unfolding covers with_slots
covers_last width n i slot x h k = rw h (ground arith)

owners-assign_loop :
    (width n i slot : ℕ) (x : Node) (xs : List Node)
    → i + suc (length xs) ≡ n
    → slot < slot_count
    → owners slot (assign_loop width n i (x ∷ xs)) ≡ (if ltb slot (i * width) then 0 else 1)
unfolding owners assign_loop
owners-assign_loop width n i slot x [] e k =
    rw (covers_last width n i slot x (ground (arith, e)) k) (ground arith)
owners-assign_loop width n i slot x (y ∷ ys) e k =
    let further : suc i * width ≡ i * width + width = suc-mul i width in
    rw
      (
        covers-with_slots width n i slot x (ground (arith, e)),
        owners-assign_loop width n (suc i) slot y ys (omega (arith, e)) k,
      )
      (ground (arith, further))

length-insert_node : (x : Node) (xs : List Node) → length (insert_node x xs) ≡ suc (length xs)
unfolding insert_node
length-insert_node x [] = refl
length-insert_node x (y ∷ ys) = ground (arith, length-insert_node x ys)

length-sort_nodes : (xs : List Node) → length (sort_nodes xs) ≡ length xs
unfolding sort_nodes
length-sort_nodes [] = refl
length-sort_nodes (x ∷ xs) = length-insert_node x (sort_nodes xs) ∙ ap suc (length-sort_nodes xs)

pub owners-assign_slots :
    (slot : ℕ) (x : Node) (xs : List Node)
    → slot < slot_count
    → owners slot (assign_slots (x ∷ xs)) ≡ 1
unfolding assign_slots
owners-assign_slots slot x xs k = go (sort_nodes (x ∷ xs)) (length-sort_nodes (x ∷ xs))
  where
    go :
        (ys : List Node)
        → length ys ≡ suc (length xs)
        → owners slot (assign_loop (slot_count / suc (length xs)) (suc (length xs)) 0 ys) ≡ 1
    go [] e = absurd (omega (arith, e))
    go (y ∷ ys) e =
        owners-assign_loop (slot_count / suc (length xs)) (suc (length xs)) 0 slot y ys
          (omega (arith, e)) k
        ∙ ground arith

pub owners-mark_self :
    (slot : ℕ) (id : Text) (xs : List Node) → owners slot (mark_self id xs) ≡ owners slot xs
unfolding owners mark_self covers
owners-mark_self slot id [] = refl
owners-mark_self slot id (x ∷ xs) = elim (Bool-cases (text_eq x.id id)) [
  | inl e ↦ rw e (ap (λ n. (if covers slot x then 1 else 0) + n) (owners-mark_self slot id xs))
  | inr e ↦ rw e (ap (λ n. (if covers slot x then 1 else 0) + n) (owners-mark_self slot id xs))
]

-- `Owner` finds a node with the slot where there is one.
pub covers-owner_in :
    (slot : ℕ) (xs : List Node) (self : Node)
    → 0 < owners slot xs
    → covers slot (owner_in slot xs self) ≡ true
unfolding owner_in owners
covers-owner_in slot [] self h = absurd (omega (arith, h))
covers-owner_in slot (x ∷ xs) self h = elim (Bool-cases (covers slot x)) [
  | inl e ↦ rw e e
  | inr e ↦ rw e (covers-owner_in slot xs self (ground (arith, h, e)))
]

pub slot_of-lt : (key : Text) → slot_of key < slot_count
unfolding slot_of
slot_of-lt key = omega arith
