-- ===== src/Cluster/Tags.antt =====
-- internal/server/cluster.go, `Slot`: the hash tag of a key alone gives its slot.
use vole.Prelude.{
  ℕ, ◌+◌, ◌%◌, ◌<◌, ◌≡◌, refl, ap, ◌∙◌, false, [], ◌∷◌, ◌++◌, some, none, length, ◌==◌, drop, arith,
  Bool-cases, inl, inr,
}
use vole.Prelude.Text.{Text}
use vole.Prelude.{take-length}
use native.Mathlib.Nat.{suc-add}
use vole.Prelude.{sym}
use vole.Prelude.Crc.{checksum_ieee}
use vole.Cluster.{slot_count, index_byte, tag_in, hash_tag, slot_of}

-- The byte is not in the text.
abbrev Free : ℕ → Text → Type 0
Free b s = index_byte b s ≡ none

index_byte-cons : (b c : ℕ) (s : Text) → Free b (c ∷ s) → ((c == b) ≡ false) × Free b s
unfolding index_byte
index_byte-cons b c s h = elim (Bool-cases (c == b)) [
  | inl e ↦ absurd (ground (arith, h, e))
  | inr e ↦ (e, ground (arith, h, e))
]

index_byte-append :
    (b : ℕ) (s rest : Text) → Free b s → index_byte b (s ++ b ∷ rest) ≡ some (length s)
unfolding index_byte
index_byte-append b [] rest h = ground arith
index_byte-append b (c ∷ s) rest h =
    let apart = index_byte-cons b c s h in
    rw (index_byte-append b s rest apart.1, apart.0) (ap some (omega arith))

drop_next : (s rest : Text) (b : ℕ) → drop (length s + 1) (s ++ b ∷ rest) ≡ rest
drop_next [] rest b = refl
drop_next (c ∷ s) rest b = rw (suc-add (length s) 1) (drop_next s rest b)

hash_tag_plain : (key : Text) → Free b'{' key → hash_tag key ≡ key
unfolding hash_tag
hash_tag_plain key free = rw (hash_tag, free) refl

tag_in-append :
    (key tag behind : Text)
    → Free b'}' tag
    → 0 < length tag
    → tag_in key (tag ++ b'}' ∷ behind) ≡ tag
unfolding tag_in
tag_in-append key tag behind k p =
    rw (tag_in, index_byte-append b'}' tag behind k)
      (ground (arith, p, take-length tag (b'}' ∷ behind)))

-- A key with a tag between its first brace and the next closing one.
abbrev pub tagged : Text → Text → Text → Text
tagged before tag behind = before ++ b'{' ∷ (tag ++ b'}' ∷ behind)

hash_tag-tagged :
    (before tag behind : Text)
    → Free b'{' before
    → Free b'}' tag
    → 0 < length tag
    → hash_tag (tagged before tag behind) ≡ tag
unfolding hash_tag
hash_tag-tagged before tag behind h k p =
    rw
      (
        hash_tag,
        index_byte-append b'{' before (tag ++ b'}' ∷ behind) h,
        drop_next before (tag ++ b'}' ∷ behind) b'{',
      )
      (tag_in-append (tagged before tag behind) tag behind k p)

-- A key with a tag that is not empty, between its first brace and the next closing one, has the slot of
-- the checksum of the tag, so two keys with one tag have one slot, whatever stands before and behind it;
-- a key with no opening brace has the slot of the checksum of all of it.
pub slot_of-tagged :
    (before other tag behind last plain : Text)
    → Free b'{' before
    → Free b'{' other
    → Free b'}' tag
    → 0 < length tag
    → Free b'{' plain
    → (slot_of (tagged before tag behind) ≡ checksum_ieee tag % slot_count)
      × (slot_of (tagged before tag behind) ≡ slot_of (tagged other tag last))
      × (slot_of plain ≡ checksum_ieee plain % slot_count)
unfolding slot_of hash_tag
slot_of-tagged before other tag behind last plain h g k p free =
    let same = hash_tag-tagged before tag behind h k p in
    (
      ap (λ t. checksum_ieee t % slot_count) same,
      ap (λ t. checksum_ieee t % slot_count) (same ∙ sym (hash_tag-tagged other tag last g k p)),
      ap (λ t. checksum_ieee t % slot_count) (hash_tag_plain plain free),
    )
