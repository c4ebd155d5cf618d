-- ===== src/Cluster/Tests.antt =====
-- The cluster at concrete keys.
use vole.Prelude.{◌≡◌, refl, ◌<◌, ◌%◌, true, [], ◌∷◌, arith}
use vole.Prelude.Text.{Text}
use vole.Prelude.Int.{pos}
use vole.Prelude.Crc.{checksum_ieee}
use vole.Prelude.Text.{text_eq, text_lt}
use vole.Aof.{split_text, split_byte}
use vole.Cluster.Reach.{Reached, founded, met, Reached-owners}
use vole.Cluster.{
  Cluster, find_self, mark_self, assign_slots, assign_loop, sort_nodes, insert_node, peer_nodes,
  peer_node, trim_space, trim_left, with_slots, slot_count, index_byte, new_cluster, slot_of, owner,
  covers,
}
use vole.Cluster.Changes.{meet}
use vole.Cluster.Slots.{owners}
use vole.Cluster.Tags.{tagged, slot_of-tagged}

abbrev peers : Text
peers = b'b' ∷ b'@' ∷ b'h' ∷ b',' ∷ b'c' ∷ b'@' ∷ b'i' ∷ []

abbrev grown : Cluster
grown =
    (meet (b'h' ∷ b'2' ∷ []) (b'd' ∷ []) (pos 9)
      (new_cluster (b'a' ∷ []) (b'g' ∷ []) peers (pos 5))).0

grown-Reached : Reached grown
unfolding new_cluster text_eq find_self mark_self assign_slots assign_loop sort_nodes insert_node
    peer_nodes peer_node split_text split_byte trim_space trim_left with_slots text_lt
grown-Reached =
    met (b'h' ∷ b'2' ∷ []) (b'd' ∷ []) (pos 9) (new_cluster (b'a' ∷ []) (b'g' ∷ []) peers (pos 5))
      refl (founded (b'a' ∷ []) (b'g' ∷ []) peers (pos 5))

Reached-owners_example :
    (slot_of (b'k' ∷ []) < slot_count)
    × (owners (slot_of (b'k' ∷ [])) grown.nodes ≡ 1)
    × (covers (slot_of (b'k' ∷ [])) (owner (b'k' ∷ []) grown) ≡ true)
Reached-owners_example = Reached-owners grown (b'k' ∷ []) grown-Reached

slot_of-tagged_example :
    (slot_of (tagged (b'u' ∷ []) (b't' ∷ []) (b'1' ∷ [])) ≡ checksum_ieee (b't' ∷ []) % slot_count)
    × (slot_of (tagged (b'u' ∷ []) (b't' ∷ []) (b'1' ∷ [])) ≡ slot_of (tagged [] (b't' ∷ []) []))
    × (slot_of (b'p' ∷ []) ≡ checksum_ieee (b'p' ∷ []) % slot_count)
unfolding index_byte
slot_of-tagged_example =
    slot_of-tagged (b'u' ∷ []) [] (b't' ∷ []) (b'1' ∷ []) [] (b'p' ∷ []) refl refl refl
      (omega arith) refl
