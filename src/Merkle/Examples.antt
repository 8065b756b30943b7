-- ===== src/Merkle/Examples.antt =====
-- Two workers' regions, the root's children 0 to 4 and 5 to 9, and a diff of two nodes.
use nomt.Base.{Bytes, length, List, ◌≡◌, refl, true, false, ◌&&◌, [], ◌∷◌, some, arith, replicate}
use nomt.Core.PageId.{PageId, page_ltb, max_descendant}
use nomt.Merkle.PageRegion.{
  PageRegion, from_page_id_descendants, contains_exclusive, excludes_unique,
}
use nomt.Merkle.PageDiff.{
  PageDiff, Node, changed, cleared, set_changed, iter_ones, read_node, pack_changed_nodes,
  unpack_changed_nodes,
}
use nomt.Merkle.PageDiff.Apply.{IsDiff, unpack_changed_nodes-pack_changed_nodes}
use nomt.Merkle.PageDiff.Changed.{changed-set_changed}
use nomt.Merkle.PageRegion.Laws.{excludes_unique-disjoint}

abbrev lower_children : PageRegion
lower_children = record {
  path = [];
  exclusive_min = some (0 ∷ []);
  exclusive_max = 4 ∷ replicate 41 63;
}

abbrev upper_children : PageRegion
upper_children = record {
  path = [];
  exclusive_min = some (5 ∷ []);
  exclusive_max = 9 ∷ replicate 41 63;
}

lower_children_run : from_page_id_descendants [] 0 4 ≡ some lower_children
unfolding from_page_id_descendants max_descendant
lower_children_run = refl

abbrev inner_page : PageId
inner_page = 2 ∷ 8 ∷ []

excludes_unique-disjoint_example :
    (excludes_unique upper_children lower_children ≡ true)
    × ((contains_exclusive lower_children inner_page
          && contains_exclusive upper_children inner_page)
        ≡ false)
unfolding excludes_unique page_ltb
excludes_unique-disjoint_example =
    excludes_unique-disjoint lower_children upper_children inner_page refl

abbrev two_changed : PageDiff
two_changed = record { low = false ∷ true ∷ replicate 62 false; high = true ∷ replicate 63 false }

two_changed-IsDiff : IsDiff two_changed
two_changed-IsDiff = record { low_word = refl; high_word = refl }

abbrev blank_page : Bytes
blank_page = replicate 4096 0

unpack_changed_nodes-pack_changed_nodes_example :
    (nodes : List Node) × (out : Bytes) × (pack_changed_nodes two_changed (replicate 4096 5)
      ≡ some nodes)
    × (unpack_changed_nodes two_changed nodes blank_page ≡ some out)
    × (length out ≡ 4096)
    × (read_node out 64 ≡ read_node (replicate 4096 5) 64)
unfolding changed cleared
unpack_changed_nodes-pack_changed_nodes_example =
    unpack_changed_nodes-pack_changed_nodes two_changed (replicate 4096 5) blank_page 64 true
      two_changed-IsDiff refl refl refl refl

changed-set_changed_example :
    (d' : PageDiff) × (set_changed 125 two_changed ≡ some d')
    × IsDiff d'
    × (cleared d' ≡ false)
    × (changed d' 64 ≡ changed two_changed 64)
changed-set_changed_example =
    changed-set_changed two_changed 125 64 two_changed-IsDiff (omega arith) (omega arith)

iter_ones_run : iter_ones two_changed ≡ some (1 ∷ 64 ∷ [])
unfolding iter_ones
iter_ones_run = refl
