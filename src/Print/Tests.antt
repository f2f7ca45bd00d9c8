-- ===== src/Print/Tests.antt =====
-- The results of `Print` at the sample of `Durable`, once its path is written.
use mariv.Base.{ℕ, ◌≡◌, refl, arith, List, length, false, some, [], ◌∷◌}
use mariv.Base.Outcome.{ok}
use mariv.Node.{INode, reset_lnode}
use mariv.MemMap.{load_meta_root_offset, read_inode_from_mem_map}
use mariv.Commit.Publish.{load_meta-fields}
use mariv.Commit.Write.{new_meta}
use mariv.Scan.Listing.{pairs_below}
use mariv.Compact.ReadBack.{Reads}
use mariv.Durable.{Planted-Reads}
use mariv.Durable.Written.{exclusive_write-Planted}
use mariv.Durable.Sample.{path, meta, store, tree, loaded, path-OnPath, path-Ready}
use mariv.Print.{print_children}
use mariv.Print.Count.{kids, lines_below, print_children-lines}

written :
    (m : List ℕ) × (load_meta_root_offset m ≡ ok 101)
    × ((node : INode) × (read_inode_from_mem_map m 101 ≡ ok node)
        × Reads (read_inode_from_mem_map m) tree node)
written =
    let (store', won, metas, planted, older) =
      exclusive_write-Planted (λ m. false) (λ s. s) store path meta tree path-Ready
        (record { still = refl; size = refl }) (load_meta-fields store.m_map meta loaded).0
        path-OnPath in
    let (node, back, low, reads) =
      Planted-Reads store'.m_map (new_meta path meta).next_start_offset tree 101 planted in
    (
      store'.m_map,
      (load_meta-fields store'.m_map (new_meta path meta) metas).1,
      (node, back, reads),
    )

print_children-lines_example :
    print_children 2 written.0
    ≡ ok (length (pairs_below 0 some (kids tree)), lines_below (kids tree) 1 0)
print_children-lines_example =
    print_children-lines written.0 101 written.2.0 tree 2 written.1 written.2.1 written.2.2
      (omega arith)

-- One of the two nodes has a key.
counted : length (pairs_below 0 some (kids tree)) ≡ 1
unfolding reset_lnode
counted = refl

first_line :
    lines_below (kids tree) 1 0
    ≡ record { level = 1; index = 0; key = 97 ∷ []; value = 7 ∷ []; version = 2 }
      ∷ record { level = 1; index = 1; key = []; value = []; version = 0 }
      ∷ []
unfolding reset_lnode
first_line = refl
