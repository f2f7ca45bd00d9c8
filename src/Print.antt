-- ===== src/Print.antt =====
-- utils.go: `PrintChildren`. What it prints is the list of lines that it returns here; the lines
-- before an error are not kept. The recursion is on fuel.
pub mod Count
mod Tests
use mariv.Base.{ℕ, zero, suc, ◌+◌, List, [], ◌∷◌, ◌++◌, ltb, if◌then◌else◌, length}
use mariv.Base.Bytes.{bytes}
use mariv.Base.Outcome.{Outcome, ok, stuck, ◌>>=◌}
use mariv.Node.{INode, Child, deref}
use mariv.MemMap.{read_inode_from_mem_map, load_meta_root_offset}

-- "Level: %d, Index: %d, Key: %s, Value: %s, Version:%d"
pub record Line : Type 0 where
  pub level : ℕ
  pub index : ℕ
  pub key : List ℕ
  pub value : List ℕ
  pub version : ℕ

abbrev pub line_of : ℕ → ℕ → INode → Line
line_of level idx child = record {
  level = level;
  index = idx;
  key = bytes child.leaf.key;
  value = child.leaf.value;
  version = child.leaf.version;
}

module _ (load : ℕ → Outcome INode) where
  -- The loop over the children from the index on; `visit` is the recursive call.
  abbrev pub print_loop :
      (INode → ℕ → Outcome (ℕ × List Line)) → ℕ → ℕ → List Child → ℕ → Outcome (ℕ × List Line)
  print_loop visit level idx [] total_count = ok (total_count, [])
  print_loop visit level idx (child_ptr ∷ rest) total_count = do
    child ← load (deref child_ptr).start_offset
    let counted = if ltb 0 (length (bytes child.leaf.key)) then total_count + 1 else total_count
    (new_total_count, below) ← visit child counted
    (last, others) ← print_loop visit level (idx + 1) rest new_total_count
    ok (last, line_of (level + 1) idx child ∷ (below ++ others))

  unfoldable pub print_children_recursive : ℕ → INode → ℕ → ℕ → Outcome (ℕ × List Line)
  print_children_recursive zero node total_count level = stuck
  print_children_recursive (suc fuel) node total_count level =
      print_loop (λ child count. print_children_recursive fuel child count (level + 1)) level 0
        node.children total_count

-- The count that is printed at the end, and the lines before it
unfoldable pub print_children : ℕ → List ℕ → Outcome (ℕ × List Line)
print_children fuel m_map = do
  root_offset ← load_meta_root_offset m_map
  curr_root ← read_inode_from_mem_map m_map root_offset
  print_children_recursive (read_inode_from_mem_map m_map) fuel curr_root 0 0
