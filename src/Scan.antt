-- ===== src/Scan.antt =====
-- iterate.go and range.go: the two ordered scans of a trie, on fuel.
pub mod Limit
pub mod Listing
pub mod Order
pub mod Sorted
pub mod Whole
mod Tests
use mariv.Base.{
  ℕ, zero, suc, ◌+◌, ◌-◌, Bool, true, false, ◌&&◌, ◌||◌, not, Option, none, some, List, [], ◌∷◌,
  ◌++◌, ◌==◌, ltb, leb, if◌then◌else◌, length, get_elem?, take, drop,
}
use mariv.Base.Bytes.{Slice, bytes, is_nil, bytes_equal, bytes_compare}
use mariv.Base.Outcome.{Outcome, ok, stuck, ◌>>=◌, ◌>>◌, at, check}
use mariv.Bitmap.{get_position}
use mariv.Node.{INode, Child, deref, get_child_node}
use mariv.Trie.{KeyValuePair, Transform, get_key_val, get_index_for_level}
use Prim.Native.Nat.{Ordering}

-- The pairs of a result: `none` is a nil pointer that the transform gave.
abbrev pub Results : Type 0
Results = List (Option KeyValuePair)

abbrev pub is_gt : Ordering → Bool
is_gt Ordering.gt = true
is_gt Ordering.eq = false
is_gt Ordering.lt = false

abbrev pub is_lt : Ordering → Bool
is_lt Ordering.lt = true
is_lt Ordering.eq = false
is_lt Ordering.gt = false

-- `append(acc, transform(genKeyValPair(node)))` under a condition
abbrev pub append_if : Bool → INode → Transform → Results → Results
append_if keep node transform acc = if keep then acc ++ (transform (get_key_val node) ∷ []) else acc

-- What a scan does at a node before its children: the results so far, and the positions to visit.
abbrev pub position_of : INode → Slice → ℕ → Outcome ℕ
position_of node key level = do
  index ← get_index_for_level key level
  ok (get_position node.bitmap index)

-- The recursive call that iteration makes one level down.
abbrev pub Visit : Type 0
Visit = INode → Slice → Results → Outcome Results

module _ (load : ℕ → Outcome INode) (min_version : ℕ) (transform : Transform) where
  unfoldable pub iterate_entry : INode → Slice → ℕ → Results → Outcome (Results × ℕ)
  iterate_entry node start_key level acc =
      let recent = leb min_version node.leaf.version in
      if level == 0
      then (do pos ← position_of node start_key level; ok (acc, pos))
      else if length (bytes start_key) == level
      then ok (append_if recent node transform acc, 0)
      else if not (is_nil start_key) && ltb level (length (bytes start_key))
      then (do
        let from_start =
            is_gt (bytes_compare (bytes node.leaf.key) (bytes start_key))
            || bytes_equal (bytes node.leaf.key) (bytes start_key)
        pos ← position_of node start_key level
        ok (append_if (from_start && recent) node transform acc, pos))
      else ok (append_if (recent && ltb 0 (length (bytes node.leaf.key))) node transform acc, 0)

  -- The loop over the children from `curr_pos` on; `remaining` is the list of them.
  abbrev pub iterate_children :
      Visit → INode → Slice → ℕ → Bool → List Child → Results → Outcome Results
  iterate_children visit node start_key total_results first [] acc = ok acc
  iterate_children visit node start_key total_results first (child ∷ remaining) acc =
      if ltb (length acc) total_results
      then (do
        child_node ← get_child_node load (deref child) node.version
        acc' ← visit child_node (if first && not (is_nil start_key) then start_key else none) acc
        iterate_children visit node start_key total_results false remaining acc')
      else ok acc

  unfoldable pub iterate_recursive : ℕ → INode → Slice → ℕ → ℕ → Results → Outcome Results
  iterate_recursive zero node start_key total_results level acc = stuck
  iterate_recursive (suc fuel) node start_key total_results level acc =
      if ltb 0 level && total_results == length acc then ok acc else do
        (acc', start_pos) ← iterate_entry node start_key level acc
        iterate_children
            (λ child key acc''. iterate_recursive fuel child key total_results (level + 1) acc'')
            node start_key total_results true (drop start_pos node.children) acc'

  -- Before the children: `none` for the early return, else the positions to start and end at.
  unfoldable pub range_entry : INode → Slice → Slice → ℕ → Outcome (Results × Option (ℕ × ℕ))
  range_entry node start_key end_key level =
      let recent = leb min_version node.leaf.version in
      let all = length node.children in
      if level == 0
      then if is_nil start_key && is_nil end_key then ok ([], some (0, all)) else (do
        start_pos ← position_of node start_key 0
        end_pos ← position_of node end_key 0
        ok ([], some (start_pos, end_pos)))
      else if not (is_nil start_key) && ltb level (length (bytes start_key))
      then if recent && is_gt (bytes_compare (bytes node.leaf.key) (bytes start_key))
        then (do
          start_pos ← position_of node start_key level
          ok (append_if true node transform [], some (start_pos, all)))
        else ok ([], none)
      else if not (is_nil end_key) && ltb level (length (bytes end_key))
      then if recent && is_lt (bytes_compare (bytes node.leaf.key) (bytes end_key))
        then (do
          end_pos ← position_of node end_key level
          ok (append_if true node transform [], some (0, end_pos)))
        else ok ([], none)
      else ok (
        append_if (recent && ltb 0 (length (bytes node.leaf.key))) node transform [],
        some (0, all),
      )

  -- The loop over `children[startKeyPos:endKeyPos]`; `idx` counts from the start of that slice.
  abbrev pub range_children :
      (INode → Slice → Slice → Outcome Results)
      → INode
      → Slice
      → Slice
      → ℕ
      → ℕ
      → List Child
      → Results
      → Outcome Results
  range_children visit node start_key end_key end_pos idx [] acc = ok acc
  range_children visit node start_key end_key end_pos idx (child ∷ rest) acc = do
    child_node ← get_child_node load (deref child) node.version
    kv_pairs ←
        (if idx == 0 && not (is_nil start_key)
          then visit child_node start_key none
          else if idx == end_pos && not (is_nil end_key)
          then visit child_node none end_key
          else visit child_node none none)
    range_children visit node start_key end_key end_pos (idx + 1) rest (acc ++ kv_pairs)

  -- The children between the two positions.
  unfoldable pub range_below :
      (INode → Slice → Slice → Outcome Results)
      → INode
      → Slice
      → Slice
      → Results × Option (ℕ × ℕ)
      → Outcome Results
  range_below visit node start_key end_key (acc, none) = ok acc
  range_below visit node start_key end_key (acc, some (start_pos, end_pos)) =
      if length node.children == 0
      then ok acc
      else if start_pos == end_pos
      then (do
        child ← at (get_elem? node.children start_pos)
        child_node ← get_child_node load (deref child) node.version
        kv_pairs ← visit child_node start_key end_key
        ok (acc ++ kv_pairs))
      else (do
        check (leb start_pos end_pos && leb end_pos (length node.children))
        range_children visit node start_key end_key end_pos 0
            (take (end_pos - start_pos) (drop start_pos node.children)) acc)

  unfoldable pub range_recursive : ℕ → INode → Slice → Slice → ℕ → Outcome Results
  range_recursive zero node start_key end_key level = stuck
  range_recursive (suc fuel) node start_key end_key level =
      range_entry node start_key end_key level
      >>= range_below (λ child start end. range_recursive fuel child start end (level + 1)) node
          start_key end_key
