-- ===== src/Pool/Tests.antt =====
-- The results of `Pool` on a small pool.
use mariv.Base.{◌≤◌, ◌≡◌, [], ◌∷◌}
use mariv.Node.{reset_lnode, reset_inode, new_internal_node}
use mariv.Pool.{took_inode, gave_inode, dropped_lnode, get_inode, get_lnode, new_pool, after_events}
use mariv.Pool.Blank.{new_pool-blank_nodes}

new_pool-blank_nodes_example :
    (get_inode 0 (
        after_events
          (took_inode 0 ∷ gave_inode (new_internal_node 7) ∷ dropped_lnode 1 ∷ [])
          (new_pool 4))).0
      ≡ reset_inode
    × (get_lnode 0 (
        after_events
          (took_inode 0 ∷ gave_inode (new_internal_node 7) ∷ dropped_lnode 1 ∷ [])
          (new_pool 4))).0
      ≡ reset_lnode
    × (after_events
        (took_inode 0 ∷ gave_inode (new_internal_node 7) ∷ dropped_lnode 1 ∷ [])
        (new_pool 4)).size
      ≤ 4
new_pool-blank_nodes_example =
    new_pool-blank_nodes 4 (took_inode 0 ∷ gave_inode (new_internal_node 7) ∷ dropped_lnode 1 ∷ [])
      0
