-- ===== src/Trie/Work.antt =====
-- The copy of a node that `deleteRecursive` works on: its order, and what is read in it.
use mariv.Base.{ℕ, zero, suc, ◌+◌, ◌≡◌, refl, ◌∙◌, List, [], length, Option, none, inl}
use mariv.Base.Outcome.{Outcome}
use mariv.Node.{INode, copy_inode, new_leaf_node}
use mariv.Trie.{KeyValuePair, set_leaf, get_recursive}
use mariv.Trie.Keys.{Starts, IsKey}
use mariv.Trie.Order.{Good, Good-with_version}
use mariv.Trie.Read.{read, read-with_version}
use mariv.Trie.Delete.{Old, Old-with_version, Gone}

module _ (load : ℕ → Outcome INode) (v n : ℕ) where
  -- The copy that a delete works on.
  abbrev pub work : INode → INode
  work kid = copy_inode (record kid { version = v })

  pub work-Good :
      (d : ℕ) (p : List ℕ) (kid : INode) → Good load v n d p kid → Good load v n d p (work kid)
  unfolding copy_inode
  work-Good zero p kid g = g
  work-Good (suc d) p kid g =
      let g' = Good-with_version load v n (suc d) p kid g in
      record {
        leaf_ok = g'.leaf_ok;
        fits = g'.fits;
        alone = g'.alone;
        rootless = g'.rootless;
        placed = g'.placed;
        kids = g'.kids;
      }

  pub work-Old :
      (d : ℕ) (p : List ℕ) (kid : INode)
      → Good load v n d p kid
      → Old load v n d kid
      → Old load v n d (work kid)
  unfolding copy_inode
  work-Old zero p kid g o = o
  work-Old (suc d) p kid g o = Old-with_version load v n (suc d) p kid g o

  pub read-work :
      (d : ℕ) (p : List ℕ) (level : ℕ) (kid : INode) (k : List ℕ)
      → level ≡ length p
      → level + d ≡ n
      → Good load v n d p kid
      → IsKey n k
      → Starts p k
      → read load v n d (work kid) level k ≡ read load v n d kid level k
  unfolding copy_inode get_recursive
  read-work d p level kid k at_level depth good k_key k_starts =
      read-with_version load v n d p level kid k at_level depth good k_key k_starts

  -- The leaf of a node is taken away.
  pub blanked-Good :
      (d : ℕ) (p : List ℕ) (node : INode)
      → Good load v n d p node
      → Good load v n d p (set_leaf node none [])
  unfolding new_leaf_node
  blanked-Good zero p node g = (inl refl, g.1, g.2)
  blanked-Good (suc d) p node g = record {
    leaf_ok = inl refl;
    fits = g.fits;
    alone = λ filled. absurd (filled refl);
    rootless = λ root. refl;
    placed = g.placed;
    kids = g.kids;
  }

  pub blanked-Old :
      (d : ℕ) (node : INode) → Old load v n d node → Old load v n d (set_leaf node none [])
  unfolding new_leaf_node
  blanked-Old zero node o = λ written. refl
  blanked-Old (suc d) node o = (λ written. refl, o.1)

  pub Gone-before :
      (d : ℕ) (p : List ℕ) (level : ℕ) (key : List ℕ)
      (before before' : List ℕ → Outcome (Option KeyValuePair)) (result : Outcome INode)
      → ((k : List ℕ) → IsKey n k → Starts p k → before k ≡ before' k)
      → Gone load v n d p level key before result
      → Gone load v n d p level key before' result
  Gone-before d p level key before before' result same gone = record {
    node = gone.node;
    returns = gone.returns;
    current = gone.current;
    slot = gone.slot;
    stamp = gone.stamp;
    found = gone.found;
    homed = gone.homed;
    good = gone.good;
    old = gone.old;
    reads = λ k k_key k_starts. gone.reads k k_key k_starts ∙ rw (same k k_key k_starts);
    droppable = gone.droppable;
  }
