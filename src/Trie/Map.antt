-- ===== src/Trie/Map.antt =====
-- A trie of keys of one length is a finite map: what `putRecursive` does, seen from the root.
use mariv.Base.{ℕ, suc, ◌≤◌, ◌<◌, ◌≡◌, refl, arith, List, [], Option, none, some, if◌then◌else◌}
use mariv.Base.Bytes.{bytes_equal}
use mariv.Base.Outcome.{Outcome, ok}
use mariv.Node.{INode}
use mariv.Trie.{KeyValuePair, put_recursive, delete_recursive, get_recursive}
use mariv.Trie.Keys.{IsKey}
use mariv.Trie.Order.{Good, Homed}
use mariv.Trie.Read.{hit, read-with_version}
use mariv.Trie.Delete.{Old}
use mariv.Trie.Removal.{delete_recursive-Gone}
use mariv.Trie.Put.{put_recursive-Stored}

-- The root of a transaction of version `v` on keys of length `n`.
pub record IsTrie (load : ℕ → Outcome INode) (v n : ℕ) (root : INode) : Type 0 where
  pub good : Good load v n n [] root
  pub current : root.version ≡ v

-- `getRecursive` from the root, with fuel for a key of length `n`.
abbrev pub lookup : (ℕ → Outcome INode) → ℕ → INode → List ℕ → Outcome (Option KeyValuePair)
lookup load n root k = get_recursive load (suc n) root (some k) 0 some

-- On a trie in good order over keys of one positive length, with bytes of 32 or more,
-- `putRecursive` with fuel for the key returns a root in good order. It reads the new value at the key, and at every
-- other key of that length what the old root reads.
pub get-put :
    (load : ℕ → Outcome INode) (v n f : ℕ) (root : INode) (key value : List ℕ)
    → 0 < n
    → n ≤ f
    → IsTrie load v n root
    → IsKey n key
    → (root' : INode) × (put_recursive load (suc f) root (some key) value 0 ≡ ok root')
      × IsTrie load v n root'
      × ((k : List ℕ)
          → IsKey n k
          → lookup load n root' k
            ≡ (if bytes_equal key k then hit key value else lookup load n root k))
get-put load v n f root key value pos enough trie is_key =
    let s =
      put_recursive-Stored load v n n f pos enough [] 0 root key value refl (omega arith) trie.good
        trie.current is_key tt in
    (
      s.node,
      s.returns,
      record { good = s.good; current = s.current },
      λ k k_key. s.reads k k_key tt,
    )

-- The root of a transaction of version `v` that has put no pair yet: the root that was read,
-- or one that deletes have made of it, with the version of the transaction.
pub record IsOldTrie (load : ℕ → Outcome INode) (v n : ℕ) (root : INode) : Type 0 where
  pub base : INode
  pub stamp : root ≡ record base { version = v }
  pub good : Good load v n n [] base
  pub homed : Homed load base
  pub old : Old load v n n base

-- On a trie in good order over keys of one positive length, with bytes of 32 or more, of which no
-- leaf with a key was written by the transaction, `deleteRecursive` with fuel for the key returns such a trie again. It
-- reads nothing at the key, and at every other key of that length what the old root reads.
pub get-delete :
    (load : ℕ → Outcome INode) (v n f : ℕ) (root : INode) (key : List ℕ)
    → 0 < n
    → n ≤ f
    → IsOldTrie load v n root
    → IsKey n key
    → (root' : INode) × (delete_recursive load (suc f) root (some key) 0 ≡ ok root')
      × IsOldTrie load v n root'
      × ((k : List ℕ)
          → IsKey n k
          → lookup load n root' k ≡ (if bytes_equal key k then ok none else lookup load n root k))
get-delete load v n f root key pos enough trie is_key =
    let base = trie.base in
    let gone =
      delete_recursive-Gone load v n n f pos enough [] 0 base key refl (omega arith) trie.good
        trie.homed trie.old is_key tt in
    let same : (node : INode)
        → Good load v n n [] node
        → (k : List ℕ) → IsKey n k
        → lookup load n (record node { version = v }) k ≡ lookup load n node k =
      λ node good k k_key.
        read-with_version load v n n [] 0 node k refl (omega arith) good k_key tt in
    (
      gone.node,
      rw trie.stamp gone.returns,
      record {
        base = gone.slot;
        stamp = gone.stamp;
        good = gone.good;
        homed = gone.homed;
        old = gone.old;
      },
      λ k k_key.
          rw (gone.stamp, same gone.slot gone.good k k_key, trie.stamp, same base trie.good k k_key)
            (gone.reads k k_key tt),
    )
