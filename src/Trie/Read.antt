-- ===== src/Trie/Read.antt =====
-- What `getRecursive` reads at a node in good order, and what a put is to make of it.
use mariv.Base.{
  ℕ, zero, suc, ◌+◌, ◌<◌, ◌≡◌, ◌≢◌, refl, ap, sym, ◌∙◌, arith, List, [], ◌∷◌, length, map,
  get_elem?, Option, none, some, true, false, if◌then◌else◌, ==_iff, Bool-cases, eq_test_false, inl,
  inr,
}
use mariv.Base.Bytes.{bytes, bytes_equal, bytes_equal-ne}
use mariv.Base.Outcome.{Outcome, ok}
use mariv.Bitmap.{population_count}
use mariv.Bitmap.Slots.{Fits, IsIndex, child_at}
use mariv.Node.{Child, INode, deref, new_internal_node}
use mariv.Bitmap.{empty_bitmap}
use mariv.Bitmap.Empty.{empty-Fits, population_count-empty, child_at-count_zero}
use mariv.Trie.{KeyValuePair, Put, get_key_val, without_nil, get_recursive}
use mariv.Trie.Keys.{Starts, IsKey, next-IsIndex}
use mariv.Trie.Order.{Placed, Good, follow, get-follow, get_child_node-Placed}

abbrev pub hit : List ℕ → List ℕ → Outcome (Option KeyValuePair)
hit key value = ok (some (record { key = some key; value = value }))

pub without_nil-map-some : (cs : List Child) → without_nil (map some cs) ≡ ok cs
without_nil-map-some [] = refl
without_nil-map-some (c ∷ cs) = rw (without_nil-map-some cs)

module _ (load : ℕ → Outcome INode) (v n : ℕ) where
  abbrev pub read : ℕ → INode → ℕ → List ℕ → Outcome (Option KeyValuePair)
  read d node level k = get_recursive load (suc d) node (some k) level some

  -- The result of a put: a good node of the transaction that reads `value` at the key, and at
  -- every other key what `before` says.
  pub record Stored (d : ℕ) (p : List ℕ) (level : ℕ) (key value : List ℕ)
      (before : List ℕ → Outcome (Option KeyValuePair)) (result : Outcome INode) : Type 0 where
    pub node : INode
    pub returns : result ≡ ok node
    pub good : Good load v n d p node
    pub current : node.version ≡ v
    pub unplaced : node.start_offset ≡ 0
    pub reads :
        (k : List ℕ)
        → IsKey n k
        → Starts p k
        → read d node level k ≡ (if bytes_equal key k then hit key value else before k)

  abbrev pub Puts : ℕ → Put → Type 0
  Puts d put =
      (p : List ℕ) (level : ℕ) (node : INode) (key value : List ℕ)
      → level ≡ length p
      → level + d ≡ n
      → Good load v n d p node
      → node.version ≡ v
      → IsKey n key
      → Starts p key
      → Stored d p level key value (read d node level) (put node (some key) value level)

  -- A node with neither children nor a key is in good order.
  pub blank-Good :
      (d : ℕ) (p : List ℕ) (node : INode)
      → node.bitmap ≡ empty_bitmap
      → node.children ≡ []
      → bytes node.leaf.key ≡ []
      → Good load v n d p node
  blank-Good zero p node no_bits no_kids no_key =
      (inl no_key, rw (no_bits, no_kids) empty-Fits, rw no_bits population_count-empty)
  blank-Good (suc d) p node no_bits no_kids no_key = record {
    leaf_ok = inl no_key;
    fits = rw (no_bits, no_kids) empty-Fits;
    alone = λ filled. rw no_bits population_count-empty;
    rootless = λ e. no_key;
    placed = λ i h c e. absurd (no_child i h c e);
    kids = λ i h c e. absurd (no_child i h c e);
  }
    where
      no_child : (i : ℕ) → i < 256 → (c : Child) → child_at node.bitmap node.children i ≡ some c → ⊥
      no_child i h c e =
          let gone : child_at {A = Child} empty_bitmap [] i ≡ none =
            child_at-count_zero empty-Fits population_count-empty i h in
          let here : child_at {A = Child} empty_bitmap [] i ≡ some c = rw (no_bits, no_kids) at e in
          cc (gone, here)

  pub fresh-Good :
      (d : ℕ) (p : List ℕ) (version : ℕ) → Good load v n d p (new_internal_node version)
  unfolding new_internal_node
  fresh-Good d p version = blank-Good d p (new_internal_node version) refl refl refl

  -- The next byte of a key below a node that is not the last.
  pub IsIndex-below :
      (d : ℕ) (p : List ℕ) (level : ℕ) (k : List ℕ)
      → level ≡ length p
      → level + suc d ≡ n
      → IsKey n k
      → Starts p k
      → (i : ℕ) × ((get_elem? k level ≡ some i) × IsIndex i)
  IsIndex-below d p level k at_level depth is_key starts =
      let (i, e, small) = next-IsIndex p k starts (omega (arith, is_key.size)) is_key.indices in
      (i, (ap (get_elem? k) at_level ∙ e, small))

  pub not_empty : 0 < n → (k : List ℕ) → IsKey n k → bytes_equal k [] ≡ false
  not_empty pos k is_key = bytes_equal-ne k [] (λ e. omega (arith, is_key.size, ap length e))

  -- At the last level only the leaf is read.
  pub last_read :
      (node : INode) (k : List ℕ)
      → length k ≡ n
      → read 0 node n k
        ≡ ok (if bytes_equal k (bytes node.leaf.key) then some (get_key_val node) else none)
  unfolding get_recursive
  last_read node k size = rw ((==_iff (length k) n).1 size)

  -- Nothing is read at a node with neither leaf nor children.
  pub blank_read :
      (d : ℕ) (p : List ℕ) (level : ℕ) (node : INode) (k : List ℕ)
      → 0 < n
      → level ≡ length p
      → level + d ≡ n
      → IsKey n k
      → Starts p k
      → Fits node.bitmap node.children
      → bytes node.leaf.key ≡ []
      → population_count node.bitmap ≡ 0
      → read d node level k ≡ ok none
  blank_read zero p level node k pos at_level depth is_key starts fits empty count =
      let last : level ≡ n = omega arith in
      rw (last, last_read node k is_key.size, empty, not_empty pos k is_key)
  blank_read (suc d) p level node k pos at_level depth is_key starts fits empty count =
      let (i, (e, small)) = IsIndex-below d p level k at_level depth is_key starts in
      get-follow load v n (suc d) node k level i fits (λ h. omega (arith, is_key.size))
        (rw empty (not_empty pos k is_key)) e small.1
      ∙ rw (child_at-count_zero fits count i small.1)

  -- What a node reads does not depend on whether it has the version of the transaction yet.
  pub read-with_version :
      (d : ℕ) (p : List ℕ) (level : ℕ) (node : INode) (k : List ℕ)
      → level ≡ length p
      → level + d ≡ n
      → Good load v n d p node
      → IsKey n k
      → Starts p k
      → read d (record node { version = v }) level k ≡ read d node level k
  read-with_version zero p level node k at_level depth good is_key starts =
      let last : level ≡ n = omega arith in
      rw (last, last_read node k is_key.size, last_read (record node { version = v }) k is_key.size)
  read-with_version (suc d) p level node k at_level depth good is_key starts =
      elim (Bool-cases (bytes_equal k (bytes node.leaf.key))) [
        | inl same ↦ rw (leaf_read node same, leaf_read (record node { version = v }) same)
        | inr other ↦
            let (i, (e, small)) = IsIndex-below d p level k at_level depth is_key starts in
            get-follow load v n (suc d) (record node { version = v }) k level i good.fits level_ne
              other e small.1
            ∙ same_follow (child_at node.bitmap node.children i) (good.placed i small.1)
            ∙ sym (get-follow load v n (suc d) node k level i good.fits level_ne other e small.1)
      ]
    where
      level_ne : length k ≢ level
      level_ne e = omega (arith, is_key.size)

      leaf_read :
          (node : INode)
          → bytes_equal k (bytes node.leaf.key) ≡ true
          → read (suc d) node level k ≡ ok (some (get_key_val node))
      leaf_read node same =
          unfold get_recursive in rw (eq_test_false (length k) level level_ne, same)

      same_follow :
          (o : Option Child)
          → ((c : Child) → o ≡ some c → Placed v node.version (deref c))
          → follow load v n (suc d) k (level + 1) v o
            ≡ follow load v n (suc d) k (level + 1) node.version o
      same_follow none placed = refl
      same_follow (some c) placed =
          rw (get_child_node-Placed load v n node.version (deref c) (placed c refl))
