-- ===== src/Durable/Put.antt =====
-- A put keeps a path that can be written one that can be written, whatever it runs into.
use mariv.Base.{
  ℕ, zero, suc, ◌+◌, ◌^◌, ◌<◌, ◌≡◌, refl, sym, ◌∙◌, arith, Bool, true, false, ◌&&◌, List, [],
  length, length-set, All, none, if◌then◌else◌, ltb, ◌==◌,
}
use mariv.Base.Bits.{ones}
use mariv.Base.Bytes.{Slice, bytes, bytes_equal}
use mariv.Base.Outcome.{Outcome, ok, ◌>>=◌}
use mariv.Base.Gives.{Gives, with_ok, without_fuel, ok-Gives, Gives-if, Gives-bind}
use mariv.Bitmap.{population_count, get_position, is_bit_set, set_bit, calculate_hamming_weight}
use mariv.Node.{
  INode, deref, address, copy_inode, reset_inode, reset_lnode, new_internal_node, new_leaf_node,
  get_child_node,
}
use mariv.MemMap.{read_inode_from_mem_map}
use mariv.Trie.{
  Put, get_index_for_level, put_new_inode, set_leaf, stamped, put_into_child, put_at_end, put_both,
  put_in_leaf, put_below, put_recursive,
}
use mariv.Durable.Tidy.{
  Fitting, SizedLeaf, TidyNode, Slot, address-Slot, All-get, All-set, child-TidyNode,
}
use mariv.Durable.Table.{Every, extend_table-Every, without_nil-All, set_bit-SizedMap}
use mathlib.Core.Path.{subst}

any-Gives : {A : Type 0} (m : Outcome A) → Gives (λ _. Unit {0}) m
any-Gives m = ok-Gives (λ _. Unit {0}) m (λ a e. tt)

new_leaf_node-SizedLeaf :
    (key : Slice) (value : List ℕ) (version : ℕ)
    → Fitting key value
    → version < 2 ^ 64
    → SizedLeaf (new_leaf_node key value version)
unfolding new_leaf_node reset_lnode
new_leaf_node-SizedLeaf key value version fit small = record {
  measured = omega (arith, fit.short);
  pair = fit;
  version_fits = small;
}

module _ (m : List ℕ) (limit v : ℕ) (pos : 0 < v) (fits : v < 2 ^ 64) where
  abbrev pub load : ℕ → Outcome INode
  load = read_inode_from_mem_map m

  -- A node of the transaction that has no place in the map
  abbrev pub Fresh : INode → Type 0
  Fresh node = TidyNode m limit v node × (node.start_offset ≡ 0)

  abbrev pub PutTidy : Put → Type 0
  PutTidy put =
      (node : INode) (key : Slice) (value : List ℕ) (level : ℕ)
      → TidyNode m limit v node
      → Fitting key value
      → Gives Fresh (put node key value level)

  set_leaf-Fresh :
      (node : INode) (key : Slice) (value : List ℕ)
      → Fresh node
      → Fitting key value
      → Fresh (set_leaf node key value)
  set_leaf-Fresh node key value f fit = (
    record {
      current = f.0.current;
      leaf_sized = new_leaf_node-SizedLeaf key value node.version fit (omega (arith, f.0.current));
      map_sized = f.0.map_sized;
      slots = f.0.slots;
    },
    f.1,
  )

  no_pair : Fitting none []
  no_pair = record { short = omega arith; small = omega arith; blank = λ e. refl }

  new_internal_node-TidyNode :
      (version : ℕ) → version ≡ v → TidyNode m limit v (new_internal_node version)
  unfolding new_internal_node reset_inode reset_lnode calculate_hamming_weight ones
  new_internal_node-TidyNode version e = record {
    current = e;
    leaf_sized = record { measured = refl; pair = no_pair; version_fits = omega arith };
    map_sized = record { words = refl; word_sizes = omega arith; full = refl };
    slots = tt;
  }

  copy-Fresh : (node : INode) → TidyNode m limit v node → Fresh (stamped (copy_inode node))
  unfolding copy_inode reset_inode
  copy-Fresh node t = (
    record {
      current = t.current;
      leaf_sized = record {
        measured = t.leaf_sized.measured;
        pair = t.leaf_sized.pair;
        version_fits = omega (arith, t.current);
      };
      map_sized = t.map_sized;
      slots = t.slots;
    },
    refl,
  )

  put_new_inode-Fresh :
      (put : Put) (node : INode) (idx : ℕ) (key : Slice) (value : List ℕ) (level : ℕ)
      → PutTidy put
      → Fresh node
      → Fitting key value
      → Gives Fresh (put_new_inode put node idx key value level)
  unfolding put_new_inode
  put_new_inode-Fresh put node idx key value level puts f fit =
      let bitmap = set_bit node.bitmap idx in
      Gives-bind Fresh Fresh _ _
        (puts (new_internal_node node.version) key value (level + 1)
          (new_internal_node-TidyNode node.version f.0.current) fit)
        (λ updated u.
          Gives-bind
            (λ table. Every (Slot m limit v) table × (length table ≡ population_count bitmap)) Fresh
            _ _
            (extend_table-Every (Slot m limit v) node.children bitmap (get_position bitmap idx)
              (address updated) f.0.slots (address-Slot m limit v updated u.0 u.1))
            (λ table t.
              Gives-bind (λ cs. All (Slot m limit v) cs × (length cs ≡ length table)) Fresh _ _
                (without_nil-All (Slot m limit v) table t.0)
                (λ cs k. with_ok _ (
                  record {
                    current = f.0.current;
                    leaf_sized = f.0.leaf_sized;
                    map_sized =
                        set_bit-SizedMap node.bitmap (length node.children) idx (length cs)
                          f.0.map_sized (k.1 ∙ t.1);
                    slots = k.0;
                  },
                  f.1,
                ))))

  put_into_child-Fresh :
      (put : Put) (node : INode) (pos' : ℕ) (key : Slice) (value : List ℕ) (level : ℕ)
      → PutTidy put
      → Fresh node
      → Fitting key value
      → Gives Fresh (put_into_child load put node pos' key value level)
  unfolding put_into_child
  put_into_child-Fresh put node pos' key value level puts f fit =
      Gives-bind (Slot m limit v) Fresh _ _ (All-get m limit v node.children pos' f.0.slots)
        (λ c slot.
          Gives-bind (λ kid. TidyNode m limit v (record kid { version = v })) Fresh _ _
            (subst
              (λ (w : ℕ).
                Gives (λ kid. TidyNode m limit v (record kid { version = v }))
                  (get_child_node load (deref c) w))
              (sym f.0.current) (child-TidyNode m limit v pos c slot))
            (λ kid tidy.
              Gives-bind Fresh Fresh _ _
                (puts (record kid { version = node.version }) key value (level + 1)
                  (subst (λ (w : ℕ). TidyNode m limit v (record kid { version = w }))
                    (sym f.0.current) tidy)
                  fit)
                (λ updated u. with_ok _ (
                  record {
                    current = f.0.current;
                    leaf_sized = f.0.leaf_sized;
                    map_sized = record {
                      words = f.0.map_sized.words;
                      word_sizes = f.0.map_sized.word_sizes;
                      full = length-set node.children pos' (address updated) ∙ f.0.map_sized.full;
                    };
                    slots =
                        All-set m limit v node.children pos' (address updated) f.0.slots
                          (address-Slot m limit v updated u.0 u.1);
                  },
                  f.1,
                ))))

  if-Fresh : (b : Bool) (x y : INode) → Fresh x → Fresh y → Fresh (if b then x else y)
  if-Fresh true x y p q = p
  if-Fresh false x y p q = q

  -- The value that is there already is left, another is replaced.
  replaced-Fresh :
      (node : INode) (key : Slice) (value : List ℕ) (b : Bool)
      → Fresh node
      → Fitting key value
      → Gives Fresh (ok (if b then node else set_leaf node key value))
  replaced-Fresh node key value b f fit =
      with_ok _ (if-Fresh b node (set_leaf node key value) f (set_leaf-Fresh node key value f fit))

  -- The shorter key stays, and the longer one in the leaf moves down.
  shorter-Fresh :
      (put : Put) (node : INode) (key : Slice) (value : List ℕ) (level : ℕ)
      → PutTidy put
      → Fresh node
      → Fitting key value
      → Gives Fresh (
          get_index_for_level node.leaf.key level >>= λ idx.
          let copy = set_leaf node key value in
          if is_bit_set copy.bitmap idx
          then ok copy
          else put_new_inode put copy idx node.leaf.key node.leaf.value level)
  shorter-Fresh put node key value level puts f fit =
      let copy = set_leaf node key value in
      let fresh = set_leaf-Fresh node key value f fit in
      Gives-bind (λ _. Unit {0}) Fresh _ _ (any-Gives (get_index_for_level node.leaf.key level))
        (λ idx _. Gives-if Fresh (is_bit_set copy.bitmap idx) _ _ (with_ok copy fresh) (
          put_new_inode-Fresh put copy idx node.leaf.key node.leaf.value level puts fresh
            f.0.leaf_sized.pair))

  put_at_end-Fresh :
      (put : Put) (node : INode) (key : Slice) (value : List ℕ) (level : ℕ)
      → PutTidy put
      → Fresh node
      → Fitting key value
      → Gives Fresh (put_at_end load put node key value level)
  unfolding put_at_end
  put_at_end-Fresh put node key value level puts f fit =
      Gives-if Fresh (bytes_equal (bytes node.leaf.key) (bytes key)) _ _
        (replaced-Fresh node key value (bytes_equal node.leaf.value value) f fit)
        (Gives-if Fresh (ltb (length (bytes key)) (length (bytes node.leaf.key))) _ _
          (shorter-Fresh put node key value level puts f fit)
          (with_ok _ (set_leaf-Fresh node key value f fit)))

  put_both-Fresh :
      (put : Put) (node : INode) (index : ℕ) (key : Slice) (value : List ℕ) (level : ℕ)
      → PutTidy put
      → Fresh node
      → Fitting key value
      → Gives Fresh (put_both load put node index key value level)
  unfolding put_both
  put_both-Fresh put node index key value level puts f fit =
      Gives-bind Fresh Fresh _ _
        (put_new_inode-Fresh put (set_leaf node none []) index key value level puts
          (set_leaf-Fresh node none [] f no_pair) fit)
        (λ with_key w.
          Gives-bind (λ _. Unit {0}) Fresh _ _ (any-Gives (get_index_for_level node.leaf.key level))
            (λ new_idx _.
              Gives-if Fresh (is_bit_set with_key.bitmap new_idx) _ _
                (put_into_child-Fresh put with_key (get_position with_key.bitmap new_idx)
                  node.leaf.key node.leaf.value level puts w f.0.leaf_sized.pair)
                (put_new_inode-Fresh put with_key new_idx node.leaf.key node.leaf.value level puts w
                  f.0.leaf_sized.pair)))

  put_in_leaf-Fresh :
      (put : Put) (node : INode) (index : ℕ) (key : Slice) (value : List ℕ) (level : ℕ)
      → PutTidy put
      → Fresh node
      → Fitting key value
      → Gives Fresh (put_in_leaf load put node index key value level)
  unfolding put_in_leaf
  put_in_leaf-Fresh put node index key value level puts f fit =
      let below = put_new_inode-Fresh put node index key value level puts f fit in
      let leaf_length = length (bytes node.leaf.key) in
      let key_length = length (bytes key) in
      let members = population_count node.bitmap in
      Gives-if Fresh (bytes_equal (bytes node.leaf.key) (bytes key)) _ _
        (replaced-Fresh node key value (bytes_equal node.leaf.value value) f fit)
        (Gives-if Fresh (leaf_length == 0 && members == 0) _ _
          (with_ok _ (set_leaf-Fresh node key value f fit))
          (Gives-if Fresh (leaf_length == 0 && ltb 0 members) _ _ below (
            Gives-if Fresh (ltb leaf_length key_length && ltb 0 leaf_length) _ _ below (
              Gives-if Fresh (ltb key_length leaf_length) _ _
                (shorter-Fresh put node key value level puts f fit)
                (put_both-Fresh put node index key value level puts f fit)))))

  put_below-Fresh :
      (put : Put) (node : INode) (key : Slice) (value : List ℕ) (level : ℕ)
      → PutTidy put
      → Fresh node
      → Fitting key value
      → Gives Fresh (put_below load put node key value level)
  unfolding put_below
  put_below-Fresh put node key value level puts f fit =
      Gives-bind (λ _. Unit {0}) Fresh _ _ (any-Gives (get_index_for_level key level))
        (λ index _.
          Gives-if Fresh (is_bit_set node.bitmap index) _ _
            (put_into_child-Fresh put node (get_position node.bitmap index) key value level puts f
              fit)
            (Gives-if Fresh (ltb 0 level) _ _
              (put_in_leaf-Fresh put node index key value level puts f fit)
              (put_new_inode-Fresh put node index key value level puts f fit)))

  pub put_recursive-Fresh : (fuel : ℕ) → PutTidy (put_recursive load fuel)
  unfolding put_recursive
  put_recursive-Fresh zero node key value level t fit = without_fuel
  put_recursive-Fresh (suc fuel) node key value level t fit =
      let f = copy-Fresh node t in
      Gives-if Fresh (length (bytes key) == level) _ _
        (put_at_end-Fresh (put_recursive load fuel) (stamped (copy_inode node)) key value level
          (put_recursive-Fresh fuel) f fit)
        (put_below-Fresh (put_recursive load fuel) (stamped (copy_inode node)) key value level
          (put_recursive-Fresh fuel) f fit)
