-- ===== src/Durable/Update.antt =====
-- A transaction of puts from its first read to what is read after its write.
use mariv.Base.{
  ℕ, suc, ◌+◌, ◌%◌, ◌^◌, ◌<◌, ◌≡◌, refl, ap, sym, ◌∙◌, arith, Bool, true, not, List, [], ◌∷◌,
  length, All, none, some,
}
use mariv.Base.Bytes.{Slice}
use mariv.Base.Outcome.{Error, Outcome, ok, ◌>>=◌}
use mariv.Base.Gives.{Gives, with_ok, with_err, Gives-if, Gives-bind, Gives-ok}
use mariv.Node.{INode, Child, pointer, address, deref-address}
use mariv.Serialize.{MetaData}
use mariv.MemMap.{load_meta, load_meta_version, read_inode_from_mem_map}
use mariv.Trie.Map.{lookup}
use mariv.Trie.View.{found, Shows}
use mariv.Transaction.{Session, Tx, new_tx, put, get}
use mariv.Commit.{Store, exclusive_write_mmap}
use mariv.Commit.Publish.{load_meta-fields}
use mariv.Commit.Write.{Ready, Interleaved, path_bytes, new_meta, exclusive_write-publishes}
use mariv.Compact.Kept.{read_get, ReadsAll-Shows}
use mariv.Durable.{Planted, Planted-keeps, Planted-Reads, Keeps}
use mariv.Durable.Path.{OnPath-Planted}
use mariv.Durable.Tidy.{Fitting, TidyNode, address-Tidy, Planted-TidyNode}
use mariv.Durable.Put.{Fresh, put_recursive-Fresh}
use mariv.Durable.Tree.{Tidy-HasTree}
use mariv.Durable.Written.{get-Planted}
use mathlib.Core.Path.{subst}

-- A transaction function that puts one pair after another.
abbrev pub puts : (ℕ → Outcome INode) → ℕ → List (Slice × List ℕ) → Tx → Outcome Tx
puts load fuel [] tx = ok tx
puts load fuel ((key, value) ∷ rest) tx = do
  tx' ← put load fuel tx key value
  puts load fuel rest tx'

abbrev pub FittingPair : Slice × List ℕ → Type 0
FittingPair (key, value) = Fitting key value

module _ (m : List ℕ) (limit v : ℕ) (pos : 0 < v) (fits : v < 2 ^ 64) where
  abbrev TidyTx : Tx → Type 0
  TidyTx tx = TidyNode m limit v tx.root

  put-TidyTx :
      (fuel : ℕ) (tx : Tx) (key : Slice) (value : List ℕ)
      → TidyTx tx
      → Fitting key value
      → Gives TidyTx (put (read_inode_from_mem_map m) fuel tx key value)
  unfolding put
  put-TidyTx fuel tx key value t fit =
      Gives-if TidyTx (not tx.is_write) _ _ (with_err Error.read_only) (
        Gives-bind (Fresh m limit v pos fits) TidyTx _ _
          (put_recursive-Fresh m limit v pos fits fuel tx.root key value 0 t fit)
          (λ root f. with_ok _ f.0))

  pub puts-TidyTx :
      (fuel : ℕ) (kvs : List (Slice × List ℕ)) (tx : Tx)
      → TidyTx tx
      → All FittingPair kvs
      → Gives TidyTx (puts (read_inode_from_mem_map m) fuel kvs tx)
  puts-TidyTx fuel [] tx t h = with_ok tx t
  puts-TidyTx fuel ((key, value) ∷ rest) tx t h =
      Gives-bind TidyTx TidyTx _ _ (put-TidyTx fuel tx key value t h.0)
        (λ tx' t'. puts-TidyTx fuel rest tx' t' h.1)

-- What follows a write that has won: the new metadata, and a tree that stands in the map from the new
-- root on, in which readers find what the transaction finds.
module _ (compact_trigger : MetaData → Bool) (others : Store → Store) (store : Store)
    (meta : MetaData) where
  pub record Durable (path : INode) : Type 0 where
    pub after : Store
    pub won : exclusive_write_mmap compact_trigger others store path ≡ (ok true, after)
    pub loaded : load_meta after.m_map ≡ ok (new_meta path meta)
    pub tree : Child
    pub stands :
        Planted after.m_map (new_meta path meta).next_start_offset tree meta.next_start_offset
    pub older :
        (old : Child) (o : ℕ)
        → Planted store.m_map meta.next_start_offset old o
        → Planted after.m_map (new_meta path meta).next_start_offset old o
    pub found_again :
        (f : ℕ) (key : Slice) (s : Session)
        → found (get (read_inode_from_mem_map store.m_map) f (new_tx path true) key none)
          ≡ found (read_get f key after.m_map s)

  TidyNode-Durable :
      (path : INode)
      → Ready compact_trigger store path meta
      → Interleaved store (others store)
      → load_meta_version (others store).m_map ≡ ok meta.version
      → Keeps store.m_map (others store).m_map meta.next_start_offset
      → TidyNode store.m_map meta.next_start_offset path.version path
      → Durable path
  TidyNode-Durable path ready between same kept tidy =
      let m = store.m_map in
      let limit = meta.next_start_offset in
      let (after, won, loaded, stands, older) =
        exclusive_write-publishes compact_trigger others store path meta ready between same in
      let size = length (path_bytes path meta) in
      let limit' = (new_meta path meta).next_start_offset in
      let ends : (limit + size) % 2 ^ 64 ≡ limit + size =
        omega (arith, ready.room, ready.int_size) in
      let keeps : Keeps m after.m_map limit =
        λ p bs low high a. older p bs low high (kept p bs low high a) in
      let (tree, shown, on_path) =
        Tidy-HasTree m limit path.version (omega (arith, ready.room, ready.int_size))
          (omega (arith, ready.next)) ready.version_fits (address path)
          (address-Tidy m limit path.version path tidy) in
      let planted =
        OnPath-Planted m after.m_map limit limit' path.version keeps (omega (arith, ends)) tree
          (address path) limit (on_path limit (omega (arith, ready.room, ready.int_size))) ready.low
          stands (omega (arith, ends)) in
      record {
        after = after;
        won = won;
        loaded = loaded;
        tree = tree;
        stands = planted;
        older = λ old o. Planted-keeps m after.m_map limit limit' keeps (omega (arith, ends)) old o;
        found_again = λ f key s.
            get-Planted (read_inode_from_mem_map m) f key path tree after.m_map limit' limit s
              (rw deref-address at shown)
              (load_meta-fields after.m_map (new_meta path meta) loaded).1 planted;
      }

ok-eq : (o : Outcome INode) (a b : INode) → o ≡ ok a → o ≡ ok b → a ≡ b
ok-eq o a b p q = cc

-- The root of a transaction: what was read at a planted tree, with the version of the transaction
module _ (m : List ℕ) (limit o : ℕ) (root : INode) (read : read_inode_from_mem_map m o ≡ ok root)
    (v : ℕ) where
  begun-TidyNode :
      0 < v → (t : Child) → Planted m limit t o → TidyNode m limit v (record root { version = v })
  begun-TidyNode pos t planted =
      let (node, back, tidy) = Planted-TidyNode m limit v pos t o planted in
      subst (λ n. TidyNode m limit v (record n { version = v }))
        (ok-eq (read_inode_from_mem_map m o) node root back read) tidy

  begun-Shows :
      (t : Child)
      → Planted m limit t o
      → Shows (read_inode_from_mem_map m) t (record root { version = v })
  begun-Shows (pointer w s e bitmap leaf ch) planted =
      let (node, back, low, reads) =
        Planted-Reads m limit (pointer w s e bitmap leaf ch) o planted in
      subst
        (λ n.
          Shows (read_inode_from_mem_map m) (pointer w s e bitmap leaf ch)
            (record n { version = v }))
        (ok-eq (read_inode_from_mem_map m o) node root back read)
        (
          reads.1,
          reads.3,
          reads.4,
          ReadsAll-Shows (read_inode_from_mem_map m) ch v node.children reads.5,
        )

module _ (compact_trigger : MetaData → Bool) (others : Store → Store) (store : Store)
    (meta : MetaData) (root : INode) (t : Child) where
  abbrev m_load : ℕ → Outcome INode
  m_load = read_inode_from_mem_map store.m_map

  -- `UpdateTx` gives the root that it has read the next version.
  abbrev pub begun : Tx
  begun = new_tx (record root { version = (root.version + 1) % 2 ^ 64 }) true

  -- Suppose that a tree stands in the map, from the root that the metadata name on and below the end; that
  -- a transaction of any number of puts, of pairs that fit a leaf, starts at that root, whose next
  -- version fits 64 bits, and returns; that nothing keeps its write from the compare-and-swap; and
  -- that the others leave the length of the map alone, no resize running, the version and the bytes
  -- below the end as they were. Then the write succeeds with the new metadata; a tree stands in
  -- the map from the new root on and below the new end, and so does every tree, at its own offset, that
  -- stood there before; and every Get of a reader ends as a Get at the end of the transaction.
  pub puts-Durable :
      (fuel : ℕ) (kvs : List (Slice × List ℕ)) (tx : Tx)
      → Planted store.m_map meta.next_start_offset t meta.root_offset
      → m_load meta.root_offset ≡ ok root
      → root.version + 1 < 2 ^ 64
      → All FittingPair kvs
      → puts m_load fuel kvs begun ≡ ok tx
      → Ready compact_trigger store tx.root meta
      → Interleaved store (others store)
      → load_meta_version (others store).m_map ≡ ok meta.version
      → Keeps store.m_map (others store).m_map meta.next_start_offset
      → Durable compact_trigger others store meta tx.root
  puts-Durable fuel kvs tx planted read next fit ran ready between same kept =
      let m = store.m_map in
      let limit = meta.next_start_offset in
      let v : ℕ = (root.version + 1) % 2 ^ 64 in
      let tidy : TidyNode m limit v tx.root =
        Gives-ok (λ (x : Tx). TidyNode m limit v x.root) (puts m_load fuel kvs begun) tx
          (puts-TidyTx m limit v (omega arith) (omega arith) fuel kvs begun
            (begun-TidyNode m limit meta.root_offset root read v (omega arith) t planted) fit)
          ran in
      TidyNode-Durable compact_trigger others store meta tx.root ready between same kept
        (subst (λ (w : ℕ). TidyNode m limit w tx.root) (sym tidy.current) tidy)

  pub get-lookup :
      (n : ℕ) (path : INode) (k : List ℕ)
      → get m_load (suc n) (new_tx path true) (some k) none ≡ lookup m_load n path k
  unfolding get
  get-lookup n path k = refl

  -- What a reader found before is what the transaction finds at its start.
  pub read_get-lookup :
      (n : ℕ) (k : List ℕ) (s : Session)
      → load_meta store.m_map ≡ ok meta
      → Planted store.m_map meta.next_start_offset t meta.root_offset
      → m_load meta.root_offset ≡ ok root
      → found (lookup m_load n begun.root k) ≡ found (read_get (suc n) (some k) store.m_map s)
  read_get-lookup n k s loaded planted read =
      ap found (sym (get-lookup n begun.root k))
      ∙ get-Planted m_load (suc n) (some k) begun.root t store.m_map meta.next_start_offset
          meta.root_offset s
          (begun-Shows store.m_map meta.next_start_offset meta.root_offset root read
            ((root.version + 1) % 2 ^ 64) t planted)
          (load_meta-fields store.m_map meta loaded).1 planted
