-- ===== src/Compact/Kept.antt =====
-- A compaction changes no pair: what a reader gets from the new file is what the old map gave.
use mariv.Base.{
  ℕ, ◌+◌, ◌*◌, ◌^◌, ◌≤◌, ◌<◌, ◌≡◌, ◌≢◌, ap, sym, ◌∙◌, arith, List, [], ◌∷◌, length, Option, none,
}
use mariv.Base.Bytes.{Slice, bytes}
use mariv.Base.Outcome.{Outcome, ok}
use mariv.Node.{height, LNode, INode, Child, Children, pointer, nil, cons, deref, get_child_node}
use mariv.Serialize.{serialize_recursive}
use mariv.MemMap.{read_inode_from_mem_map, load_meta_root_offset}
use mariv.Commit.Publish.{load_meta-fields}
use mariv.Transaction.{Session, read_tx, get}
use mariv.Trie.{KeyValuePair}
use mariv.Trie.View.{found, Shows, ShowsAll, get_recursive-Shows}
use mariv.Open.{System}
use mariv.Open.Resize.{Works}
use mariv.Compact.{compacted_file}
use mariv.Compact.Tree.{Holds, HoldsAll, TreeFits}
use mariv.Compact.Block.{block_limit}
use mariv.Compact.ReadBack.{Reads, ReadsAll}
use mariv.Compact.File.{first_size, compacted_meta, compacted_file-Reads}

module _ (load : ℕ → Outcome INode) where
  -- No child below the node lies at the offset 0, where the metadata are.
  abbrev mutual
    pub Anchored : Child → INode → Type 0
    Anchored (pointer v start end bitmap leaf children) node = AnchoredAll children node.children

    pub AnchoredAll : Children → List Child → Type 0
    AnchoredAll nil cs = Unit {0}
    AnchoredAll (cons t ts) [] = Unit {0}
    AnchoredAll (cons t ts) (c ∷ cs) =
        ((deref c).start_offset ≢ 0)
        × ((kid : INode) → load (deref c).start_offset ≡ ok kid → Anchored t kid)
        × AnchoredAll ts cs

  -- Such a child is read from the map.
  pub get_child_node_away :
      (child : INode) (version : ℕ)
      → child.start_offset ≢ 0
      → get_child_node load child version ≡ load child.start_offset
  unfolding get_child_node
  get_child_node_away child version away = ground arith

  mutual
    pub Reads-Shows : (t : Child) (node : INode) → Reads load t node → Shows load t node
    Reads-Shows (pointer v s e bitmap leaf ch) node h =
        (h.1, h.3, h.4, ReadsAll-Shows ch node.version node.children h.5)

    pub ReadsAll-Shows :
        (ts : Children) (version : ℕ) (cs : List Child)
        → ReadsAll load ts cs
        → ShowsAll load ts version cs
    ReadsAll-Shows nil version [] h = tt
    ReadsAll-Shows nil version (c ∷ cs) h = elim h [ ]
    ReadsAll-Shows (cons t ts) version [] h = elim h [ ]
    ReadsAll-Shows (cons t ts) version (c ∷ cs) h = (
      (h.0.0, get_child_node_away (deref c) version h.0.2 ∙ h.0.1, Reads-Shows t h.0.0 h.0.3),
      ReadsAll-Shows ts version cs h.1,
    )

  mutual
    pub Holds-Shows :
        (version : ℕ) (t : Child) (node : INode)
        → Holds load version t node
        → Anchored t node
        → Shows load t node
    Holds-Shows version (pointer v s e bitmap leaf ch) node h a = (
      sym h.1,
      ap (λ (l : LNode). bytes l.key) (sym h.2),
      ap (λ (l : LNode). l.value) (sym h.2),
      HoldsAll-Shows version ch node.version node.children h.3 a,
    )

    HoldsAll-Shows :
        (version : ℕ) (ts : Children) (v : ℕ) (cs : List Child)
        → HoldsAll load version ts cs
        → AnchoredAll ts cs
        → ShowsAll load ts v cs
    HoldsAll-Shows version nil v [] h a = tt
    HoldsAll-Shows version nil v (c ∷ cs) h a = elim h [ ]
    HoldsAll-Shows version (cons t ts) v [] h a = elim h [ ]
    HoldsAll-Shows version (cons t ts) v (c ∷ cs) h a = (
      (
        h.0.0,
        get_child_node_away (deref c) v a.0 ∙ h.0.1,
        Holds-Shows version t h.0.0 h.0.2 (a.1 h.0.0 h.0.1),
      ),
      HoldsAll-Shows version ts v cs h.1 a.2,
    )

-- A session on a map, and a `Get` of a read-only transaction there.
abbrev pub on : List ℕ → Session → Session
on m s = record s { store = record (s.store) { m_map = m } }

abbrev pub read_get : ℕ → Slice → List ℕ → Session → Outcome (Option KeyValuePair)
read_get f key m s = (read_tx (λ tx. get (read_inode_from_mem_map m) f tx key none) (on m s)).0

module _ (f : ℕ) (key : Slice) (s : Session) where
  -- A get finds what lies under the root that the metadata name.
  pub read_get-Shows :
      (m m' : List ℕ) (o o' : ℕ) (node node' : INode) (t : Child)
      → load_meta_root_offset m ≡ ok o
      → load_meta_root_offset m' ≡ ok o'
      → read_inode_from_mem_map m o ≡ ok node
      → read_inode_from_mem_map m' o' ≡ ok node'
      → Shows (read_inode_from_mem_map m) t node
      → Shows (read_inode_from_mem_map m') t node'
      → found (read_get f key m s) ≡ found (read_get f key m' s)
  unfolding read_tx get
  read_get-Shows m m' o o' node node' t at_o at_o' read read' shows shows' =
      rw (at_o, at_o', read, read')
        (get_recursive-Shows (read_inode_from_mem_map m) (read_inode_from_mem_map m') f t node node'
          key 0 shows shows')

-- Suppose that a compaction of a map is given what it needs to write the new file: a newest root
-- that can be read, of which a tree of version 0 holds the bitmaps and leaves, whose nodes fit the format
-- at their new places, system calls that return, and fuel and a first mapping that are enough for
-- the height; and that no node below the root lies at the offset 0. Then it writes a file, and
-- every Get of a read-only transaction ends on the file as it ends on the map: with the same
-- value, with no pair, or with the same error.
pub compacted_file-get :
    (sys : System) (m_map : List ℕ) (root_offset : ℕ) (root : INode) (t : Child) (fuel : ℕ)
    → Works sys
    → sys.open_file ≡ ok tt
    → load_meta_root_offset m_map ≡ ok root_offset
    → read_inode_from_mem_map m_map root_offset ≡ ok root
    → Holds (read_inode_from_mem_map m_map) 0 t root
    → Anchored (read_inode_from_mem_map m_map) t root
    → TreeFits t 24
    → 24 + length (serialize_recursive t 24) < 2 ^ 63
    → height t ≤ fuel
    → height t * block_limit ≤ 1000000000
    → height t * block_limit + 24 ≤ first_size sys
    → (file : List ℕ) × (compacted_file sys fuel m_map ≡ ok file)
      × ((f : ℕ) (key : Slice) (s : Session)
          → found (read_get f key m_map s) ≡ found (read_get f key file s))
compacted_file-get sys m_map root_offset root t fuel works opens loaded read holds anchored fits
      small deep few room =
    let (file, ran, metas, (node, back, reads)) =
      compacted_file-Reads sys m_map root_offset root t fuel works opens loaded read holds fits
        small deep few room in
    let new = read_inode_from_mem_map file in
    (
      file,
      ran,
      λ f key s.
          read_get-Shows f key s m_map file root_offset 24 root node t loaded
            (load_meta-fields file (compacted_meta t) metas).1 read back
            (Holds-Shows (read_inode_from_mem_map m_map) 0 t root holds anchored)
            (Reads-Shows new t node reads),
    )
