-- ===== src/Durable/Latest.antt =====
-- `UpdateTx` with a function that puts pairs: which value a reader finds at a key then.
use mariv.Base.{
  ℕ, suc, ◌+◌, ◌-◌, ◌%◌, ◌^◌, ◌≤◌, ◌<◌, ◌≡◌, refl, ap, sym, ◌∙◌, arith, Bool, true, false, List, [],
  ◌∷◌, All, Option, some, if◌then◌else◌, Bool-cases, inl, inr,
}
use mariv.Base.Bytes.{Slice, bytes_equal}
use mariv.Base.Outcome.{Outcome, ok}
use mariv.Node.{INode, Child}
use mariv.Serialize.{MetaData}
use mariv.MemMap.{load_meta_version, load_meta_root_offset, read_inode_from_mem_map}
use mariv.Trie.{KeyValuePair}
use mariv.Trie.Keys.{IsKey}
use mariv.Trie.Map.{IsTrie, lookup, get-put}
use mariv.Trie.View.{found}
use mariv.Transaction.{Session, Tx, new_tx, put, return_unlocked, update_tx, update_round}
use mariv.Commit.{Store, exclusive_write_mmap}
use mariv.Commit.Publish.{load_meta-fields}
use mariv.Commit.Write.{Ready, Interleaved}
use mariv.Compact.Kept.{read_get}
use mariv.Durable.{Planted, Keeps}
use mariv.Durable.Tidy.{Fitting}
use mariv.Durable.Update.{FittingPair, begun, puts, puts-Durable, get-lookup, read_get-lookup}

abbrev pub Pairs : Type 0
Pairs = List (List ℕ × List ℕ)

-- The puts of a transaction function
abbrev pub as_puts : Pairs → List (Slice × List ℕ)
as_puts [] = []
as_puts ((key, value) ∷ rest) = (some key, value) ∷ as_puts rest

abbrev Found : Type 0
Found = Outcome (Option (List ℕ × List ℕ))

-- What is found at a key after the puts: the last pair that has it, or what was found before.
abbrev pub latest : List ℕ → Pairs → Found → Found
latest k [] before = before
latest k ((key, value) ∷ rest) before =
    latest k rest (if bytes_equal key k then ok (some (key, value)) else before)

abbrev pub PairOk : ℕ → List ℕ × List ℕ → Type 0
PairOk n (key, value) = IsKey n key × Fitting (some key) value

as_puts-Fitting : (n : ℕ) (kvs : Pairs) → All (PairOk n) kvs → All FittingPair (as_puts kvs)
as_puts-Fitting n [] h = tt
as_puts-Fitting n ((key, value) ∷ rest) h = (h.0.1, as_puts-Fitting n rest h.1)

found-if :
    (b : Bool) (kv : KeyValuePair) (o : Outcome (Option KeyValuePair))
    → found (if b then ok (some kv) else o) ≡ (if b then found (ok (some kv)) else found o)
found-if b kv o = elim (Bool-cases b) [ inl e ↦ rw e refl | inr e ↦ rw e refl ]

module _ (load : ℕ → Outcome INode) (v n f : ℕ) (pos : 0 < n) (enough : n ≤ f) where
  abbrev Latest : INode → Pairs → Type 0
  Latest root kvs =
      (root' : INode) × (puts load (suc f) (as_puts kvs) (new_tx root true)
        ≡ ok (new_tx root' true))
      × IsTrie load v n root'
      × ((k : List ℕ)
          → IsKey n k
          → found (lookup load n root' k) ≡ latest k kvs (found (lookup load n root k)))

  -- Puts into a trie in good order return, and leave one, in which the last pair of a key is found.
  pub puts-Latest :
      (root : INode) (kvs : Pairs) → IsTrie load v n root → All (PairOk n) kvs → Latest root kvs
  unfolding put
  puts-Latest root [] trie h = (root, refl, trie, λ k k_key. refl)
  puts-Latest root ((key, value) ∷ rest) trie h =
      let (root', returned, trie', reads) =
        get-put load v n f root key value pos enough trie h.0.0 in
      let (root'', returned', trie'', reads') = puts-Latest root' rest trie' h.1 in
      (
        root'',
        rw returned returned',
        trie'',
        λ k k_key.
            reads' k k_key
            ∙ ap (latest k rest)
                (ap found (reads k k_key) ∙ found-if (bytes_equal key k) _ (lookup load n root k)),
      )

-- A round whose write wins ends the update, and gives back its lock.
module _ (compact_trigger : MetaData → Bool) (others : Store → Store)
    (tx_ops : Tx → Outcome Tx) where
  update_round-wins :
      (store : Store) (version root_offset : ℕ) (root : INode) (tx : Tx) (after : Store)
      → load_meta_version store.m_map ≡ ok version
      → load_meta_root_offset store.m_map ≡ ok root_offset
      → read_inode_from_mem_map store.m_map root_offset ≡ ok root
      → tx_ops (new_tx (record root { version = (root.version + 1) % 2 ^ 64 }) true) ≡ ok tx
      → exclusive_write_mmap compact_trigger others store tx.root ≡ (ok true, after)
      → update_round compact_trigger others tx_ops store ≡ (return_unlocked (ok tt), after)
  unfolding update_round
  update_round-wins store version root_offset root tx after e0 e1 e2 e3 e4 =
      rw (e0, e1, e2, e3, e4) refl

  update_tx-wins :
      (rounds : ℕ) (s : Session) (after : Store)
      → s.store.is_resizing ≡ false
      → update_round compact_trigger others tx_ops s.store ≡ (return_unlocked (ok tt), after)
      → update_tx compact_trigger others tx_ops (suc rounds) s
        ≡ (ok tt, record s { store = after; readers = s.readers + 1 - 1 })
  unfolding update_tx
  update_tx-wins rounds s after still won = simp (still, won) refl

pub same_tx : (o : Outcome Tx) (a b : Tx) → o ≡ ok a → o ≡ ok b → a ≡ b
same_tx o a b p q = cc

module _ (compact_trigger : MetaData → Bool) (others : Store → Store) (s : Session)
    (meta : MetaData) (root : INode) (t : Child) where
  -- Suppose that a tree stands in the map, from the root that the metadata name on and below the end; that
  -- this root, given its next version, which fits 64 bits, is a trie in good order over keys of one
  -- positive length, with bytes of 32 or more; that the function of an `UpdateTx` puts any list of such keys,
  -- each with a value that fits a leaf with it, with fuel for the keys; that nothing keeps the write of the
  -- root that it comes to from the compare-and-swap; and that the others leave the length of the map
  -- alone, no resize running, the version and the bytes below the end as they were. Then `UpdateTx`
  -- succeeds in its first round and gives back its lock, and a reader finds at each key of that length the
  -- last pair that was put at it, and where none was, what a reader found before.
  pub update_tx-latest :
      (n f rounds : ℕ) (kvs : Pairs)
      → 0 < n
      → n ≤ f
      → Planted s.store.m_map meta.next_start_offset t meta.root_offset
      → read_inode_from_mem_map s.store.m_map meta.root_offset ≡ ok root
      → root.version + 1 < 2 ^ 64
      → IsTrie
          (read_inode_from_mem_map s.store.m_map)
          ((root.version + 1) % 2 ^ 64)
          n
          (begun compact_trigger others s.store meta root t).root
      → All (PairOk n) kvs
      → ((root' : INode)
          → puts
              (read_inode_from_mem_map s.store.m_map)
              (suc f)
              (as_puts kvs)
              (begun compact_trigger others s.store meta root t)
            ≡ ok (new_tx root' true)
          → Ready compact_trigger s.store root' meta)
      → Interleaved s.store (others s.store)
      → load_meta_version (others s.store).m_map ≡ ok meta.version
      → Keeps s.store.m_map (others s.store).m_map meta.next_start_offset
      → (s' : Session) × (update_tx compact_trigger others
            (puts (read_inode_from_mem_map s.store.m_map) (suc f) (as_puts kvs))
            (suc rounds)
            s
          ≡ (ok tt, s'))
        × (s'.readers ≡ s.readers)
        × ((k : List ℕ) (reader : Session)
            → IsKey n k
            → found (read_get (suc n) (some k) s'.store.m_map reader)
              ≡ latest k kvs (found (read_get (suc n) (some k) s.store.m_map reader)))
  update_tx-latest n f rounds kvs pos enough planted read next trie pairs can_write between same
        kept =
      let load = read_inode_from_mem_map s.store.m_map in
      let (root', returned, good, reads) =
        puts-Latest load ((root.version + 1) % 2 ^ 64) n f pos enough
          (begun compact_trigger others s.store meta root t).root kvs trie pairs in
      let ready = can_write root' returned in
      let d =
        puts-Durable compact_trigger others s.store meta root t (suc f) (as_puts kvs)
          (new_tx root' true) planted read next (as_puts-Fitting n kvs pairs) returned ready between
          same kept in
      let fields = load_meta-fields s.store.m_map meta ready.loaded in
      (
        record s { store = d.after; readers = s.readers + 1 - 1 },
        update_tx-wins compact_trigger others (puts load (suc f) (as_puts kvs)) rounds s d.after
            ready.still
            (update_round-wins compact_trigger others (puts load (suc f) (as_puts kvs)) s.store
              meta.version meta.root_offset root (new_tx root' true) d.after fields.0 fields.1 read
              returned d.won),
        omega arith,
        λ k reader k_key.
            sym (d.found_again (suc n) (some k) reader)
            ∙ ap found (get-lookup compact_trigger others s.store meta root t n root' k)
            ∙ reads k k_key
            ∙ ap (latest k kvs) (
                read_get-lookup compact_trigger others s.store meta root t n k reader ready.loaded
                  planted read),
      )
