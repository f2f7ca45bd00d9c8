-- ===== src/Transaction/Locks.antt =====
-- Which read locks a transaction leaves behind.
use mariv.Base.{ℕ, zero, suc, ◌+◌, ◌%◌, ◌^◌, ◌≡◌, refl, arith, Bool, true, false, if◌then◌else◌}
use mariv.Base.Outcome.{Error, Outcome, ok, err, panics, stuck}
use mathlib.Core.Path.{subst}
use mariv.Node.{INode}
use mariv.Serialize.{MetaData}
use mariv.MemMap.{read_inode_from_mem_map, load_meta_version, load_meta_root_offset}
use mariv.Commit.{Store}
use mariv.Transaction.{
  Tx, Session, Round, return_locked, return_unlocked, retry, new_tx, r_lock, r_unlock, after_write,
  after_ops, after_root, after_offset, after_version, update_round, finish, update_tx,
}

module _ (compact_trigger : MetaData → Bool) (others : Store → Store)
    (tx_ops : Tx → Outcome Tx) where
  abbrev Balanced : Outcome (Unit {0}) × Session → ℕ → Type 0
  Balanced (ok u, s) readers = s.readers ≡ readers
  Balanced (err e, s) readers = Unit {0}
  Balanced (panics, s) readers = Unit {0}
  Balanced (stuck, s) readers = Unit {0}

  -- No round ends in success with its lock held.
  abbrev Fair : Round × Store → Type 0
  Fair (return_locked (ok u), store) = ⊥
  Fair (return_locked (err e), store) = Unit {0}
  Fair (return_locked panics, store) = Unit {0}
  Fair (return_locked stuck, store) = Unit {0}
  Fair (return_unlocked result, store) = Unit {0}
  Fair (retry, store) = Unit {0}

  after_write-Fair : (r : Outcome Bool × Store) → Fair (after_write compact_trigger others tx_ops r)
  after_write-Fair (ok true, store) = tt
  after_write-Fair (ok false, store) = tt
  after_write-Fair (err e, store) = tt
  after_write-Fair (panics, store) = tt
  after_write-Fair (stuck, store) = tt

  after_ops-Fair :
      (store : Store) (tx : Outcome Tx) → Fair (after_ops compact_trigger others tx_ops store tx)
  after_ops-Fair store (ok tx) = after_write-Fair _
  after_ops-Fair store (err e) = tt
  after_ops-Fair store panics = tt
  after_ops-Fair store stuck = tt

  after_root-Fair :
      (store : Store) (root : Outcome INode)
      → Fair (after_root compact_trigger others tx_ops store root)
  after_root-Fair store (ok root) = after_ops-Fair store _
  after_root-Fair store (err e) = tt
  after_root-Fair store panics = tt
  after_root-Fair store stuck = tt

  after_offset-Fair :
      (store : Store) (offset : Outcome ℕ)
      → Fair (after_offset compact_trigger others tx_ops store offset)
  after_offset-Fair store (ok offset) = after_root-Fair store _
  after_offset-Fair store (err e) = tt
  after_offset-Fair store panics = tt
  after_offset-Fair store stuck = tt

  after_version-Fair :
      (store : Store) (version : Outcome ℕ)
      → Fair (after_version compact_trigger others tx_ops store version)
  after_version-Fair store (ok version) = after_offset-Fair store _
  after_version-Fair store (err e) = tt
  after_version-Fair store panics = tt
  after_version-Fair store stuck = tt

  finish-Balanced :
      (again : Session → Outcome (Unit {0}) × Session) (s : Session) (round : Round × Store)
      → ((s' : Session) → Balanced (again s') s'.readers)
      → Fair round
      → Balanced (finish compact_trigger others tx_ops again (r_lock s) round) s.readers
  finish-Balanced again s (return_locked (ok u), store) balanced fair = elim fair [ ]
  finish-Balanced again s (return_locked (err e), store) balanced fair = tt
  finish-Balanced again s (return_locked panics, store) balanced fair = tt
  finish-Balanced again s (return_locked stuck, store) balanced fair = tt
  finish-Balanced again s (return_unlocked (ok u), store) balanced fair = omega arith
  finish-Balanced again s (return_unlocked (err e), store) balanced fair = tt
  finish-Balanced again s (return_unlocked panics, store) balanced fair = tt
  finish-Balanced again s (return_unlocked stuck, store) balanced fair = tt
  finish-Balanced again s (retry, store) balanced fair =
      let s' = r_unlock (record (r_lock s) { store = store }) in
      subst (λ n. Balanced (again s') n) (omega arith) (balanced s')

  if-Balanced :
      (b : Bool) (x y : Outcome (Unit {0}) × Session) (n : ℕ)
      → Balanced x n
      → Balanced y n
      → Balanced (if b then x else y) n
  if-Balanced true x y n p q = p
  if-Balanced false x y n p q = q

  update_tx-Balanced :
      (rounds : ℕ) (s : Session)
      → Balanced (update_tx compact_trigger others tx_ops rounds s) s.readers
  unfolding update_tx update_round
  update_tx-Balanced zero s = tt
  update_tx-Balanced (suc rounds) s =
      if-Balanced s.store.is_resizing _ _ s.readers
        (update_tx-Balanced rounds (record s { store = others s.store }))
        (finish-Balanced (update_tx compact_trigger others tx_ops rounds) s _
          (update_tx-Balanced rounds)
          (after_version-Fair s.store (load_meta_version s.store.m_map)))

  -- An update that succeeds gives back the lock of every round that it took.
  pub update_tx-balanced :
      (rounds : ℕ) (s s' : Session)
      → update_tx compact_trigger others tx_ops rounds s ≡ (ok tt, s')
      → s'.readers ≡ s.readers
  update_tx-balanced rounds s s' e =
      subst (λ r. Balanced r s.readers) e (update_tx-Balanced rounds s)

  -- If no resize is running, the metadata and the root can be read, and the function of the first
  -- round returns an error, the update returns that error, leaves the store alone, and does not give
  -- back its lock.
  pub update_tx-user_error :
      (rounds : ℕ) (s : Session) (version root_offset : ℕ) (root : INode) (error : Error)
      → s.store.is_resizing ≡ false
      → load_meta_version s.store.m_map ≡ ok version
      → load_meta_root_offset s.store.m_map ≡ ok root_offset
      → read_inode_from_mem_map s.store.m_map root_offset ≡ ok root
      → tx_ops (new_tx (record root { version = (root.version + 1) % 2 ^ 64 }) true) ≡ err error
      → update_tx compact_trigger others tx_ops (suc rounds) s
        ≡ (err error, record s { readers = s.readers + 1 })
  unfolding update_tx update_round
  update_tx-user_error rounds s version root_offset root error still e0 e1 e2 e3 =
      rw (still, e0, e1, e2, e3) refl
