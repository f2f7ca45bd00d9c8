-- ===== src/Open.antt =====
-- mari.go, and the mapping of the file in io.go: opening, resizing and closing the store.
pub mod Resize
pub mod Kept
pub mod Initial
mod Tests
use mariv.Base.{
  ℕ, ◌+◌, ◌-◌, ◌*◌, Bool, true, false, not, List, [], ◌++◌, ◌==◌, if◌then◌else◌, length, take,
  replicate,
}
use mariv.Base.Outcome.{Error, Outcome, ok, err, panics, stuck, ◌>>=◌}
use mariv.MemMap.{init_root, init_meta}
use mariv.Commit.{allocate_size}

-- The fields of `Mari` that these functions change. A shared mapping and its file are one: what is
-- written to the map is in the file when the map is given up.
pub record Mari : Type 0 where
  pub opened : Bool
  pub file : List ℕ
  pub has_file : Bool
  pub m_map : List ℕ
  pub is_resizing : Bool

-- The calls of the operating system, each of which returns or fails.
pub record System : Type 0 where
  pub open_file : Outcome (Unit {0})
  pub stat : Outcome (Unit {0})
  pub sync : Outcome (Unit {0})
  pub truncate : Outcome (Unit {0})
  pub map_file : Outcome (Unit {0})
  pub unmap : Outcome (Unit {0})
  pub close_file : Outcome (Unit {0})
  pub remove_file : Outcome (Unit {0})
  pub rename_old : Outcome (Unit {0})  -- the store's file, to the name that ends in "swap"
  pub rename_new : Outcome (Unit {0})  -- the temporary file, to the store's name
  pub flush : List ℕ → ℕ → ℕ → Outcome (Unit {0})
  pub page_size : ℕ

-- An action on the store ends with a value, an error or a panic, and leaves a store.
abbrev pub Action : Type 0
Action = Mari → Outcome (Unit {0}) × Mari

abbrev pub continue : Outcome (Unit {0}) × Mari → Action → Outcome (Unit {0}) × Mari
continue (ok u, s) next = next s
continue (err e, s) next = (err e, s)
continue (panics, s) next = (panics, s)
continue (stuck, s) next = (stuck, s)

infixr 5 ◌>>>◌
abbrev pub ◌>>>◌ : Action → Action → Action
(first >>> next) s = continue (first s) next

abbrev pub pass : Action
pass s = (ok tt, s)

-- A call, and what it does to the store if it returns.
abbrev pub calls : Outcome (Unit {0}) → (Mari → Mari) → Action
calls (ok u) effect s = (ok tt, effect s)
calls (err e) effect s = (err e, s)
calls panics effect s = (panics, s)
calls stuck effect s = (stuck, s)

abbrev pub written : Mari → Outcome (List ℕ) → Outcome (Unit {0}) × Mari
written s (ok m) = (ok tt, record s { m_map = m })
written s (err e) = (err e, s)
written s panics = (panics, s)
written s stuck = (stuck, s)

-- A write to the memory map, which gives the new map or fails.
abbrev pub writes : (List ℕ → Outcome (List ℕ)) → Action
writes change s = written s (change s.m_map)

module _ (sys : System) where
  abbrev pub mmap : Action
  mmap = calls sys.map_file (λ s. record s { m_map = s.file })

  abbrev pub munmap : Action
  munmap = calls sys.unmap (λ s. record s { file = s.m_map; m_map = [] })

  -- `Truncate` cuts the file, or fills it up with zeros.
  abbrev pub truncated : ℕ → List ℕ → List ℕ
  truncated size contents = take size (contents ++ replicate size 0)

  abbrev pub truncate_file : ℕ → Action
  truncate_file size = calls sys.truncate (λ s. record s { file = truncated size s.file })

  -- `defer atomic.StoreUint32(&mariInst.isResizing, 0)`
  abbrev pub settled : Outcome (Unit {0}) × Mari → Outcome (Unit {0}) × Mari
  settled (result, s) = (result, record s { is_resizing = false })

  abbrev pub resize_steps : Action
  resize_steps s =
      let size = allocate_size sys.page_size (length s.m_map) in
      ((if length s.m_map == 0 then pass else (calls sys.sync (λ t. t) >>> munmap))
          >>> (truncate_file size >>> mmap))
        s

  unfoldable pub resize_mmap : Action
  resize_mmap s = settled (resize_steps s)

  -- `initMeta`, on the map that `initRoot` has left
  abbrev pub init_meta_after : Mari → Outcome (List ℕ × ℕ) → Outcome (Unit {0}) × Mari
  init_meta_after s (ok (rooted, end_offset)) =
      writes (λ m. init_meta sys.flush sys.page_size m end_offset) (record s { m_map = rooted })
  init_meta_after s (err e) = (err e, s)
  init_meta_after s panics = (panics, s)
  init_meta_after s stuck = (stuck, s)

  unfoldable pub initialize_file : Action
  initialize_file = calls sys.stat (λ s. s) >>> λ s.
      if length s.file == 0
      then (resize_mmap >>> λ t. init_meta_after t (init_root sys.flush sys.page_size t.m_map)) s
      else mmap s

  -- `Open`, from the opening of the file on, for a file with the given contents
  unfoldable pub open_mari : List ℕ → Outcome (Unit {0}) × Mari
  open_mari contents =
      (calls sys.open_file (λ s. record s { has_file = true; file = contents }) >>> initialize_file)
        (record { opened = true; file = []; has_file = false; m_map = []; is_resizing = false })

  unfoldable pub close : Action
  close s =
      if not s.opened
      then (ok tt, s)
      else (calls sys.sync (λ t. t)
            >>> (munmap >>> λ t.
                if t.has_file then calls sys.close_file (λ u. u) t else (ok tt, t)))
          (record s { opened = false })

  -- `Remove`: the file's contents are gone.
  unfoldable pub remove : Action
  remove = close >>> calls sys.remove_file (λ s. record s { file = [] })
