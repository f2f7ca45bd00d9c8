-- ===== src/Open/Initial.antt =====
-- Opening a new file, and opening again the file of a store that was closed.
use mariv.Base.{
  ℕ, ◌-◌, ◌*◌, ◌<◌, ◌≡◌, ◌≢◌, refl, ap, ◌∙◌, arith, true, false, List, [], eq_test_false,
  Bool-cases, inl, inr, length, length-replicate,
}
use mariv.Base.Outcome.{ok}
use mariv.Commit.{allocate_size}
use mariv.MemMap.{load_meta, read_inode_from_mem_map}
use mariv.MemMap.Path.{as_root}
use mariv.MemMap.Initial.{empty_root, first_meta, init-reads}
use mariv.Open.{Mari, System, truncated, resize_mmap, initialize_file, open_mari, close}
use mariv.Open.Resize.{Works, calls-ok, truncated_lem}

-- The calls of opening and closing return too.
pub record Opens (sys : System) : Type 0 where
  pub resizes : Works sys
  pub opens : sys.open_file ≡ ok tt
  pub stats : sys.stat ≡ ok tt
  pub closes : sys.close_file ≡ ok tt
  pub flushes : (m : List ℕ) (lo hi : ℕ) → sys.flush m lo hi ≡ ok tt
  pub pages : 0 < sys.page_size

module _ (sys : System) (works : Opens sys) where
  abbrev blank : List ℕ
  blank = truncated sys (allocate_size sys.page_size 0) []

  blank_size : length blank ≡ sys.page_size * 16 * 1000
  unfolding allocate_size
  blank_size =
      let size = sys.page_size * 16 * 1000 in
      ap length (truncated_lem sys size [] (omega arith))
      ∙ (length-replicate {A = ℕ} (size - 0) 0 ∙ omega arith)

  -- The store when its new file has been opened.
  abbrev unmapped : Mari
  unmapped = record { opened = true; file = []; has_file = true; m_map = []; is_resizing = false }

  resize_first :
      (s : Mari)
      → s.m_map ≡ []
      → resize_mmap sys s ≡ (
        ok tt,
        record s {
          file = truncated sys (allocate_size sys.page_size 0) s.file;
          m_map = truncated sys (allocate_size sys.page_size 0) s.file;
          is_resizing = false;
        },
      )
  unfolding resize_mmap
  resize_first s unmapped = rw (unmapped, works.resizes.truncates, works.resizes.maps) refl

  -- Opening a new file, with calls that return, succeeds: the store is open and not resizing, its
  -- metadata are version 0, root at 24 and end at 101, and at 24 an empty root is read.
  pub open_mari-new :
      (s : Mari) × (open_mari sys [] ≡ (ok tt, s))
      × (s.opened ≡ true)
      × (s.is_resizing ≡ false)
      × (load_meta s.m_map ≡ ok first_meta)
      × (read_inode_from_mem_map s.m_map 24 ≡ ok (as_root empty_root 24))
  unfolding open_mari initialize_file
  open_mari-new =
      let (m', rooted, runs, metas, root, same) =
        init-reads sys.flush works.flushes sys.page_size blank
          (omega (arith, blank_size, works.pages)) in
      (
        record { opened = true; file = blank; has_file = true; m_map = m'; is_resizing = false },
        rw
            (
              calls-ok sys.open_file _ _ works.opens,
              calls-ok sys.stat _ unmapped works.stats,
              resize_first unmapped refl,
              rooted,
              runs,
            )
            refl,
        refl,
        refl,
        metas,
        root,
      )

  pub closes :
      (s : Mari)
      → s.opened ≡ true
      → close sys s ≡ (ok tt, record s { opened = false; file = s.m_map; m_map = [] })
  unfolding close
  closes s opened = elim (Bool-cases s.has_file) [
    | inl file ↦ rw (opened, works.resizes.syncs, works.resizes.unmaps, file, works.closes) refl
    | inr none_open ↦ rw (opened, works.resizes.syncs, works.resizes.unmaps, none_open) refl
  ]

  -- Closing a store that is open, with calls that return, and opening its file again, gives back
  -- the memory map byte for byte.
  pub open_mari-close :
      (s : Mari)
      → s.opened ≡ true
      → length s.m_map ≢ 0
      → (closed : Mari) × (close sys s ≡ (ok tt, closed))
        × (closed.opened ≡ false)
        × ((open_mari sys closed.file).0 ≡ ok tt)
        × ((open_mari sys closed.file).1.m_map ≡ s.m_map)
  unfolding open_mari initialize_file close
  open_mari-close s opened filled = (
    record s { opened = false; file = s.m_map; m_map = [] },
    closes s opened,
    refl,
    rw (works.opens, works.stats, eq_test_false (length s.m_map) 0 filled, works.resizes.maps) refl,
    rw (works.opens, works.stats, eq_test_false (length s.m_map) 0 filled, works.resizes.maps) refl,
  )
