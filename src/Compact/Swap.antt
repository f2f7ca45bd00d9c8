-- ===== src/Compact/Swap.antt =====
-- How a compaction ends: with the new file in place of the store's.
use mariv.Base.{ℕ, ◌≡◌, refl, true, false, List}
use mariv.Base.Outcome.{ok}
use mariv.Open.{Mari, System, close}
use mariv.Open.Initial.{Opens, closes}
use mariv.Compact.{compacted_file, swap_temp_file, compact}

-- A compaction of an open store whose new file is written, with calls that return, succeeds: the
-- new file's bytes are the store's file and are mapped, and the store is no longer resizing. But
-- the store counts as closed from then on: `Close` returns at once and changes nothing, so that
-- the mapping is neither synced nor given up, nor the file closed.
pub compact-swaps :
    (sys : System) (s : Mari) (fuel : ℕ) (file : List ℕ)
    → Opens sys
    → sys.rename_new ≡ ok tt
    → s.opened ≡ true
    → compacted_file sys fuel s.m_map ≡ ok file
    → (s' : Mari) × (compact sys fuel s ≡ (ok tt, s'))
      × (s'.file ≡ file)
      × (s'.m_map ≡ file)
      × (s'.is_resizing ≡ false)
      × (close sys s' ≡ (ok tt, s'))
unfolding compact swap_temp_file close
compact-swaps sys s fuel file works renames opened written = (
  record s { opened = false; file = file; m_map = file; is_resizing = false },
  rw
      (
        written,
        closes sys works s opened,
        works.resizes.syncs,
        works.resizes.unmaps,
        works.closes,
        works.opens,
        renames,
        works.resizes.maps,
      )
      refl,
  refl,
  refl,
  refl,
  refl,
)
