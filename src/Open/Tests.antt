-- ===== src/Open/Tests.antt =====
-- The results of `Open` where every call of the system returns.
use mariv.Base.{
  ◌-◌, ◌<◌, ◌≡◌, refl, arith, true, false, [], ◌∷◌, ◌++◌, length, replicate, take, ◌⊎◌,
}
use mariv.Base.Outcome.{Error, ok, err}
use mariv.Commit.{allocate_size}
use mariv.MemMap.{load_meta, read_inode_from_mem_map}
use mariv.MemMap.Path.{as_root}
use mariv.MemMap.Initial.{empty_root, first_meta}
use mariv.Open.{Mari, System, resize_mmap, open_mari, close}
use mariv.Open.Resize.{Works, resize_mmap-grows}
use mariv.Open.Kept.{resize_mmap-keeps}
use mariv.Open.Initial.{Opens, open_mari-new, open_mari-close}

abbrev system : System
system = record {
  open_file = ok tt;
  stat = ok tt;
  sync = ok tt;
  truncate = ok tt;
  map_file = ok tt;
  unmap = ok tt;
  close_file = ok tt;
  remove_file = ok tt;
  rename_old = ok tt;
  rename_new = ok tt;
  flush = λ m lo hi. ok tt;
  page_size = 4096;
}

system-Works : Works system
system-Works = record { syncs = refl; truncates = refl; maps = refl; unmaps = refl }

system-Opens : Opens system
system-Opens = record {
  resizes = system-Works;
  opens = refl;
  stats = refl;
  closes = refl;
  flushes = λ m lo hi. refl;
  pages = omega arith;
}

abbrev small : Mari
small = record {
  opened = true;
  file = 1 ∷ 2 ∷ [];
  has_file = true;
  m_map = 1 ∷ 3 ∷ [];
  is_resizing = true;
}

resize_mmap-grows_example :
    (s' : Mari) × (resize_mmap system small ≡ (ok tt, s'))
    × (s'.m_map ≡ (1 ∷ 3 ∷ []) ++ replicate (allocate_size 4096 2 - 2) 0)
    × (2 < length s'.m_map)
    × (s'.is_resizing ≡ false)
resize_mmap-grows_example = resize_mmap-grows system small system-Works (λ e. omega arith)

-- A system that cannot map the file again
abbrev failing : System
failing = record system { map_file = err Error.user_error }

resize_mmap-keeps_example :
    (((resize_mmap failing small).1.m_map ≡ 1 ∷ 3 ∷ [])
      ⊎ (take 2 (resize_mmap failing small).1.file ≡ 1 ∷ 3 ∷ []))
    × ((resize_mmap failing small).1.is_resizing ≡ false)
resize_mmap-keeps_example = resize_mmap-keeps failing small

open_mari-new_example :
    (s : Mari) × (open_mari system [] ≡ (ok tt, s))
    × (s.opened ≡ true)
    × (s.is_resizing ≡ false)
    × (load_meta s.m_map ≡ ok first_meta)
    × (read_inode_from_mem_map s.m_map 24 ≡ ok (as_root empty_root 24))
open_mari-new_example = open_mari-new system system-Opens

open_mari-close_example :
    (closed : Mari) × (close system small ≡ (ok tt, closed))
    × (closed.opened ≡ false)
    × ((open_mari system closed.file).0 ≡ ok tt)
    × ((open_mari system closed.file).1.m_map ≡ 1 ∷ 3 ∷ [])
open_mari-close_example = open_mari-close system system-Opens small refl (λ e. omega arith)
