-- ===== src/Mapping/Asked.antt =====
-- Which mapping the system is asked for.
use mariv.Base.{
  ℕ, ◌%◌, ◌<◌, ◌≡◌, refl, arith, bit_or, Bool, true, false, ◌||◌, not, ◌==◌, ==_iff, if◌then◌else◌,
}
use mariv.Base.Outcome.{Outcome, ok}
use mariv.Mapping.{
  Request, Unix, File, rdwr, copy, exec, anon, has, mmap_helper, map_region, map_file,
}

-- The values of the constants on Linux
pub record IsLinux (unix : Unix) : Type 0 where
  pub shared_value : unix.map_shared ≡ 1
  pub private_value : unix.map_private ≡ 2
  pub read_value : unix.prot_read ≡ 1
  pub write_value : unix.prot_write ≡ 2
  pub exec_value : unix.prot_exec ≡ 4

-- A mapping of the whole file that can be read; that can be written where that was asked for, or a
-- copy; that can be executed where that was asked for; and whose writes reach the file unless a
-- copy was asked for.
pub record Grants (file : File) (size prot : ℕ) (request : Request) : Type 0 where
  pub descriptor : request.file_descriptor ≡ file.fd
  pub start : request.offset ≡ 0
  pub whole : request.length ≡ size
  pub readable : has request.prot 1 ≡ true
  pub writable : has request.prot 2 ≡ (has prot copy || has prot rdwr)
  pub executable : has request.prot 4 ≡ has prot exec
  pub shared : has request.flags 1 ≡ not (has prot copy)

-- The words of the request, from the three bits of the protection
abbrev prot_word : Bool → Bool → Bool → ℕ
prot_word copied written executed =
    let prot = if copied then 3 else if written then 3 else 1 in
    if executed then bit_or prot 4 else prot

abbrev flags_word : Bool → ℕ
flags_word copied = if copied then 2 else 1

prot_word-bits :
    (copied written executed : Bool)
    → (has (prot_word copied written executed) 1 ≡ true)
      × (has (prot_word copied written executed) 2 ≡ (copied || written))
      × (has (prot_word copied written executed) 4 ≡ executed)
prot_word-bits true true true = (refl, refl, refl)
prot_word-bits true true false = (refl, refl, refl)
prot_word-bits true false true = (refl, refl, refl)
prot_word-bits true false false = (refl, refl, refl)
prot_word-bits false true true = (refl, refl, refl)
prot_word-bits false true false = (refl, refl, refl)
prot_word-bits false false true = (refl, refl, refl)
prot_word-bits false false false = (refl, refl, refl)

flags_word-bit : (copied : Bool) → has (flags_word copied) 1 ≡ not copied
flags_word-bit true = refl
flags_word-bit false = refl

module _ (unix : Unix) (file : File) (prot flags : ℕ) where
  abbrev asked : ℕ → Request
  asked size = record {
    file_descriptor = file.fd;
    offset = 0;
    length = size;
    prot = prot_word (has prot copy) (has prot rdwr) (has prot exec);
    flags = flags_word (has prot copy);
  }

  aligned : 0 < unix.page_size → (0 % unix.page_size == 0) ≡ true
  aligned pages = (==_iff (0 % unix.page_size) 0).1 (omega arith)

  -- On Linux, with pages of some size, `Map` of a file without the flag ANON asks the system for one
  -- mapping, and returns what the system does: a mapping of the whole file from its start, which can be read,
  -- can be written where the protection has RDWR or COPY, can be executed where it has EXEC, and is
  -- shared with the file unless it has COPY.
  pub map_file-Grants :
      IsLinux unix
      → 0 < unix.page_size
      → (size : ℕ) → has flags anon ≡ false
      → file.stat ≡ ok size
      → (request : Request) × (map_file unix file prot flags ≡ unix.mmap request)
        × Grants file size prot request
  unfolding map_file map_region mmap_helper
  map_file-Grants linux pages size own stat =
      let bits = prot_word-bits (has prot copy) (has prot rdwr) (has prot exec) in
      (
        asked size,
        rw
            (
              aligned pages,
              own,
              stat,
              linux.shared_value,
              linux.private_value,
              linux.read_value,
              linux.write_value,
              linux.exec_value,
            )
            (rw own refl),
        record {
          descriptor = refl;
          start = refl;
          whole = refl;
          readable = bits.0;
          writable = bits.1;
          executable = bits.2;
          shared = flags_word-bit (has prot copy);
        },
      )
