-- ===== src/Mapping.antt =====
-- mmap.go: what is asked of the system for a mapping of the file. The calls of golang.org/x/sys/unix
-- and its constants are a parameter. `int` and `uintptr` words are their bit patterns; a length is
-- `none` where it is negative.
pub mod Asked
mod Tests
use mariv.Base.{
  ℕ, ◌-◌, ◌%◌, ◌^◌, bit_and, bit_or, Bool, not, Option, none, some, List, ◌==◌, if◌then◌else◌,
}
use mariv.Base.Outcome.{Error, Outcome, ok, err, ◌>>=◌}

-- The arguments of `unix.Mmap`
pub record Request : Type 0 where
  pub file_descriptor : ℕ
  pub offset : ℕ
  pub length : ℕ
  pub prot : ℕ
  pub flags : ℕ

-- The constants of the package, and its calls, each of which returns or fails.
pub record Unix : Type 0 where
  pub map_shared : ℕ
  pub map_private : ℕ
  pub map_anon : ℕ
  pub prot_read : ℕ
  pub prot_write : ℕ
  pub prot_exec : ℕ
  pub mmap : Request → Outcome (List ℕ)
  pub msync : List ℕ → Outcome (Unit {0})
  pub munmap : List ℕ → Outcome (Unit {0})
  pub page_size : ℕ

-- An open file: its descriptor, and its size unless `Stat` fails.
pub record File : Type 0 where
  pub fd : ℕ
  pub stat : Outcome ℕ

-- `1 << iota`: RDWR stands second in its block, ANON first in another.
abbrev pub rdwr : ℕ
rdwr = 2

abbrev pub copy : ℕ
copy = 4

abbrev pub exec : ℕ
exec = 8

abbrev pub anon : ℕ
anon = 1

-- `word&flag != 0`
abbrev pub has : ℕ → ℕ → Bool
has word flag = not (bit_and word flag == 0)

module _ (unix : Unix) where
  unfoldable pub mmap_helper : ℕ → ℕ → ℕ → ℕ → ℕ → Outcome (List ℕ)
  mmap_helper len inprot inflags file_descriptor offset =
      let writable = bit_or unix.prot_read unix.prot_write in
      let flags = if has inprot copy then unix.map_private else unix.map_shared in
      let prot =
        if has inprot copy
        then writable
        else if has inprot rdwr
        then writable
        else unix.prot_read in
      unix.mmap (record {
        file_descriptor = file_descriptor;
        offset = offset;
        length = len;
        prot = if has inprot exec then bit_or prot unix.prot_exec else prot;
        flags = if has inflags anon then bit_or flags unix.map_anon else flags;
      })

  -- The size of the file stands in for a negative length.
  abbrev pub or_size : Option ℕ → Outcome ℕ → Outcome ℕ
  or_size none stat = stat
  or_size (some len) stat = ok len

  -- An anonymous mapping wants a positive length.
  abbrev pub positive : Option ℕ → Outcome ℕ
  positive none = err Error.anonymous_length
  positive (some len) = if len == 0 then err Error.anonymous_length else ok len

  unfoldable pub map_region : File → Option ℕ → ℕ → ℕ → ℕ → Outcome (List ℕ)
  map_region file len prot flags offset =
      if not (offset % unix.page_size == 0)
      then err Error.unaligned_offset
      else if not (has flags anon)
      then (do size ← or_size len file.stat; mmap_helper size prot flags file.fd offset)
      else (do size ← positive len; mmap_helper size prot flags (2 ^ 64 - 1) offset)

  -- `Map`
  unfoldable pub map_file : File → ℕ → ℕ → Outcome (List ℕ)
  map_file file prot flags = map_region file none prot flags 0

  unfoldable pub flush : List ℕ → Outcome (Unit {0})
  flush mapped = unix.msync mapped

  unfoldable pub unmap : List ℕ → Outcome (Unit {0})
  unmap mapped = unix.munmap mapped

  -- `mmap` of io.go: the mapping that the store works on.
  unfoldable pub map_store : File → Outcome (List ℕ)
  map_store file = map_file file rdwr 0
