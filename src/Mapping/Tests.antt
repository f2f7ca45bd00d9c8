-- ===== src/Mapping/Tests.antt =====
-- The results of `Mapping` at a system with Linux's constants that maps zeros.
use mariv.Base.{◌≡◌, refl, arith, replicate}
use mariv.Base.Outcome.{ok}
use mariv.Mapping.{Request, Unix, File, map_file}
use mariv.Mapping.Asked.{IsLinux, Grants, map_file-Grants}

abbrev linux : Unix
linux = record {
  map_shared = 1;
  map_private = 2;
  map_anon = 32;
  prot_read = 1;
  prot_write = 2;
  prot_exec = 4;
  mmap = λ request. ok (replicate request.length 0);
  msync = λ mapped. ok tt;
  munmap = λ mapped. ok tt;
  page_size = 4096;
}

abbrev file : File
file = record { fd = 3; stat = ok 8192 }

linux-IsLinux : IsLinux linux
linux-IsLinux = record {
  shared_value = refl;
  private_value = refl;
  read_value = refl;
  write_value = refl;
  exec_value = refl;
}

-- The mapping of the store: RDWR, and no flags
map_file-Grants_example :
    (request : Request) × (map_file linux file 2 0 ≡ linux.mmap request)
    × Grants file 8192 2 request
map_file-Grants_example = map_file-Grants linux file 2 0 linux-IsLinux (omega arith) 8192 refl refl
