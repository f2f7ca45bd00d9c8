-- ===== src/MemMap/Meta.antt =====
-- The metadata at the start of the memory map: what is loaded is what was stored.
use mariv.Base.{
  ℕ, ◌++◌, length-append, ◌^◌, ◌<◌, ◌≡◌, refl, arith, List, length, take, drop, true, ltb, lt→ltb,
}
use mariv.Base.Memory.{At, At-bound, At-left, At-right, take-At}
use mariv.Base.Outcome.{ok}
use mariv.Serialize.{MetaData, serialize_uint64, serialize_meta_data}
use mariv.Serialize.Words.{length-serialize_uint64, little_endian-serialize_uint64}
use mariv.MemMap.{load_uint64, load_meta}

-- A word that stands in the memory map is what is loaded from there.
pub load-At :
    (m_map : List ℕ) (o w : ℕ)
    → w < 2 ^ 64
    → At m_map o (serialize_uint64 w)
    → load_uint64 m_map o ≡ ok w
unfolding load_uint64
load-At m_map o w h stands =
    let size = length-serialize_uint64 w in
    let inside : ltb o (length m_map) ≡ true =
      lt→ltb o (length m_map) (omega (arith, At-bound m_map o (serialize_uint64 w) stands)) in
    let bytes_are : take 8 (drop o m_map) ≡ serialize_uint64 w =
      rw size at (take-At m_map o (serialize_uint64 w) stands) in
    rw (inside, bytes_are, little_endian-serialize_uint64 w h) refl

pub length-serialize_meta_data : (meta : MetaData) → length (serialize_meta_data meta) ≡ 24
unfolding serialize_meta_data
length-serialize_meta_data meta =
    rw (length-append, length-append)
      (omega (
        arith,
        length-serialize_uint64 meta.version,
        length-serialize_uint64 meta.root_offset,
        length-serialize_uint64 meta.next_start_offset,
      ))

-- Metadata that stand at the start of the memory map are what is loaded.
pub load_meta-At :
    (m_map : List ℕ) (meta : MetaData)
    → meta.version < 2 ^ 64
    → meta.root_offset < 2 ^ 64
    → meta.next_start_offset < 2 ^ 64
    → At m_map 0 (serialize_meta_data meta)
    → load_meta m_map ≡ ok meta
unfolding load_meta serialize_meta_data
load_meta-At m_map meta v r e stands =
    let version = serialize_uint64 meta.version in
    let root_offset = serialize_uint64 meta.root_offset in
    let end_offset = serialize_uint64 meta.next_start_offset in
    let rest : At m_map 8 (root_offset ++ end_offset) =
      At-right m_map 0 version (root_offset ++ end_offset) stands 8
        (omega (arith, length-serialize_uint64 meta.version)) in
    rw
      (
        load-At m_map 0 meta.version v (At-left m_map 0 version (root_offset ++ end_offset) stands),
        load-At m_map 8 meta.root_offset r (At-left m_map 8 root_offset end_offset rest),
        load-At m_map 16 meta.next_start_offset e (
            At-right m_map 8 root_offset end_offset rest 16
              (omega (arith, length-serialize_uint64 meta.root_offset))),
      )
      refl
