-- ===== src/Commit/Publish.antt =====
-- A write that wins the compare-and-swap makes its path the newest version, and a write that
-- another has overtaken changes nothing.
use mariv.Base.{ℕ, ◌+◌, ◌^◌, ◌≤◌, ◌<◌, ◌≡◌, ap, arith, List, length, copy_at}
use mariv.Base.Memory.{At, At-copy_at, At-copy_at_below, At-copy_at_above, length-copy_at}
use mariv.Base.Outcome.{Outcome, ok, err, panics, stuck, ◌>>=◌}
use mariv.Serialize.{MetaData, serialize_uint64}
use mariv.Serialize.Words.{length-serialize_uint64}
use mariv.MemMap.{load_meta_version, load_meta_root_offset, load_meta_end_serialized, store_uint64}
use mariv.MemMap.Meta.{load-At}
use mariv.MemMap.{load_meta}

-- A write of one word leaves what lies wholly above it or wholly below it.
store-above :
    (m : List ℕ) (o w p : ℕ) (bs : List ℕ) → o + 8 ≤ p → At m p bs → At (store_uint64 m o w) p bs
store-above m o w p bs h =
    At-copy_at_above m o (serialize_uint64 w) p bs (omega (arith, length-serialize_uint64 w))

store-below :
    (m : List ℕ) (o w p : ℕ) (bs : List ℕ)
    → p + length bs ≤ o
    → At m p bs
    → At (store_uint64 m o w) p bs
store-below m o w p bs h = At-copy_at_below m o (serialize_uint64 w) p bs h

pub store-here :
    (m : List ℕ) (o w : ℕ) → o + 8 ≤ length m → At (store_uint64 m o w) o (serialize_uint64 w)
store-here m o w h = At-copy_at m o (serialize_uint64 w) (omega (arith, length-serialize_uint64 w))

pub length-store : (m : List ℕ) (o w : ℕ) → length (store_uint64 m o w) ≡ length m
length-store m o w = length-copy_at m o (serialize_uint64 w)

-- The memory map after the four stores of a write that succeeds.
abbrev pub after_write : List ℕ → MetaData → List ℕ → List ℕ
after_write m updated path =
    store_uint64
      (copy_at (store_uint64 (store_uint64 m 0 updated.version) 16 updated.next_start_offset)
        updated.root_offset path)
      8 updated.root_offset

pub length-after_write :
    (m : List ℕ) (updated : MetaData) (path : List ℕ)
    → length (after_write m updated path) ≡ length m
length-after_write m updated path = rw (length-store, length-copy_at, length-store, length-store)

-- The version and the root's offset are fields of the metadata.
pub load_meta-fields :
    (m : List ℕ) (meta : MetaData)
    → load_meta m ≡ ok meta
    → (load_meta_version m ≡ ok meta.version) × (load_meta_root_offset m ≡ ok meta.root_offset)
unfolding load_meta
load_meta-fields m meta e =
    go (load_meta_version m) (load_meta_root_offset m) (load_meta_end_serialized m) e
  where
    version_field : Outcome MetaData → Outcome ℕ
    version_field loaded = loaded >>= λ (t : MetaData). ok t.version

    root_field : Outcome MetaData → Outcome ℕ
    root_field loaded = loaded >>= λ (t : MetaData). ok t.root_offset

    go :
        (a b c : Outcome ℕ)
        → (a >>= λ version. b >>= λ root_offset. c >>= λ end_offset. ok (record {
          version = version;
          root_offset = root_offset;
          next_start_offset = end_offset;
        }))
          ≡ ok meta
        → (a ≡ ok meta.version) × (b ≡ ok meta.root_offset)
    go (ok v) (ok r) (ok n) e = (ap version_field e, ap root_field e)
    go (ok v) (ok r) (err x) e = absurd cc
    go (ok v) (ok r) panics e = absurd cc
    go (ok v) (ok r) stuck e = absurd cc
    go (ok v) (err x) c e = absurd cc
    go (ok v) panics c e = absurd cc
    go (ok v) stuck c e = absurd cc
    go (err x) b c e = absurd cc
    go panics b c e = absurd cc
    go stuck b c e = absurd cc

module _ (m : List ℕ) (updated : MetaData) (path : List ℕ) (low : 24 ≤ updated.root_offset)
    (room : updated.root_offset + length path ≤ length m) where
  -- What the older versions hold stays as it is.
  pub after_write-old :
      (p : ℕ) (bs : List ℕ)
      → 24 ≤ p
      → p + length bs ≤ updated.root_offset
      → At m p bs
      → At (after_write m updated path) p bs
  after_write-old p bs above below stands = store-above _ 8 updated.root_offset p bs (omega arith) (
      At-copy_at_below _ updated.root_offset path p bs below (
        store-above _ 16 updated.next_start_offset p bs (omega arith)
          (store-above m 0 updated.version p bs (omega arith) stands)))

  -- The path stands at the new root's offset.
  pub after_write-path : At (after_write m updated path) updated.root_offset path
  after_write-path =
      store-above _ 8 updated.root_offset updated.root_offset path (omega arith)
        (At-copy_at _ updated.root_offset path (rw (length-store, length-store) room))

  -- The metadata are the new ones.
  pub after_write-meta :
      updated.version < 2 ^ 64
      → updated.root_offset < 2 ^ 64
      → updated.next_start_offset < 2 ^ 64
      → load_meta (after_write m updated path) ≡ ok updated
  unfolding load_meta
  after_write-meta h0 h1 h2 =
      let versioned = store_uint64 m 0 updated.version in
      let swapped = store_uint64 versioned 16 updated.next_start_offset in
      let o = updated.root_offset in
      let size = length-serialize_uint64 in
      rw (
        load-At (after_write m updated path) 0 updated.version h0 (
            store-below _ 8 o 0 _ (omega (arith, size updated.version)) (
              At-copy_at_below swapped o path 0 _ (omega (arith, size updated.version)) (
                store-below versioned 16 updated.next_start_offset 0 _
                  (omega (arith, size updated.version))
                  (store-here m 0 updated.version (omega arith))))),
        load-At (after_write m updated path) 8 o h1
            (store-here _ 8 o (rw (length-copy_at, length-store, length-store) (omega arith))),
        load-At (after_write m updated path) 16 updated.next_start_offset h2 (
            store-above _ 8 o 16 _ (omega arith) (
              At-copy_at_below swapped o path 16 _ (omega (arith, size updated.next_start_offset)) (
                store-here versioned 16 updated.next_start_offset
                  (rw length-store (omega arith))))),
      )
