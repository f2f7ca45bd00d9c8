-- ===== src/Commit.antt =====
-- io.go: how a path copy becomes the newest version, by `exclusiveWriteMmap`.
pub mod Publish
pub mod Write
pub mod Readers
mod Tests
use mariv.Base.{
  ℕ, zero, suc, ◌+◌, ◌-◌, ◌*◌, ◌%◌, ◌^◌, Bool, true, false, ◌&&◌, ◌||◌, not, List, [], ◌∷◌, ◌==◌,
  ltb, leb, if◌then◌else◌, length,
}
use mariv.Base.Outcome.{Error, Outcome, ok, err, panics, stuck, ◌>>=◌}
use mariv.Node.{INode, address}
use mariv.Serialize.{MetaData, serialize_recursive}
use mariv.MemMap.{
  load_meta, load_meta_version, load_meta_root_offset, load_meta_end_serialized, store_uint64,
  write_nodes_to_mem_map,
}

-- A send on one of the channels of the store, which have no buffer.
pub data Signal : Type 0 where
  resize : Signal
  compact : Signal
  flush : Signal

abbrev pub same_signal : Signal → Signal → Bool
same_signal Signal.resize Signal.resize = true
same_signal Signal.resize Signal.compact = false
same_signal Signal.resize Signal.flush = false
same_signal Signal.compact Signal.resize = false
same_signal Signal.compact Signal.compact = true
same_signal Signal.compact Signal.flush = false
same_signal Signal.flush Signal.resize = false
same_signal Signal.flush Signal.compact = false
same_signal Signal.flush Signal.flush = true

-- The fields of `Mari` that a write reads or changes; which of the goroutines behind the channels
-- wait to receive; and the signals received so far, last first.
pub record Store : Type 0 where
  pub m_map : List ℕ
  pub is_resizing : Bool
  pub append_only : Bool
  pub waiting : Signal → Bool
  pub signals : List Signal

-- The goroutine behind the channel has received, and is at work.
abbrev pub at_work : Signal → (Signal → Bool) → Signal → Bool
at_work s waiting t = waiting t && not (same_signal s t)

-- `c <- true`, which ends when the goroutine has received.
abbrev pub send : Signal → Store → Store
send s store = record store { signals = s ∷ store.signals; waiting = at_work s store.waiting }

-- A `select` of the same with an empty `default`: unless the goroutine waits, nothing is sent.
abbrev pub offer : Signal → Store → Store
offer s store = record store {
  signals = if store.waiting s then s ∷ store.signals else store.signals;
  waiting = at_work s store.waiting;
}

-- `int(offset) < len(mMap)`: an offset of 2^63 or more is a negative `int`.
abbrev pub int_below : ℕ → ℕ → Bool
int_below offset n = leb (2 ^ 63) offset || ltb offset n

unfoldable pub determine_if_resize : Store → ℕ → Bool × Store
determine_if_resize store offset =
    if ltb 0 offset && int_below offset (length store.m_map)
    then (false, store)
    else if length store.m_map == 0 || store.is_resizing
    then (true, store)
    else (true, send Signal.resize (record store { is_resizing = true }))

-- `allocateSize` of `resizeMmap`, for a map of `n` bytes
unfoldable pub allocate_size : ℕ → ℕ → ℕ
allocate_size page_size n =
    if n == 0 then page_size * 16 * 1000 else if leb 1000000000 n then n + 1000000000 else n * 2

-- What follows a compare-and-swap of the version that succeeded.
abbrev pub published :
    Store → MetaData → MetaData → Outcome (List ℕ) → List ℕ → Outcome Bool × Store
published store meta updated (ok written) swapped = (
  ok true,
  offer Signal.flush (record store { m_map = store_uint64 written 8 updated.root_offset }),
)
published store meta updated (err e) swapped = (
  err e,
  record store {
    m_map =
        store_uint64 (store_uint64 (store_uint64 swapped 16 meta.next_start_offset) 0 meta.version)
          8 meta.root_offset;
  },
)
published store meta updated panics swapped = (panics, record store { m_map = swapped })
published store meta updated stuck swapped = (stuck, record store { m_map = swapped })

unfoldable pub publish : Store → MetaData → MetaData → List ℕ → Outcome Bool × Store
publish store meta updated path =
    let versioned = store_uint64 store.m_map 0 updated.version in
    let swapped = store_uint64 versioned 16 updated.next_start_offset in
    published store meta updated (write_nodes_to_mem_map swapped path meta.next_start_offset)
      swapped

-- The compare-and-swap of the version, on the store as it is by then.
abbrev pub swap_version : Store → MetaData → MetaData → List ℕ → Outcome ℕ → Outcome Bool × Store
swap_version store meta updated path (ok version) =
    if not store.is_resizing
      && (meta.version == (updated.version + 2 ^ 64 - 1) % 2 ^ 64 && version == meta.version)
    then publish store meta updated path
    else (ok false, store)
swap_version store meta updated path (err e) = (ok false, store)
swap_version store meta updated path panics = (ok false, store)
swap_version store meta updated path stuck = (ok false, store)

module _ (compact_trigger : MetaData → Bool) (others : Store → Store) where
  -- The metadata were loaded. `others` is what the other goroutines do from then on until the
  -- compare-and-swap; after a swap that succeeds no other write gets past its own.
  abbrev pub with_meta : Store → INode → Outcome MetaData → Outcome Bool × Store
  with_meta store path (ok meta) =
      let serialized = serialize_recursive (address path) meta.next_start_offset in
      let updated : MetaData = record {
        version = path.version;
        root_offset = meta.next_start_offset;
        next_start_offset = (meta.next_start_offset + length serialized) % 2 ^ 64;
      } in
      let (is_resize, checked) = determine_if_resize store updated.next_start_offset in
      let now = others checked in
      if is_resize
      then (ok false, checked)
      else if not checked.append_only && compact_trigger updated
      then (ok false, offer Signal.compact checked)
      else swap_version now meta updated serialized (load_meta_version now.m_map)
  with_meta store path (err e) = (ok false, store)
  with_meta store path panics = (ok false, store)
  with_meta store path stuck = (ok false, store)

  unfoldable pub exclusive_write_mmap : Store → INode → Outcome Bool × Store
  exclusive_write_mmap store path =
      if store.is_resizing then (ok false, store) else with_meta store path (load_meta store.m_map)
