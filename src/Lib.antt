-- ===== src/Lib.antt =====
-- mari, an embedded ordered key-value store: a memory-mapped, copy-on-write, array mapped trie.
--
-- The program. A node of the trie (types.go, node.go) has a bitmap of 256 bits, one for each byte
-- value, a table with a child for each bit that is set, and a leaf that holds a key and a value.
-- operation.go puts, gets and deletes by walking the bytes of the key; the bitmap and the table
-- are kept by utils.go. A transaction (transaction.go) works on a copy of the path from the root.
-- When its function is done, io.go serializes the copy (serialize.go) behind the last version in
-- the memory map, if no other writer has changed the version meanwhile. Children that are not on
-- the path are left where they are, and named by their offset. iterate.go and range.go read the
-- trie in order.
--
-- The files.
-- - Base and its children: what the modules share. Base/Outcome has the results of a Go function:
--   a value, an error, or a panic; and `stuck`, which says that the model's fuel ran out.
--   Base/Lists has Go's `copy`, Base/Memory its slice expression. Base/Halts has the runs that do
--   not end in `stuck`, and the rules by which `search` shows it of a `do` block; Base/Gives has
--   what holds of the value of a run that returns one.
-- - Bitmap: utils.go. `get_position`, `is_bit_set`, `set_bit`, `population_count`, `extend_table`,
--   `shrink_table` are getPosition and so on. Bitmap/Rank counts the members below an index,
--   Bitmap/Slots, Inserted, Removed and Sparse see a bitmap and a table as a partial function from
--   bytes to children.
-- - Node: `INode` and `LNode`, and the functions of node.go on a node in memory. A child pointer
--   is a `Child`; `deref` and `address` go between it and the struct.
-- - Trie: operation.go. Trie/Order says when a trie is in good order, Trie/Read what it reads, and
--   Trie/Replace, Step, Leaf, Split and Put follow `putRecursive` through its cases, Trie/Delete,
--   Drop, Work and Removal `deleteRecursive`. Trie/Map has the view from the root, Trie/Ends the fuel.
-- - Serialize: serialize.go. MemMap: the reads and writes of node.go and meta.go on the map, a list
--   of bytes; MemMap/Leaf, Fields, Node and Path read back what was serialized; MemMap/Initial has what
--   initRoot and initMeta leave, MemMap/Ends the reads of arbitrary bytes.
-- - Commit: exclusiveWriteMmap, determineIfResize and the sizes of resizeMmap in io.go;
--   Commit/Publish and Write follow a write, Commit/Readers says what is read after it.
-- - Scan: iterate.go and range.go. Scan/Limit bounds an iteration; Scan/Listing is the whole
--   range, which Scan/Order, Sorted and Whole show to be the map of the trie in order.
-- - Transaction: transaction.go, with the number of read locks held.
-- - Writers: UpdateTx and exclusiveWriteMmap once more, as a step relation: any number of workers,
--   each at a program counter, interleaved at their atomic loads and stores of the metadata.
--   Writers/Invariant is what every move keeps, Writers/Serial what holds of every run, and
--   Writers/Progress the run of a writer that is left alone.
-- - Open: mari.go, and mmap, munmap and resizeMmap of io.go, on the file, its mapping and the flags of
--   `Mari`. The record `System` says of each call of the operating system whether it returns. Open/Resize
--   is the resize whose calls return, Open/Kept any other.
-- - Compact: compact.go. Compact/Tree says when a tree in memory holds a trie that is read from a map,
--   and when it fits the format; Compact/Room, Block, Copy and Whole follow the copy into the
--   temporary file, Compact/ReadBack and File read the new file, Compact/Swap puts it in place.
-- - Durable: a trie that stands in the map from an offset on. Durable/Path is the path of a transaction that
--   is to be written, Durable/Written what a write that has won makes of it, and what is read then;
--   Trie/View says that gets depend on the trie alone, and Compact/Kept uses it for a compaction.
--   Durable/Tidy has the nodes of a transaction that can be written, Durable/Table the changes of a child
--   table, Durable/Put the cases of `putRecursive`, Durable/Tree the tree that such a node holds;
--   Durable/Update goes from the first read of a transaction of puts to its readers, and Durable/Latest puts
--   `UpdateTx` around it.
-- - Settings: the options of Open, and Settings/Trigger, the updates that ask for a compaction. Mapping: mmap.go,
--   with the package unix as a parameter. Print: PrintChildren of utils.go.
-- - Pool: pool.go. A sync.Pool is a list, of which an event picks or drops an item.
-- The Tests modules apply the results at concrete stores.
--
-- How the code is read. A node pointer that is replaced by compare-and-swap within a transaction is
-- an argument, and its new referent the result. Words keep their wrap-around, as remainders by 2 ^ 8,
-- 2 ^ 16 and 2 ^ 64. A slice's capacity is its length, except for slices of the map, which reach to
-- its end. The reads from the map are an argument of the trie's operations, `load`. Recursions along
-- a key are on fuel: one unit for each byte of the key and one for the root are enough for a put into
-- a trie in good order. The recursion of serializeRecursive is on the tree itself. In Commit, the
-- argument `others` is what other goroutines do between the load of the metadata and the
-- compare-and-swap of the version. The copy of a compaction is on fuel for the height of the trie.
-- In Writers the serialized path is a length, the map is the version field of the node at each
-- offset, and fewer than 2 ^ 64 versions are published.
--
-- Tries in good order. Bitmap/Rank shows that getPosition ignores the bytes below 32 for a byte from
-- 32 to 63; so good order speaks of keys whose bytes are 32 or more. It speaks of keys of one
-- length: with keys of which one extends another, putRecursive can leave an old value in reach. For a
-- delete it also asks that no leaf with a key has the version of the transaction, since
-- deleteRecursive takes such a leaf for one that it has emptied.
--
-- Not modelled: the race of two calls on the counter of the pool, the goroutines behind the channels
-- (what they have received is a list, and a flag says whether each waits), the roll back after a failed write between other writers' steps (the
-- space is checked before, and Commit has the write itself), a temporary file that a failed
-- compaction has left behind, and the code under vendor, of which the flush of a region is an argument
-- of the writes, and the package unix a parameter of Mapping.
pub mod Base
pub mod Bitmap
pub mod Node
pub mod Trie
pub mod Serialize
pub mod MemMap
pub mod Commit
pub mod Scan
pub mod Transaction
pub mod Open
pub mod Compact
pub mod Pool
pub mod Writers
pub mod Durable
pub mod Print
pub mod Mapping
pub mod Settings
