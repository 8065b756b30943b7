-- ===== src/Lib.antt =====
-- NOMT, an authenticated key-value store: a binary Merkle trie kept in pages of six layers, over
-- a B-tree of the values, with proofs of the trie's contents for clients that know its root.
--
-- The parts and their modules:
-- * Core.Trie and Core.Hasher (core/src/trie.rs, core/src/hasher.rs): nodes, their kinds, and the
--   trait `NodeHasher` as a record, which every part below takes as a parameter. `IsLabelled` is
--   what the trait's comments ask of it; `Collision` is a pair of preimages with one hash, each
--   among given ones. The hash function of `BinaryHash` (the crates blake3 and sha2) is a
--   parameter.
-- * Core.TriePos (core/src/trie_pos.rs): positions in the paged trie. `down`, `up`, `sibling` and
--   `node_index_of` are the methods and functions of those names; `load_be` of the crate bitvec
--   is the parameter `BitField`, with the laws of reading bits as a big-endian number.
--   Core.TriePos.Pages is `page_id`.
-- * Core.PageId (core/src/page_id.rs): page identifiers, their order, encoding and decoding.
-- * Core.Update (core/src/update.rs): `leaf_ops_spliced` and `build_trie`. Its stack
--   `pending_siblings` and the calls of its visitor are the state `Build`. Core.Update.Reference
--   is an independent description of the trie, by recursion over the bits of the keys, to which
--   the other children of Core.Update relate the code's single pass over the sorted keys.
-- * Core.PathProof (core/src/proof/path_proof.rs): `PathProof::verify` and the questions that a
--   verified proof answers. Core.PathProof.Sound relates the answers to the reference trie.
-- * Core.MultiProof (core/src/proof/multi_proof.rs): `verify` of proofs of several paths, and
--   Core.MultiProof.Questions what a verified one is asked. Core.MultiProof.Halves shows that a
--   range of paths is cut where their bits part, Range what each of its paths shows, and Answers
--   makes a path proof of each.
-- * Core.VerifyUpdate (of path_proof.rs): `verify_update`, its checks and its frontier of siblings.
--   Core.VerifyUpdate.Compact, Climb and Single relate an update through one path to the
--   reference trie.
-- * Merkle.PageRegion (nomt/src/page_region.rs): the parts of the page tree given to workers.
-- * Merkle.PageDiff (nomt/src/page_diff.rs): which nodes of a page have changed, by the bits of two
--   words, and the packing of those nodes.
-- * Beatree.FreeList (nomt/src/beatree/allocator/free_list.rs): the free pages of a file as a
--   stack stored in pages. Beatree.FreeList.Commit is `commit`, with `preallocate` and
--   `push_and_encode`, and Beatree.FreeList.Page the bytes of its pages and `read`, to which the
--   file is a function from page numbers to pages.
-- * Beatree.BitOps (nomt/src/beatree/ops/bit_ops.rs): the separators of keys; Beatree.BitOps.Separate
--   shows where they lie.
-- * Bitbox.MetaMap (nomt/src/bitbox/meta_map.rs): the byte of each bucket of the hash table of
--   pages. Bitbox.Probe (nomt/src/bitbox/mod.rs) is the probe sequence, `allocate_bucket`, and the
--   load of a page by `PageLoader::probe` and `PageLoad::try_complete`; the hash function of the
--   crate twox_hash is a parameter, and the pages of the file a function from their bucket.
--   `Reaches` of Bitbox.Probe.Reach says that a load comes to a bucket.
-- * Bitbox.Wal (nomt/src/bitbox/wal): the log of changes of the hash table. Bitbox.Wal.Write is the
--   builder in mapped memory, where the system's answers are parameters, Bitbox.Wal.Read the reader.
--   Bitbox.Wal.Builder shows where the builder writes, and Bitbox.Wal.Log that the log is read back.
--   Bitbox.Wal.Cut compares runs of the reader on a file and on a part of it.
-- * Bitbox.Recover (`recover` of nomt/src/bitbox/mod.rs): a log applied to the file of the hash
--   table, a function from page numbers to pages, and then made empty. Bitbox.Recover.Overwrite is about operations
--   that overwrite fixed places, as those of an entry do.
-- * Store.SegmentName (nomt/src/seglog/segment_filename.rs): the names of the files of segments.
-- * Store.Meta (nomt/src/store/meta.rs): the metadata of the database, its bytes and `validate`;
--   the copies of `encode_to` are the list `fields`.
-- * Store.Delta (nomt/src/rollback/delta.rs): what undoes a commit, and its bytes.
-- Base passes on the library's names and holds lemmas on lists, bits, bytes and tests.
--
-- A `[u8; 32]` is the list of its 256 bits, the most significant first. A `Vec` that is used as a
-- stack has its top first. A panic is `none` or a constructor of the result, and so is arithmetic
-- that leaves its type's range where the model says so, as it panics where overflow is checked; a
-- release build wraps around. The loops are recursions on lists. The fuel of `sub_trie` is the
-- number of bits that are left in a key, and `IsGroup` asks for keys of that length;
-- `preallocate` runs on twice the number of pages to push and four, since each round moves the
-- cursor by a page's items or comes before such a round, and `verify_range` on as many bisections
-- as there are paths, `read` on as many rounds as it is given, one more than the portions that
-- the file holds. A probe may run for ever in a full table, so its fuel is a variable, of which
-- `load_finds` asks for more than the buckets before the one looked for; `grow_size` doubles at
-- most 37 times, to 2 ^ 37; a log takes a round for each entry and one for its end, in the reader
-- as in `recover`.
--
-- Not modelled: printing and parsing of positions, the making of multi-proofs and updates through
-- them, the page walker and its workers, the reconstruction of keys and the nodes of the B-tree, the
-- segmented log, overlays, and the threads, files and caches around them.
pub mod Base
pub mod Core
pub mod Merkle
pub mod Beatree
pub mod Store
pub mod Bitbox
