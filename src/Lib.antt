-- ===== src/Lib.antt =====
-- A model of the core of Obnam, a deduplicating backup program: the parts of the Python package
-- obnamlib that say what a repository of format "green albatross" holds and what a lock, a filter
-- and a forget policy do.
--
-- Prelude: names, lists, dicts as association lists, results, sorting, and numbers as texts.
--
-- CowTree (obnamlib/fmt_ga/cowtree.py, leaf.py, leaf_store.py): a map from keys to values in leaves
-- of a bounded size. CowTree/Leaf is `CowLeaf`, CowTree/LeafStore the leaf store's interface with
-- `InMemoryLeafStore`, CowTree/LeafList is `_LeafList`, CowTree/Tree is `CowTree`. The tree takes any
-- leaf store as a section parameter, with its laws: a leaf that is changed in place stays changed, which
-- holds of `InMemoryLeafStore`, but not of `LeafStore` for leaves whose bag was stored. CowTree/Valid says when a tree is well formed,
-- CowTree/Contract is what a user of a tree relies on, and the other modules are the lemmas on leaf
-- lists (Order, Ends, Middle, Edits), stores (Stores), and inserts (InsertOne, InsertSplit, Insert,
-- Lookup) that lead there.
--
-- Bag (obnamlib/bag.py, blob_store.py): Bag/ObjectId and Bag/Bag are bags and the ids of the blobs in
-- them, Bag/Ids what the ids parse to, Bag/BlobCache is `BlobCache`, Bag/BlobStore is `BlobStore` over the operations of a bag store
-- that it calls. Bag/Reads, Bag/Flush and Bag/Writes are what can be read before and after each
-- operation. A blob's type and its size in bytes are parameters. Bag/ChunkStore is `GAChunkStore`
-- (obnamlib/fmt_ga/chunk_store.py) over the blob store.
--
-- Indexes (obnamlib/fmt_ga/indexes.py): Indexes/Indexes is `GAChunkIndexes` over three maps, which
-- Indexes/KeyMap makes from well formed trees. Indexes/Puts, Indexes/Removal and Indexes/Histories say what
-- single calls and sequences of them do to what can be found.
--
-- Directories (obnamlib/fmt_ga/dirobj.py): Directories/Directory is `GADirectory` with the short
-- names of file keys, Directories/Changes what its operations change, Directories/Keys the file keys
-- of obnamlib/repo_interface.py.
--
-- Trees (obnamlib/fmt_ga/tree.py): Trees/Tree is `GATree` with its cache, over a store of directory
-- objects that is a section parameter. Trees/Views is what a path reads as, cached or stored, and
-- that reads keep it, Trees/Contents the same from the cache and the stored objects alone. Trees/Sets and Trees/Removals say what it is after a directory is set or
-- removed, Trees/Immutable when a removal fails, Trees/Flush what a flush leaves, with the lemmas of
-- Trees/Inside on paths, Trees/Parents on the parent of a directory, Trees/Entries on the entries of a
-- directory and Trees/Fixup on what is stored. Trees/Reached is the trees that sequences of reads and
-- sets lead to, with the invariant of Trees/Links. A path name is the list of its names, the last one
-- first (Trees/Paths).
--
-- Generations (obnamlib/fmt_ga/client.py): Generations/AddedFiles and Generations/FileMetadata, with
-- FileKeys and FileChunks, are the files of a generation over a tree; Generations/Generation and
-- Generations/Client are the generations of a client, Generations/ClientFiles the client's methods on
-- files, Generations/RemoveGeneration the removal of a generation. Generations/Numbers, KeySets,
-- Commits and Removal say what becomes of the generations, Generations/Filled, Filed and Stored of a file
-- that is added, ChunkReads and ReadAgain what reads of chunks keep, Saved what a flush of all trees
-- leaves. What is stored of a client is read and written through a parameter, and so are the
-- test for the mode of a directory and the values 0 and ''.
--
-- Clients (obnamlib/fmt_ga/client_list.py): Clients/ClientList is the list of a repository's
-- clients; Clients/Added says what its operations do, with the lemmas of Clients/Names. The random
-- numbers that identifiers come from, the repository and the hook of a commit are a parameter, whose
-- hook and whose write raise no errors.
--
-- Pending (obnamlib/chunkid_token_map.py, pathname_excluder.py): Pending/TokenMap holds
-- chunks that wait to be indexed, Pending/Excluder decides which files a backup leaves out.
--
-- ForgetPolicy (obnamlib/forget_policy.py): ForgetPolicy/Parse reads the argument of --keep,
-- ForgetPolicy/Match picks the generations to keep. `strftime` is a parameter.
--
-- LockManager (obnamlib/lockmgr.py): LockManager/Locks takes and gives back the locks of directories
-- over a file system, a clock, and whatever others do while it sleeps, all of which are parameters.
-- LockManager/Locking and LockManager/Unlocking are one lock and the unlocking of several,
-- LockManager/Outcome what `lock` comes to.
--
-- Hooks (obnamlib/hooks.py): Hooks/Hook keeps callbacks in the order of their priorities,
-- Hooks/Filters runs the filters that encrypt or compress what a repository stores, and Hooks/Manager
-- is `HookManager` with the registered filters of a `FilterHook`.
--
-- Tests: each theorem at a concrete input, and runs of the code.
--
-- Numbers are natural numbers: Python's integers do not overflow, and none of the modelled code
-- handles negative ones. Loops over lists are structural recursion. Fuel stands for the rounds of
-- six loops: the text's length for a policy (each round takes a character of it), any number of
-- attempts in which the clock passes the timeout for a lock, one round more than there
-- are filters for a filtered text, and any number of candidates for a client's identifier, where the
-- code tries random numbers until one is free. A flush of a tree is given one call more than the names
-- of the longest cached path, since each nested call looks up a path longer by a name; the walk over a
-- generation's files takes its fuel as an argument, a round for each directory.
--
-- Not modelled: format 6, which is a layer over the B-tree library larch; the virtual file systems,
-- plugins, encryption, settings and user interface, which are input and output; the files
-- of bags and the encoding of objects (obnamlib/bag_store.py, obj_serialiser.py).
pub mod Prelude
pub mod Bag
pub mod Clients
pub mod CowTree
pub mod Directories
pub mod ForgetPolicy
pub mod Generations
pub mod Hooks
pub mod Indexes
pub mod LockManager
pub mod Pending
pub mod Trees
pub mod Tests
