-- ===== src/Lib.antt =====
-- The WebDAV server library webdav-handler, its parts that decide: paths, headers, locks, the
-- in-memory file system, conditional requests, errors, the dispatcher and most of the handlers of the
-- methods. Paths below are from the root of the repository.
--
-- The dispatcher (src/davhandler.rs) checks a request and calls the handler of its method. A handler
-- takes the path of the request through `DavPath` (src/davpath.rs), asks `conditional.rs` whether the
-- request may go on, which asks the lock system (src/memls.rs) about the tokens that the
-- request shows and the file system about its files, and then calls a file system (src/memfs.rs).
-- The lock system and the in-memory file system each keep their state in a tree (src/tree.rs) behind
-- a mutex: each of their calls here is a function of that state, which is held alone during the
-- call. A call that changes the state returns it beside the outcome: `ok`, `err`, `panic` (an
-- `unwrap` of nothing, a slice out of range) or `out_of_fuel`.
--
--  Prelude: the shared names, with lists, outcomes and invariants of calls.
--  HashMap: `std::collections::HashMap`, as an association list in the order of iteration.
--  Errors: src/errors.rs and `FsError` of src/fs.rs. A status is its number.
--  Tree: src/tree.rs. `Tree.IsWellFormed`, in Tree/Invariant, is the invariant of the map of nodes.
--  DavPath: src/davpath.rs. `DavPath.segments`, in DavPath/Segments, is the `split` and `filter`
--   that src/memls.rs and src/memfs.rs do too. The decoder and the encoder of the crate
--   percent_encoding are parameters.
--  Ls, LockTree, LockCheck, MemLs: `DavLock` of src/ls.rs, and src/memls.rs: the walks over the
--   tree of locks, the checks, and the handlers. The time and the fresh token are arguments of
--   `lock`.
--  FakeLs: src/fakels.rs, the lock system that keeps no locks.
--  MemFs: src/memfs.rs. MemFs/Nodes has its nodes and the types of src/fs.rs, MemFs/Lookup the
--   lookups, MemFs the methods of the file system, MemFs/OpenFile those of an open file.
--  Text: byte strings as the standard library's `str` treats them.
--  DavHeaders: src/davheaders.rs. A module for each header: Depth, Overwrite, Destination, Timeout,
--   Language (Content-Language), Tag (`ETag`, If-Match, If-None-Match), Range (If-Range), UpdateRange
--   (X-Update-Range), and Scanner and If for the If header. What the crates http, headers, url and
--   regex do with a value is a parameter. `DavHeaders.If.run` takes one round for each token, and gets
--   two more than the value has bytes.
--  Conditional: src/conditional.rs, and the types of src/davheaders.rs that it reads. The
--   `metadata` of the file system and the `check` of the lock system are parameters.
--  Fs, Server: the traits of src/fs.rs and src/ls.rs as records of calls on a state, and `DavInner` of
--   src/davhandler.rs with the states of its file system and its lock system.
--  MultiError: src/multierror.rs, without the XML. The stream of statuses is the list of those that
--   have been sent when the handler is done.
--  HandleDelete, HandleCopymove: src/handle_delete.rs and src/handle_copymove.rs, over any file
--   system. `delete_items` and `do_copy` take one unit of fuel for each level of directories.
--  HandlePut, HandleMkcol: src/handle_put.rs and src/handle_mkcol.rs.
--  Methods, Dispatch: src/util.rs (methods and sets of methods) and the dispatcher of
--   src/davhandler.rs. The handlers are a parameter, a record of calls on a state; so is the answer of
--   `is_voidfs`.
--  HandleOptions: src/handle_options.rs, the methods that it offers.
--  Tests: the theorems at concrete inputs.
--
--  Machine integers: the ids of the tree are u64 and the positions of a file are usize of 64 bits;
-- their sums are written with `% 2 ^ 64`, and so are the lengths that `handle_put` counts. A vector
-- holds at most 2^63 - 1 bytes (`isize_max`), and a time ends at 2^63 seconds (`time_end`, in
-- nanoseconds): past these, `resize` and the sum of a time and a timeout panic. The
-- theorems on calls that make nodes ask for ids that are left. Fuel: `check_locks_from_node` and
-- `delete_subtree` recurse on fuel, and get the next free id of the tree. In a sound tree the ids grow
-- from a node to its children and stay below the next one, so this is enough for the check; a
-- recursion without fuel left is `out_of_fuel`.
--
--  Not modelled: the disk file system (src/localfs*.rs), the void one, the http adapters, the bodies,
-- the configuration, the XML, and the handlers of GET, HEAD, PROPFIND, PROPPATCH, LOCK and UNLOCK. A
-- lock's owner is of the crate xmltree, and a type parameter. Text is its bytes; that a prefix or a
-- segment is UTF-8 is not checked. The logging is left out.
pub mod Prelude
pub mod HashMap
pub mod Errors
pub mod Tree
pub mod DavPath
pub mod Ls
pub mod LockTree
pub mod LockCheck
pub mod MemLs
pub mod MemFs
pub mod Conditional
pub mod FakeLs
pub mod Text
pub mod Fs
pub mod Server
pub mod MultiError
pub mod Methods
pub mod HandleDelete
pub mod HandleCopymove
pub mod HandlePut
pub mod HandleMkcol
pub mod Dispatch
pub mod HandleOptions
pub mod DavHeaders
pub mod Tests
