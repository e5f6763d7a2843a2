-- ===== src/Lib.antt =====
-- Duperemove finds equal extents in files and asks the kernel to store them once. It scans files
-- into checksums of blocks and extents (file_scan.c, csum.c, dbfile.c), gathers equal ones
-- (hash-tree.c, find_dupes.c) in a tree of results (results-tree.c), and for each record of that
-- tree opens the files (filerec.c) and sends requests to the kernel (run_dedupe.c, dedupe.c).
--
-- - Dedupe (dedupe.c, dedupe.h, ioctl.h): a context of queued, running and completed requests.
--   `DedupeCtxt` is struct dedupe_ctxt, one function per C function; Dedupe/Engine has the loop
--   over the ioctl, and its child modules prove the length mask (Mask, Align), the making of a
--   request (Populate), the reading of the kernel's answer (Process), whole runs (Extents,
--   Finish, Blocksize, Total) and the handing out of results (Pop). Capped is a kernel for the
--   examples. The kernel is the record `Kernel`, and `Complies` says what is relied on.
-- - SearchTree (the walks in filerec.c, results-tree.c and hash-tree.c): trees without colours;
--   what rbtree.c does is the record `Rbtree`. Sorted relates the walks to a sorted list, Put
--   and Replace say what an insertion and a write keep, and Bag counts a list without regard to
--   order. Write has the three changes that an owner makes, with all that is known after each,
--   Erase and Member what a removal and a lookup need, and Mapped a loop that writes to every
--   node. Plain is an `Rbtree` that does not balance.
-- - Filerec (filerec.c, filerec.h): `Globals` is the memory of the file records, their list and
--   tree and the open descriptors; Find, Free, Open and Once prove the records by number, their
--   end, the reference counts and the set of open files of one run.
-- - Results (results-tree.c, results-tree.h): `ResultsTree` holds a `DupeExtents` for each
--   length and digest; Valid, Store, Insert and Pair prove the insertions, and Remove has the
--   removals, with Drop for one extent, Removed for remove_extent and Emptied for the end of
--   records and of the tree.
-- - HashTree (hash-tree.c, hash-tree.h): `State` is the hash tree and the block trees of the
--   files; Valid says what is kept, Heads, Leave, Files, Enlist and Withdraw follow a block into
--   and out of each of the three places it is held in, Inserted, Refused, Removed and Emptied
--   prove the functions, and Sort the order of the heads.
-- - FindDupes (find_dupes.c): a `Cursor` is a block with those behind it in its file. Length
--   proves the length of a block, Sound the two loops of compare_extents, Search the whole of it
--   over any store of matches, Record over the tree of results, Late shows where a later match
--   begins, and SearchExtent has the loops over the blocks with one digest and over the extents
--   of a file, with Candidates for the blocks that it compares.
-- - Fiemap (fiemap.c, fiemap_scan_extent of filerec.c): what the file system answers is a list
--   of extents or nothing. Scan proves the search for an extent and that the descriptor is given
--   back, Shared the count of shared bytes.
-- - Util (util.c): parse_size, with a C string as a list of codes and `exit` as a result; Size
--   proves which number it reads.
-- - RunDedupe (run_dedupe.c): what is done with a record of results. The parent has
--   dedupe_extent_list from the sum of shared bytes on: a `Loop` is the state of its loop over
--   the extents, and `Left` where the loop is left to. Ready says what the loop keeps, Close and
--   Extents follow its labels and branches, Post has the count of shared bytes afterwards, Whole
--   ends the call, and Abort shows a last file that does not open. Clean has clean_deduped, with
--   Places for a node in the middle of a tree, Trims for what may become of a record, and Inner
--   and Outer for the two loops. Worker is a thread's work on a record: Pass has the whole of
--   dedupe_extent_list, Rescan the new look at the places on disk, Ends the whole. Report has
--   process_dedupe_results, and its Counted the sum of the bytes. Requests runs the engine of
--   Dedupe on a full context and then Report, with the static `fs_blocksize` in a `Session`, and
--   its Engage relates them to the loop.
-- - Prelude: lists and tests over the native numbers, signed integers, words modulo 2^w,
--   comparisons, and `Outcome` for a process that may abort.
--
-- Results, Filerec and HashTree use SearchTree by its theorems, and each tells it the order of
-- its keys. FindDupes records matches through a parameter, which Record fills with
-- `insert_result`, and walks the block trees of a HashTree `State`. RunDedupe drives Results,
-- Filerec, Fiemap and Dedupe: the loop of its parent takes what is done with a full context as
-- an argument, which Worker fills with `run_requests` over a `Kernel`. Dedupe knows none of the
-- others: a file is the number of its record, and the function from files to descriptors is an
-- argument.
--
-- Words wrap modulo 2^16, 2^32 and 2^64 where the C types do. `dedupe_extents` and `submit` run
-- on fuel: each round either shortens the length or ends, so the length in bytes plus two rounds
-- is enough. The loop of `filerec_close_open_list` has one step for each token, and each search
-- of `compare_extents` takes at least one block of the walked file. Each round of
-- `free_hash_tree` and of `free_results_tree` frees a list or a record, and each step inside
-- takes a block or an extent. The outer loop of `clean_deduped` has a node less before it in
-- each round.
--
-- Not modelled: the kernel, SQLite, GLib, xxHash and the C library, which are parameters where
-- the code relies on them; locks and threads, since calls run one after another; messages and
-- progress; the copies of kernel libraries (rbtree.c, list.h, list_sort.c). The thread pools of
-- find_dupes.c and run_dedupe.c, fdupes_dedupe, file_scan.c, the rest of util.c and dbfile.c
-- have no model yet.
pub mod Prelude
pub mod SearchTree
pub mod Dedupe
pub mod Filerec
pub mod Results
pub mod RunDedupe
pub mod FindDupes
pub mod Fiemap
pub mod HashTree
pub mod Util
