-- ===== src/Lib.antt =====
-- libmbox2: a C library that reads mail boxes. An index holds the offsets of the messages of a
-- file; a pool of worker threads loads and parses the messages in batches; their headers are kept
-- in red-black trees, and the messages in a list that can be sorted and filtered. All of it stands
-- on three data structures, the list, the byte buffer and the tree, and on reads through a buffer.
--
-- The list, src/mbox-list.c, is MboxList.antt over MboxList/Heap.antt: a heap maps an address to a
-- node, address 0 is NULL, and a program is a function of the heap that returns a result and a
-- heap, or faults when it reads, writes or frees an address that has no node. `MboxList` is the C
-- struct, its mutex a flag: to lock a locked mutex is the outcome `blocked`. Each function has the
-- name of the C function without its prefix (`mboxListAddTail` is `add_tail`); a new node takes
-- its address as a parameter, which stands for what `malloc` returns. MboxList/Rep.antt says when
-- a handle and a heap hold the list of given cells; Add, Remove, Find, Append, Release and Locked
-- hold the theorems on the operations named so. MboxList/QSort.antt is the sort, and below it
-- Order (orders and permutations), Scan (the partition), Sort (the recursion) and Main.
-- The callback of a comparison is a function into Bool; its answers do not change the heap.
--
-- The buffer, src/mbox-buf.c, is Buf.antt over Buf/Memory.antt: `data` is the list of the bytes of
-- its block, every access is checked against the size of the block, and `size_t` sums wrap at
-- 2 ^ 64. The allocator is a parameter: what fresh memory holds, and which sizes `realloc` grants;
-- `malloc` does not fail, since the code uses what it returns unchecked. Buf/Valid.antt has the
-- invariant, Buf/Append.antt the theorems on what is put at the end and taken off, and
-- Buf/Copy.antt those on copies and on the case of letters. Buf/Kmp.antt is the search for a
-- pattern, whose places and table entries are `int`, with Border (what the prefix table means), Table and Matcher. Buf/Escape.antt is printing
-- with a format, what vsnprintf gives being a parameter, and escaping (a second round of the printing
-- reads the arguments again, which C leaves undefined, so it is a fault); Buf/Mime.antt the decoding of
-- MIME words, Buf/Compare.antt the comparisons and Buf/Split.antt the cut at a delimiter, each with
-- its theorems. Buf/CString.antt says when a block holds a C string.
--
-- The map of the headers, src/mbox-redblacktree.c, is RbTree.antt. A tree is a data type, and the
-- pointers from a node to its parent are a path of frames: a place in the tree is a subtree with
-- the path from it up to the root, so `z->parent` is the first frame, and to go to the parent is
-- to plug the subtree into it. The comparison of keys is a parameter that gives a sign.
-- RbTree/Contents.antt has the entries in order and the reference map, Entries.antt what rotations
-- and fixup keep, Balance.antt the invariant, Place.antt the search for a place, Insert.antt and
-- Lookup.antt the theorems on the operations.
--
-- The pool of workers, src/mbox-worker.c, is Worker.antt. A state has the queue, the semaphore and
-- the count of active threads, the place of each worker in its loop, and a record of the jobs
-- submitted and run. A step is a submission by any thread or one section of one worker; a section
-- under a mutex is one step, and a worker at the semaphore that is down has none. The jobs are
-- numbers, and what a callback does is left open. Worker/Sound.antt has what holds in every state
-- that is reached from the start.
--
-- Reads and writes, src/mbox-io.c, are Io.antt. What `pread`, `pwrite` and `fsync` return is a
-- parameter, which differs from one call of a loop to the next; Io/Read.antt is what a read leaves,
-- and Io/Window.antt how a buffer that is filled read by read is a window of the file.
--
-- The parser, src/mbox-parser.c, is Parser.antt: the context of a reader, the search for the start of
-- its range, and the next message. Parser/Scan.antt has the scans through bytes, with
-- Parser/Scan/Text.antt on lines, and Parser/Scan/Blank.antt, over Line, on the end of the headers;
-- Parser/SeekStart.antt says what the search for a start looks for. Parser/Headers.antt is the parsing of
-- headers into a tree, with the keys of src/mbox-common-headers.c; Parser/Body.antt boundaries, the From header and
-- the parts of a message. Uninitialised arrays on the stack are parameters. Parser/Reader.antt follows
-- a reader through a file without NUL: below it Headers (the search for a blank line), FromLine (that for the
-- next line with "From ", over Line), Slide (what is done to the buffer in front of a message), Next (the whole
-- call, over Piece) and
-- Start (the search for the start of a range, where the first read holds it) and Endless (the same
-- search where the front of the file does not).
--
-- The dates, src/mbox-date.c, are Date.antt: the two pointers into the string and the place in the
-- format are indices, the fields of the struct signed integers (Base/Int.antt), which start at -1.
-- Date/Number.antt is `strtol` on a known string, Date/Month.antt the rounds of the loop and what it
-- makes of the months, Date/February.antt whole dates of February.
--
-- The messages, src/mbox-msg.c, are Msg.antt: the short form of a message, its comparisons, sorts and
-- the filter, over the list of MboxList.antt, where a message is an address and a store says
-- what stands there. Msg/Preview.antt is the making of the short form, Msg/Order.antt the sort by
-- date, Msg/Filter.antt the filter.
--
-- The index, src/mbox-index.c, is Index.antt, where a list stands at its abstract view: the offsets
-- of a message are a pair. Index/Decimal.antt is the text of a number, Index/Save.antt the writing of
-- an index, Index/Load.antt and Index/RoundTrip.antt the reading, Index/Batch.antt the batches, and
-- Index/Messages.antt the messages of a batch, from one read.
--
-- The entry points, src/mbox.c, are Mbox.antt: how the file is cut into ranges, with Mbox/Ranges.antt,
-- and the loop of a reader over the messages of its range. Mbox/Read.antt, on Parser/Messages.antt, is how
-- offsets follow on one another; Mbox/Pieces.antt how the loop cuts its range into
-- pieces of the file, Mbox/Single.antt one reader for a whole file, Mbox/Readers.antt
-- several readers, Mbox/Parse.antt the callback
-- that makes the short form of a message. The pools run these in some order; here they are functions.
--
-- The pool of blocks, src/mbox-memory.c, which the rest does not use, is MemPool.antt: the words of
-- its bit set are taken apart into bits. MemPool/RoundTrip.antt is allocation and release,
-- MemPool/Overlap.antt what goes wrong across two words.
--
-- Loops. The loops of the list run on fuel, as many rounds as there are nodes (and one), those
-- of the walk along the prefix table on one more round than the index they start from; the
-- theorems give a result, so the fuel is enough. The scans of the parser and the index have one round
-- for each byte of the block, and one more, and then an index has left the block. The loops that read
-- from a file run on a given fuel; where the file is known, fuel for twice its length is enough, and as many
-- rounds as it has bytes. The loop over a date has a round for each byte of the format. Loops with a
-- counter are structural recursion.
--
-- Base.antt and its children hold what the parts share. The tests and the examples are in the
-- module Tests below each part.
--
-- Not modelled: the opening and closing of files, printing, timing and logging, the release of
-- messages, mboxParserParseMessage, which nothing calls, the deletion from a tree behind
-- its search, the end of the worker pool, the start of the pools in src/mbox.c; the prototypes in
-- lookback-algorithm/, multi-thread-reads/ and delete-from-file/, which the library does not use.
pub mod Base
pub mod MboxList
pub mod Buf
pub mod Date
pub mod RbTree
pub mod Worker
pub mod Io
pub mod Parser
pub mod Msg
pub mod Index
pub mod Mbox
pub mod MemPool
