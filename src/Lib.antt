-- ===== src/Lib.antt =====
-- A verification library for diskqueue, a durable FIFO queue of byte records on disk.
--
-- The queue is a row of segment files. A segment is a 64-byte header and a data region of frames, one
-- frame a record. The store appends at the write cursor of the last segment, reads at the read cursor,
-- and moves the commit cursor over the records that are done with; a segment behind the commit cursor
-- is deleted. Reservations that were handed out but not acknowledged stand in a ledger. Queue and
-- Reader call the store under one lock.
--
--  - Base: numbers, Booleans, lists and byte strings.
--  - Frame (record.go): the frame and its guards. framedLen is framed_len, fitsWithin fits_within,
--    frameHeader frame_header; the bytes of writeRecord are frame, the slices of recordAt decode.
--    Frame/Uvarint, Frame/Bounds and Frame/RoundTrip hold its proofs.
--  - Header (header.go): the header as 64 bytes, fields by offset and width, header(mods...) with the
--    checksum. Header/Layout and Header/Fields hold the proofs.
--  - Store (store.go, record.go, reserve.go): Store/State is the struct, Store/Action the form of a
--    method: it takes the store, returns a value or an error, and the store as it left it, failed or
--    not. Store/Os is the file system: contents by segment number, and a stream of outcomes, one a call,
--    that a theorem quantifies over; a failed write may leave any first part of its bytes.
--    Store/Files is ensureOpen, evictOpen, flushFile, flushBatch; Store/Segments is writeHeader,
--    createFile, cycle, dropCommitted, fileForOffset; Store/Block reads records through the cached
--    block, and its modules say that the block repeats its file; Store/Append is appendRecord,
--    stagePending, publishSpan; Store/Ledger is reserve.go; Store/Commit is persistCommit,
--    skipCorruptSegment and forceCommitAll; Store/Walk is the loop of commitDurable, one round a
--    step; Store/Consume is peekHead, takeHead, ackTo.
--    Store/Quiet says which actions leave the contents and the cursors alone, and Store/Clean which
--    leave the dirty marks and the gauges as Sync needs them. Store/Log is the abstract
--    view of a segment: the list of its records, whose frames are the published bytes of its file.
--  - Recovery (recovery.go): opening a directory. Recovery/Names is the listing, Recovery/Frames the
--    walks of surviveCount and countVerified, Recovery/Segment loadFile and what it calls,
--    Recovery/Load load, Recovery/Drop the removals. Recovery/Walk, Recovery/Count, Recovery/Bounds,
--    Recovery/Delete and Recovery/FileName hold the proofs. slices.Sort and slices.Compact are sort and
--    compact.
--  - Queue (diskqueue.go, reader.go): Queue/Options, Queue/Batch (AddBatch) and Queue/Reader.
--    Queue/Count and Queue/Tally are the proofs on what AddBatch counts.
--    Queue/Group is group commit: addDurableLocked and leadFlushLocked, cut where they release the lock;
--    Queue/Group/System interleaves them as a step relation. An outcome of an fsync is drawn where the
--    lock is taken again; what the other goroutines do is any action that leaves the write cursor and
--    the staged bytes alone. Queue/Group/Invariant states what holds between two steps, and
--    Queue/Group/Drains and Queue/Group/Woken follow the signals of a drained flush.
--    Queue/Sync is syncOffLock and flushChunk, with what other goroutines do meanwhile as a parameter,
--    and store.close; Queue/Blocking is Reserve and Take with the wake-ups as a list.
--  - Tests: a store that runs, and the theorems at concrete inputs.
--
-- Numbers: an int64, an int and a uint64 of the code are natural numbers, and the wraps of uint64 in
-- fitsWithin and in nextNum, and of int64 in loadFile's headerSize+capacity, are written out; other
-- sums, the queue's offsets, byte counts and lifetime counts, are not bounded. Fuel: the loops of
-- uvarintLen and PutUvarint have fuel above their number, a bisection has one more than its range,
-- evictOpen has the number of open files, and the walk of a commit has one more than the bytes from
-- the cursor to its target. The walks of recovery have one more round than the segment has bytes,
-- and abortedCreate a round for each 64 KiB. The chunks of a Sync are at most as many as the
-- segments, as each has a file at least.
--
-- xxhash is a package of its own: its Sum64 is a parameter, and where a theorem needs its values to be
-- 64-bit numbers it says so. The outcomes of system calls are a parameter too.
--
-- Not modelled: the channels, where a wait is a step that is open once its condition holds, or a
-- wake-up that is handed in; of flushDrained the signals are counted, and a producer that waits on
-- it moves only behind the next one. Waiting for space, the iterators, closing the queue and
-- statistics are not modelled either; nor are the scratch buffers, whose contents alone are; nor
-- the platform files, a system call being its outcome. Of Close, Queue/Group has that the queue is
-- marked closed at any time.
pub mod Base
pub mod Frame
pub mod Header
pub mod Store
pub mod Recovery
pub mod Queue
pub mod Tests
