-- ===== src/Lib.antt =====
-- inel, an asynchronous runtime on io_uring: its reactor, in crates/inel-reactor/src, its executor,
-- in crates/inel-executor/src, and, in crates/inel/src, buffered readers and writers, files,
-- sockets, groups of buffers, and a server.
--
-- A caller makes an operation (op/), which builds a submission queue entry and knows how to read the
-- result and what to hand over when it is cancelled. A submission (submission.rs) drives one operation:
-- its first poll submits the entry to the ring (ring/mod.rs) and keeps the key that the ring gives out,
-- later polls ask for results, and its drop cancels. The ring counts what is outstanding, waits for the
-- kernel, and hands each completion to the completion set (ring/completion.rs), which wakes the task,
-- queues results of entries that complete many times, or gives them to the cancellation
-- (cancellation.rs) of an entry that nobody waits for any more. Slots of registered buffers, buffer
-- groups and direct files come from slot registers (ring/register.rs). Buffers and views of their parts
-- are in buffer.rs. A buffered reader or writer keeps a view in front of a source or a sink; the
-- executor polls the tasks that wakers have put into its queue, then waits for the reactor.
--
-- Files and the code that they model:
-- Base: shared names. Base/Fallible has the outcome of code that may panic (`Outcome`), Base/Lists and
--   Base/Slices the list functions over native numbers, Base/Bools the tests, Base/Int signed results.
-- Slab: the crate `slab` as a record of operations and laws; Slab/Vector is one that has them.
-- IoUring: the crate `io_uring` as a record of calls, each of which may fail, and its entries.
-- RingResult: `RingResult` of ring/mod.rs; the readers of a completion's flags are a parameter.
-- Key, Queues, Completion: `Key`, `ResultQueues`, `Completion` and `CompletionSet` of
--   ring/completion.rs, method by method. Completion/Spec is an independent specification, one phase for
--   each key; Own, Frame, Moves, Methods and Weights are the lemmas, Refine and Run the refinement,
--   Multishot an entry that goes on completing after its cancellation.
-- Register, Register/Lending: `SlotRegister` against the list of the slots that are lent.
-- Ring: `Ring` of ring/mod.rs; Ring/Counts its counters, with what has leaked, Ring/Want the number of
--   completions that it waits for, Ring/Delivery and Ring/Waiting what a wait delivers, Ring/Reached any
--   sequence of calls, Ring/Slots what it lends, Ring/Options how it is built.
-- Cancellation, Cancellation/Drops: `Cancellation` of cancellation.rs as data, with what dropping one
--   gives back to the allocator.
-- Op: the traits of op/mod.rs; Op/Results its module `util`; Op/Transfer, Op/Vectored, Op/Exact,
--   Op/Link, Op/File, Op/Net, Op/Socket and Op/Accept the operations; Op/Paths how those on paths are
--   made, Op/Call one that is awaited, Op/Chains the flag of `Chain`; Op/Access the memory that an
--   entry names, Op/Owning which operations hand it to their cancellation.
-- Submission: submission.rs, with Stream and Single for its two ways of polling, Life for its states,
--   Marked for the flag MORE of the results that wait, Dropped for a drop in flight.
-- Owned: the futures of crates/inel/src/io/owned.rs; Owned/Life from their making to their drop.
-- Buffer: buffer.rs; Buffer/Kept the memory of views, Buffer/Cursor the views that move.
--   Ring/Fixed is `Fixed`: the ring that its `reactor` stands for is an argument.
-- Runtime: the ring of a thread in crates/inel/src/lib.rs, and reactor.rs; Runtime/Init when it is
--   replaced, Runtime/Gone what is done without it.
-- Source: source.rs, source.rs of crates/inel/src and `run_detached` of op/mod.rs; Source/Owned what the
--   owners of slots take from the ring and give back.
-- Address: the socket addresses of util.rs.
-- Buffered: Buffered/Reader and Buffered/Writer are reader/generic.rs and writer/generic.rs of
--   crates/inel/src/io/buffered, over adapters that obey the laws of a byte stream. Reader/Fill and
--   Reader/Follows set the reader against the stream of its source; Writer/Flush and Writer/Follows
--   set the writer against the bytes that it has accepted, Writer/Ends says when its calls end.
--   Buffered/Adapters, Buffered/Grouped and Buffered/GroupedWriter are reader/group.rs and
--   writer/group.rs, Buffered/Fix the method `fix` of stable.rs with fixed.rs. Buffered/Stream is
--   `BufStream` of crates/inel/src/compat, Stream/Interleaved its reads and writes in any order,
--   Stream/Hyper the reads of hyper, for which Reader/Frame and Writer/Frame say what a call leaves
--   alone.
-- Executor: task.rs, waker.rs and executor.rs of crates/inel-executor/src. Executor/Tasks and
--   Executor/Balance count who holds a task, Executor/Run is the loop as steps, Executor/Turns the order
--   of the queue, Executor/Done the end of the loop, Executor/Starved a task that always wakes itself,
--   with Starved/Forever the run that polls it for ever,
--   Executor/Join join.rs with `spawn` and `block_on`.
-- Group: group.rs of crates/inel-reactor/src; Group/Operations is op/group.rs, Group/Sets is
--   crates/inel/src/group.rs, Group/Kernel sets the storage against the buffers that the kernel knows,
--   Group/Recycled the recycling and the end of a group, Group/Share the filling of a set and the group
--   of both sets, Group/Share/Room the places in the submission queue that filling takes.
-- Tcp: how net/tcp.rs of crates/inel/src opens listeners and streams; Tcp/Opened the descriptors
--   that are left open, Tcp/Direct direct listeners, Tcp/Direct/Slots their slots, Tcp/Direct/Order
--   the chains of entries, Tcp/Streams the methods of streams and listeners, Tcp/Auto direct
--   streams.
-- Serve: `Serve` of crates/inel/src/compat/axum.rs; Serve/Order which connections it handles.
-- Fs: the options, modes and times of fs/file.rs; Fs/Modes reads them back bit by bit, Fs/Times compares
--   times with what their numbers mean. Fs/File and Fs/DirectFile are the methods of files, Fs/Opened who
--   closes them; Fs/Func is fs/func.rs, with Slots for the slots it uses and Paths for the directories that
--   paths are resolved in; Fs/Dirs is fs/dir.rs, Fs/Dirs/Creates what it asks of the kernel.
-- The modules Tests and Examples hold concrete runs.
--
-- State is passed in and out. A waker is the number of its task; waking, consuming, and freeing are
-- listed as effects, in order. A panic is an outcome without a state, except in a poll and where
-- requests have gone to the kernel (Tcp, Fs/Dirs), where the state that is left matters. Machine
-- integers wrap where the source's type does (`% 2 ^ 32`), and a theorem that needs room says so.
-- Only `poll_write` of Buffered/Writer runs on fuel, the depth of its calls of itself; Writer/Ends
-- shows that two are enough. The loop of the executor has no bound of its own: it is steps, and the
-- theorems hold after any number of them. Every other loop goes through a list.
--
-- A dropped vector keeps its address, length and capacity; the contents of buffers appear only where
-- bytes are copied (Buffer/Cursor). Lengths of paths and of structures that no argument gives are not
-- compared.
--
-- Not modelled: the adapters of the buffered types that only choose an operation; `read`, `write`
-- and their kin of fs/func.rs, which are loops of the crate `futures`; and of
-- crates/inel/src/compat the streams and clients, which call other crates.
pub mod Base
pub mod Slab
pub mod IoUring
pub mod RingResult
pub mod Cancellation
pub mod Register
pub mod Key
pub mod Queues
pub mod Completion
pub mod Ring
pub mod Op
pub mod Submission
pub mod Source
pub mod Buffer
pub mod Address
pub mod Buffered
pub mod Executor
pub mod Group
pub mod Tcp
pub mod Fs
pub mod Owned
pub mod Runtime
pub mod Serve
