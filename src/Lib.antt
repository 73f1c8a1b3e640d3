-- ===== src/Lib.antt =====
-- A verification of the thread pool `beekeeper`: a `Hive` runs tasks on worker threads, and each task
-- ends as an `Outcome`. The crate is modelled with the features `retry` and `affinity`.
--
-- The parts and how they interact:
-- - A `Hive` (src/hive/hive.rs) is a handle on the state `Shared` (src/hive/shared.rs) that all its
--   clones and its worker threads share. A client submits inputs; each becomes a `Task`
--   (src/hive/task.rs) with an index, is counted as queued and sent to the queue of tasks.
-- - A worker thread takes a task from the retry queue or from the queue of tasks, counts it as active,
--   lets its `Worker` (src/bee) run on the input, and queues the task again or delivers its outcome:
--   on the task's channel if the receiver lives, or in the map of outcomes. Then it finishes the task.
-- - Queued and active tasks are counted in the two parts of one word (src/hive/counter.rs), on which
--   `join` waits.
-- - Threads wait in `join`, and at a suspended hive, at gates (src/hive/gate.rs).
-- - A client reads outcomes through `OutcomeIterator` (src/hive/outcome/iter.rs) or out of an
--   `OutcomeStore` (src/hive/outcome/store.rs).
-- - src/util.rs makes a hive of a closure (src/bee/stock) for one call, and maps over it.
--
-- The files:
-- - Common and its children: shared names, Boolean tests, `Result`, calls that may panic, lists, maps,
--   sorting. Common/SameEntries is about two maps that hold the same entries in different orders.
-- - Atomic: src/atomic.rs. The operations on a cell, and `AtomicOption` (Atomic/Laws). Atomic/Cells
--   has the trait `Atomic` as a record of operations and laws, and `AtomicAny`.
-- - Counter: src/hive/counter.rs. `DualCounter<L>`; its `L` is the first argument. Counter/Arith and
--   Counter/Laws relate the word to the pair of its parts.
-- - Bee: src/bee/context.rs, src/bee/error.rs, src/bee/worker.rs, src/panic.rs. Bee/Panics: the rest
--   of src/panic.rs, and src/boxed.rs. Bee/Queen: src/bee/queen.rs. Bee/Stock: src/bee/stock (call.rs,
--   thunk.rs, echo.rs).
-- - Outcome: src/hive/outcome/outcome.rs. Outcome/Store and its children: store.rs. Outcome/Iter and
--   its children: iter.rs, and Outcome/Adapters: `OutcomeIteratorExt` there. Outcome/Batch: batch.rs.
--   In Outcome/Store, View is the quotient of a map that forgets the order of iteration, Order is
--   about the operations that do not depend on it, Kept says what a map keeps as it changes, and Deref
--   has the traits `DerefOutcomes` and `OwnedOutcomes` as records of operations and laws, which
--   Outcome/Batch, Husk/Store and Hive/Store fill.
-- - Delay: src/hive/delay.rs. Cores: src/hive/cores.rs.
-- - Config: src/hive/config.rs. Builder: src/hive/builder.rs.
-- - Shared: the state, and the operations of src/hive/shared.rs on it: Shared/Tasks (prepare_task,
--   prepare_batch, send_or_store), Shared/Retry (queue_retry), Shared/Queue (next_task),
--   Shared/Teardown (drain_tasks_into_unprocessed, poison, try_into_husk, and in its child Taken the
--   unprocessed inputs). Shared/Plain: the variants without `retry`.
-- - Hive: the operations of src/hive/hive.rs: Hive/Submit (apply, swarm, map, scan, resume, in the
--   forms that send and that store), Hive/Blocking (the forms that make a channel and read it; Laws
--   there: map_unordered and scan) and Hive/Thread (execute, the sentinel). Hive/Grow and
--   Hive/Affinity are about growing.
-- - Husk: src/hive/husk.rs.
-- - Pool: the threads as interleaved steps. What holds in every state that the steps reach is in
--   Pool/Counts, Pool/Settle, Pool/Invariant and Pool/Join (the counter), Pool/Retries (the retry
--   queue), and Pool/Occurs, Pool/Conservation, Pool/Issued and Pool/Once (the tasks and their
--   indices). Pool/Frames and Pool/Totals say what a step changes and that it is there; Pool/Works,
--   Pool/Moves, Pool/Returns and Pool/Progress are about runs of the worker threads, and Pool/Notify
--   about the steps that end the wait in `join`. Pool/Mapped and its children are about the runs in
--   which one client maps over its inputs (Pool/Mapped/Arrived: in which order the outcomes arrive).
--   Pool/Stored and Pool/StoredOrder are about the map of outcomes, and Pool/Resumed has resuming the
--   unprocessed inputs as a run of the steps. Pool/Closing and its children are about the end of a
--   hive whose last handle is dropped: Drop compares the call with the steps, Emptied and Once are
--   about the tasks that are left, Stranded about the task that is queued again too late, Leaves about
--   what the operations of the counter leave alone, Ends about how many steps are left, and Waits
--   about the threads of a suspended hive.
-- - Channel: src/channel.rs, reading without waiting.
-- - Gate: src/hive/gate.rs, `Gate` and `PhasedGate`, as the steps of the threads that wait or notify.
-- - Util: src/util.rs, composed of Builder, Hive/Blocking, Bee/Stock and Outcome/Iter.
-- - Tests: the theorems at concrete inputs.
--
-- How the code is modelled:
-- - A call takes the state and returns a value and the new state, or unwinds with the state that it
--   left. The state is `Shared` for the operations of a hive, the map for those of a store, and the
--   word for those of the counter.
-- - Integers are natural numbers, with the wrap-around of the machine's width written out where the
--   code can reach it: 64 bits for the word, the indices and the numbers of threads and panics.
-- - A `HashMap` is an association list; its order stands for the order of iteration. A binary heap is
--   the list of its entries. A channel is its number, and the state holds whether its receiver lives
--   and what was sent on it.
-- - A lock is held for one step, and an atomic access is one step. `finish_task` and `set_suspended`
--   also return which gates they notify. The steps of Pool are those of a hive that is alive: no
--   thread has left its loop, and the hive was not poisoned. Pool/Closing has the steps after the last
--   handle is dropped, where the hive is poisoned and the threads leave their loops. A panic in the
--   delay of a retry is a step in both. A call that panics in the counter is a step of Pool/Closing
--   alone, where the sentinels of the threads that leave put the counter wrong; not that of a client
--   or of `queue_retry`, which needs 2^48 queued tasks, nor that of `finish_task` in a thread that
--   unwinds already, which aborts the process. An addition of two machine integers that overflows
--   panics, as in a checked build.
-- - Clocks, the numbers and ids of the CPU cores, the threads that the operating system starts, queens
--   and workers are arguments.
-- - `next` of the iterator is a loop on fuel: twice the length of the inner iterator and 2, which is
--   proved to be enough for every iterator.
-- - At a gate, the owner changes the condition at any time, and calls `notify_all` some time after
--   each time that the condition has become false. A wake-up without a reason is a step.
-- - In Hive/Blocking and Util, what the receiver of the new channel yields is an argument. The
--   theorems of Util give it the messages on the channel in the state that a run of the threads ends
--   in, where `join` would return.
--
-- Not modelled: memory orderings; what the operating system does with a thread's name and stack size;
-- `Debug`, the equality of hives, which compares pointers; the accessors that read one field, which are
-- the fields of the records; the crate's features for other channels, which only rename the channel
-- that is used; the time that a call takes; src/hive/scoped, which is not a module of the crate.
pub mod Common
pub mod Atomic
pub mod Counter
pub mod Bee
pub mod Outcome
pub mod Delay
pub mod Cores
pub mod Config
pub mod Builder
pub mod Shared
pub mod Hive
pub mod Husk
pub mod Pool
pub mod Channel
pub mod Gate
pub mod Util
pub mod Tests
