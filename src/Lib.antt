-- ===== src/Lib.antt =====
-- A library of concurrency building blocks in C++17: locks, containers that threads share, a
-- thread pool, an asynchronous logger, and parallel versions of algorithms of the standard
-- library.
--
-- Parts and files
--
-- - Common: Boolean tests on the native numbers, lists measured by them, tables, how many numbers
--   below a bound have a property, how often an item is in a list, and the names of the
--   libraries that every module uses.
-- - Locks.HierarchicalMutex: include/playground/threading/hierarchical_mutex.hpp. `lock`,
--   `unlock` and `try_lock` take the thread-local value as an argument and return its new
--   value. System is the step relation of threads that share mutexes, Order its invariant,
--   Deadlock what follows.
-- - Locks.RwLock: include/playground/threading/rw_lock.hpp. One function for each critical
--   section; a wait on a condition variable splits `lock_write` into `begin_write` and
--   `finish_write`. System is threads that call the methods in any order, Exclusion a writer that
--   is in, Starving what a first reader leaves behind, Sections a lock and its unlock.
-- - Containers.Queue: include/playground/threading/threadsafe_queue.hpp, with nodes in a heap.
--   Chain says which list a heap represents, Refine compares the queue with a list, and
--   Interleave runs producers and consumers under the two mutexes.
-- - Containers.Stack: include/playground/threading/threadsafe_stack.hpp.
-- - Containers.SharedStack: include/playground/threading/lockfree_stack_shared_ptr.hpp, one
--   atomic operation at a time. Chain says which list the nodes are, Moves and Exchanges are
--   about the single operations, Linear about any schedule of them, Alone about a thread that
--   is not disturbed.
-- - Containers.HazardStack: include/playground/threading/lockfree_stack_hazard_pointer.hpp, with
--   addresses that `new` may give again after `delete`. Invariant is what threads rely on, Moves,
--   Removal, Reclaim and Calls are about the operations, Safety about any order of them.
-- - Containers.DeleteListStack: include/playground/threading/lockfree_statck_delete_list.hpp,
--   with such addresses and the counter of the threads in Pop. Segments is about chains of
--   nodes, Invariant is what threads rely on, Kept, Quiet and Hands are about any move,
--   Moves, Removal, Calls, Reclaim, HandOn, Free, Deletes and Chaining about the operations,
--   and Safety about any order of them.
-- - Containers.CountedStack:
--   include/playground/threading/lockfree_stack_reference_counting.hpp, with such addresses
--   and both counts of a node. Invariant is what threads rely on, Kept and Quiet are about
--   any move, Moves, Removal, Counts and GiveBack about the operations, Safety about any
--   order of them.
-- - Containers.LookupTable: include/playground/threading/threadsafe_lookup_table.hpp; Bucket is
--   about one bucket, Laws about the table as a map, Snapshot about GetMap.
-- - Containers.NodeList: include/playground/threading/threadsafe_list.hpp. RemoveIf is cut
--   into its rounds, between which PushFront may come; one RemoveIf is under way at a time.
-- - ThreadOwners: include/playground/threading/joining_thread.hpp, scoped_thread.hpp and
--   threads_guard.hpp, over objects of std::thread. Owned says which object a thread is of,
--   Invariant and Calls are about the functions, Laws about any sequence of them, Guard about
--   the destructor of a ThreadsGuard.
-- - Coroutines: experiments/cpp20/coroutines, co_yeild/main.cpp, co_await/common.hpp and
--   co_await/await_1.hpp. Laws is about what the programs print.
-- - Pools.ThreadPool: include/playground/threading/thread_pool.h and
--   src/threading/thread_pool.cpp. A critical section or a task's run is a step; Reach is the
--   step relation of callers and workers, Invariant and Work its invariant, Laws what callers
--   rely on.
-- - Pools.WorkStealing: experiments/concurrent_algorithms/include/concurrent/thread_pool.hpp.
--   A search takes the mutex of one queue at a time, and `others` says what other threads do to
--   the queues before each. Search is about which tasks a thread finds, Conservation about what
--   becomes of them.
-- - Logging.AsyncLog: include/playground/threading/async_log.h and src/threading/async_log.cpp.
--   `Log` holds the static members. Files has writeToFile and the two `output`, Writer the
--   thread of writeThreadProc step by step, and Binary formLog and outputBinary; Order runs
--   callers and the writer in any interleaving, Cycle and Drain follow the writer through one
--   line and to its end.
-- - Interrupt: include/playground/threading/interruptiable_thread.hpp, the flag and the two
--   interruptible waits beside calls of `Set`. Invariant holds between any two moves, Wakeup is
--   about sleeping and the end of a wait.
-- - Algorithms: experiments/concurrent_algorithms/include/concurrent. Blocks is how find.hpp,
--   for_each.hpp and partial_sum.hpp split a range over threads; Find, FindRecursive, ForEach,
--   Accumulate and PartialSum are the algorithms of these names, Find and ForEach with
--   interleaved threads. Sort is sort.hpp, the quicksorts of `Sorter` and `SorterThreadPool`,
--   where the result of a part does not depend on the thread that sorts it.
-- - Events: examples/qt_eventloop_skeleton/main.cpp. Timers is TimerManager, Dispatcher the queue
--   and the event filters, Loop EventLoop. The state of a thread is the record `Thread`; an
--   object's handlers are any functions on it, nested loops included. `exec` is given its rounds
--   as a list, each with the time and what other threads do in it; what they do is placed at the
--   end of the round.
--
-- How the parts interact: the algorithms share the split of Blocks and have no other part of
-- the library beneath them; the pool's queue is a std::queue under the pool's own mutex, and
-- the logger's list a std::list under the logger's. An event loop works on the queue and the
-- timers of its thread, and its handlers may enter loops of their own. The containers and the
-- locks stand alone; the models of the lock-free stacks share the calls and
-- what a node is used for.
--
-- Conventions
--
-- A number is a natural number; where a machine's width matters the wrap-around is written
-- out: 32 bits for the counters of rw_lock, the pool's thread count, the threads in a Pop and
-- the references to a node, where the theorem asks for fewer than 2 ^ 32 - 2 moves, 64 bits
-- for the length of a range, where the theorems ask for ranges shorter than 2 ^ 63. What a
-- mutex makes atomic is one function. Interleavings are step relations (Reach) or schedules,
-- lists of the numbers of the threads that move. A value that only a theorem speaks of
-- (`accepted`, `pushed`, `taken`, a node's `status` or `lives`, its `holder`) is a ghost
-- field of a system's state, beside the modelled state.
--
-- Fuel: `for_each_recursive` halves its range, so that the range's length is enough fuel. The
-- loop of writeToFile erases at least a byte in each round, so that one more than the length
-- of the text is enough; without that, fwrite may keep the loop going for ever, `none`. That
-- of outputBinary takes 512 bytes in each round, so that the number of bytes is enough, and
-- `find_core` halves its range. A coroutine is resumed once for each number that it prints,
-- and at most twice more. A sort's parts are shorter than its list, whose length is the fuel.
--
-- Outside the model: hash functions, comparisons, the `+` of element types, the number of
-- hardware threads, and fopen and fwrite are parameters; clocks and formatted texts are
-- arguments. A mutex excludes and a condition variable wakes as the standard says; spurious
-- wake-ups are in Interrupt only. The memory model is sequentially consistent, for the
-- relaxed and the acquire and release operations of the lock-free stacks too. Left out:
-- wait_and_pop of the queue, which does not compile; the hand-out of hazard pointers, of
-- which a thread has that of its own number; the destructors
-- of the lock-free stacks; the threads of `Sorter`; the owner of an
-- interruptible thread; the objects of the demonstration of examples/qt_eventloop_skeleton;
-- the frames and handles of coroutines, and co_await/await_2.hpp and await_3.hpp, which do
-- not compile; tests, benchmarks and build files.
pub mod Common
pub mod Logging
pub mod Pools
pub mod Locks
pub mod Interrupt
pub mod Events
pub mod Algorithms
pub mod Containers
pub mod ThreadOwners
pub mod Coroutines
