-- ===== src/Lib.antt =====
-- ThreadPoolBenchmark: a benchmark of thread pools, with a pool of its own, and a model of it.
--
-- The program. main.cpp names the pools to compare and the suites of tests. A runner takes a vector of
-- tasks and has a pool run them. Helpers.h calls each test of each suite on each runner, times the calls
-- and prints tables. The test headers make the tasks. ThreadPool.h is the program's own pool over the
-- queue of ThreadSafeQueue.h, and oneTBB_Wrapper.h puts oneTBB behind a similar interface.
--
-- The files (paths of the program are below ThreadPoolBenchmark/):
--   Base       numbers, tests, lists, families of values (one for each thread) and weights
--   Ranges     loops over index ranges, chunks of a range (Ranges.Chunks), orders of tasks
--              (Ranges.Orders); used for oneTBB_Wrapper.h, main.cpp and the tests
--   Queue      ThreadSafeQueue.h: each operation is what one thread does under the mutex; try_push is
--              cut in two where the source tests _shutdown before it locks. Queue.Call is any operation,
--              Queue.History, Queue.Invariant and Queue.Wakeup are about sequences of them
--   Pool       ThreadPool.h: work is one piece of workerThread, begin and continue are the pieces of
--              tryEnqueueTask and of the two shutdowns. Pool.System interleaves any number of workers
--              and callers; Pool.Solo is one caller, as in main.cpp
--   Tbb        what the program relies on of oneTBB: parallel_for, task_group, max_concurrency
--   Wrapper    oneTBB_Wrapper.h: each strategy, tryEnqueue and the shutdown, used by one thread
--   Runners    main.cpp: Session is a runner over ThreadPool, with the order in which its workers run
--              the tasks of a test (Session.Order), Batched the runners that batch, Parallel
--              those over a parallel loop, a group or a pool with a wait for all, Polling HP_ThreadPool,
--              Dispatch oneTBB_Strategy_Dispatch, Moody moody_ConcurrentQueue_ThreadPool, where a step
--              of a thread is one shared access
--   Main       main.cpp: the tables of pools and suites, and main with what it calls and prints;
--              Main.Ran is what tests leave under each of its runners
--   Harness    Helpers.h: the timed runs, Summary the two tables, Latency the latency suites, Calls the
--              order of the calls
--   Workloads  GroupedTaskSizeSweepTests.h, SequentialTaskSizeSweepTests.h,
--              SaturationOversubscription.h, PerfLoadDrop.h: bodies and what is submitted
--   LatencyTests  LatencyTests.h
--   Contention HighContention.h; Slots FalseSharing.h; Waves BackToBack.h
--   Profiler   ThreadProfiler.h with ENABLE_THREAD_PROFILER defined; Profiler.Logger is the logger thread,
--              the destructor and the two files, beside the threads that use the profiler
-- A component's Tests hold concrete runs of it, and its theorems at them.
--
-- State is passed explicitly. A call that may have to wait gives an Attempt: blocked, or returns. none is
-- an index out of range, a division by 0 or a signed overflow, where the source's behaviour is undefined.
--
-- Threads. A step of the pool is what a thread does between two shared accesses; the memory order is
-- sequential. In the queue, condition variables count their sleepers and those woken. In the pool, a
-- thread that waits has no step until what it waits for holds, and a task is one step, which returns or
-- throws. The pool's Log is a history that the program does not keep.
--
-- Lists are compared by weights: two lists that weigh the same under every function to the natural
-- numbers hold the same elements, each as often; where equality is decidable they are permutations of
-- each other (Base.Permutations).
--
-- Bounds. A size_t is a natural number with its operations modulo 2^64, an int of a task's loop one below
-- 2^31. The loop over chunks of n indices has n for its fuel: each round goes on by at least one, so no
-- round is cut off. The two loops of HP_ThreadPool have fuel, and some number of rounds is enough. The
-- pool's loops are relations between states, without fuel.
--
-- Outside the model: the vendored pools, queues, oneTBB and Taskflow. What the program relies on of them is
-- assumed by name: Tbb.IsTbb, Runners.Parallel.IsLoops, and Runners.Polling.IsPollingPool for
-- hp_threadpool.h. Of output, the tables and the lines of the profiler's metrics file are modelled, and not
-- the time stamps before them. The binding of a thread to its core is a call of the system: the model has the
-- choice of the core. The arithmetic and the text of doubles (Harness.Doubles), the steady clock (for
-- LatencyTests.h as a function of how often it was read), what a test does to the world and the draws of
-- random generators are arguments. std::sort leaves the order of equal scores open, and the model keeps
-- the order in which they came.
pub mod Base
pub mod Queue
pub mod Pool
pub mod Ranges
pub mod Tbb
pub mod Wrapper
pub mod Runners
pub mod Harness
pub mod Workloads
pub mod Contention
pub mod Slots
pub mod Waves
pub mod Profiler
pub mod LatencyTests
pub mod Main
