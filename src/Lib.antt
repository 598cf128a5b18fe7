-- ===== src/Lib.antt =====
-- ufsrvrxlib: a task scheduler, cancellation tokens, and futures with promises, in C. A scheduler is one
-- worker thread with a lock-free queue of jobs and an event descriptor that wakes it; a pool spreads jobs
-- over several. A future holds continuations and waiters until its promise, or a cancelled token, completes
-- it; waiters are resumed through a scheduler, and a token that is attached to a future completes it
-- through a registered callback.
--
-- Which file models what:
--   Scheduler.antt              src/ufsrv_scheduler/ufsrv_scheduler.c and ufsrv_scheduler_priv.h, one
--                               scheduler: Create, Start, Submit, Stop, Join, Destroy, IsWorkerThread
--   Scheduler/Queue.antt        uflib's MPSC queue, a parameter with its laws
--   Scheduler/Worker.antt       sWorkerMain beside submitting and stopping threads, as a step relation:
--                               `next_at` is the worker's next action, `Step` one action of any thread
--   Scheduler/Order, Wakeup, Rest, Drain   theorems on these
--   Scheduler/Serve.antt        the abstract server of the refinement, with its theorem
--   Scheduler/Pool.antt         the functions UfsrvSchedulerPool*; Pool/Lifecycle, Pool/Start and
--                               Pool/Share theorems on them
--   Scheduler/Describe.antt     DescribeScheduler over a parameter for uflib's buffer; Describe/Json and
--                               Describe/Document theorems on it
--   Scheduler/Names.antt        ListSchedulerWorkers; Names/Slab theorems on it
--   Cancellation.antt           src/ufsrv_cancellation/ufsrv_cancellation.c and its _priv.h, over the heap of
--                               Cancellation/Heap; Chain says what a token's list holds; Register,
--                               Cancel, Reclaim, Withdraw and Inner are theorems
--   Cancellation/Race.antt      registrations, Unregister and Cancel on one token, by any number of threads,
--                               as a step relation: `cancel_at` is Cancel's next action, `TokenAct` one
--                               action of any thread; Race/Heard, Counted and Ends are theorems
--   Future.antt                 src/ufsrv_future/ufsrv_future.c and its _priv.h: completion, continuations and
--                               waiters, then, over the heap of Future/Heap, with uflib's stack and the
--                               rest of the program as the parameters of Future/Interface; Pending and
--                               Detach say what a future that is not completed holds; Deliver, Awaited,
--                               Complete, Finish, Then, Fulfil, Ready and Release are theorems
--   Future/Promises.antt        promises, references, ready futures, the token of a future
--   Future/Combinators.antt     map, flatMap, onError and doOnSuccess; Combinators/Gather: all, any, zip;
--                               Combinators/Calls: what each continuation of the file does when called;
--                               Keep, Map, Move, Source, Pass, Handover, Derive, Abandon, Shortage,
--                               Denied, Leaked, Count and All are theorems
--   Future/Wait.antt            UfsrvFutureGet and GetWithCancellation; Wait/Wake, Answer, Blocking,
--                               Suspended, Cancelled and Refused are theorems
--   Future/Race.antt            sFutureComplete, sFutureThen and the waits on one future, by any number of
--                               threads, as a step relation: `complete_at` is the winner's next action,
--                               `Act` one action of any thread; Race/Flags, Phase, Answer, Once, Wakes,
--                               Returns and Ends are theorems
--   Coroutine.antt              src/ufsrv_coroutine/ufsrv_coroutine.c for one thread, over the heap of
--                               Coroutine/Heap, with libaco as a parameter; Roster says what the list of
--                               those that have not started holds; Unstarted, Create, Trampoline and
--                               Spawned are theorems
--   Base.antt                   Boolean tests, lists over the native numbers, C's int, texts; Base/Memory:
--                               addresses and heaps; Base/Linked: doubly linked lists in a heap, as tokens
--                               and threads keep them
--   Tests.antt                  the theorems at concrete inputs
--
-- How the code is read. A pointer that may be NULL is an Option, or an address with 0 for NULL where the
-- code follows it; what malloc, calloc, strdup, eventfd and pthread_create answer is an argument. An access
-- through NULL or to memory that is freed is `fault`, an access out of bounds `none`. A function of the
-- cancellation and future code is one thread's run of it; what lies between a lock and its unlock is atomic
-- there. What other threads do while a thread is blocked in `read`, or its coroutine has yielded, is an
-- argument of the wait, and happens at one point of it.
--
-- Threads. Three parts are modelled beside other threads: a scheduler's worker, the completion of one future
-- and the cancellation of one token. There each access to shared memory, or what lies between a lock and its
-- unlock, is one step, in a sequentially consistent order. In the second a call of a continuation is one
-- step: what it leaves of the result and of `is_consumed` is a parameter. A wait's token is a flag of the wait.
-- The second leaves out the cancellation handle, the nodes' reference counts, and a wait that gives up for
-- want of memory or of a registration; the third the token's own reference count.
--
-- Callbacks. Those of a token act on the rest of the program. The continuations that ufsrv_future.c
-- registers act on futures; those of the program's own act on the rest of the program only, as do the
-- functions that it hands to the combinators where a theorem says so. Outside a Cancel that runs the node,
-- unregistering a handle runs its release hook at once; a theorem that covers a completion inside one, too,
-- says that the hook runs at once or later.
--
-- Bounds and fuel. The round-robin counter wraps at 2 ^ 32; reference counts do not wrap. The loops over a
-- list in a heap take fuel, of which one more than the list is long is enough, and the drain of a queue takes
-- one more than its length. `fuel_for` bounds the actions of a worker that is left alone,
-- `budget` those of the thread that completes a future, and `budget_of` those of the one that cancels. The
-- fuel of `call_at` bounds how deep continuations of ufsrv_future.c call one another through further
-- futures; a map needs two levels.
--
-- Not modelled: what a coroutine does while it runs, a second read of an event descriptor after EINTR,
-- continuations of the program's own that act on futures, and uflib and libaco themselves.
pub mod Base
pub mod Cancellation
pub mod Coroutine
pub mod Future
pub mod Scheduler
pub mod Tests
