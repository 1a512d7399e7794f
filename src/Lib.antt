-- ===== src/Lib.antt =====
-- warlib: pipelines (a task queue with one thread each), a pool of them, and a logging library.
--
-- The parts and how they interact. A Pipeline owns a boost::asio io_context and one thread that runs
-- it; any thread may post tasks to it, at most `capacity_` of which may wait. A Threadpool holds
-- pipelines and gives out tasks in turn. Everything reports through the log: a LogEngine with
-- handlers, whose static level and filter decide at each log statement whether a message is made at
-- all. The WAR_CATCH macros turn exceptions into log lines, and keep them from ending a pipeline's
-- thread; the clean-up guard uses them in its destructor. Transaction, the map and property-tree
-- helpers, and the crash dumps of Windows stand on their own.
--
-- Which file models what:
--   Base           names of the libraries in use; lists, texts and bits over the native numbers.
--   Errors         core/include/warlib/error_handling.h: the exception classes by what they can be
--                  caught as, and the clauses of each WAR_CATCH macro; Errors/Catching. Errors/Asserts
--                  has the WAR_ASSERT macros, on the expressions that they are given, and
--                  Errors/Likely LIKELY and UNLIKELY of core/include/warlib/basics.h.
--   Task           task_t of core/include/warlib/basics.h. A task's function is known by what it does
--                  to its own pipeline: a script of calls that ends by a return or a throw.
--   Pipeline       core/include/warlib/WarPipeline.h and core/src/WarPipeline.cpp: the state, and one
--                  function for each of AddingTask, Post, ExecTask_, Dispatch, PostWithTimer, Close,
--                  PostSynchronously, PostWithPromise, OnTimer_ and the versions with a token.
--     Getters      IsClosed, IsClosing, GetCapacity, GetCount, GetId, GetName, operator <<.
--     Thread       tasks that call their pipeline, the handlers of the io_context, and Run.
--     Stable       what holds through a task if it holds through each primitive step; Stable/Moves.
--     Count, Post, Order, Fifo, Drained, Accounts, Sync, Loop, Closing, Shutdown, Token:
--                  theorems, by their subject; Accounts/Waiting, Accounts/Balance and Accounts/Moves.
--     Start        the constructor, the pinning of the thread, the destructor.
--     Timing       the timers of PostWithTimer over time; Timing/Delay.
--     Work         how much work a queue can still cause; Work/Adds, Work/Termination.
--     Phases       open, closing, closed; Phases/Runs.
--     Race         several threads in Post at once, each access to an atomic as one step;
--                  Race/Refusal has a schedule, Race/Closing threads in Close and Post,
--                  Race/Waiting a thread in PostSynchronously.
--   Network        several pipelines whose tasks call each other, from the same files: Post, Dispatch,
--                  PostSynchronously and Close, one call at a time. Ranked has the order of the
--                  pipelines and the invariant, Inv, Moves and Steps its proof by cases, Work and Ends
--                  the work that is left, Progress the theorems; Open and Draining are for tasks
--                  that never call Close; Matches and Calls compare the calls with those of Pipeline.
--   Threadpool     core/include/warlib/WarThreadpool.h and core/src/WarThreadpool.cpp; Rotation has
--                  GetAnyPipeline, Closing has Close, Shutdown the destructor, Naming the names of the
--                  workers, System the steps of a whole pool, System/Closed those
--                  of a pool that was closed; Race has many threads in Close and WaitUntilClosed, with
--                  Race/Phases and Race/Inv for the invariant, Race/Safety and Race/Finish.
--   ThreadName     SetThreadName of core/include/warlib/debug_helper.h.
--   Log            core/include/warlib/WarLog.h and core/src/WarLog.cpp.
--     Level        LogLevel, GetLevelName, GetLevelFromName.
--     Filter       LogAbout and WriteFilter.
--     Message      WriteMessage.
--     Output       WriteTimestamp, WriteDefaulInfo, Errno, Timer; Entry, Head and Clock have theorems,
--                  Platform has war_localtime of core/include/warlib/impl.h, the stream operators,
--                  core/include/warlib/filecheck.h and core/include/warlib/uuid.h.
--     Engine       LogEngine, its handlers, the log statements; Relevance, Delivery, Serving,
--                  History, Adding; Order has handlers added in another order; Concurrent has several
--                  threads in AddHandler and in log statements.
--     File         LogToFile and LogToStream; File/Contents; File/Splitting reads a file back, and
--                  File/Logged goes from log statements to the file.
--     FunctionCall LogFunctionCall.
--   Transaction    core/include/warlib/transaction.h.
--   CleanUp        core/include/warlib/WarCleanUp.h.
--   Helper         WarMapAddUnique of core/include/warlib/helper.h; Helper/Tree has
--                  core/include/warlib/boost_ptree_helper.h.
--   MiniDump       core/src/win/minidump.cpp.
--
-- How the code is read. An operation takes the state and gives the new state with its outcome: it
-- returned, it threw, or it waits for a promise. The io_context is a list of handlers; which of
-- them the thread takes next is an argument of each move, so that theorems over any list of moves
-- hold for every order. A move is a whole handler, or a whole call of another thread; what comes
-- between the accesses of several threads is modelled apart, in Pipeline/Race and
-- Threadpool/Race. A promise has a number, and a map from numbers says what it holds. `none`
-- stands for the -1 of an id or a CPU, and for what the source leaves undefined: a null
-- `instance_`, an index outside `pool_`. One LogEngine lives at a time, so that `this` of
-- AddHandler is `*instance_`. Log output is kept where a theorem speaks of it: the dismissals,
-- executions and caught exceptions of a pipeline are events, newest first. A mutex makes its
-- critical section one step.
--
-- Bounds. `size_t` is 64 bits wide (`word` of Pipeline), `unsigned` 32 (`unsigned_word`, and `word`
-- of Log/Filter); `count_` and the round-robin counter wrap round. Hexadecimal numbers are written
-- with a fuel of 8 digits, which is what 32 bits need. Tasks and scripts are finite data, so that
-- every run of a task ends by structural recursion.
--
-- What other code does is an argument: which CPU sets pthread_setaffinity_np takes, which files are
-- regular and can be opened, what get_value reads, what prctl keeps, what the Windows API answers.
--
-- Not modelled: boost::asio itself, coroutines beyond the completion of their token, references that
-- outlive what they refer to, the branches for Boost before 1.70, the log statements of pipelines
-- beyond their events, the macros and type names that only rename what the libraries have,
-- validate_filename_as_safe for Windows, which does not compile, and the tests.
pub mod Base
pub mod CleanUp
pub mod Errors
pub mod Helper
pub mod Log
pub mod MiniDump
pub mod Network
pub mod Pipeline
pub mod Task
pub mod ThreadName
pub mod Threadpool
pub mod Transaction
