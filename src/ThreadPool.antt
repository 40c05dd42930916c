-- ===== src/ThreadPool.antt =====
-- src/rtmessage/rtThreadPool.c as steps of its threads. What a thread does from one lock of poolLock
-- to the unlock or the wait behind it is one step. Allocation and pthread_create succeed. A task is a
-- number, in place of its function and its data. Which waiting thread pthread_cond_signal wakes is an
-- argument, and so is the moment at which a wait times out, in place of the clock.
pub mod Weights
pub mod Schedule
pub mod Order
pub mod Maximum
pub mod Progress
pub mod Draining
pub mod Clock
mod Tests
use rbus.Base.{
  ℕ, zero, suc, ◌+◌, ◌-◌, Bool, true, false, ◌&&◌, Option, none, some, List, [], ◌∷◌, ◌++◌, ltb,
  ◌==◌, if◌then◌else◌, get_elem?, set, ◌>>=◌,
}

-- Where a thread stands in rtThread_WorkerThreadFunc: in front of its first lock, in its task, in
-- pthread_cond_timedwait, in there but woken, or in there but timed out.
pub data Phase : Type 0 where
  starting waiting woken expiring : Phase
  running : ℕ → Phase

-- _rtThreadPool; an entry of thread_list is a thread with its phase.
pub record ThreadPool : Type 0 where
  pub thread_list : List Phase
  pub task_list : List ℕ
  pub max_thread_count : ℕ
  pub thread_count : ℕ
  pub busy_thread_count : ℕ
  pub is_running : Bool
  pub is_shutdown : Bool

-- The pool with what goes on around it: how many threads are about to call
-- rtThreadPool_TryRealDestroy, how many have found there that the pool is to be freed, whether it has
-- been, and the history: the tasks that were submitted and that were started, in order, and the number
-- of those that were finished.
pub record System : Type 0 where
  pub pool : ThreadPool
  pub checks : ℕ
  pub frees : ℕ
  pub is_freed : Bool
  pub submitted : List ℕ
  pub started : List ℕ
  pub finished : ℕ

-- RT_OK and the codes of rtThreadPool.h.
pub data PoolError : Type 0 where
  ok task_pending tasks_cancelled : PoolError

-- rtThreadPool_Create
abbrev pub create : ℕ → System
create max_thread_count = record {
  pool = record {
    thread_list = [];
    task_list = [];
    max_thread_count = max_thread_count;
    thread_count = 0;
    busy_thread_count = 0;
    is_running = true;
    is_shutdown = false;
  };
  checks = 0;
  frees = 0;
  is_freed = false;
  submitted = [];
  started = [];
  finished = 0;
}

unfoldable pub remove_thread : List Phase → ℕ → List Phase
remove_thread [] k = []
remove_thread (p ∷ threads) zero = threads
remove_thread (p ∷ threads) (suc k) = p ∷ remove_thread threads k

abbrev pub is_waiting : Phase → Bool
is_waiting waiting = true
is_waiting _ = false

unfoldable pub has_waiting : List Phase → Bool
has_waiting [] = false
has_waiting (p ∷ threads) = let rest = has_waiting threads in if is_waiting p then true else rest

-- pthread_cond_signal: one of the waiting threads, if there is any.
unfoldable pub signal : List Phase → ℕ → List Phase
signal [] i = []
signal (waiting ∷ threads) zero = woken ∷ threads
signal (waiting ∷ threads) (suc i) =
    let rest = signal threads i in if has_waiting threads then waiting ∷ rest else woken ∷ threads
signal (p ∷ threads) i = p ∷ signal threads i

-- pthread_cond_broadcast
unfoldable pub broadcast : List Phase → List Phase
broadcast [] = []
broadcast (waiting ∷ threads) = woken ∷ broadcast threads
broadcast (p ∷ threads) = p ∷ broadcast threads

-- rtThread_WorkerThreadFunc behind its loop, for the thread at an index.
unfoldable pub leave : System → ℕ → System
leave s k = record s {
  pool = record s.pool {
    thread_count = s.pool.thread_count - 1;
    thread_list = remove_thread s.pool.thread_list k;
  };
  checks = s.checks + 1;
}

-- rtThread_DequeTask in a pool that runs, and the start of the task or the wait behind it.
unfoldable pub deque_task : System → ℕ → List ℕ → System
deque_task s k [] = record s {
  pool = record s.pool { thread_list = set s.pool.thread_list k waiting };
}
deque_task s k (t ∷ tasks) = record s {
  pool = record s.pool {
    task_list = tasks;
    busy_thread_count = s.pool.busy_thread_count + 1;
    thread_list = set s.pool.thread_list k (running t);
  };
  started = s.started ++ t ∷ [];
}

-- The loop of rtThread_WorkerThreadFunc, up to where it gives up the lock.
unfoldable pub next_task : System → ℕ → System
next_task s k = if s.pool.is_running then deque_task s k s.pool.task_list else leave s k

-- What a thread does from its phase on; `none` while it waits.
unfoldable pub resume : System → ℕ → Phase → Option System
resume s k starting =
    some
      (next_task (record s { pool = record s.pool { thread_count = s.pool.thread_count + 1 } }) k)
resume s k (running t) = some (
    next_task
      (record s {
        pool = record s.pool { busy_thread_count = s.pool.busy_thread_count - 1 };
        finished = s.finished + 1;
      })
      k)
resume s k woken = some (next_task s k)
resume s k expiring = some (leave s k)
resume s k waiting = none

-- rtThread_WorkerThreadFunc for the thread at an index.
unfoldable pub worker_step : System → ℕ → Option System
worker_step s k = do p ← get_elem? s.pool.thread_list k; resume s k p

-- rtThreadPool_CreateWorkerThread
abbrev pub create_worker_thread : ThreadPool → ThreadPool
create_worker_thread pool = record pool { thread_list = pool.thread_list ++ starting ∷ [] }

-- rtThreadPool_RunTask; the number chooses the thread that is woken.
unfoldable pub run_task : System → ℕ → ℕ → PoolError × System
run_task s t i =
    let pool = record s.pool { task_list = s.pool.task_list ++ t ∷ [] } in
    let s' = record s { submitted = s.submitted ++ t ∷ [] } in
    if ltb pool.busy_thread_count pool.thread_count
    then (ok, record s' { pool = record pool { thread_list = signal pool.thread_list i } })
    else if ltb pool.thread_count pool.max_thread_count
    then (ok, record s' { pool = create_worker_thread pool })
    else (task_pending, record s' { pool = pool })

abbrev pub cancelled : List ℕ → PoolError
cancelled [] = ok
cancelled (t ∷ tasks) = tasks_cancelled

-- rtThreadPool_StopAllThread behind its wait for the threads.
unfoldable pub stop_all_thread : System → PoolError × System
stop_all_thread s = (
  cancelled s.pool.task_list,
  record s {
    pool = record s.pool { is_running = false; thread_list = broadcast s.pool.thread_list };
  },
)

-- rtThreadPool_Destroy behind rtThreadPool_StopAllThread.
unfoldable pub shut_down : System → System
shut_down s = record s { pool = record s.pool { is_shutdown = true }; checks = s.checks + 1 }

-- rtThreadPool_TryRealDestroy, up to the unlock.
unfoldable pub check_destroy : System → System
check_destroy s = record s {
  checks = s.checks - 1;
  frees = if (s.pool.thread_count == 0) && s.pool.is_shutdown then s.frees + 1 else s.frees;
}

-- rtThreadPool_TryRealDestroy behind it.
unfoldable pub real_destroy : System → System
real_destroy s = record s { frees = s.frees - 1; is_freed = true }
