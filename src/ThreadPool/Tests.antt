-- ===== src/ThreadPool/Tests.antt =====
-- Runs of a thread pool, and the theorems at concrete inputs.
use rbus.Base.{ℕ, ◌≡◌, refl, true, false, none, some, [], ◌∷◌, length, arith}
use rbus.ThreadPool.{
  starting, expiring, tasks_cancelled, System, create, run_task, worker_step, next_task, leave,
  deque_task, resume, stop_all_thread, shut_down, check_destroy, real_destroy, remove_thread,
  signal, broadcast, has_waiting,
}
use rbus.ThreadPool.Schedule.{end_wait, Reached, created, later, submits, works}
use rbus.ThreadPool.Order.{IsConsistent, Reached-IsConsistent}
use rbus.ThreadPool.Draining.{Advances, worker_step-Advances}
use rbus.Base.Int.{pos, signed}
use rbus.ThreadPool.Clock.{time_add_ms, time_get_elapsed, time_get_elapsed-time_add_ms}

-- A pool of one thread with a task, in front of the thread's first lock.
abbrev one_task : System
one_task = (run_task (create 1) 7 0).1

-- The step of the first thread, where it can go on.
abbrev go_on : System → System
go_on s = elim (worker_step s 0) [ none ↦ s | some s' ↦ s' ]

-- A thread counts itself only when it starts: before that, every task gets a thread.
too_many_threads_test : (run_task one_task 8 0).1.pool.thread_list ≡ starting ∷ starting ∷ []
unfolding run_task worker_step next_task leave deque_task resume stop_all_thread shut_down
    check_destroy real_destroy remove_thread signal broadcast has_waiting end_wait
too_many_threads_test = refl

-- With no busy thread and a task in the queue, stopping does not wait and cancels the task.
early_stop_test :
    (one_task.pool.busy_thread_count ≡ 0) × ((stop_all_thread one_task).0 ≡ tasks_cancelled)
unfolding run_task worker_step next_task leave deque_task resume stop_all_thread shut_down
    check_destroy real_destroy remove_thread signal broadcast has_waiting end_wait
early_stop_test = (refl, refl)

-- The only thread's wait has timed out when a task comes: the task stays without a thread.
abbrev idle : System
idle = go_on (go_on one_task)

lost_task_test :
    let s = go_on (run_task (end_wait idle 0 expiring) 8 0).1 in
    (s.pool.task_list ≡ 8 ∷ []) × (s.pool.thread_list ≡ []) × (s.pool.is_running ≡ true)
unfolding run_task worker_step next_task leave deque_task resume stop_all_thread shut_down
    check_destroy real_destroy remove_thread signal broadcast has_waiting end_wait
lost_task_test = (refl, refl, refl)

-- The pool is freed in front of the first lock of its thread.
early_free_test :
    let s = real_destroy (check_destroy (shut_down (stop_all_thread one_task).1)) in
    (s.is_freed ≡ true) × (s.pool.thread_list ≡ starting ∷ [])
unfolding run_task worker_step next_task leave deque_task resume stop_all_thread shut_down
    check_destroy real_destroy remove_thread signal broadcast has_waiting end_wait
early_free_test = (refl, refl)

-- The last thread and rtThreadPool_Destroy both find that the pool is to be freed.
double_free_test :
    (check_destroy (check_destroy (shut_down (go_on (stop_all_thread idle).1)))).frees ≡ 2
unfolding run_task worker_step next_task leave deque_task resume stop_all_thread shut_down
    check_destroy real_destroy remove_thread signal broadcast has_waiting end_wait
double_free_test = refl

one_task-Reached : Reached 1 false one_task
unfolding run_task worker_step next_task leave deque_task resume stop_all_thread shut_down
    check_destroy real_destroy remove_thread signal broadcast has_waiting end_wait
one_task-Reached = later created (submits (create 1) 7 0)

Reached-IsConsistent_example : IsConsistent (go_on one_task)
unfolding run_task worker_step next_task leave deque_task resume stop_all_thread shut_down
    check_destroy real_destroy remove_thread signal broadcast has_waiting end_wait
Reached-IsConsistent_example =
    Reached-IsConsistent (go_on one_task)
      (later one_task-Reached (works one_task (go_on one_task) 0 refl))

worker_step-Advances_example :
    ((k : ℕ) (s' : System) → worker_step one_task k ≡ some s' → Advances one_task s')
    × (((k : ℕ) → worker_step one_task k ≡ none) → one_task.finished ≡ length one_task.submitted)
unfolding run_task worker_step next_task leave deque_task resume stop_all_thread shut_down
    check_destroy real_destroy remove_thread signal broadcast has_waiting end_wait
worker_step-Advances_example = worker_step-Advances 1 one_task (omega arith) one_task-Reached refl

time_get_elapsed-time_add_ms_example :
    time_get_elapsed
      (record { tv_sec = 3; tv_nsec = 999000000 })
      (time_add_ms (record { tv_sec = 3; tv_nsec = 999000000 }) 5)
    ≡ pos 5000000
unfolding time_add_ms time_get_elapsed signed
time_get_elapsed-time_add_ms_example =
    time_get_elapsed-time_add_ms (record { tv_sec = 3; tv_nsec = 999000000 }) 5 (omega arith)
      (omega arith)
