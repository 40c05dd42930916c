-- ===== src/ThreadPool/Maximum.antt =====
-- The number of threads that a pool is created with.
use rbus.Base.{ℕ, ◌+◌, ◌-◌, ◌≡◌, refl, Bool, List, [], ◌∷◌, if-elim, ltb}
use rbus.ThreadPool.{
  Phase, starting, waiting, woken, expiring, running, PoolError, System, run_task, next_task, leave,
  deque_task, resume, stop_all_thread, shut_down, check_destroy, real_destroy,
}
use rbus.ThreadPool.Schedule.{
  Step, submits, works, wakes, times_out, stops, shuts_down, checks, frees, end_wait, Reached,
  created, later, Leaves, worker_step-elim,
}

-- The maximum of the threads is the one that the pool was created with.
abbrev pub HasMax : ℕ → System → Type 0
HasMax n s = s.pool.max_thread_count ≡ n

next_task-HasMax : (n : ℕ) (s : System) (k : ℕ) → HasMax n s → HasMax n (next_task s k)
unfolding next_task leave deque_task
next_task-HasMax n s k x =
    if-elim (HasMax n) s.pool.is_running _ _ (λ e. queued s.pool.task_list) (λ e. x)
  where
    queued : (tasks : List ℕ) → HasMax n (deque_task s k tasks)
    queued [] = x
    queued (t ∷ tasks) = x

resume-HasMax :
    (n : ℕ) (s : System) (k : ℕ) (p : Phase) → HasMax n s → Leaves (HasMax n) (resume s k p)
unfolding resume leave
resume-HasMax n s k starting x =
    next_task-HasMax n
      (record s { pool = record s.pool { thread_count = s.pool.thread_count + 1 } }) k x
resume-HasMax n s k (running t) x =
    next_task-HasMax n
      (record s {
        pool = record s.pool { busy_thread_count = s.pool.busy_thread_count - 1 };
        finished = s.finished + 1;
      })
      k x
resume-HasMax n s k woken x = next_task-HasMax n s k x
resume-HasMax n s k expiring x = x
resume-HasMax n s k waiting x = tt

Step-HasMax : (n : ℕ) (expiry : Bool) (s s' : System) → Step expiry s s' → HasMax n s → HasMax n s'
unfolding run_task stop_all_thread shut_down check_destroy real_destroy end_wait
Step-HasMax n expiry s s' (submits _ t i) x =
    if-elim {A = PoolError × System} (λ o. HasMax n o.1)
      (ltb s.pool.busy_thread_count s.pool.thread_count) _ _ (λ e. x)
      (λ e.
        if-elim {A = PoolError × System} (λ o. HasMax n o.1)
          (ltb s.pool.thread_count s.pool.max_thread_count) _ _ (λ e'. x) (λ e'. x))
Step-HasMax n expiry s s' (works _ _ k e) x =
    worker_step-elim (HasMax n) s s' k e (λ p g. resume-HasMax n s k p x)
Step-HasMax n expiry s s' (wakes _ k g) x = x
Step-HasMax n expiry s s' (times_out _ k e g) x = x
Step-HasMax n expiry s s' (stops _ forever h) x = x
Step-HasMax n expiry s s' (shuts_down _) x = x
Step-HasMax n expiry s s' (checks _ h) x = x
Step-HasMax n expiry s s' (frees _ h) x = x

pub Reached-HasMax : (n : ℕ) (expiry : Bool) (s : System) → Reached n expiry s → HasMax n s
Reached-HasMax n expiry s created = refl
Reached-HasMax n expiry s (later {s = s₀} r k) =
    Step-HasMax n expiry s₀ s k (Reached-HasMax n expiry s₀ r)
