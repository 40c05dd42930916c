-- ===== src/ThreadPool/Order.antt =====
-- The counts of a thread pool, and the order in which its tasks are started.
use rbus.Base.{
  if-elim, ℕ, ◌+◌, ◌-◌, ◌<◌, ◌≡◌, refl, sym, ap, ◌∙◌, Bool, some, List, [], ◌∷◌, ◌++◌, append_assoc,
  length, length-append, get_elem?, arith, ltb,
}
use rbus.ThreadPool.{
  PoolError, Phase, starting, waiting, woken, expiring, running, System, run_task, next_task, leave,
  deque_task, resume, stop_all_thread, shut_down, check_destroy, real_destroy,
}
use rbus.ThreadPool.Weights.{
  weigh, busy, counted, weigh-append, weigh-set, weigh-remove_thread, weigh-signal, weigh-broadcast,
}
use rbus.ThreadPool.Schedule.{
  Step, submits, works, wakes, times_out, stops, shuts_down, checks, frees, end_wait, Reached,
  created, later, Leaves, worker_step-elim,
}

-- The counts are those of the threads that run a task and that have entered the loop, and the tasks
-- were started in the order in which they were submitted.
abbrev pub IsConsistent : System → Type 0
IsConsistent s =
    (s.pool.busy_thread_count ≡ weigh busy s.pool.thread_list)
    × (s.pool.thread_count ≡ weigh counted s.pool.thread_list)
    × (s.submitted ≡ s.started ++ s.pool.task_list)
    × (length s.started ≡ s.pool.busy_thread_count + s.finished)

-- The same in front of next_task, for a thread in its former phase.
abbrev IsPrepared : System → Phase → Type 0
IsPrepared s p =
    (s.pool.busy_thread_count + busy p ≡ weigh busy s.pool.thread_list)
    × (s.pool.thread_count + counted p ≡ weigh counted s.pool.thread_list + 1)
    × (s.submitted ≡ s.started ++ s.pool.task_list)
    × (length s.started ≡ s.pool.busy_thread_count + s.finished)

leave-IsConsistent :
    (s : System) (k : ℕ) (p : Phase)
    → get_elem? s.pool.thread_list k ≡ some p
    → IsPrepared s p
    → IsConsistent (leave s k)
unfolding leave
leave-IsConsistent s k p g x =
    let b = weigh-remove_thread busy s.pool.thread_list k p g in
    let c = weigh-remove_thread counted s.pool.thread_list k p g in
    (omega (arith, b, x.0), omega (arith, c, x.1), x.2, x.3)

deque_task-IsConsistent :
    (s : System) (k : ℕ) (p : Phase) (tasks : List ℕ)
    → get_elem? s.pool.thread_list k ≡ some p
    → s.pool.task_list ≡ tasks
    → IsPrepared s p
    → IsConsistent (deque_task s k tasks)
unfolding deque_task
deque_task-IsConsistent s k p [] g e x =
    let b = weigh-set busy s.pool.thread_list k p waiting g in
    let c = weigh-set counted s.pool.thread_list k p waiting g in
    (omega (arith, b, x.0), omega (arith, c, x.1), x.2, x.3)
deque_task-IsConsistent s k p (t ∷ tasks) g e x =
    let b = weigh-set busy s.pool.thread_list k p (running t) g in
    let c = weigh-set counted s.pool.thread_list k p (running t) g in
    (
      omega (arith, b, x.0),
      omega (arith, c, x.1),
      x.2 ∙ ap (λ l. s.started ++ l) e ∙ sym (append_assoc s.started (t ∷ []) tasks),
      omega (arith, length-append s.started (t ∷ []), x.3),
    )

next_task-IsConsistent :
    (s : System) (k : ℕ) (p : Phase)
    → get_elem? s.pool.thread_list k ≡ some p
    → IsPrepared s p
    → IsConsistent (next_task s k)
unfolding next_task
next_task-IsConsistent s k p g x =
    if-elim IsConsistent s.pool.is_running _ _
      (λ e. deque_task-IsConsistent s k p s.pool.task_list g refl x)
      (λ e. leave-IsConsistent s k p g x)

-- A thread that runs a task is one of the busy ones.
weigh-running :
    (threads : List Phase) (k t : ℕ)
    → get_elem? threads k ≡ some (running t)
    → 0 < weigh busy threads
weigh-running threads k t g = omega (arith, weigh-set busy threads k (running t) waiting g)

resume-IsConsistent :
    (s : System) (k : ℕ) (p : Phase)
    → get_elem? s.pool.thread_list k ≡ some p
    → IsConsistent s
    → Leaves IsConsistent (resume s k p)
unfolding resume
resume-IsConsistent s k starting g x =
    next_task-IsConsistent
      (record s { pool = record s.pool { thread_count = s.pool.thread_count + 1 } }) k starting g
      (omega (arith, x.0), omega (arith, x.1), x.2, x.3)
resume-IsConsistent s k (running t) g x =
    let b = weigh-running s.pool.thread_list k t g in
    next_task-IsConsistent
      (record s {
        pool = record s.pool { busy_thread_count = s.pool.busy_thread_count - 1 };
        finished = s.finished + 1;
      })
      k (running t) g (omega (arith, x.0, b), omega (arith, x.1), x.2, omega (arith, x.0, x.3, b))
resume-IsConsistent s k woken g x =
    next_task-IsConsistent s k woken g (omega (arith, x.0), omega (arith, x.1), x.2, x.3)
resume-IsConsistent s k expiring g x =
    leave-IsConsistent s k expiring g (omega (arith, x.0), omega (arith, x.1), x.2, x.3)
resume-IsConsistent s k waiting g x = tt

run_task-IsConsistent : (s : System) (t i : ℕ) → IsConsistent s → IsConsistent (run_task s t i).1
unfolding run_task
run_task-IsConsistent s t i x =
    let o = ap (λ l. l ++ t ∷ []) x.2 ∙ append_assoc s.started s.pool.task_list (t ∷ []) in
    if-elim {A = PoolError × System} (λ o. IsConsistent o.1)
      (ltb s.pool.busy_thread_count s.pool.thread_count) _ _
      (λ e. (
        x.0 ∙ sym (weigh-signal busy s.pool.thread_list i refl),
        x.1 ∙ sym (weigh-signal counted s.pool.thread_list i refl),
        o,
        x.3,
      ))
      (λ e.
        if-elim {A = PoolError × System} (λ o. IsConsistent o.1)
          (ltb s.pool.thread_count s.pool.max_thread_count) _ _
          (λ e'. (
            omega (arith, x.0, weigh-append busy s.pool.thread_list (starting ∷ [])),
            omega (arith, x.1, weigh-append counted s.pool.thread_list (starting ∷ [])),
            o,
            x.3,
          ))
          (λ e'. (x.0, x.1, o, x.3)))

-- The end of a wait is no change of either count.
end_wait-IsConsistent :
    (s : System) (k : ℕ) (p : Phase)
    → busy p ≡ 0
    → counted p ≡ 1
    → get_elem? s.pool.thread_list k ≡ some waiting
    → IsConsistent s
    → IsConsistent (end_wait s k p)
unfolding end_wait
end_wait-IsConsistent s k p b c g x = (
  omega (arith, x.0, b, weigh-set busy s.pool.thread_list k waiting p g),
  omega (arith, x.1, c, weigh-set counted s.pool.thread_list k waiting p g),
  x.2,
  x.3,
)

Step-IsConsistent :
    (expiry : Bool) (s s' : System) → Step expiry s s' → IsConsistent s → IsConsistent s'
unfolding stop_all_thread shut_down check_destroy real_destroy
Step-IsConsistent expiry s s' (submits _ t i) x = run_task-IsConsistent s t i x
Step-IsConsistent expiry s s' (works _ _ k e) x =
    worker_step-elim IsConsistent s s' k e (λ p g. resume-IsConsistent s k p g x)
Step-IsConsistent expiry s s' (wakes _ k g) x = end_wait-IsConsistent s k woken refl refl g x
Step-IsConsistent expiry s s' (times_out _ k e g) x =
    end_wait-IsConsistent s k expiring refl refl g x
Step-IsConsistent expiry s s' (stops _ forever h) x = (
  x.0 ∙ sym (weigh-broadcast busy s.pool.thread_list refl),
  x.1 ∙ sym (weigh-broadcast counted s.pool.thread_list refl),
  x.2,
  x.3,
)
Step-IsConsistent expiry s s' (shuts_down _) x = x
Step-IsConsistent expiry s s' (checks _ h) x = x
Step-IsConsistent expiry s s' (frees _ h) x = x

-- In every state that a pool reaches, busy_thread_count and thread_count are the numbers of the
-- threads that run a task and that have entered their loop; the tasks that were submitted are those
-- that were started, in that order and each of them once, and behind them the queue; and every task
-- that was started is finished or runs.
pub Reached-IsConsistent :
    {max_thread_count : ℕ} {expiry : Bool} (s : System)
    → Reached max_thread_count expiry s
    → IsConsistent s
Reached-IsConsistent s created = (refl, refl, refl, refl)
Reached-IsConsistent {expiry} s (later {s = s₀} r k) =
    Step-IsConsistent expiry s₀ s k (Reached-IsConsistent s₀ r)
