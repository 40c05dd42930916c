-- ===== src/ThreadPool/Progress.antt =====
-- Tasks of a pool whose waits do not time out.
use rbus.Base.{
  ℕ, ◌+◌, ◌-◌, ◌<◌, ◌≤◌, ◌≡◌, refl, ap, ◌∙◌, true, false, some, List, [], ◌∷◌, length, get_elem?,
  if-elim, arith, ltb,
}
use rbus.ThreadPool.{
  Phase, starting, waiting, woken, expiring, running, PoolError, System, run_task, next_task, leave,
  deque_task, resume, stop_all_thread, shut_down, check_destroy, real_destroy,
}
use rbus.ThreadPool.Weights.{
  weigh, busy, active, timed_out, weigh-append, weigh-set, weigh-remove_thread, weigh-signal,
  weigh-broadcast, active-signal,
}
use rbus.ThreadPool.Schedule.{
  Step, submits, works, wakes, times_out, stops, shuts_down, checks, frees, end_wait, Reached,
  created, later, Leaves, worker_step-elim,
}
use rbus.ThreadPool.Order.{IsConsistent, Reached-IsConsistent}
use rbus.ThreadPool.Maximum.{Reached-HasMax}

-- No wait has timed out, and where the pool runs and tasks are queued, a thread will look at the
-- queue.
abbrev pub HasWorker : System → Type 0
HasWorker s =
    (weigh timed_out s.pool.thread_list ≡ 0)
    × (s.pool.is_running ≡ true → 0 < length s.pool.task_list → 0 < weigh active s.pool.thread_list)

leave-HasWorker :
    (s : System) (k : ℕ) (p : Phase)
    → s.pool.is_running ≡ false
    → get_elem? s.pool.thread_list k ≡ some p
    → HasWorker s
    → HasWorker (leave s k)
unfolding leave
leave-HasWorker s k p e g x =
    (omega (arith, x.0, weigh-remove_thread timed_out s.pool.thread_list k p g), λ h l. cc)

deque_task-HasWorker :
    (s : System) (k : ℕ) (p : Phase) (tasks : List ℕ)
    → get_elem? s.pool.thread_list k ≡ some p
    → s.pool.task_list ≡ tasks
    → HasWorker s
    → HasWorker (deque_task s k tasks)
unfolding deque_task
deque_task-HasWorker s k p [] g e x = (
  omega (arith, x.0, weigh-set timed_out s.pool.thread_list k p waiting g),
  λ h l. let e' = ap (λ (q : List ℕ). length q) e in omega (arith, e', l),
)
deque_task-HasWorker s k p (t ∷ tasks) g e x = (
  omega (arith, x.0, weigh-set timed_out s.pool.thread_list k p (running t) g),
  λ h l.
      let a = weigh-set active s.pool.thread_list k p (running t) g in
      omega (arith, a, weigh-remove_thread active s.pool.thread_list k p g),
)

next_task-HasWorker :
    (s : System) (k : ℕ) (p : Phase)
    → get_elem? s.pool.thread_list k ≡ some p
    → HasWorker s
    → HasWorker (next_task s k)
unfolding next_task
next_task-HasWorker s k p g x =
    if-elim HasWorker s.pool.is_running _ _
      (λ e. deque_task-HasWorker s k p s.pool.task_list g refl x) (λ e. leave-HasWorker s k p e g x)

resume-HasWorker :
    (s : System) (k : ℕ) (p : Phase)
    → get_elem? s.pool.thread_list k ≡ some p
    → HasWorker s
    → Leaves HasWorker (resume s k p)
unfolding resume
resume-HasWorker s k starting g x =
    next_task-HasWorker
      (record s { pool = record s.pool { thread_count = s.pool.thread_count + 1 } }) k starting g x
resume-HasWorker s k (running t) g x =
    next_task-HasWorker
      (record s {
        pool = record s.pool { busy_thread_count = s.pool.busy_thread_count - 1 };
        finished = s.finished + 1;
      })
      k (running t) g x
resume-HasWorker s k woken g x = next_task-HasWorker s k woken g x
resume-HasWorker s k expiring g x =
    absurd (omega (arith, x.0, weigh-remove_thread timed_out s.pool.thread_list k expiring g))
resume-HasWorker s k waiting g x = tt

-- A busy thread is an active one.
pub busy-le-active : (threads : List Phase) → weigh busy threads ≤ weigh active threads
busy-le-active [] = omega arith
busy-le-active (starting ∷ threads) = omega (arith, busy-le-active threads)
busy-le-active (waiting ∷ threads) = omega (arith, busy-le-active threads)
busy-le-active (woken ∷ threads) = omega (arith, busy-le-active threads)
busy-le-active (expiring ∷ threads) = omega (arith, busy-le-active threads)
busy-le-active (running t ∷ threads) = omega (arith, busy-le-active threads)

run_task-HasWorker :
    (s : System) (t i : ℕ)
    → 0 < s.pool.max_thread_count
    → IsConsistent s
    → HasWorker s
    → HasWorker (run_task s t i).1
unfolding run_task
run_task-HasWorker s t i m c x =
    if-elim {A = PoolError × System} (λ o. HasWorker o.1)
      (ltb s.pool.busy_thread_count s.pool.thread_count) _ _
      (λ e. (
        weigh-signal timed_out s.pool.thread_list i refl ∙ x.0,
        λ h l. active-signal s.pool.thread_list i x.0 (ground (arith, e, c.0, c.1)),
      ))
      (λ e.
        if-elim {A = PoolError × System} (λ o. HasWorker o.1)
          (ltb s.pool.thread_count s.pool.max_thread_count) _ _
          (λ e'. (
            omega (arith, x.0, weigh-append timed_out s.pool.thread_list (starting ∷ [])),
            λ h l. omega (arith, weigh-append active s.pool.thread_list (starting ∷ [])),
          ))
          (λ e'. (
            x.0,
            λ h l. let b = busy-le-active s.pool.thread_list in ground (arith, e, e', m, c.0, b),
          )))

Step-HasWorker :
    (s s' : System)
    → Step false s s'
    → 0 < s.pool.max_thread_count
    → IsConsistent s
    → HasWorker s
    → HasWorker s'
unfolding stop_all_thread shut_down check_destroy real_destroy end_wait
Step-HasWorker s s' (submits _ t i) m c x = run_task-HasWorker s t i m c x
Step-HasWorker s s' (works _ _ k e) m c x =
    worker_step-elim HasWorker s s' k e (λ p g. resume-HasWorker s k p g x)
Step-HasWorker s s' (wakes _ k g) m c x = (
  omega (arith, x.0, weigh-set timed_out s.pool.thread_list k waiting woken g),
  λ h l. omega (arith, weigh-set active s.pool.thread_list k waiting woken g),
)
Step-HasWorker s s' (times_out _ k e g) m c x = cc
Step-HasWorker s s' (stops _ forever h) m c x =
    (weigh-broadcast timed_out s.pool.thread_list refl ∙ x.0, λ h l. cc)
Step-HasWorker s s' (shuts_down _) m c x = x
Step-HasWorker s s' (checks _ h) m c x = x
Step-HasWorker s s' (frees _ h) m c x = x

pub Reached-HasWorker : (n : ℕ) (s : System) → 0 < n → Reached n false s → HasWorker s
Reached-HasWorker n s h created = (refl, λ e l. absurd (omega (arith, l)))
Reached-HasWorker n s h (later {s = s₀} r k) =
    let m : 0 < s₀.pool.max_thread_count = rw (Reached-HasMax n false s₀ r) h in
    Step-HasWorker s₀ s k m (Reached-IsConsistent s₀ r) (Reached-HasWorker n s₀ h r)
