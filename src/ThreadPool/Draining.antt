-- ===== src/ThreadPool/Draining.antt =====
-- The threads of a pool finish what was submitted.
use rbus.Base.{
  ℕ, zero, suc, ◌+◌, ◌-◌, ◌*◌, ◌<◌, ◌≡◌, refl, ap, true, false, none, some, List, [], ◌∷◌, length,
  length-append, get_elem?, if-elim, arith,
}
use rbus.ThreadPool.{
  Phase, starting, waiting, woken, expiring, running, System, worker_step, next_task, leave,
  deque_task, resume,
}
use rbus.ThreadPool.Weights.{weigh, active, timed_out, weigh-set, weigh-remove_thread}
use rbus.ThreadPool.Schedule.{Reached, Leaves, worker_step-elim}
use rbus.ThreadPool.Order.{Reached-IsConsistent}
use rbus.ThreadPool.Progress.{Reached-HasWorker, busy-le-active}

-- What the threads still have to do.
abbrev pub potential : System → ℕ
potential s = 2 * length s.pool.task_list + weigh active s.pool.thread_list

-- A step that leaves less to do, and neither submits a task nor stops the pool.
abbrev pub Advances : System → System → Type 0
Advances s s' =
    (potential s' < potential s)
    × (s'.submitted ≡ s.submitted)
    × (s'.pool.is_running ≡ s.pool.is_running)

-- The thread in front of next_task counts as active.
next_task-Advances :
    (s : System) (k : ℕ) (p : Phase)
    → get_elem? s.pool.thread_list k ≡ some p
    → active p ≡ 1
    → Advances s (next_task s k)
unfolding next_task leave deque_task
next_task-Advances s k p g a =
    if-elim (Advances s) s.pool.is_running _ _ (λ e. queued s.pool.task_list refl)
      (λ e. (omega (arith, a, weigh-remove_thread active s.pool.thread_list k p g), refl, refl))
  where
    queued : (tasks : List ℕ) → s.pool.task_list ≡ tasks → Advances s (deque_task s k tasks)
    queued [] e = (omega (arith, a, weigh-set active s.pool.thread_list k p waiting g), refl, refl)
    queued (t ∷ tasks) e =
        let l = ap (λ (q : List ℕ). length q) e in
        (omega (arith, a, l, weigh-set active s.pool.thread_list k p (running t) g), refl, refl)

resume-Advances :
    (s : System) (k : ℕ) (p : Phase)
    → get_elem? s.pool.thread_list k ≡ some p
    → timed_out p ≡ 0
    → Leaves (Advances s) (resume s k p)
unfolding resume
resume-Advances s k starting g e =
    next_task-Advances
      (record s { pool = record s.pool { thread_count = s.pool.thread_count + 1 } }) k starting g
      refl
resume-Advances s k (running t) g e =
    next_task-Advances
      (record s {
        pool = record s.pool { busy_thread_count = s.pool.busy_thread_count - 1 };
        finished = s.finished + 1;
      })
      k (running t) g refl
resume-Advances s k woken g e = next_task-Advances s k woken g refl
resume-Advances s k expiring g e = absurd (omega (arith, e))
resume-Advances s k waiting g e = tt

none-active :
    (threads : List Phase)
    → ((k : ℕ) (p : Phase) → get_elem? threads k ≡ some p → active p ≡ 0)
    → weigh active threads ≡ 0
none-active [] h = refl
none-active (p ∷ threads) h = omega (arith, h 0 p refl, none-active threads (λ k. h (suc k)))

-- A thread that cannot go on is not active.
resume-none : (s : System) (k : ℕ) (p : Phase) → resume s k p ≡ none → active p ≡ 0
unfolding resume
resume-none s k starting e = cc
resume-none s k (running t) e = cc
resume-none s k woken e = cc
resume-none s k expiring e = refl
resume-none s k waiting e = refl

no_tasks : (m a : ℕ) → (0 < m → 0 < a) → a ≡ 0 → m ≡ 0
no_tasks zero a h e = refl
no_tasks (suc m) a h e = absurd (omega (arith, e, h (omega arith)))

-- Take a pool of at least one thread that runs, in a state that it reaches while no wait times out.
-- Then each step of a thread leaves less to do (two for a queued task and one for a thread that has to
-- look at the queue), submits no task and does not stop the pool; and where no thread can go on, every
-- task that was submitted is finished.
pub worker_step-Advances :
    (n : ℕ) (s : System)
    → 0 < n
    → Reached n false s
    → s.pool.is_running ≡ true
    → ((k : ℕ) (s' : System) → worker_step s k ≡ some s' → Advances s s')
      × (((k : ℕ) → worker_step s k ≡ none) → s.finished ≡ length s.submitted)
unfolding worker_step
worker_step-Advances n s h r e =
    let w = Reached-HasWorker n s h r in
    let c = Reached-IsConsistent s r in
    (
      (λ k s' d. worker_step-elim (Advances s) s s' k d (λ p g.
          resume-Advances s k p g
            (omega (arith, w.0, weigh-remove_thread timed_out s.pool.thread_list k p g)))),
      (λ stuck.
          let a =
            none-active s.pool.thread_list
              (λ k p g. let q = stuck k in resume-none s k p (rw g at q)) in
          let l = no_tasks (length s.pool.task_list) (weigh active s.pool.thread_list) (w.1 e) a in
          let t = ap (λ (q : List ℕ). length q) c.2 in
          omega (
            arith,
            a,
            l,
            t,
            c.0,
            c.3,
            busy-le-active s.pool.thread_list,
            length-append s.started s.pool.task_list,
          )),
    )
