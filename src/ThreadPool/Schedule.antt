-- ===== src/ThreadPool/Schedule.antt =====
-- The pool's threads and its callers in any order.
use rbus.Base.{ℕ, ◌<◌, ◌≡◌, Bool, true, Option, none, some, get_elem?, set, >>=-eq-some}
use rbus.ThreadPool.{
  Phase, waiting, woken, expiring, System, create, run_task, worker_step, resume, stop_all_thread,
  shut_down, check_destroy, real_destroy,
}

-- A thread that waits is woken, also without a signal, or its wait times out.
unfoldable pub end_wait : System → ℕ → Phase → System
end_wait s k p = record s { pool = record s.pool { thread_list = set s.pool.thread_list k p } }

-- One step of the pool; waits time out only where `expiry` says that they may.
pub data Step (expiry : Bool) : System → System → Type 0 where
  -- rtThreadPool_RunTask
  submits : (s : System) (t i : ℕ) → Step expiry s (run_task s t i).1
  -- The thread at an index goes on.
  works : (s s' : System) (k : ℕ) → worker_step s k ≡ some s' → Step expiry s s'
  wakes :
      (s : System) (k : ℕ)
      → get_elem? s.pool.thread_list k ≡ some waiting
      → Step expiry s (end_wait s k woken)
  times_out :
      (s : System) (k : ℕ)
      → expiry ≡ true
      → get_elem? s.pool.thread_list k ≡ some waiting
      → Step expiry s (end_wait s k expiring)
  -- rtThreadPool_StopAllThread: with a negative time it first waits until no thread is busy.
  stops :
      (s : System) (forever : Bool)
      → (forever ≡ true → s.pool.busy_thread_count ≡ 0)
      → Step expiry s (stop_all_thread s).1
  -- The rest of rtThreadPool_Destroy, and rtThreadPool_TryRealDestroy.
  shuts_down : (s : System) → Step expiry s (shut_down s)
  checks : (s : System) → 0 < s.checks → Step expiry s (check_destroy s)
  frees : (s : System) → 0 < s.frees → Step expiry s (real_destroy s)

pub data Reached (max_thread_count : ℕ) (expiry : Bool) : System → Type 0 where
  created : Reached max_thread_count expiry (create max_thread_count)
  later :
      {s s' : System}
      → Reached max_thread_count expiry s
      → Step expiry s s'
      → Reached max_thread_count expiry s'

abbrev pub Leaves : (System → Type 0) → Option System → Type 0
Leaves P none = Unit
Leaves P (some s) = P s

-- A step of a thread is one from its phase.
pub worker_step-elim :
    (P : System → Type 0) (s s' : System) (k : ℕ)
    → worker_step s k ≡ some s'
    → ((p : Phase) → get_elem? s.pool.thread_list k ≡ some p → Leaves P (resume s k p))
    → P s'
unfolding worker_step
worker_step-elim P s s' k e h =
    let (p, g, r) = >>=-eq-some (get_elem? s.pool.thread_list k) (resume s k) e in
    let l = h p g in rw r at l
