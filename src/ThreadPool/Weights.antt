-- ===== src/ThreadPool/Weights.antt =====
-- Sums over the threads of a pool.
use rbus.Base.{
  ℕ, zero, suc, ◌+◌, ◌<◌, ◌≡◌, refl, true, some, List, [], ◌∷◌, ◌++◌, get_elem?, set, arith,
  Bool-cases, inl, inr,
}
use rbus.ThreadPool.{
  Phase, starting, waiting, woken, expiring, running, remove_thread, signal, broadcast, has_waiting,
}

abbrev pub weigh : (Phase → ℕ) → List Phase → ℕ
weigh f [] = 0
weigh f (p ∷ threads) = f p + weigh f threads

-- It runs a task.
abbrev pub busy : Phase → ℕ
busy (running t) = 1
busy _ = 0

-- It has counted itself.
abbrev pub counted : Phase → ℕ
counted starting = 0
counted _ = 1

-- It will look at the queue.
abbrev pub active : Phase → ℕ
active starting = 1
active (running t) = 1
active woken = 1
active _ = 0

abbrev pub timed_out : Phase → ℕ
timed_out expiring = 1
timed_out _ = 0

pub weigh-append : (f : Phase → ℕ) (a b : List Phase) → weigh f (a ++ b) ≡ weigh f a + weigh f b
weigh-append f [] b = omega arith
weigh-append f (p ∷ a) b = omega (arith, weigh-append f a b)

pub weigh-set :
    (f : Phase → ℕ) (threads : List Phase) (k : ℕ) (p q : Phase)
    → get_elem? threads k ≡ some p
    → weigh f (set threads k q) + f p ≡ weigh f threads + f q
weigh-set f [] k p q h = cc
weigh-set f (x ∷ threads) zero p q h = ground (arith, h)
weigh-set f (x ∷ threads) (suc k) p q h = omega (arith, weigh-set f threads k p q h)

pub weigh-remove_thread :
    (f : Phase → ℕ) (threads : List Phase) (k : ℕ) (p : Phase)
    → get_elem? threads k ≡ some p
    → weigh f (remove_thread threads k) + f p ≡ weigh f threads
unfolding remove_thread
weigh-remove_thread f [] k p h = cc
weigh-remove_thread f (x ∷ threads) zero p h = ground (arith, h)
weigh-remove_thread f (x ∷ threads) (suc k) p h = omega (arith, weigh-remove_thread f threads k p h)

-- A weight that does not tell woken threads from waiting ones.
pub weigh-signal :
    (f : Phase → ℕ) (threads : List Phase) (i : ℕ)
    → f woken ≡ f waiting
    → weigh f (signal threads i) ≡ weigh f threads
unfolding signal
weigh-signal f [] i e = refl
weigh-signal f (waiting ∷ threads) zero e = omega (arith, e)
weigh-signal f (waiting ∷ threads) (suc i) e = elim (Bool-cases (has_waiting threads)) [
  | inl h ↦ rw h (omega (arith, weigh-signal f threads i e))
  | inr h ↦ rw h (omega (arith, e))
]
weigh-signal f (starting ∷ threads) i e = omega (arith, weigh-signal f threads i e)
weigh-signal f (woken ∷ threads) i e = omega (arith, weigh-signal f threads i e)
weigh-signal f (expiring ∷ threads) i e = omega (arith, weigh-signal f threads i e)
weigh-signal f (running t ∷ threads) i e = omega (arith, weigh-signal f threads i e)

pub weigh-broadcast :
    (f : Phase → ℕ) (threads : List Phase)
    → f woken ≡ f waiting
    → weigh f (broadcast threads) ≡ weigh f threads
unfolding broadcast
weigh-broadcast f [] e = refl
weigh-broadcast f (waiting ∷ threads) e = omega (arith, e, weigh-broadcast f threads e)
weigh-broadcast f (starting ∷ threads) e = omega (arith, weigh-broadcast f threads e)
weigh-broadcast f (woken ∷ threads) e = omega (arith, weigh-broadcast f threads e)
weigh-broadcast f (expiring ∷ threads) e = omega (arith, weigh-broadcast f threads e)
weigh-broadcast f (running t ∷ threads) e = omega (arith, weigh-broadcast f threads e)

has_waiting-signal :
    (threads : List Phase) (i : ℕ)
    → has_waiting threads ≡ true
    → 0 < weigh active (signal threads i)
unfolding signal has_waiting
has_waiting-signal [] i h = cc
has_waiting-signal (waiting ∷ threads) zero h = omega arith
has_waiting-signal (waiting ∷ threads) (suc i) h = elim (Bool-cases (has_waiting threads)) [
  | inl w ↦ rw w (omega (arith, has_waiting-signal threads i w))
  | inr w ↦ rw w (omega arith)
]
has_waiting-signal (starting ∷ threads) i h = omega arith
has_waiting-signal (woken ∷ threads) i h = omega arith
has_waiting-signal (expiring ∷ threads) i h = omega (arith, has_waiting-signal threads i h)
has_waiting-signal (running t ∷ threads) i h = omega arith

-- Where a thread is neither active nor timed out, it waits, and a signal wakes it.
pub active-signal :
    (threads : List Phase) (i : ℕ)
    → weigh timed_out threads ≡ 0
    → weigh busy threads < weigh counted threads
    → 0 < weigh active (signal threads i)
unfolding signal
active-signal [] i e h = absurd (omega arith)
active-signal (waiting ∷ threads) zero e h = omega arith
active-signal (waiting ∷ threads) (suc i) e h = elim (Bool-cases (has_waiting threads)) [
  | inl w ↦ rw w (omega (arith, has_waiting-signal threads i w))
  | inr w ↦ rw w (omega arith)
]
active-signal (starting ∷ threads) i e h = omega arith
active-signal (woken ∷ threads) i e h = omega arith
active-signal (expiring ∷ threads) i e h = absurd (omega arith)
active-signal (running t ∷ threads) i e h = omega arith
