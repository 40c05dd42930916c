-- ===== src/ThreadPool/Clock.antt =====
-- timeAddMS and timeGetElapsed of src/rtmessage/rtThreadPool.c, for times that are not negative and a
-- clock that does not go back.
use rbus.Base.{ℕ, ◌+◌, ◌-◌, ◌*◌, ◌/◌, ◌%◌, ◌<◌, ◌≡◌, if◌then◌else◌, leb, arith, ◌∙◌, refl, ◌^◌}
use rbus.Base.Int.{ℤ, pos, signed}

-- The conversion of a long to an int keeps its low 32 bits.
abbrev pub int_of_long : ℕ → ℤ
int_of_long n = signed 32 (n % 2 ^ 32)

-- struct timespec
pub record Timespec : Type 0 where
  pub tv_sec : ℕ
  pub tv_nsec : ℕ

unfoldable pub time_add_ms : Timespec → ℕ → Timespec
time_add_ms ts ms =
    let sec = ts.tv_sec + ms / 1000 in
    let nsec = ts.tv_nsec + ms % 1000 * 1000000 in
    if leb 1000000000 nsec
    then record { tv_sec = sec + 1; tv_nsec = nsec - 1000000000 }
    else record { tv_sec = sec; tv_nsec = nsec }

-- The milliseconds from the start to `now`, which are computed as a long and returned as an int. In the
-- second case the nanoseconds are not divided.
unfoldable pub time_get_elapsed : Timespec → Timespec → ℤ
time_get_elapsed start now =
    if leb start.tv_nsec now.tv_nsec
    then int_of_long ((now.tv_sec - start.tv_sec) * 1000 + (now.tv_nsec - start.tv_nsec) / 1000000)
    else int_of_long
        ((now.tv_sec - start.tv_sec - 1) * 1000 + (1000000000 + now.tv_nsec - start.tv_nsec))

-- The time in nanoseconds.
abbrev pub nanoseconds : Timespec → ℕ
nanoseconds ts = ts.tv_sec * 1000000000 + ts.tv_nsec

pub time_add_ms_lem :
    (ts : Timespec) (ms : ℕ)
    → ts.tv_nsec < 1000000000
    → (nanoseconds (time_add_ms ts ms) ≡ nanoseconds ts + ms * 1000000)
      × ((time_add_ms ts ms).tv_nsec < 1000000000)
unfolding time_add_ms
time_add_ms_lem ts ms h = ground arith

int_of_long-small : (n : ℕ) → n < 2147483648 → int_of_long n ≡ pos n
unfolding signed
int_of_long-small n h = ground arith

elapsed_long :
    (ts : Timespec) (ms : ℕ)
    → ts.tv_nsec < 1000000000
    → time_get_elapsed ts (time_add_ms ts ms) ≡ (
        if leb 1000000000 (ts.tv_nsec + ms % 1000 * 1000000)
        then int_of_long (ms + ms % 1000 * 999999)
        else int_of_long ms)
unfolding time_get_elapsed time_add_ms
elapsed_long ts ms h = ground arith

-- From a time to one that is some milliseconds later, an int, with a second part below 10^9 each,
-- timeGetElapsed gives these milliseconds where the second does not wrap around. Where it does, it
-- gives what is more by 999999 for each millisecond of the part of a second that has gone by, of
-- which the int keeps the low 32 bits.
pub time_get_elapsed-time_add_ms :
    (ts : Timespec) (ms : ℕ)
    → ts.tv_nsec < 1000000000
    → ms < 2147483648
    → time_get_elapsed ts (time_add_ms ts ms) ≡ (
        if leb 1000000000 (ts.tv_nsec + ms % 1000 * 1000000)
        then signed 32 ((ms + ms % 1000 * 999999) % 2 ^ 32)
        else pos ms)
time_get_elapsed-time_add_ms ts ms h k = elapsed_long ts ms h ∙ rw (int_of_long-small ms k) refl
