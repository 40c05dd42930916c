-- ===== src/Time/Order.antt =====
-- How rtTime_Later, rtTime_Elapsed and rtTime_Compare fit together.
use rbus.Base.{ℕ, ◌^◌, ◌<◌, ◌≡◌, some, ◌==◌, if◌then◌else◌, arith}
use rbus.Base.Int.{pos, signed}
use rbus.Time.{Time, later, elapsed, compare_times, Sign, before, same, after, billion}

abbrev pub IsNormal : Time → Type 0
IsNormal t = t.nsec < billion

later-IsNormal : (now start : Time) (ms : ℕ) → IsNormal start → IsNormal (later now (some start) ms)
unfolding later
later-IsNormal now start ms h = ground arith

-- For `ms` below 2^31, a time `ms` milliseconds after a normal time is normal, `ms` milliseconds
-- have elapsed at it, and it compares as later exactly if `ms` is not 0.
pub elapsed-later :
    (now start : Time) (ms : ℕ)
    → IsNormal start
    → ms < 2 ^ 31
    → IsNormal (later now (some start) ms)
      × (elapsed now start (some (later now (some start) ms)) ≡ pos ms)
      × (compare_times now (some start) (some (later now (some start) ms))
          ≡ (if ms == 0 then same else before))
unfolding later elapsed compare_times signed
elapsed-later now start ms h fits = (later-IsNormal now start ms h, ground arith, ground arith)

abbrev pub flip : Sign → Sign
flip before = after
flip same = same
flip after = before

-- Times are totally ordered: comparing them the other way round flips the result, "before" is
-- transitive, and only equal times compare as the same.
pub compare_times_order :
    (now a b c : Time)
    → (compare_times now (some b) (some a) ≡ flip (compare_times now (some a) (some b)))
      × (compare_times now (some a) (some b) ≡ same → a ≡ b)
      × (compare_times now (some a) (some b) ≡ before
          → compare_times now (some b) (some c) ≡ before
          → compare_times now (some a) (some c) ≡ before)
unfolding compare_times
compare_times_order now a b c = (ground arith, λ h. ground arith, λ h k. ground arith)
